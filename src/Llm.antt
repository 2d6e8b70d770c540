-- ===== src/Llm.antt =====
-- agent/llm: the client of the language model.
pub mod Client
pub mod Answers
mod Examples
