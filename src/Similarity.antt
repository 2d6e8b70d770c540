-- ===== src/Similarity.antt =====
-- oracle/pkg/similarity: cosine similarity and the clustering of responses.
pub mod Floats
pub mod Embeddings
pub mod Clusters
pub mod Partition
pub mod Selection
mod Examples
mod SelectionExamples
