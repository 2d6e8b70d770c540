-- ===== src/Logging/Logger.antt =====
-- oracle/pkg/logging/logger.go. The data of an entry is a text; encoding/json is a parameter; the output
-- takes every write. Levels are the numbers of Go's constants, none below DEBUG.
use evm_oracle.Base.{nat_eq}
use evm_oracle.Base.{
  ℕ, Option, List, String, Bytes, if◌then◌else◌, none, some, ◌==◌, ◌++◌, ltb, ◌∷◌, [],
}

abbrev pub debug_level : ℕ
debug_level = 0

abbrev pub info_level : ℕ
info_level = 1

abbrev pub warn_level : ℕ
warn_level = 2

abbrev pub error_level : ℕ
error_level = 3

-- LogLevel.String
unfoldable pub level_name : ℕ → String
level_name level =
    if level == debug_level
    then "DEBUG"
    else if level == info_level
    then "INFO"
    else if level == warn_level
    then "WARN"
    else if level == error_level
    then "ERROR"
    else "UNKNOWN"

pub record LogEntry : Type 0 where
  pub timestamp : ℕ
  pub level : String
  pub message : String
  pub module_name : String
  pub data_text : Option String

pub record Logger : Type 0 where
  pub level : ℕ
  pub output : Bytes
  pub module_name : String

unfoldable pub new_logger : ℕ → Bytes → String → Logger
new_logger level output name = record { level = level; output = output; module_name = name }

unfoldable pub write_entry : Option Bytes → Logger → Logger
write_entry none l = l
write_entry (some bytes) l = record l { output = l.output ++ (bytes ++ 10 ∷ []) }

unfoldable pub log : (LogEntry → Option Bytes) → ℕ → ℕ → String → Option String → Logger → Logger
unfolding level_name write_entry
log encode now level message text l =
    if ltb level l.level
    then l
    else write_entry
        (encode (record {
          timestamp = now;
          level = level_name level;
          message = message;
          module_name = l.module_name;
          data_text = text;
        }))
        l

-- data[0], if there is any
unfoldable pub first_text_of : List String → Option String
first_text_of [] = none
first_text_of (text ∷ rest) = some text

unfoldable pub debug : (LogEntry → Option Bytes) → ℕ → String → List String → Logger → Logger
debug encode now message texts = log encode now debug_level message (first_text_of texts)

unfoldable pub info : (LogEntry → Option Bytes) → ℕ → String → List String → Logger → Logger
info encode now message texts = log encode now info_level message (first_text_of texts)

unfoldable pub warn : (LogEntry → Option Bytes) → ℕ → String → List String → Logger → Logger
warn encode now message texts = log encode now warn_level message (first_text_of texts)

unfoldable pub error : (LogEntry → Option Bytes) → ℕ → String → List String → Logger → Logger
error encode now message texts = log encode now error_level message (first_text_of texts)
