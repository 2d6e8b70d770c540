-- ===== src/Logging/Lines.antt =====
-- What a logger has written after any calls.
use evm_oracle.Logging.Logger.{
  LogEntry, write_entry, debug, info, Logger, warn, error, log, level_name, first_text_of,
  debug_level, info_level, warn_level, error_level,
}
use evm_oracle.Base.{
  ℕ, String, Option, List, Bytes, [], if◌then◌else◌, ◌∷◌, leb, ◌++◌, ◌≡◌, some, sym, none, ◌∙◌,
  refl, arith,
}
use mathlib.Core.List.{append_assoc, append-nil}

pub data Severity : Type 0 where
  debugs informs warns errs : Severity

-- A call of Debug, Info, Warn or Error, with its time
pub record LogCall : Type 0 where
  pub severity : Severity
  pub at : ℕ
  pub message : String
  pub texts : List String

abbrev pub call : (LogEntry → Option Bytes) → Severity → LogCall → Logger → Logger
call encode debugs c = debug encode c.at c.message c.texts
call encode informs c = info encode c.at c.message c.texts
call encode warns c = warn encode c.at c.message c.texts
call encode errs c = error encode c.at c.message c.texts

unfoldable pub call_all : (LogEntry → Option Bytes) → List LogCall → Logger → Logger
call_all encode [] l = l
call_all encode (c ∷ cs) l = call_all encode cs (call encode c.severity c l)

abbrev rank : Severity → ℕ
rank debugs = 0
rank informs = 1
rank warns = 2
rank errs = 3

abbrev title : Severity → String
title debugs = "DEBUG"
title informs = "INFO"
title warns = "WARN"
title errs = "ERROR"

abbrev as_line : Option Bytes → Bytes
as_line none = []
as_line (some bytes) = bytes ++ 10 ∷ []

-- The line of a call that is at or above the level, and nothing for one below it
abbrev pub line_of : (LogEntry → Option Bytes) → ℕ → String → LogCall → Bytes
line_of encode level name c =
    if leb level (rank c.severity)
    then as_line (
        encode (record {
          timestamp = c.at;
          level = title c.severity;
          message = c.message;
          module_name = name;
          data_text = first_text_of c.texts;
        }))
    else []

abbrev pub lines_of : (LogEntry → Option Bytes) → ℕ → String → List LogCall → Bytes
lines_of encode level name [] = []
lines_of encode level name (c ∷ cs) = line_of encode level name c ++ lines_of encode level name cs

abbrev entry_of : ℕ → String → String → Option String → String → LogEntry
entry_of now level message text name = record {
  timestamp = now;
  level = level;
  message = message;
  module_name = name;
  data_text = text;
}

written-frame :
    (bytes : Option Bytes) (l : Logger)
    → ((write_entry bytes l).level ≡ l.level)
      × ((write_entry bytes l).module_name ≡ l.module_name)
      × ((write_entry bytes l).output ≡ l.output ++ as_line bytes)
unfolding write_entry
written-frame none l = (refl, refl, sym (append-nil l.output))
written-frame (some bytes) l = (refl, refl, refl)

-- What one call leaves
abbrev Wrote : (LogEntry → Option Bytes) → LogCall → Logger → Logger → Type 0
Wrote encode c l l' =
    (l'.level ≡ l.level)
    × (l'.module_name ≡ l.module_name)
    × (l'.output ≡ l.output ++ line_of encode l.level l.module_name c)

log-written :
    (encode : LogEntry → Option Bytes) (now level : ℕ) (message : String) (text : Option String)
    (l : Logger)
    → let l' = log encode now level message text l in
      (l'.level ≡ l.level)
      × (l'.module_name ≡ l.module_name)
      × (l'.output
          ≡ l.output
            ++ (if leb l.level level
                then as_line (encode (entry_of now (level_name level) message text l.module_name))
                else []))
unfolding log
log-written encode now level message text l = ground (
  arith,
  append-nil l.output,
  written-frame (encode (entry_of now (level_name level) message text l.module_name)) l,
)

call-Wrote :
    (encode : LogEntry → Option Bytes) (s : Severity) (c : LogCall) (l : Logger)
    → c.severity ≡ s
    → Wrote encode c l (call encode s c l)
unfolding debug info warn error level_name
call-Wrote encode debugs c l e =
    rw e (log-written encode c.at debug_level c.message (first_text_of c.texts) l)
call-Wrote encode informs c l e =
    rw e (log-written encode c.at info_level c.message (first_text_of c.texts) l)
call-Wrote encode warns c l e =
    rw e (log-written encode c.at warn_level c.message (first_text_of c.texts) l)
call-Wrote encode errs c l e =
    rw e (log-written encode c.at error_level c.message (first_text_of c.texts) l)

-- After any calls of Debug, Info, Warn and Error, the output has grown by one line for each call at or
-- above the logger's level whose entry encodes, in the order of the calls, and by nothing else; the entry
-- names the level of the call.
call_all-output :
    (encode : LogEntry → Option Bytes) (cs : List LogCall) (l : Logger)
    → (call_all encode cs l).output ≡ l.output ++ lines_of encode l.level l.module_name cs
unfolding call_all
call_all-output encode [] l = sym (append-nil l.output)
call_all-output encode (c ∷ cs) l =
    let (level, name, output) = call-Wrote encode c.severity c l refl in
    call_all-output encode cs (call encode c.severity c l)
    ∙ rw (level, name, output)
        (append_assoc l.output (line_of encode l.level l.module_name c)
          (lines_of encode l.level l.module_name cs))
