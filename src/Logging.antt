-- ===== src/Logging.antt =====
-- `ManagerAceCallback::log` and `SetACELogger` (src/dds_logging.cpp): which log records of ACE the message handler
-- gets, and as what. The text that `print` makes of a record is an argument.
use open_ddw.Base.{
  ℕ, ◌≡◌, refl, Bool, true, false, Option, none, some, [], ◌∷◌, ◌++◌, ◌==◌, arith, if◌then◌else◌,
}
use open_ddw.Base.Text.{Text}

-- The values of `ACE_Log_Priority` that the code names, and the others.
pub data Priority : Type 0 where
  lm_error lm_alert lm_critical lm_emergency lm_warning lm_info lm_notice : Priority
  other_priority : ℕ → Priority

-- `LogMessageType`
pub data LogMessageType : Type 0 where
  dds_error dds_warning dds_info : LogMessageType

abbrev pub message_type : Priority → Option LogMessageType
message_type lm_error = some dds_error
message_type lm_alert = some dds_error
message_type lm_critical = some dds_error
message_type lm_emergency = some dds_error
message_type lm_warning = some dds_warning
message_type lm_info = some dds_info
message_type lm_notice = some dds_info
message_type (other_priority n) = none

-- `line.erase(line.find('\n'))`, if there is one.
unfoldable pub first_line : Text → Text
first_line [] = []
first_line (c ∷ line) = let rest = first_line line in if c == 10 then [] else c ∷ rest

-- What the handler is called with, if it is called.
unfoldable pub log : Priority → Text → Option (LogMessageType × Text)
unfolding first_line
log priority printed = elim (message_type priority) [
  | none ↦ none
  | some type ↦ some (type, first_line printed)
]

-- What `ACE_LOG_MSG` is told: two of its flags and the callback, here by its handler.
pub record AceLog : Type 0 where
  pub msg_callback_flag : Bool
  pub stderr_flag : Bool
  pub msg_callback : Option ℕ

-- `SetACELogger`, for the message handler of that number.
unfoldable pub set_ace_logger : ℕ → AceLog → AceLog
set_ace_logger message_handler ace_log = record ace_log {
  msg_callback_flag = true;
  stderr_flag = false;
  msg_callback = some message_handler;
}

abbrev pub has_newline : Text → Bool
has_newline [] = false
has_newline (c ∷ t) = if c == 10 then true else has_newline t

first_line-has_newline : (t : Text) → has_newline (first_line t) ≡ false
unfolding first_line
first_line-has_newline [] = refl
first_line-has_newline (c ∷ t) = ground (arith, first_line-has_newline t)

first_line-newline : (xs ys : Text) → has_newline xs ≡ false → first_line (xs ++ 10 ∷ ys) ≡ xs
unfolding first_line
first_line-newline [] ys h = ground arith
first_line-newline (x ∷ xs) ys h = ground (arith, first_line-newline xs ys)

-- Of a record with a priority that is passed on, whatever it prints, the text that the handler gets
-- has no end of a line in it; and where it prints a line, the end of that line and whatever follows,
-- the handler gets that line.
log-first_line :
    (priority : Priority) (type : LogMessageType) (printed line more : Text)
    → message_type priority ≡ some type
    → has_newline line ≡ false
    → (log priority (line ++ 10 ∷ more) ≡ some (type, line))
      × ((sent : Text) × (log priority printed ≡ some (type, sent)) × (has_newline sent ≡ false))
unfolding log
log-first_line priority type printed line more known one_line = (
  rw (log, known, first_line-newline line more one_line) refl,
  (first_line printed, rw (log, known) refl, first_line-has_newline printed),
)
