-- ===== src/Monitor/Setup.antt =====
-- The constructor of `ParticipantMonitor` (src/participant_monitor.cpp) and its two listeners
-- (src/participant_monitor.h). What the built-in subscriber answers is an argument.
use open_ddw.Base.{ℕ, Bool, true, false, Option, none, some, List, [], ◌∷◌, ◌++◌}

pub data BuiltInTopic : Type 0 where
  participant_topic participant_location_topic : BuiltInTopic

-- The built-in readers, and which listener was set on which reader. Each listener is named by the
-- topic that it is for; the mask is DATA_AVAILABLE_STATUS.
pub record Watch : Type 0 where
  pub participant_datareader : Option ℕ
  pub participant_location_datareader : Option ℕ
  pub listening : List (ℕ × BuiltInTopic)

abbrev pub no_watch : Watch
no_watch = record {
  participant_datareader = none;
  participant_location_datareader = none;
  listening = [];
}

-- `has_subscriber`: `get_builtin_subscriber` is not nil. It returns at the first thing that is not
-- there.
unfoldable pub new_watch : Bool → (BuiltInTopic → Option ℕ) → Watch
new_watch false lookup_datareader = no_watch
new_watch true lookup_datareader = elim (lookup_datareader participant_topic) [
  | none ↦ no_watch
  | some p ↦
      let w = record no_watch {
        participant_datareader = some p;
        listening = (p, participant_topic) ∷ [];
      } in
      elim (lookup_datareader participant_location_topic) [
        | none ↦ w
        | some l ↦ record w {
          participant_location_datareader = some l;
          listening = w.listening ++ (l, participant_location_topic) ∷ [];
        }
      ]
]
