-- ===== src/Tests/Monitors.antt =====
-- Theorems on the participant monitor, applied to concrete samples.
use open_ddw.Base.{ℕ, ◌≡◌, refl, true, false, List, [], ◌∷◌, map, arith}
use open_ddw.Base.Text.{text}
use open_ddw.Base.Dict.{lookup}
use open_ddw.Base.Decimal.{to_string}
use open_ddw.Monitor.{ParticipantSample, LocationSample, InfoMap, new_info}
use open_ddw.Monitor.Identity.{hex_bytes, identity, byte_at, identity-injective}
use open_ddw.Monitor.History.{
  Batch, participants, locations, all_messages, follow, deliver_all, named, lookup-deliver_all,
}
use open_ddw.Monitor.History.Names.{named-deliver_all}

abbrev key : List ℕ
key = 1 ∷ 3 ∷ 192 ∷ 168 ∷ 0 ∷ 7 ∷ 18 ∷ 52 ∷ 0 ∷ 0 ∷ 0 ∷ 1 ∷ 0 ∷ 0 ∷ 1 ∷ 193 ∷ []

abbrev other_key : List ℕ
other_key = 1 ∷ 3 ∷ 192 ∷ 168 ∷ 0 ∷ 7 ∷ 18 ∷ 53 ∷ 0 ∷ 0 ∷ 0 ∷ 1 ∷ 0 ∷ 0 ∷ 1 ∷ 193 ∷ []

abbrev arrives : ParticipantSample
arrives = record { key = key; valid_data = true; sec = 1700000000; nanosec = 250000000 }

abbrev moves : LocationSample
moves = record {
  guid = other_key;
  valid_data = true;
  local = true;
  local6 = false;
  local_addr = text "192.168.0.1:7411";
  local6_addr = [];
}

abbrev leaves : ParticipantSample
leaves = record arrives { valid_data = false }

abbrev lost : LocationSample
lost = record moves { guid = key; valid_data = false }

abbrev batches : List Batch
batches =
    participants true (arrives ∷ [])
    ∷ locations true (moves ∷ [])
    ∷ participants true (leaves ∷ [])
    ∷ []

abbrev known : InfoMap
known = (key, new_info key) ∷ []

lookup-deliver_all_example :
    lookup key (deliver_all to_string true false batches []).1
    ≡ follow to_string key (all_messages batches) (lookup key [])
lookup-deliver_all_example = lookup-deliver_all to_string true false key batches []

named-deliver_all_example :
    map named (deliver_all to_string true true batches []).0
    ≡ (true, identity key) ∷ (true, identity other_key) ∷ (false, identity key) ∷ []
named-deliver_all_example = named-deliver_all to_string batches

-- Another entity of the first participant.
abbrev entity_key : List ℕ
entity_key = 1 ∷ 3 ∷ 192 ∷ 168 ∷ 0 ∷ 7 ∷ 18 ∷ 52 ∷ 0 ∷ 0 ∷ 0 ∷ 1 ∷ 0 ∷ 0 ∷ 4 ∷ 199 ∷ []

identity-injective_example : byte_at key 7 ≡ byte_at entity_key 7
unfolding hex_bytes byte_at
identity-injective_example =
    identity-injective key entity_key 7 (ground arith) (ground arith) (omega arith) refl
