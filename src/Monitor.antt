-- ===== src/Monitor.antt =====
-- `ParticipantInfo` and `ParticipantMonitor` (src/participant_monitor.h,
-- src/participant_monitor.cpp): what is known of the participants on the bus, and who is told. Each
-- sample is handled under the lock as a whole. The texts of a date come from the C library, and are
-- a parameter.
pub mod Identity
pub mod History
pub mod Setup
use open_ddw.Base.{
  ℕ, ◌+◌, ◌*◌, ◌/◌, ◌%◌, Bool, true, false, Option, none, some, List, [], ◌∷◌, ◌++◌, if◌then◌else◌,
  is_some,
}
use open_ddw.Base.Text.{Text}
use open_ddw.Base.Dict.{Dict, lookup, insert, erase}
use open_ddw.Base.Decimal.{to_string}
use open_ddw.Monitor.Identity.{host_id, app_id, instance_id, identity}

pub record ParticipantInfo : Type 0 where
  pub guid : Text
  pub location : Text
  pub host_id : Text
  pub app_id : Text
  pub instance_id : Text
  pub discovered_timestamp : Text

-- What is known at the first sample with a key.
abbrev pub new_info : List ℕ → ParticipantInfo
new_info key = record {
  guid = identity key;
  location = [];
  host_id = host_id key;
  app_id = app_id key;
  instance_id = instance_id key;
  discovered_timestamp = [];
}

-- The bytes of a key are the GUID. The time stamp is of the source, with seconds from 0 on.
pub record ParticipantSample : Type 0 where
  pub key : List ℕ
  pub valid_data : Bool
  pub sec : ℕ
  pub nanosec : ℕ

-- The two flags are the tests of the bits LOCATION_LOCAL and LOCATION_LOCAL6.
pub record LocationSample : Type 0 where
  pub guid : List ℕ
  pub valid_data : Bool
  pub local : Bool
  pub local6 : Bool
  pub local_addr : Text
  pub local6_addr : Text

-- A call of a callback of the user.
pub data Notice : Type 0 where
  added removed : ParticipantInfo → Notice

-- `std::map<GUID_t, ParticipantInfo>`
abbrev pub InfoMap : Type 0
InfoMap = Dict ParticipantInfo

abbrev pub info_for : List ℕ → Option ParticipantInfo → ParticipantInfo
info_for key none = new_info key
info_for key (some info) = info

-- The time in milliseconds: the text of its second, the point that ends `%F %T.`, and the rest.
unfoldable pub timestamp : (ℕ → Text) → ℕ → ℕ → Text
timestamp put_time sec nanosec =
    let milliseconds = sec * 1000 + nanosec / 1000000 in
    put_time (milliseconds / 1000) ++ b'.' ∷ to_string (milliseconds % 1000)

unfoldable pub locate : LocationSample → ParticipantInfo → ParticipantInfo
locate s info =
    if s.local
    then record info { location = s.local_addr }
    else if s.local6
    then record info { location = s.local6_addr }
    else info

-- `m_info_map.erase(iter)`, where the key was found.
abbrev forget : List ℕ → Option ParticipantInfo → InfoMap → InfoMap
forget key none infos = infos
forget key (some info) infos = erase key infos

-- A callback that was not given is not called.
abbrev pub notify : Bool → Notice → List Notice
notify given notice = if given then notice ∷ [] else []

module _ (put_time : ℕ → Text) (add_participant remove_participant : Bool) where
  -- The body of the loop in `on_participant_data_available`.
  unfoldable pub participant_sample : ParticipantSample → InfoMap → List Notice × InfoMap
  unfolding timestamp
  participant_sample s infos =
      let iter = lookup s.key infos in
      let info = info_for s.key iter in
      if s.valid_data
      then (let info' = record info { discovered_timestamp = timestamp put_time s.sec s.nanosec } in
          (notify add_participant (added info'), insert s.key info' infos))
      else (notify remove_participant (removed info), forget s.key iter infos)

  -- The body of the loop in `on_participant_location_data_available`.
  unfoldable pub location_sample : LocationSample → InfoMap → List Notice × InfoMap
  unfolding locate
  location_sample s infos =
      let iter = lookup s.guid infos in
      let info = info_for s.guid iter in
      if s.valid_data
      then (let info' = locate s info in
          (notify add_participant (added info'), insert s.guid info' infos))
      else (notify remove_participant (removed info), forget s.guid iter infos)

  -- `narrowed` says whether `_narrow` gave a reader; the list is what `take` gave.
  unfoldable pub on_participant_data_available :
      Bool → List ParticipantSample → InfoMap → List Notice × InfoMap
  unfolding participant_sample
  on_participant_data_available false samples infos = ([], infos)
  on_participant_data_available true [] infos = ([], infos)
  on_participant_data_available true (s ∷ samples) infos =
      let (ns, infos₁) = participant_sample s infos in
      let (ns', infos₂) = on_participant_data_available true samples infos₁ in (ns ++ ns', infos₂)

  unfoldable pub on_participant_location_data_available :
      Bool → List LocationSample → InfoMap → List Notice × InfoMap
  unfolding location_sample
  on_participant_location_data_available false samples infos = ([], infos)
  on_participant_location_data_available true [] infos = ([], infos)
  on_participant_location_data_available true (s ∷ samples) infos =
      let (ns, infos₁) = location_sample s infos in
      let (ns', infos₂) = on_participant_location_data_available true samples infos₁ in
      (ns ++ ns', infos₂)
