-- ===== src/Monitor/History.antt =====
-- What the monitor knows after any batches of samples (src/participant_monitor.cpp).
pub mod Names
use mathlib.Core.List.{append_assoc}
use open_ddw.Base.{
  ℕ, ◌≡◌, refl, ◌∙◌, ap, Bool, true, false, Option, none, some, List, [], ◌∷◌, ◌++◌, map, arith,
  if◌then◌else◌, inl, inr, Bool-cases, Option-cases,
}
use open_ddw.Base.Text.{Text, same, same_eq}
use open_ddw.Base.Dict.{Dict, lookup, insert, erase, lookup-insert, lookup-erase}
use open_ddw.Monitor.Identity.{identity}
use open_ddw.Monitor.{
  ParticipantInfo, ParticipantSample, LocationSample, Notice, added, removed, InfoMap, new_info,
  info_for, forget, timestamp, locate, participant_sample, location_sample,
  on_participant_data_available, on_participant_location_data_available,
}

pub data Message : Type 0 where
  participant : ParticipantSample → Message
  location : LocationSample → Message

abbrev pub key_of : Message → List ℕ
key_of (participant s) = s.key
key_of (location s) = s.guid

abbrev pub is_valid : Message → Bool
is_valid (participant s) = s.valid_data
is_valid (location s) = s.valid_data

-- A call of one of the two handlers.
pub data Batch : Type 0 where
  participants : Bool → List ParticipantSample → Batch
  locations : Bool → List LocationSample → Batch

-- The samples that a call gets to see.
abbrev pub messages : Batch → List Message
messages (participants false samples) = []
messages (participants true samples) = map participant samples
messages (locations false samples) = []
messages (locations true samples) = map location samples

abbrev pub all_messages : List Batch → List Message
all_messages [] = []
all_messages (b ∷ bs) = messages b ++ all_messages bs

-- Whether a participant is there, and its text.
abbrev pub named : Notice → Bool × Text
named (added info) = (true, info.guid)
named (removed info) = (false, info.guid)

abbrev pub announced : Message → Bool × Text
announced m = (is_valid m, identity (key_of m))

lookup-forget :
    (key k : List ℕ) (infos : InfoMap)
    → lookup key (forget k (lookup k infos) infos) ≡ (if same key k then none else lookup key infos)
lookup-forget key k infos = elim (Option-cases (lookup k infos)) [
  | inl absent ↦ rw absent (ground arith)
  | inr (info, there) ↦ rw there (lookup-erase key k infos)
]

lookup-keep :
    (f : ParticipantInfo → ParticipantInfo) (key k : List ℕ) (infos : InfoMap)
    → lookup key (insert k (f (info_for k (lookup k infos))) infos)
      ≡ (if same key k then some (f (info_for key (lookup key infos))) else lookup key infos)
lookup-keep f key k infos = elim (Bool-cases (same key k)) [
  | inl hit ↦ rw (lookup-insert, hit, same_eq key k hit) refl
  | inr miss ↦ rw (lookup-insert, miss) refl
]

module _ (put_time : ℕ → Text) where
  -- What a valid sample tells.
  abbrev refresh : Message → ParticipantInfo → ParticipantInfo
  refresh (participant s) info = record info {
    discovered_timestamp = timestamp put_time s.sec s.nanosec;
  }
  refresh (location s) info = locate s info

  -- What is known of one participant, from its own samples alone.
  abbrev pub follow : List ℕ → List Message → Option ParticipantInfo → Option ParticipantInfo
  follow key [] known = known
  follow key (m ∷ ms) known = follow key ms (
      if same key (key_of m)
      then (if is_valid m then some (refresh m (info_for key known)) else none)
      else known)

  module _ (add_participant remove_participant : Bool) where
    unfoldable pub deliver : Batch → InfoMap → List Notice × InfoMap
    unfolding on_participant_data_available on_participant_location_data_available
    deliver (participants narrowed samples) infos =
        on_participant_data_available put_time add_participant remove_participant narrowed samples
          infos
    deliver (locations narrowed samples) infos =
        on_participant_location_data_available put_time add_participant remove_participant narrowed
          samples infos

    unfoldable pub deliver_all : List Batch → InfoMap → List Notice × InfoMap
    unfolding deliver
    deliver_all [] infos = ([], infos)
    deliver_all (b ∷ bs) infos =
        let (ns, infos₁) = deliver b infos in
        let (ns', infos₂) = deliver_all bs infos₁ in (ns ++ ns', infos₂)

    observe : Message → InfoMap → List Notice × InfoMap
    unfolding participant_sample location_sample
    observe (participant s) infos =
        participant_sample put_time add_participant remove_participant s infos
    observe (location s) infos = location_sample put_time add_participant remove_participant s infos

    observe_all : List Message → InfoMap → List Notice × InfoMap
    unfolding observe
    observe_all [] infos = ([], infos)
    observe_all (m ∷ ms) infos =
        let (ns, infos₁) = observe m infos in
        let (ns', infos₂) = observe_all ms infos₁ in (ns ++ ns', infos₂)

    participants-observe_all :
        (samples : List ParticipantSample) (infos : InfoMap)
        → on_participant_data_available put_time add_participant remove_participant true samples
            infos
          ≡ observe_all (map participant samples) infos
    unfolding on_participant_data_available observe_all
    participants-observe_all [] infos = refl
    participants-observe_all (s ∷ ss) infos = rw (participants-observe_all ss _) refl

    locations-observe_all :
        (samples : List LocationSample) (infos : InfoMap)
        → on_participant_location_data_available put_time add_participant remove_participant true
            samples infos
          ≡ observe_all (map location samples) infos
    unfolding on_participant_location_data_available observe_all
    locations-observe_all [] infos = refl
    locations-observe_all (s ∷ ss) infos = rw (locations-observe_all ss _) refl

    deliver-observe_all :
        (b : Batch) (infos : InfoMap) → deliver b infos ≡ observe_all (messages b) infos
    unfolding deliver observe_all
    deliver-observe_all (participants false ss) infos = refl
    deliver-observe_all (participants true ss) infos = participants-observe_all ss infos
    deliver-observe_all (locations false ss) infos = refl
    deliver-observe_all (locations true ss) infos = locations-observe_all ss infos

    lookup-observe :
        (key : List ℕ) (m : Message) (infos : InfoMap)
        → lookup key (observe m infos).1 ≡ follow key (m ∷ []) (lookup key infos)
    unfolding observe
    lookup-observe key (participant s) infos = elim (Bool-cases s.valid_data) [
      | inl valid ↦
          rw (participant_sample, valid) (lookup-keep (refresh (participant s)) key s.key infos)
      | inr gone ↦ rw (participant_sample, gone) (lookup-forget key s.key infos)
    ]
    lookup-observe key (location s) infos = elim (Bool-cases s.valid_data) [
      | inl valid ↦
          rw (location_sample, valid) (lookup-keep (refresh (location s)) key s.guid infos)
      | inr gone ↦ rw (location_sample, gone) (lookup-forget key s.guid infos)
    ]

    observe_all-append :
        (ms ms' : List Message) (infos : InfoMap)
        → observe_all (ms ++ ms') infos ≡ (
          (observe_all ms infos).0 ++ (observe_all ms' (observe_all ms infos).1).0,
          (observe_all ms' (observe_all ms infos).1).1,
        )
    unfolding observe_all
    observe_all-append [] ms' infos = refl
    observe_all-append (m ∷ ms) ms' infos =
        rw (observe_all-append ms ms' (observe m infos).1, append_assoc) refl

    deliver_all-observe_all :
        (bs : List Batch) (infos : InfoMap)
        → deliver_all bs infos ≡ observe_all (all_messages bs) infos
    unfolding deliver_all observe_all
    deliver_all-observe_all [] infos = refl
    deliver_all-observe_all (b ∷ bs) infos =
        rw (observe_all-append, deliver-observe_all, deliver_all-observe_all bs) refl

    lookup-observe_all :
        (key : List ℕ) (ms : List Message) (infos : InfoMap)
        → lookup key (observe_all ms infos).1 ≡ follow key ms (lookup key infos)
    unfolding observe_all
    lookup-observe_all key [] infos = refl
    lookup-observe_all key (m ∷ ms) infos =
        lookup-observe_all key ms (observe m infos).1
        ∙ ap (follow key ms) (lookup-observe key m infos)

    -- What the monitor knows of a participant, after any batches of samples of the two topics in
    -- any order, is what follows from what it knew of it before and that participant's own
    -- samples: its identity from its key, the time and the place from the valid samples, and
    -- nothing after a sample that is not valid, until the next valid one.
    pub lookup-deliver_all :
        (key : List ℕ) (bs : List Batch) (infos : InfoMap)
        → lookup key (deliver_all bs infos).1 ≡ follow key (all_messages bs) (lookup key infos)
    lookup-deliver_all key bs infos =
        rw (deliver_all-observe_all bs infos) (lookup-observe_all key (all_messages bs) infos)
