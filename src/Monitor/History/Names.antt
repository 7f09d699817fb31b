-- ===== src/Monitor/History/Names.antt =====
-- What the monitor has told after any batches of samples (src/participant_monitor.cpp).
use mathlib.Core.List.{map-append}
use open_ddw.Base.{
  ℕ, ◌≡◌, refl, ◌∙◌, true, false, Option, none, some, List, [], ◌∷◌, map, arith, inl, inr,
  Bool-cases,
}
use open_ddw.Base.Text.{Text, same, same_refl}
use open_ddw.Base.Dict.{lookup, lookup-erase}
use open_ddw.Monitor.Identity.{identity, hex_bytes}
use open_ddw.Monitor.{
  ParticipantInfo, ParticipantSample, LocationSample, removed, InfoMap, new_info, info_for, locate,
  participant_sample, location_sample,
}
use open_ddw.Monitor.History.{
  Message, participant, location, key_of, is_valid, Batch, participants, locations, all_messages,
  named, announced, refresh, follow, deliver_all, observe, observe_all, lookup-observe,
  deliver_all-observe_all,
}

module _ (put_time : ℕ → Text) where
  abbrev NamedAt : List ℕ → Option ParticipantInfo → Type 0
  NamedAt key none = Unit
  NamedAt key (some info) = info.guid ≡ identity key

  refresh-guid : (m : Message) (info : ParticipantInfo) → (refresh put_time m info).guid ≡ info.guid
  unfolding locate
  refresh-guid (participant s) info = refl
  refresh-guid (location s) info = ground arith

  info_for-guid :
      (key : List ℕ) (known : Option ParticipantInfo)
      → NamedAt key known
      → (info_for key known).guid ≡ identity key
  info_for-guid key none n = refl
  info_for-guid key (some info) n = n

  follow-NamedAt :
      (key : List ℕ) (ms : List Message) (known : Option ParticipantInfo)
      → NamedAt key known
      → NamedAt key (follow put_time key ms known)
  follow-NamedAt key [] known n = n
  follow-NamedAt key (m ∷ ms) known n =
      follow-NamedAt key ms _ (elim (Bool-cases (same key (key_of m))) [
        | inr other ↦ rw other n
        | inl own ↦ elim (Bool-cases (is_valid m)) [
          | inr gone ↦ rw (own, gone) tt
          | inl valid ↦
              rw (own, valid) (refresh-guid m (info_for key known) ∙ info_for-guid key known n)
        ]
      ])

  named-observe :
      (m : Message) (infos : InfoMap)
      → NamedAt (key_of m) (lookup (key_of m) infos)
      → map named (observe put_time true true m infos).0 ≡ announced m ∷ []
  unfolding observe
  named-observe (participant s) infos n = elim (Bool-cases s.valid_data) [
    | inl valid ↦ rw (participant_sample, valid, info_for-guid s.key _ n) refl
    | inr gone ↦ rw (participant_sample, gone, info_for-guid s.key _ n) refl
  ]
  named-observe (location s) infos n = elim (Bool-cases s.valid_data) [
    | inl valid ↦
        rw (location_sample, valid, refresh-guid (location s) _, info_for-guid s.guid _ n) refl
    | inr gone ↦ rw (location_sample, gone, info_for-guid s.guid _ n) refl
  ]

  named-observe_all :
      (ms : List Message) (infos : InfoMap)
      → ((key : List ℕ) → NamedAt key (lookup key infos))
      → map named (observe_all put_time true true ms infos).0 ≡ map announced ms
  unfolding observe_all
  named-observe_all [] infos n = refl
  named-observe_all (m ∷ ms) infos n =
      rw
        (
          map-append,
          named-observe m infos (n (key_of m)),
          named-observe_all ms (observe put_time true true m infos).1 (λ key.
              rw (lookup-observe put_time true true key m infos)
                (follow-NamedAt key (m ∷ []) (lookup key infos) (n key))),
        )
        refl

  -- With both callbacks given, any batches of samples to a new monitor lead to one call for each
  -- sample that its handler sees, in their order: of the callback for arrivals if the sample is
  -- valid, and of that for departures if not, each time with the text that the sample's own GUID has.
  pub named-deliver_all :
      (bs : List Batch)
      → map named (deliver_all put_time true true bs []).0 ≡ map announced (all_messages bs)
  unfolding lookup
  named-deliver_all bs =
      rw (deliver_all-observe_all put_time true true bs [])
        (named-observe_all (all_messages bs) [] (λ key. tt))

  -- A participant that the monitor knows, and that is then reported gone in both topics, is told to
  -- be removed twice: first with all that is known of it, then with its identity alone.
  removed_twice :
      (s : ParticipantSample) (l : LocationSample) (info : ParticipantInfo) (infos : InfoMap)
      → s.valid_data ≡ false
      → l.valid_data ≡ false
      → l.guid ≡ s.key
      → lookup s.key infos ≡ some info
      → (deliver_all put_time true true
          (participants true (s ∷ []) ∷ locations true (l ∷ []) ∷ [])
          infos).0
        ≡ removed info ∷ removed (new_info s.key) ∷ []
  unfolding observe_all hex_bytes
  removed_twice s l info infos gone lost own known =
      rw
        (
          deliver_all-observe_all, observe_all, observe, participant_sample, location_sample, gone,
          lost, own, known, lookup-erase, same_refl,
        )
        refl
