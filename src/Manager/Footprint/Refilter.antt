-- ===== src/Manager/Footprint/Refilter.antt =====
-- `replaceFilter` and `SetWriterListenerHandler` (src/dds_manager.cpp), where they return.
use open_ddw.Base.{ℕ, ◌≡◌, subst, Option, none, some, [], ◌∷◌, inl, inr, Option-cases, Bool-cases}
use open_ddw.Base.Text.{Text, same}
use open_ddw.Base.Dict.{Dict, lookup, contains}
use open_ddw.Dds.{
  Dds, Outcome, done, null_dereference, ◌>>=◌, >>=-eq-done, stop_emitter, delete_contained_entities,
  delete_datareader,
}
use open_ddw.Dds.Status.{is_ok}
use open_ddw.Emitter.{Setup}
use open_ddw.Group.{TopicGroup}
use open_ddw.Manager.{Manager, found, slot, slot_of, call, get_reader, get_subscriber}
use open_ddw.Manager.Settings
use open_ddw.Manager.Settings.{group_at, handle_topic_writers}
use open_ddw.Manager.Filter.{stop_emitter_of, replace_reader, replace_filter}
use open_ddw.Manager.Footprint.{
  Footprint, Footprint-refl, Footprint-trans, Post-after, Post, put_group-Footprint, call-Footprint,
  found-Fits, Slot-cases, HasReader,
}
use open_ddw.Manager.Footprint.Settings.{second}
use open_ddw.Manager.Footprint.Calls.{asking-Post}

stop_emitter_of-Footprint :
    (d : Dds) (name reader : Text) (g : TopicGroup) (m : Manager)
    → slot m name ≡ found g
    → let (g₁, m₁) = stop_emitter_of d name reader g m in Footprint name m m₁
unfolding stop_emitter_of slot
stop_emitter_of-Footprint d name reader g m e = elim (Option-cases (lookup reader g.emitters)) [
  | inl none_yet ↦ rw (stop_emitter_of, none_yet) (Footprint-refl name m)
  | inr (x, there) ↦ elim (Bool-cases x.running) [
    | inr idle ↦ rw (stop_emitter_of, there, idle) (Footprint-refl name m)
    | inl runs ↦
        let m₁ = call (stop_emitter reader) m in
        rw (stop_emitter_of, there, runs)
          (Footprint-trans name m m₁ _ (call-Footprint name _ m)
            (put_group-Footprint name _ m₁ (found-Fits name g m e)))
  ]
]

replace_reader-Post :
    (d : Dds) (setup : Setup) (name reader filter : Text) (s r : ℕ) (g : TopicGroup) (m : Manager)
    → Post second name m (replace_reader d setup name reader filter s r g m)
unfolding replace_reader
replace_reader-Post d setup name reader filter s r g m =
    let m₁ = call (delete_contained_entities r) m in
    let m₂ = call (delete_datareader s r) m₁ in
    let f₁ = call-Footprint name (delete_contained_entities r) m in
    let f₂ = Footprint-trans name m m₁ m₂ f₁ (call-Footprint name (delete_datareader s r) m₁) in
    elim (Bool-cases (is_ok (d.code m₁.calls))) [
      | inr c ↦ rw (replace_reader, c) f₁
      | inl c ↦ elim (Bool-cases (is_ok (d.code m₂.calls))) [
        | inr c' ↦ rw (replace_reader, c, c') f₂
        | inl c' ↦ rw (replace_reader, c, c') tt
      ]
    ]

pub replace_filter-Post :
    (d : Dds) (setup : Setup) (name reader filter : Text) (m : Manager)
    → Post second name m (replace_filter d setup name reader filter m)
unfolding replace_filter group_at
replace_filter-Post d setup name [] filter m = Footprint-refl name m
replace_filter-Post d setup name (c ∷ cs) filter m =
    asking-Post name m (get_subscriber m name) _ λ subscriber. elim (Option-cases subscriber) [
      | inl e ↦ rw e (Footprint-refl name m)
      | inr (s, e) ↦ elim (Option-cases (get_reader m name (c ∷ cs))) [
        | inl absent ↦ rw (e, absent) (Footprint-refl name m)
        | inr (r, there) ↦
            rw (e, there)
              (elim (Slot-cases (slot m name)) [
                | inl u ↦ rw (group_at, u) tt
                | inr (inl u) ↦ rw (group_at, u) tt
                | inr (inr (g, u)) ↦
                    rw (group_at, u)
                      (elim (Bool-cases (contains (c ∷ cs) g.reader_listeners)) [
                        | inr unheard ↦ rw unheard (Footprint-refl name m)
                        | inl heard ↦
                            let (g₁, m₁) = stop_emitter_of d name (c ∷ cs) g m in
                            rw heard (
                              Post-after second name m m₁ _
                                (stop_emitter_of-Footprint d name (c ∷ cs) g m u)
                                (replace_reader-Post d setup name (c ∷ cs) filter s r g₁ m₁))
                      ])
              ])
      ]
    ]

handle_topic_writers-HasReader :
    (h : Option ℕ) (topic k : Text) (ts ts' : Dict (Option TopicGroup))
    → handle_topic_writers h ts ≡ done ts'
    → HasReader k (slot_of (lookup topic ts))
    → HasReader k (slot_of (lookup topic ts'))
unfolding handle_topic_writers lookup
handle_topic_writers-HasReader h topic k [] ts' e r = absurd r
handle_topic_writers-HasReader h topic k ((j, none) ∷ ts) ts' e r = absurd (cc)
handle_topic_writers-HasReader h topic k ((j, some g) ∷ ts) ts' e r =
    elim (Option-cases g.writer_listener) [
      | inl mute ↦
          let e' : ◌≡◌ {A = Outcome (Dict (Option TopicGroup))} null_dereference (done ts') =
            rw mute at e in
          absurd (cc)
      | inr (l, there) ↦
          let group = record g { writer_listener = some (record l { handler = h }) } in
          let e' : (handle_topic_writers h ts >>= λ us. done ((j, some group) ∷ us)) ≡ done ts' =
            rw there at e in
          let (us, e₁, e₂) = >>=-eq-done (handle_topic_writers h ts) _ e' in
          let eq : (j, some group) ∷ us ≡ ts' = cc in
          subst (λ x. HasReader k (slot_of (lookup topic x))) eq
            (elim (Bool-cases (same topic j)) [
              | inl hit ↦ rw hit (rw hit at r)
              | inr on ↦ rw on (handle_topic_writers-HasReader h topic k ts us e₁ (rw on at r))
            ])
    ]

pub set_writer_listener_handler-HasReader :
    (h : Option ℕ) (topic k : Text) (m m' : Manager)
    → Settings.set_writer_listener_handler h m ≡ done m'
    → HasReader k (slot m topic)
    → HasReader k (slot m' topic)
unfolding Settings.set_writer_listener_handler slot
set_writer_listener_handler-HasReader h topic k m m' e r =
    let (ts, e₁, e₂) = >>=-eq-done (handle_topic_writers h m.topics) _ e in
    let eq : record m { wl_handler = h; topics = ts } ≡ m' = cc in
    subst (λ x. HasReader k (slot x topic)) eq
      (handle_topic_writers-HasReader h topic k m.topics ts e₁ r)
