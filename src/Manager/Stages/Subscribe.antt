-- ===== src/Manager/Stages/Subscribe.antt =====
-- What creating a reader does to the stage of the topic.
use open_ddw.Base.{
  ℕ, ◌≡◌, refl, ◌∙◌, inl, inr, ap, subst, sym, ◌⊎◌, Bool, true, false, none, some, List, arith,
  is_some, is_empty, Bool-cases, Option-cases, if◌then◌else◌,
}
use open_ddw.Base.Text.{Text, same}
use open_ddw.Base.Dict.{insert, Dict, lookup-insert, contains}
use open_ddw.Dds.{
  Dds, done, create_datareader, create_contentfilteredtopic, domain_create_subscriber,
}
use open_ddw.Group.{TopicGroup}
use open_ddw.Manager.{Manager, slot, call, missing, null, found}
use open_ddw.Manager.Subscribe.{
  create_reader_for, subscribe_with, subscribe_in, create_subscriber, first_filter_name,
}
use open_ddw.Manager.Footprint.{Slot-cases}
use open_ddw.Manager.Stages.{
  stage, group_stage, stage_of, Gives, Subscribes, stage-put_group, Gives-eq, deref-Gives,
  Subscribes-refl,
}

contains-insert :
    (k j : Text) (r : ℕ) (rs : Dict ℕ)
    → contains k (insert j r rs) ≡ (if same k j then true else contains k rs)
contains-insert k j r rs = ground (arith, lookup-insert k j r rs)

-- Where the group has a topic: what `Subscribes` says, from the group's stage.
abbrev Ends : Text → Text → Text → TopicGroup → Bool → Manager → Type 0
Ends k name reader g b m' = Subscribes (same k reader) b (group_stage k g) (stage k name m')

module _ (d : Dds) (k : Text) where
  create_reader_for-Gives :
      (name reader : Text) (s target : ℕ) (g : TopicGroup) (m : Manager)
      → is_some g.topic ≡ true
      → Gives (Ends k name reader g) (create_reader_for d name reader s target g m)
  unfolding create_reader_for
  create_reader_for-Gives name reader s target g m t =
      let m₁ = call (create_datareader s (some target) g.data_reader_qos) m in
      elim (Option-cases (d.object m₁.calls)) [
        | inl e ↦ rw (e, create_reader_for) (stage-put_group k name g m₁)
        | inr (r, e) ↦
            rw (e, create_reader_for)
              (t, stage-put_group k name _ m₁ ∙ rw (contains-insert k reader r g.readers) refl)
      ]

  subscribe_with-Gives :
      (name reader filter : Text) (params : List Text) (t s : ℕ) (g : TopicGroup) (m : Manager)
      → is_some g.topic ≡ true
      → Gives (Ends k name reader g) (subscribe_with d name reader filter params t s g m)
  unfolding subscribe_with
  subscribe_with-Gives name reader filter params t s g m there =
      elim (Bool-cases (is_empty filter)) [
        | inl plain ↦ rw (plain, subscribe_with) (create_reader_for-Gives name reader s t g m there)
        | inr filtered ↦
            let event =
              create_contentfilteredtopic (first_filter_name name reader) (some t) filter params in
            let m₁ = call event m in
            rw (filtered, subscribe_with)
              (deref-Gives (Ends k name reader g) m.participant _
                (elim (Option-cases (d.object m₁.calls)) [
                  | inl e ↦ rw e (stage-put_group k name g m₁)
                  | inr (f, e) ↦ rw e (create_reader_for-Gives name reader s f _ m₁ there)
                ]))
      ]

  subscribe_in-Gives :
      (name reader filter : Text) (params : List Text) (t : ℕ) (g : TopicGroup) (m : Manager)
      → slot m name ≡ found g
      → is_some g.topic ≡ true
      → Gives (Ends k name reader g) (subscribe_in d name reader filter params t g m)
  unfolding subscribe_in slot
  subscribe_in-Gives name reader filter params t g m e there = elim (Option-cases g.subscriber) [
    | inr (s, made) ↦
        rw (subscribe_in, made) (subscribe_with-Gives name reader filter params t s g m there)
    | inl none_yet ↦
        let m₁ = call (domain_create_subscriber g.sub_qos) m in
        rw (subscribe_in, none_yet)
          (deref-Gives (Ends k name reader g) m.participant _
            (elim (Option-cases (d.object m₁.calls)) [
              | inl f ↦ rw f (ap (stage_of k) e)
              | inr (s, f) ↦ rw f (subscribe_with-Gives name reader filter params t s _ m₁ there)
            ]))
  ]

  -- What follows the choice of the topic's group.
  create_subscriber-found :
      (name reader filter : Text) (params : List Text) (m : Manager) (g : TopicGroup) (t : ℕ)
      → is_empty reader ≡ false
      → slot m name ≡ found g
      → g.topic ≡ some t
      → contains reader g.reader_listeners ≡ false
      → create_subscriber d name reader filter params m
        ≡ subscribe_in d name reader filter params t g m
  unfolding create_subscriber
  create_subscriber-found name reader filter params m g t named e topic fresh = ground arith

  abbrev IsRefused : Text → Text → Manager → Type 0
  IsRefused name reader m =
      (is_empty reader ≡ true)
      ⊎ ((slot m name ≡ missing)
          ⊎ ((slot m name ≡ null)
              ⊎ ((g : TopicGroup) × (slot m name ≡ found g)
                  × ((g.topic ≡ none) ⊎ (contains reader g.reader_listeners ≡ true)))))

  create_subscriber-refused :
      (name reader filter : Text) (params : List Text) (m : Manager)
      → IsRefused name reader m
      → create_subscriber d name reader filter params m ≡ done (false, m)
  unfolding create_subscriber
  create_subscriber-refused name reader filter params m (inl e) = ground arith
  create_subscriber-refused name reader filter params m (inr (inl e)) = ground arith
  create_subscriber-refused name reader filter params m (inr (inr (inl e))) = ground arith
  create_subscriber-refused name reader filter params m (inr (inr (inr (g, e, inl bare)))) =
      ground arith
  create_subscriber-refused name reader filter params m (inr (inr (inr (g, e, inr taken)))) =
      elim (Option-cases g.topic) [ inl bare ↦ ground arith | inr (t, there) ↦ ground arith ]

  abbrev SubscribesAt : Text → Text → Manager → Bool → Manager → Type 0
  SubscribesAt name reader m b m' = Subscribes (same k reader) b (stage k name m) (stage k name m')

  refused-Gives :
      (name reader filter : Text) (params : List Text) (m : Manager)
      → IsRefused name reader m
      → Gives (SubscribesAt name reader m) (create_subscriber d name reader filter params m)
  refused-Gives name reader filter params m why =
      Gives-eq (SubscribesAt name reader m) _ _
        (create_subscriber-refused name reader filter params m why)
        (Subscribes-refl (same k reader) (stage k name m))

  pub create_subscriber-Gives :
      (name reader filter : Text) (params : List Text) (m : Manager)
      → Gives (SubscribesAt name reader m) (create_subscriber d name reader filter params m)
  create_subscriber-Gives name reader filter params m = elim (Bool-cases (is_empty reader)) [
    | inl unnamed ↦ refused-Gives name reader filter params m (inl unnamed)
    | inr named ↦ elim (Slot-cases (slot m name)) [
      | inl e ↦ refused-Gives name reader filter params m (inr (inl e))
      | inr (inl e) ↦ refused-Gives name reader filter params m (inr (inr (inl e)))
      | inr (inr (g, e)) ↦ elim (Option-cases g.topic) [
        | inl bare ↦ refused-Gives name reader filter params m (inr (inr (inr (g, e, inl bare))))
        | inr (t, topic) ↦ elim (Bool-cases (contains reader g.reader_listeners)) [
          | inl taken ↦
              refused-Gives name reader filter params m (inr (inr (inr (g, e, inr taken))))
          | inr fresh ↦
              let there : is_some g.topic ≡ true = ground arith in
              Gives-eq (SubscribesAt name reader m) _ _
                (create_subscriber-found name reader filter params m g t named e topic fresh)
                (subst
                  (λ u.
                    Gives (λ b m'. Subscribes (same k reader) b u (stage k name m'))
                      (subscribe_in d name reader filter params t g m))
                  (sym (ap (stage_of k) e))
                  (subscribe_in-Gives name reader filter params t g m e there))
        ]
      ]
    ]
  ]
