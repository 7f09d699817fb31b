-- ===== src/Manager/Stages/Publish.antt =====
-- What creating a publisher with its writer does to the stage of the topic.
use open_ddw.Base.{
  ℕ, ◌≡◌, refl, inl, inr, ap, subst, sym, ◌⊎◌, Bool, true, false, none, some, List, arith, is_some,
  Option-cases, if◌then◌else◌,
}
use open_ddw.Base.Text.{Text, same}
use open_ddw.Base.Dict.{contains}
use open_ddw.Dds.{
  Dds, Outcome, done, null_dereference, throws, terminates, ◌>>=◌, create_datawriter,
  domain_create_publisher,
}
use open_ddw.Group.{TopicGroup}
use open_ddw.Manager.{Manager, slot, call, missing, null, found}
use open_ddw.Manager.Subscribe.{create_subscriber}
use open_ddw.Manager.Publish.{
  create_writer_for, create_publisher_for, create_publisher, create_publisher_subscriber,
}
use open_ddw.Manager.Footprint.{Slot-cases}
use open_ddw.Manager.Stages.{
  Stage, absent, broken, stands, stage, group_stage, stage_of, Gives, Subscribes, Publishes,
  PublishesAndSubscribes, stage-put_group, Gives-eq, Gives-map, deref-Gives,
}
use open_ddw.Manager.Stages.Subscribe.{create_subscriber-Gives}

-- With a publisher, and a writer where it returned true.
Publishes-new :
    (b t p w r : Bool) (v : Stage)
    → t ≡ true
    → p ≡ false
    → v ≡ stands t true b r
    → Publishes b (stands t p w r) v
Publishes-new true t p w r v a c e = ground arith
Publishes-new false t p w r v a c e = inr (a, c, e)

Publishes-refl : (u : Stage) → Publishes false u u
Publishes-refl absent = (refl, refl)
Publishes-refl broken = (refl, refl)
Publishes-refl (stands t p w r) = inl refl

module _ (d : Dds) (k : Text) where
  create_writer_for-Gives :
      (name : Text) (g : TopicGroup) (p t : ℕ) (m : Manager)
      → Gives
          (λ b m'.
            stage k name m'
            ≡ stands (is_some g.topic) (is_some g.publisher) b (contains k g.readers))
          (create_writer_for d name g p t m)
  unfolding create_writer_for
  create_writer_for-Gives name g p t m =
      let m₁ = call (create_datawriter p t g.data_writer_qos) m in
      elim (Option-cases (d.object m₁.calls)) [
        | inl e ↦ rw (e, create_writer_for) (stage-put_group k name _ m₁)
        | inr (w, e) ↦ rw (e, create_writer_for) (stage-put_group k name _ m₁)
      ]

  create_publisher_for-Gives :
      (name : Text) (g : TopicGroup) (t : ℕ) (m : Manager)
      → slot m name ≡ found g
      → is_some g.topic ≡ true
      → is_some g.publisher ≡ false
      → Gives
          (λ b m'. Publishes b (group_stage k g) (stage k name m'))
          (create_publisher_for d name g t m)
  unfolding create_publisher_for slot
  create_publisher_for-Gives name g t m e there fresh =
      let m₁ = call (domain_create_publisher g.pub_qos) m in
      deref-Gives (λ b m'. Publishes b (group_stage k g) (stage k name m')) m.participant _
        (elim (Option-cases (d.object m₁.calls)) [
          | inl f ↦ rw f (inl (ap (stage_of k) e))
          | inr (p, f) ↦ rw f (
              Gives-map _ _ (create_writer_for d name (record g { publisher = some p }) p t m₁)
                (λ b m' h.
                  Publishes-new b (is_some g.topic) (is_some g.publisher) (is_some g.writer)
                    (contains k g.readers) (stage k name m') there fresh h)
                (create_writer_for-Gives name (record g { publisher = some p }) p t m₁))
        ])

  abbrev PublishesAt : Text → Manager → Bool → Manager → Type 0
  PublishesAt name m b m' = Publishes b (stage k name m) (stage k name m')

  create_publisher-found :
      (name : Text) (m : Manager) (g : TopicGroup) (t : ℕ)
      → slot m name ≡ found g
      → g.topic ≡ some t
      → g.publisher ≡ none
      → create_publisher d name m ≡ create_publisher_for d name g t m
  unfolding create_publisher
  create_publisher-found name m g t e there fresh = ground arith

  create_publisher-refused :
      (name : Text) (m : Manager)
      → (slot m name ≡ missing)
        ⊎ ((slot m name ≡ null) ⊎ ((g : TopicGroup) × (slot m name ≡ found g) × (g.topic ≡ none)))
      → create_publisher d name m ≡ done (false, m)
  unfolding create_publisher
  create_publisher-refused name m (inl e) = ground arith
  create_publisher-refused name m (inr (inl e)) = ground arith
  create_publisher-refused name m (inr (inr (g, e, bare))) = ground arith

  create_publisher-there :
      (name : Text) (m : Manager) (g : TopicGroup) (t p : ℕ)
      → slot m name ≡ found g
      → g.topic ≡ some t
      → g.publisher ≡ some p
      → create_publisher d name m ≡ done (true, m)
  unfolding create_publisher
  create_publisher-there name m g t p e topic there = ground arith

  Publishes-there :
      (g : TopicGroup) (t p : ℕ)
      → g.topic ≡ some t
      → g.publisher ≡ some p
      → Publishes true (group_stage k g) (group_stage k g)
  Publishes-there g t p topic there = ground arith

  pub create_publisher-Gives :
      (name : Text) (m : Manager) → Gives (PublishesAt name m) (create_publisher d name m)
  create_publisher-Gives name m =
      let P = PublishesAt name m in
      let same_stage = Publishes-refl (stage k name m) in
      elim (Slot-cases (slot m name)) [
        | inl e ↦ Gives-eq P _ _ (create_publisher-refused name m (inl e)) same_stage
        | inr (inl e) ↦ Gives-eq P _ _ (create_publisher-refused name m (inr (inl e))) same_stage
        | inr (inr (g, e)) ↦
            let at_g : stage k name m ≡ group_stage k g = ap (stage_of k) e in
            elim (Option-cases g.topic) [
              | inl bare ↦
                  Gives-eq P _ _ (create_publisher-refused name m (inr (inr (g, e, bare))))
                    same_stage
              | inr (t, topic) ↦ elim (Option-cases g.publisher) [
                | inr (p, there) ↦
                    Gives-eq P _ _ (create_publisher-there name m g t p e topic there) (
                      subst (λ u. Publishes true u u) (sym at_g)
                        (Publishes-there g t p topic there))
                | inl fresh ↦ Gives-eq P _ _ (create_publisher-found name m g t e topic fresh) (
                    subst
                      (λ u.
                        Gives (λ b m'. Publishes b u (stage k name m'))
                          (create_publisher_for d name g t m))
                      (sym at_g)
                      (create_publisher_for-Gives name g t m e (ground arith) (ground arith)))
              ]
            ]
      ]

  abbrev PublishesAndSubscribesAt : Text → Text → Manager → Bool → Manager → Type 0
  PublishesAndSubscribesAt name reader m b m' =
      PublishesAndSubscribes (same k reader) b (stage k name m) (stage k name m')

  then-Subscribes :
      (is_k b : Bool) (u v w : Stage)
      → Publishes true u v
      → Subscribes is_k b v w
      → PublishesAndSubscribes is_k b u w
  then-Subscribes is_k true u v w p s = (v, p, s)
  then-Subscribes is_k false u v w p s = inr (v, p, s)

  after_publisher-Gives :
      (name reader filter : Text) (params : List Text) (m : Manager) (r : Outcome (Bool × Manager))
      → Gives (PublishesAt name m) r
      → Gives (PublishesAndSubscribesAt name reader m) (
          r >>= λ (pass, m₁).
          if pass then create_subscriber d name reader filter params m₁ else done (false, m₁))
  after_publisher-Gives name reader filter params m (done (true, m₁)) p =
      Gives-map _ _ (create_subscriber d name reader filter params m₁)
        (λ b m' s.
          then-Subscribes (same k reader) b (stage k name m) (stage k name m₁) (stage k name m') p
            s)
        (create_subscriber-Gives d k name reader filter params m₁)
  after_publisher-Gives name reader filter params m (done (false, m₁)) p = inl p
  after_publisher-Gives name reader filter params m null_dereference p = tt
  after_publisher-Gives name reader filter params m (throws message) p = tt
  after_publisher-Gives name reader filter params m terminates p = tt

  pub create_publisher_subscriber-Gives :
      (name reader filter : Text) (params : List Text) (m : Manager)
      → Gives
          (PublishesAndSubscribesAt name reader m)
          (create_publisher_subscriber d name reader filter params m)
  unfolding create_publisher_subscriber
  create_publisher_subscriber-Gives name reader filter params m =
      after_publisher-Gives name reader filter params m _ (create_publisher-Gives name m)
