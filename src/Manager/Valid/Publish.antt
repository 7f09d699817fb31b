-- ===== src/Manager/Valid/Publish.antt =====
-- Creating publishers keeps the manager valid, and goes through no null pointer.
use open_ddw.Base.{
  ℕ, ◌≡◌, refl, ap, inl, inr, Bool, true, false, Option, none, some, List, ◌∷◌, arith,
  if◌then◌else◌, Option-cases, is_some,
}
use open_ddw.Base.Text.{Text}
use open_ddw.Dds.{Dds, done, deref, create_datawriter, domain_create_publisher}
use open_ddw.Group.{TopicGroup, GenericListener, IsValid}
use open_ddw.Manager.{Manager, call}
use open_ddw.Manager.Publish.{
  create_writer_for, create_publisher_for, create_publisher, create_publisher_subscriber,
}
use open_ddw.Manager.Subscribe.{create_subscriber}
use open_ddw.Manager.Valid.Subscribe.{create_subscriber-IsSafe}
use open_ddw.Manager.Valid.{IsWell, IsSafe, slot-cases, put_group-IsWell, >>=-IsSafe_pair}

-- A publisher in a group that has a topic and none so far, and the writer that it may get.
publisher-IsValid :
    (p : Option ℕ) (g : TopicGroup) (x : ℕ)
    → is_some g.topic ≡ true
    → g.publisher ≡ none
    → IsValid p g
    → IsValid p (record g { publisher = some x; writer = none })
publisher-IsValid p g x topic bare v = ground arith

writer-IsValid :
    (p : Option ℕ) (g : TopicGroup) (x y : ℕ) (l : GenericListener)
    → is_some g.topic ≡ true
    → IsValid p g
    → IsValid p (record g { publisher = some x; writer = some y; writer_listener = some l })
writer-IsValid p g x y l topic v = ground arith

module _ (d : Dds) where
  create_writer_for-IsSafe :
      (name : Text) (g : TopicGroup) (p t : ℕ) (m : Manager)
      → is_some g.topic ≡ true
      → g.publisher ≡ none
      → IsValid m.participant g
      → IsWell m
      → IsSafe (create_writer_for d name (record g { publisher = some p }) p t m)
  unfolding create_writer_for
  create_writer_for-IsSafe name g p t m topic bare v w =
      go (d.object (create_datawriter p t g.data_writer_qos ∷ m.calls)) refl
    where
      m₁ : Manager
      m₁ = call (create_datawriter p t g.data_writer_qos) m

      go :
          (o : Option ℕ)
          → d.object m₁.calls ≡ o
          → IsSafe (create_writer_for d name (record g { publisher = some p }) p t m)
      go none e =
          rw (e, create_writer_for)
            (put_group-IsWell name _ m₁ (publisher-IsValid _ g p topic bare v) w)
      go (some x) e =
          rw (e, create_writer_for)
            (put_group-IsWell name _ m₁ (writer-IsValid _ g p x _ topic v) w)

  create_publisher_for-IsSafe :
      (name : Text) (g : TopicGroup) (t : ℕ) (m : Manager)
      → is_some g.topic ≡ true
      → g.publisher ≡ none
      → IsValid m.participant g
      → IsWell m
      → IsSafe (create_publisher_for d name g t m)
  unfolding create_publisher_for
  create_publisher_for-IsSafe name g t m topic bare v w = elim (Option-cases m.participant) [
    | inl absent ↦ absurd (ground arith)
    | inr (x, e) ↦ go (d.object m₁.calls) refl x e
  ]
    where
      m₁ : Manager
      m₁ = call (domain_create_publisher g.pub_qos) m

      go :
          (o : Option ℕ)
          → d.object m₁.calls ≡ o
          → (x : ℕ) → m.participant ≡ some x
          → IsSafe (create_publisher_for d name g t m)
      go none e x joined = rw (create_publisher_for, joined, deref, e) w
      go (some p) e x joined =
          rw (create_publisher_for, joined, deref, e)
            (create_writer_for-IsSafe name g p t m₁ topic bare v w)

  pub create_publisher-IsSafe :
      (name : Text) (m : Manager) → IsWell m → IsSafe (create_publisher d name m)
  unfolding create_publisher
  create_publisher-IsSafe name m w = elim (slot-cases m name w) [
    | inl e ↦ rw (e, create_publisher) w
    | inr (g, e, v) ↦ elim (Option-cases g.topic) [
      | inl bare ↦ rw (e, create_publisher, bare) w
      | inr (t, topic) ↦ elim (Option-cases g.publisher) [
        | inl none_yet ↦
            rw (e, create_publisher, topic, none_yet)
              (create_publisher_for-IsSafe name g t m (ap is_some topic) none_yet v w)
        | inr (p, there) ↦ rw (e, create_publisher, topic, there) w
      ]
    ]
  ]

  pub create_publisher_subscriber-IsSafe :
      (name reader filter : Text) (params : List Text) (m : Manager)
      → IsWell m
      → IsSafe (create_publisher_subscriber d name reader filter params m)
  unfolding create_publisher_subscriber
  create_publisher_subscriber-IsSafe name reader filter params m w =
      >>=-IsSafe_pair _ _ (create_publisher-IsSafe name m w) λ b m₁ w₁. go b m₁ w₁
    where
      go :
          (b : Bool) (m₁ : Manager)
          → IsWell m₁
          → IsSafe
              (if b then create_subscriber d name reader filter params m₁ else done (false, m₁))
      go true m₁ w₁ = create_subscriber-IsSafe d name reader filter params m₁ w₁
      go false m₁ w₁ = w₁
