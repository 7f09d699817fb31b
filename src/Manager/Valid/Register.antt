-- ===== src/Manager/Valid/Register.antt =====
-- Registering and unregistering topics keeps the manager valid, and goes through no null pointer.
use open_ddw.Base.{
  ℕ, ◌≡◌, refl, inl, inr, Bool, true, false, Option, none, some, List, [], ◌∷◌, ◌&&◌, arith,
  Bool-cases, Option-cases, is_some,
}
use open_ddw.Base.Text.{Text}
use open_ddw.Base.Dict.{Dict, All, erase-All}
use open_ddw.Qos.{QosType}
use open_ddw.Qos.Presets.{writer_preset}
use open_ddw.Dds.{Dds, Trace, done, create_topic, register_type}
use open_ddw.Group.{TopicGroup, IsValid, new_group, new_group-IsValid, new_group-topic}
use open_ddw.Group.Teardown.{teardown-deletions, deletions, after}
use open_ddw.Manager.{Manager, call}
use open_ddw.Manager.Settings.{group_at}
use open_ddw.Manager.Register.{
  apply_preset, register_qos, create_topic_for, register_with, register_topic, unregister_topic,
  unregister_all, clear_topics, clean_up_topics, started, in_order,
}
use open_ddw.Manager.Valid.{
  IsWell, IsSafe, SlotValid, slot-cases, put_group-IsWell, >>=-IsSafe, >>=-IsSafe_pair,
}
use open_ddw.Manager.Valid.Settings.{
  set_topic_qos-IsSafe, set_reader_qos-IsSafe, set_writer_qos-found,
}

apply_preset-IsSafe :
    (name : Text) (qos : QosType) (m : Manager) → IsWell m → IsSafe (apply_preset name qos m)
unfolding apply_preset group_at
apply_preset-IsSafe name qos m w = >>=-IsSafe _ _ (set_topic_qos-IsSafe name _ m w) λ m₁ w₁.
    >>=-IsSafe _ _ (set_reader_qos-IsSafe name _ m₁ w₁) λ m₂ w₂.
      let (m₃, e, w₃, (g, e', v)) = set_writer_qos-found name (writer_preset qos m.order) m₂ w₂ in
      rw (e, e', group_at) (put_group-IsWell name _ m₃ (assumption) w₃)

pub register_qos-IsSafe :
    (name : Text) (qos : QosType) (m : Manager) → IsWell m → IsSafe (register_qos name qos m)
unfolding register_qos
register_qos-IsSafe name qos m w = elim (slot-cases m name w) [
  | inl e ↦ rw (e, register_qos) w
  | inr (g, e, v) ↦ elim (Bool-cases (is_some g.qos_preset)) [
    | inl set ↦ rw (e, register_qos, set) w
    | inr unset ↦ rw (e, register_qos, unset) (apply_preset-IsSafe name qos m w)
  ]
]

-- A topic given to a group that has none.
topic-IsValid :
    (p : Option ℕ) (g : TopicGroup) (t : ℕ)
    → is_some p ≡ true
    → g.topic ≡ none
    → IsValid p g
    → IsValid p (record g { topic = some t; domain = p; listener = true })
topic-IsValid p g t joined bare v = ground arith

topic_none-IsValid :
    (p : Option ℕ) (g : TopicGroup)
    → g.topic ≡ none
    → IsValid p g
    → IsValid p (record g { topic = none })
topic_none-IsValid p g bare v = ground arith

module _ (d : Dds) where
  create_topic_for-IsSafe :
      (name : Text) (qos : QosType) (stored : Bool) (g : TopicGroup) (m : Manager)
      → is_some m.participant ≡ true
      → g.topic ≡ none
      → IsValid m.participant g
      → IsWell m
      → IsSafe (create_topic_for d name qos stored g m)
  unfolding create_topic_for
  create_topic_for-IsSafe name qos stored g m joined bare v w =
      go (d.object (create_topic name g.type_name g.topic_qos ∷ m.calls)) stored refl
    where
      m₁ : Manager
      m₁ = call (create_topic name g.type_name g.topic_qos) m

      go :
          (o : Option ℕ) (b : Bool)
          → d.object m₁.calls ≡ o
          → IsSafe (create_topic_for d name qos b g m)
      go none true e =
          rw (e, create_topic_for) (put_group-IsWell name _ m₁ (topic_none-IsValid _ g bare v) w)
      go none false e = rw (e, create_topic_for) w
      go (some t) b e =
          rw (e, create_topic_for)
            (register_qos-IsSafe name qos _
              (put_group-IsWell name _ m₁ (topic-IsValid _ g t joined bare v) w))

  register_with-IsSafe :
      (type_name name : Text) (qos : QosType) (stored : Bool) (g : TopicGroup) (m : Manager)
      → is_some m.participant ≡ true
      → g.topic ≡ none
      → IsValid m.participant g
      → IsWell m
      → IsSafe (register_with d type_name name qos stored g m)
  unfolding register_with
  register_with-IsSafe type_name name qos stored g m joined bare v w =
      create_topic_for-IsSafe name qos stored (record g { type_name = type_name })
        (call (register_type type_name) m) joined bare (assumption) w

  pub register_topic-IsSafe :
      (type_name name : Text) (qos : QosType) (m : Manager)
      → IsWell m
      → IsSafe (register_topic d type_name name qos m)
  unfolding register_topic
  register_topic-IsSafe type_name name qos m w = elim (Bool-cases (is_some m.participant)) [
    | inr absent ↦ rw (absent, register_topic) tt
    | inl joined ↦ elim (slot-cases m name w) [
      | inl e ↦
          rw (joined, e, register_topic)
            (register_with-IsSafe type_name name qos false (new_group m.order) m joined
              (new_group-topic m.order) (new_group-IsValid m.participant m.order) w)
      | inr (g, e, v) ↦ elim (Option-cases g.topic) [
        | inl bare ↦
            rw (joined, e, register_topic, bare)
              (register_with-IsSafe type_name name qos true g m joined bare v w)
        | inr (t, there) ↦ rw (joined, e, register_topic, there) w
      ]
    ]
  ]

  pub unregister_topic-IsSafe :
      (name : Text) (m : Manager) → IsWell m → IsSafe (unregister_topic d name m)
  unfolding unregister_topic
  unregister_topic-IsSafe name m w = elim (slot-cases m name w) [
    | inl e ↦ rw (e, unregister_topic) w
    | inr (g, e, v) ↦
        rw (e, unregister_topic, teardown-deletions d m.participant g m.calls v)
          (erase-All (SlotValid m.participant) name m.topics w)
  ]

  unregister_all-IsSafe :
      (schedule : List Text) (b : Bool) (m : Manager)
      → IsWell m
      → IsSafe (unregister_all d schedule b m)
  unfolding unregister_all
  unregister_all-IsSafe [] b m w = w
  unregister_all-IsSafe (name ∷ names) b m w =
      >>=-IsSafe_pair _ _ (unregister_topic-IsSafe name m w)
        λ b' m' w'. unregister_all-IsSafe names (b && b') m' w'

  clear_topics-done :
      (p : Option ℕ) (topics : Dict (Option TopicGroup)) (calls : Trace)
      → All (SlotValid p) topics
      → (calls' : Trace) × (clear_topics d topics calls ≡ done calls')
  unfolding clear_topics
  clear_topics-done p [] calls w = (calls, refl)
  clear_topics-done p ((name, none) ∷ topics) calls w = absurd w.0
  clear_topics-done p ((name, some g) ∷ topics) calls w =
      let (calls', e) = clear_topics-done p topics (after (deletions g) calls) w.1 in
      (calls', rw (clear_topics, teardown-deletions d p g calls w.0) e)

  pub clean_up_topics-IsSafe :
      (schedule : List Text) (m : Manager) → IsWell m → IsSafe (clean_up_topics d schedule m)
  unfolding clean_up_topics
  clean_up_topics-IsSafe schedule m w =
      >>=-IsSafe_pair _ _ (unregister_all-IsSafe (in_order schedule (started m.topics)) true m w)
        λ b' m' w'.
          let (calls, e) = clear_topics-done m'.participant m'.topics m'.calls w' in rw e tt
