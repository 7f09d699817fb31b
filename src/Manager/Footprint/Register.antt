-- ===== src/Manager/Footprint/Register.antt =====
-- Registering and unregistering a topic keeps to it.
use open_ddw.Base.{◌≡◌, Bool, true, false, inl, inr, Bool-cases, Option-cases, is_some}
use open_ddw.Base.Text.{Text}
use open_ddw.Qos.{QosType}
use open_ddw.Dds.{
  Dds, Trace, Outcome, done, null_dereference, throws, terminates, ◌>>=◌, create_topic,
  register_type,
}
use open_ddw.Group.{TopicGroup, new_group}
use open_ddw.Group.Teardown.{teardown}
use open_ddw.Base.Dict.{erase}
use open_ddw.Manager.{Manager, slot, call}
use open_ddw.Manager.Settings.{group_at}
use open_ddw.Manager.Register.{
  apply_preset, register_qos, create_topic_for, register_with, register_topic, unregister_topic,
}
use open_ddw.Manager.Footprint.{
  Footprint-refl, Post, >>=-Post, Post-after, call-Post, put_group-Footprint, erase-Elsewhere,
  Elsewhere, Fits, found-Fits, Slot-cases,
}
use open_ddw.Manager.Footprint.Settings.{
  itself, second, set_topic_qos-Post, set_reader_qos-Post, set_writer_qos-Post,
}

apply_preset-Post :
    (name : Text) (qos : QosType) (m : Manager) → Post second name m (apply_preset name qos m)
unfolding apply_preset group_at
apply_preset-Post name qos m = >>=-Post itself second name m _ _ (set_topic_qos-Post name _ m) λ m₁.
    >>=-Post itself second name m₁ _ _ (set_reader_qos-Post name _ m₁) λ m₂.
      >>=-Post itself second name m₂ _ _ (set_writer_qos-Post name _ m₂) λ m₃.
        elim (Slot-cases (slot m₃ name)) [
          | inl e ↦ rw (e, group_at) tt
          | inr (inl e) ↦ rw (e, group_at) tt
          | inr (inr (g, e)) ↦
              rw (e, group_at) (put_group-Footprint name _ m₃ (found-Fits name g m₃ e))
        ]

pub register_qos-Post :
    (name : Text) (qos : QosType) (m : Manager) → Post second name m (register_qos name qos m)
unfolding register_qos
register_qos-Post name qos m = elim (Slot-cases (slot m name)) [
  | inl e ↦ rw (e, register_qos) (Footprint-refl name m)
  | inr (inl e) ↦ rw (e, register_qos) tt
  | inr (inr (g, e)) ↦ elim (Bool-cases (is_some g.qos_preset)) [
    | inl chosen ↦ rw (e, register_qos, chosen) (Footprint-refl name m)
    | inr unset ↦ rw (e, register_qos, unset) (apply_preset-Post name qos m)
  ]
]

module _ (d : Dds) where
  create_topic_for-Post :
      (name : Text) (qos : QosType) (stored : Bool) (g : TopicGroup) (m : Manager)
      → Fits name g m
      → Post second name m (create_topic_for d name qos stored g m)
  unfolding create_topic_for slot
  create_topic_for-Post name qos stored g m k =
      let event = create_topic name g.type_name g.topic_qos in
      let m₁ = call event m in
      call-Post second name event m _ (elim (Option-cases (d.object m₁.calls)) [
        | inl e ↦ elim (Bool-cases stored) [
          | inl s ↦ rw (e, create_topic_for, s) (put_group-Footprint name _ m₁ k)
          | inr s ↦ rw (e, create_topic_for, s) (Footprint-refl name m₁)
        ]
        | inr (t, e) ↦
            rw (e, create_topic_for)
              (Post-after second name m₁ _ _ (put_group-Footprint name _ m₁ k)
                (register_qos-Post name qos _))
      ])

  register_with-Post :
      (type_name name : Text) (qos : QosType) (stored : Bool) (g : TopicGroup) (m : Manager)
      → Fits name g m
      → Post second name m (register_with d type_name name qos stored g m)
  unfolding register_with slot
  register_with-Post type_name name qos stored g m k =
      call-Post second name (register_type type_name) m _ (
        create_topic_for-Post name qos stored (record g { type_name = type_name })
          (call (register_type type_name) m) k)

  pub register_topic-Post :
      (type_name name : Text) (qos : QosType) (m : Manager)
      → Post second name m (register_topic d type_name name qos m)
  unfolding register_topic new_group
  register_topic-Post type_name name qos m = elim (Bool-cases (is_some m.participant)) [
    | inr absent ↦ rw (absent, register_topic) tt
    | inl joined ↦ elim (Slot-cases (slot m name)) [
      | inl e ↦
          rw (joined, e, register_topic)
            (register_with-Post type_name name qos false (new_group m.order) m
              (λ h. tt, λ k h. absurd (rw e at h)))
      | inr (inl e) ↦ rw (joined, e, register_topic) (Footprint-refl name m)
      | inr (inr (g, e)) ↦ elim (Bool-cases (is_some g.topic)) [
        | inl there ↦ rw (joined, e, register_topic, there) (Footprint-refl name m)
        | inr bare ↦
            rw (joined, e, register_topic, bare)
              (register_with-Post type_name name qos true g m (found-Fits name g m e))
      ]
    ]
  ]

  -- What unregistering leaves as it is: the topic itself goes.
  abbrev Leaves : Text → Manager → Outcome (Bool × Manager) → Type 0
  Leaves name m (done (b, m')) = Elsewhere name m m'
  Leaves name m null_dereference = Unit
  Leaves name m (throws message) = Unit
  Leaves name m terminates = Unit

  teardown-Leaves :
      (name : Text) (m : Manager) (r : Outcome Trace)
      → Leaves name m
          (r >>= λ calls. done (true, record m { topics = erase name m.topics; calls = calls }))
  teardown-Leaves name m (done calls) = erase-Elsewhere name calls m
  teardown-Leaves name m null_dereference = tt
  teardown-Leaves name m (throws message) = tt
  teardown-Leaves name m terminates = tt

  unregister_topic-Leaves : (name : Text) (m : Manager) → Leaves name m (unregister_topic d name m)
  unfolding unregister_topic
  unregister_topic-Leaves name m =
      let f = Footprint-refl name m in
      elim (Slot-cases (slot m name)) [
        | inl e ↦ rw (e, unregister_topic) f.outside
        | inr (inl e) ↦ rw (e, unregister_topic) f.outside
        | inr (inr (g, e)) ↦
            rw (e, unregister_topic) (teardown-Leaves name m (teardown d g m.calls))
      ]

  pub unregister_topic-Elsewhere :
      (name : Text) (m m' : Manager) (b : Bool)
      → unregister_topic d name m ≡ done (b, m')
      → Elsewhere name m m'
  unregister_topic-Elsewhere name m m' b e = rw e at (unregister_topic-Leaves name m)
