-- ===== src/Manager/Stages/Settings.antt =====
-- What setting QoS does to the stage of the topic.
use open_ddw.Base.{
  ◌≡◌, refl, ◌∙◌, inl, inr, ap, sym, true, none, some, arith, Bool-cases, Option-cases,
}
use open_ddw.Base.Text.{Text}
use open_ddw.Base.Dict.{contains, lookup}
use open_ddw.Qos.{TopicQos, DataReaderQos, DataWriterQos, GroupQos}
use open_ddw.Dds.{Outcome, done, ◌>>=◌, publisher_set_qos, subscriber_set_qos, writer_set_qos}
use open_ddw.Group.{TopicGroup, new_group}
use open_ddw.Manager.{Manager, slot, put_group}
use open_ddw.Manager.Settings.{
  ensure_group, group_at, call_if, set_topic_qos, set_publisher_qos, set_subscriber_qos,
  set_writer_qos, set_reader_qos, set_each_reader_qos, add_partition,
}
use open_ddw.Manager.Footprint.{Slot-cases}
use open_ddw.Manager.Footprint.Settings.{absent_slot}
use open_ddw.Manager.Stages.{
  stage, group_stage, stage_of, Gives, GivesState, ensured, NeedsGroup, stage-put_group,
}

contains-ensured :
    (k name : Text) (m : Manager)
    → contains name m.topics ≡ true
    → ensured (stage k name m) ≡ stage k name m
unfolding slot
contains-ensured k name m e = elim (Option-cases (lookup name m.topics)) [
  | inl none_there ↦ absurd (ground (arith, none_there))
  | inr (none, there) ↦ rw there refl
  | inr (some g, there) ↦ rw there refl
]

ensure_group-stage :
    (k name : Text) (m : Manager) → stage k name (ensure_group name m) ≡ ensured (stage k name m)
unfolding ensure_group new_group lookup
ensure_group-stage k name m = elim (Bool-cases (contains name m.topics)) [
  | inl e ↦ rw (ensure_group, e) (sym (contains-ensured k name m e))
  | inr e ↦
      rw (ensure_group, e)
        (stage-put_group k name (new_group m.order) m ∙ rw (absent_slot name m e) refl)
]

-- The setters: `change` is what they do to the group, and `calls` the manager after their calls.
setter-stage :
    (k name : Text) (m : Manager) (change : TopicGroup → TopicGroup) (calls : TopicGroup → Manager)
    → ((g : TopicGroup) → group_stage k (change g) ≡ group_stage k g)
    → GivesState
        (λ m'. stage k name m' ≡ ensured (stage k name m))
        (group_at (ensure_group name m) name >>= λ g. done (put_group name (change g) (calls g)))
unfolding group_at
setter-stage k name m change calls alike =
    let m₁ = ensure_group name m in
    elim (Slot-cases (slot m₁ name)) [
      | inl e ↦ rw (e, group_at) tt
      | inr (inl e) ↦ rw (e, group_at) tt
      | inr (inr (g, e)) ↦
          rw (e, group_at)
            (stage-put_group k name (change g) (calls g)
              ∙ alike g
              ∙ sym (ap (stage_of k) e)
              ∙ ensure_group-stage k name m)
    ]

module _ (k name : Text) (m : Manager) where
  abbrev Ensures : Outcome Manager → Type 0
  Ensures = GivesState (λ m'. stage k name m' ≡ ensured (stage k name m))

  pub set_topic_qos-stage : (qos : TopicQos) → Ensures (set_topic_qos name qos m)
  unfolding set_topic_qos
  set_topic_qos-stage qos =
      setter-stage k name m (λ g. record g { topic_qos = qos }) (λ g. ensure_group name m)
        (λ g. refl)

  pub set_publisher_qos-stage : (qos : GroupQos) → Ensures (set_publisher_qos name qos m)
  unfolding set_publisher_qos
  set_publisher_qos-stage qos =
      setter-stage k name m (λ g. record g { pub_qos = qos })
        (λ g. call_if g.publisher (λ p. publisher_set_qos p qos) (ensure_group name m)) (λ g. refl)

  pub set_subscriber_qos-stage : (qos : GroupQos) → Ensures (set_subscriber_qos name qos m)
  unfolding set_subscriber_qos
  set_subscriber_qos-stage qos =
      setter-stage k name m (λ g. record g { sub_qos = qos })
        (λ g. call_if g.subscriber (λ p. subscriber_set_qos p qos) (ensure_group name m))
        (λ g. refl)

  pub set_writer_qos-stage : (qos : DataWriterQos) → Ensures (set_writer_qos name qos m)
  unfolding set_writer_qos
  set_writer_qos-stage qos =
      setter-stage k name m (λ g. record g { data_writer_qos = qos })
        (λ g. call_if g.writer (λ p. writer_set_qos p qos) (ensure_group name m)) (λ g. refl)

  pub set_reader_qos-stage : (qos : DataReaderQos) → Ensures (set_reader_qos name qos m)
  unfolding set_reader_qos
  set_reader_qos-stage qos =
      setter-stage k name m (λ g. record g { data_reader_qos = qos })
        (λ g. set_each_reader_qos g.readers qos (ensure_group name m)) (λ g. refl)

  pub add_partition-Gives :
      (partition : Text)
      → Gives
          (λ b m'. NeedsGroup b (stage k name m) (stage k name m'))
          (add_partition name partition m)
  unfolding add_partition
  add_partition-Gives partition = elim (Slot-cases (slot m name)) [
    | inl e ↦ rw (e, add_partition) (refl, ap (stage_of k) e)
    | inr (inl e) ↦ rw (e, add_partition) (refl, ap (stage_of k) e)
    | inr (inr (g, e)) ↦ rw (e, add_partition) (refl, stage-put_group k name _ m)
  ]
