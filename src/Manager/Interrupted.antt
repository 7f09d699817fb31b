-- ===== src/Manager/Interrupted.antt =====
-- `registerQos` (src/dds_manager.cpp) while other threads run: it releases the lock after it found
-- the topic's group, and locks again for each setter of QoS.
use open_ddw.Base.{
  ℕ, ◌≡◌, refl, ◌∙◌, ap, Bool, Option, true, false, none, some, arith, is_some, if◌then◌else◌,
}
use open_ddw.Base.Text.{Text, same_refl}
use open_ddw.Base.Dict.{erase, lookup-erase}
use open_ddw.Qos.{QosType, TopicQos}
use open_ddw.Qos.Presets.{topic_preset, reader_preset, writer_preset}
use open_ddw.Dds.{Dds, Outcome, done, null_dereference, ◌>>=◌}
use open_ddw.Group.{TopicGroup, IsValid, new_group}
use open_ddw.Group.Teardown.{teardown, teardown-deletions, deletions, after}
use open_ddw.Manager.{Manager, missing, null, found, slot, put_group}
use open_ddw.Manager.Settings.{
  group_at, ensure_group, group_at-found, set_topic_qos, set_reader_qos, set_writer_qos,
}
use open_ddw.Manager.Register.{register_qos, apply_preset}
use open_ddw.Manager.Publish.{create_publisher}
use open_ddw.Manager.Valid.{IsWell, slot-IsValid}
use open_ddw.Manager.Presets.{Holds, slot-put, set_reader_qos-found, set_writer_qos-bare}

-- `unregisterTopic` while another thread still has a pointer to the group: the group goes from
-- `m_topics`, and is torn down only when that pointer goes, too.
unfoldable pub unregister_shared : Text → Manager → Outcome (Option TopicGroup × Manager)
unfolding slot
unregister_shared name m = elim (slot m name) [
  | missing ↦ done (none, m)
  | null ↦ done (none, m)
  | found g ↦ done (some g, record m { topics = erase name m.topics })
]

module _ (d : Dds) where
  -- The preset is written through the pointer to the group that was found, and the pointer goes at
  -- the return. The first argument is that group where it is no longer in `m_topics`: then the
  -- pointer is the last one and the group is torn down, with the lock held. Otherwise the manager
  -- sees the preset.
  unfoldable pub store_preset :
      Option TopicGroup → Text → QosType → Manager → Outcome (Bool × Manager)
  unfolding teardown
  store_preset none name qos_type m = do
    g ← group_at m name
    done (true, put_group name (record g { qos_preset = some qos_type }) m)
  store_preset (some g) name qos_type m = do
    calls ← teardown d (record g { qos_preset = some qos_type }) m.calls
    done (true, record m { calls = calls })

  -- `others` is what other threads do between the look-up and the setters of QoS. It gives back the
  -- group that was found if they took it out of `m_topics`.
  unfoldable pub register_qos_among :
      (Manager → Outcome (Option TopicGroup × Manager))
      → Text
      → QosType
      → Manager
      → Outcome (Bool × Manager)
  unfolding slot store_preset set_topic_qos set_reader_qos set_writer_qos
  register_qos_among others name qos_type m = elim (slot m name) [
    | missing ↦ done (false, m)
    | null ↦ null_dereference
    | found g ↦
        if is_some g.qos_preset
        then done (true, m)
        else (others m >>= λ (taken, m₁). do
          m₂ ← set_topic_qos name (topic_preset qos_type m₁.order) m₁
          m₃ ← set_reader_qos name (reader_preset qos_type m₁.order) m₂
          m₄ ← set_writer_qos name (writer_preset qos_type m₁.order) m₃
          store_preset taken name qos_type m₄)
  ]

  -- Where no other thread gets in between, it is `register_qos`.
  register_qos_among-alone :
      (name : Text) (qos : QosType) (m : Manager)
      → register_qos_among (λ m. done (none, m)) name qos m ≡ register_qos name qos m
  unfolding register_qos_among register_qos apply_preset store_preset
  register_qos_among-alone name qos m = ground arith

preset-IsValid :
    (p : Option ℕ) (g : TopicGroup) (qos : QosType)
    → IsValid p g
    → IsValid p (record g { qos_preset = some qos })
preset-IsValid p g qos v = record {
  topic_domain = v.topic_domain;
  topic_participant = v.topic_participant;
  publisher_topic = v.publisher_topic;
  subscriber_topic = v.subscriber_topic;
  writer_publisher = v.writer_publisher;
  writer_has_listener = v.writer_has_listener;
  readers_subscriber = v.readers_subscriber;
  filters_subscriber = v.filters_subscriber;
  readers_have_listeners = v.readers_have_listeners;
  emitters_consistent = v.emitters_consistent;
}

abbrev taken_from : Text → Manager → Manager
taken_from name m = record m { topics = erase name m.topics }

taken_from-missing : (name : Text) (m : Manager) → slot (taken_from name m) name ≡ missing
unfolding slot
taken_from-missing name m = rw (lookup-erase name name m.topics, same_refl name) refl

unregister_shared-found :
    (name : Text) (m : Manager) (g : TopicGroup)
    → slot m name ≡ found g
    → unregister_shared name m ≡ done (some g, taken_from name m)
unfolding unregister_shared
unregister_shared-found name m g e = rw (e, unregister_shared) refl

ensure_group-missing :
    (name : Text) (m : Manager)
    → slot m name ≡ missing
    → ensure_group name m ≡ put_group name (new_group m.order) m
unfolding ensure_group slot
ensure_group-missing name m e = ground arith

set_topic_qos-missing :
    (name : Text) (qos : TopicQos) (m : Manager)
    → slot m name ≡ missing
    → (m' : Manager) × (set_topic_qos name qos m ≡ done m')
      × Holds m' name (record (new_group m.order) { topic_qos = qos }) m.calls
unfolding set_topic_qos put_group
set_topic_qos-missing name qos m e =
    let m₁ = put_group name (new_group m.order) m in
    let there = slot-put name (new_group m.order) m in
    (
      put_group name (record (new_group m.order) { topic_qos = qos }) m₁,
      rw (ensure_group-missing name m e, group_at-found m₁ name (new_group m.order) there),
      (slot-put name _ m₁, refl),
    )

create_publisher-ghost :
    (d : Dds) (name : Text) (m : Manager) (g : TopicGroup)
    → slot m name ≡ found g
    → g.topic ≡ none
    → create_publisher d name m ≡ done (false, m)
unfolding create_publisher
create_publisher-ghost d name m g e bare = rw (e, create_publisher, bare)

-- The group that `registerQos` leaves where its topic was unregistered.
abbrev pub ghost : QosType → Manager → TopicGroup
ghost qos m = record (new_group m.order) {
  topic_qos = topic_preset qos m.order;
  data_reader_qos = reader_preset qos m.order;
  data_writer_qos = writer_preset qos m.order;
}

-- When another thread unregisters the topic of a valid manager after `registerQos` found its group,
-- which has no preset yet, and lets its own pointer to the group go before `registerQos` returns:
-- `registerQos` puts a new group under the name, with the three QoS of the preset but
-- without a topic and a preset, makes the calls of the old group's destructor when it returns, and
-- returns true. A publisher of the topic cannot be created then.
pub register_qos_among-unregistered :
    (d : Dds) (name : Text) (qos : QosType) (m : Manager) (g : TopicGroup)
    → IsWell m
    → slot m name ≡ found g
    → g.qos_preset ≡ none
    → (m' : Manager) × (register_qos_among d (unregister_shared name) name qos m ≡ done (true, m'))
      × (slot m' name ≡ found (ghost qos m))
      × (m'.calls ≡ after (deletions g) m.calls)
      × (create_publisher d name m' ≡ done (false, m'))
unfolding register_qos_among store_preset new_group
register_qos_among-unregistered d name qos m g w e unset =
    let m₁ = taken_from name m in
    let gone = taken_from-missing name m in
    let (m₂, e₂, (s₂, c₂)) = set_topic_qos-missing name (topic_preset qos m.order) m₁ gone in
    let (m₃, e₃, (s₃, c₃)) = set_reader_qos-found name (reader_preset qos m.order) m₂ _ s₂ in
    let (m₄, e₄, (s₄, c₄)) = set_writer_qos-bare name (writer_preset qos m.order) m₃ _ s₃ refl in
    let g₁ = record g { qos_preset = some qos } in
    let torn =
      teardown-deletions d m.participant g₁ m₄.calls
        (preset-IsValid m.participant g qos (slot-IsValid m name g w e)) in
    let m₅ = record m₄ { calls = after (deletions g) m₄.calls } in
    let there : slot m₅ name ≡ found (ghost qos m) = s₄ in
    (
      m₅,
      rw
          (
            e,
            register_qos_among,
            unset,
            unregister_shared-found name m g e,
            e₂,
            e₃,
            e₄,
            store_preset,
            torn,
          )
          refl,
      there,
      ap (after (deletions g)) (c₄ ∙ c₃ ∙ c₂),
      create_publisher-ghost d name m₅ (ghost qos m) there refl,
    )
