-- ===== src/Manager/Presets.antt =====
-- What registering a topic does to its QoS, and that a QoS that is set is the one in force
-- (src/dds_manager.cpp, src/dds_manager.hpp).
use open_ddw.Base.{
  ℕ, ◌≡◌, refl, ◌∙◌, ◌⊎◌, inl, inr, Bool, true, false, none, some, [], ◌∷◌, arith, map,
}
use open_ddw.Base.Text.{Text, same_refl}
use open_ddw.Base.Dict.{Dict}
use open_ddw.Qos.{QosType, TopicQos, DataReaderQos, DataWriterQos}
use open_ddw.Qos.Presets.{topic_preset, reader_preset, writer_preset}
use open_ddw.Dds.{Dds, Trace, done, register_type, create_topic, reader_set_qos}
use open_ddw.Group.{TopicGroup, new_group}
use open_ddw.Group.Teardown.{after}
use open_ddw.Manager.{Manager, missing, found, slot, put_group, call, slot-put_group}
use open_ddw.Manager.Settings.{
  ensure_group, group_at-found, set_topic_qos, set_reader_qos, set_writer_qos, set_each_reader_qos,
}
use open_ddw.Manager.Register.{
  apply_preset, register_qos, create_topic_for, register_with, register_topic,
}

-- `m'` holds `g` for the topic, and made the calls of the trace.
abbrev pub Holds : Manager → Text → TopicGroup → Trace → Type 0
Holds m' name g calls = (slot m' name ≡ found g) × (m'.calls ≡ calls)

pub slot-put :
    (name : Text) (g : TopicGroup) (m : Manager) → slot (put_group name g m) name ≡ found g
slot-put name g m = rw (slot-put_group name name g m, same_refl name) refl

ensure_group-found :
    (name : Text) (m : Manager) (g : TopicGroup) → slot m name ≡ found g → ensure_group name m ≡ m
unfolding ensure_group slot
ensure_group-found name m g e = ground arith

set_topic_qos-found :
    (name : Text) (qos : TopicQos) (m : Manager) (g : TopicGroup)
    → slot m name ≡ found g
    → (m' : Manager) × (set_topic_qos name qos m ≡ done m')
      × Holds m' name (record g { topic_qos = qos }) m.calls
unfolding set_topic_qos put_group
set_topic_qos-found name qos m g e = (
  put_group name (record g { topic_qos = qos }) m,
  rw (ensure_group-found name m g e, group_at-found m name g e),
  (slot-put name _ m, refl),
)

calls-set_each :
    (rs : Dict ℕ) (qos : DataReaderQos) (m : Manager)
    → set_each_reader_qos rs qos m
      ≡ record m { calls = after (map (λ (k, r). reader_set_qos r qos) rs) m.calls }
unfolding set_each_reader_qos
calls-set_each [] qos m = refl
calls-set_each ((k, r) ∷ rs) qos m = calls-set_each rs qos (call (reader_set_qos r qos) m)

pub set_reader_qos-found :
    (name : Text) (qos : DataReaderQos) (m : Manager) (g : TopicGroup)
    → slot m name ≡ found g
    → (m' : Manager) × (set_reader_qos name qos m ≡ done m')
      × Holds m' name
          (record g { data_reader_qos = qos })
          (after (map (λ (k, r). reader_set_qos r qos) g.readers) m.calls)
unfolding set_reader_qos put_group
set_reader_qos-found name qos m g e = (
  put_group name (record g { data_reader_qos = qos }) (set_each_reader_qos g.readers qos m),
  rw (ensure_group-found name m g e, group_at-found m name g e),
  (slot-put name _ (set_each_reader_qos g.readers qos m), rw (calls-set_each g.readers qos m)),
)

pub set_writer_qos-bare :
    (name : Text) (qos : DataWriterQos) (m : Manager) (g : TopicGroup)
    → slot m name ≡ found g
    → g.writer ≡ none
    → (m' : Manager) × (set_writer_qos name qos m ≡ done m')
      × Holds m' name (record g { data_writer_qos = qos }) m.calls
unfolding set_writer_qos put_group
set_writer_qos-bare name qos m g e bare = (
  put_group name (record g { data_writer_qos = qos }) m,
  rw (ensure_group-found name m g e, group_at-found m name g e, bare),
  (slot-put name _ m, refl),
)

abbrev pub with_preset : QosType → Manager → TopicGroup → TopicGroup
with_preset qos m g = record g {
  topic_qos = topic_preset qos m.order;
  data_reader_qos = reader_preset qos m.order;
  data_writer_qos = writer_preset qos m.order;
  qos_preset = some qos;
}

apply_preset-found :
    (name : Text) (qos : QosType) (m : Manager) (g : TopicGroup)
    → slot m name ≡ found g
    → g.readers ≡ []
    → g.writer ≡ none
    → (m' : Manager) × (apply_preset name qos m ≡ done (true, m'))
      × Holds m' name (with_preset qos m g) m.calls
unfolding apply_preset put_group
apply_preset-found name qos m g e unread unwritten =
    let (m₁, e₁, (s₁, c₁)) = set_topic_qos-found name (topic_preset qos m.order) m g e in
    let (m₂, e₂, (s₂, c₂)) = set_reader_qos-found name (reader_preset qos m.order) m₁ _ s₁ in
    let (m₃, e₃, (s₃, c₃)) =
      set_writer_qos-bare name (writer_preset qos m.order) m₂ _ s₂ unwritten in
    let calls : m₃.calls ≡ m.calls = c₃ ∙ c₂ ∙ rw unread c₁ in
    (
      put_group name (with_preset qos m g) m₃,
      rw (e₁, e₂, e₃, group_at-found m₃ name _ s₃),
      (slot-put name _ m₃, calls),
    )

register_qos-unset :
    (name : Text) (qos : QosType) (m : Manager) (g : TopicGroup)
    → slot m name ≡ found g
    → g.qos_preset ≡ none
    → register_qos name qos m ≡ apply_preset name qos m
unfolding register_qos
register_qos-unset name qos m g e unset = rw (e, register_qos, unset)

-- The group that `registerTopic` works on: the one that a setter made before, or a new one.
abbrev pub StartsFrom : Manager → Text → TopicGroup → Type 0
StartsFrom m name g = (slot m name ≡ found g) ⊎ ((slot m name ≡ missing) × (g ≡ new_group m.order))

register_topic-starts :
    (d : Dds) (type_name name : Text) (qos : QosType) (m : Manager) (g : TopicGroup) (p : ℕ)
    → m.participant ≡ some p
    → StartsFrom m name g
    → g.topic ≡ none
    → (stored : Bool) × (register_topic d type_name name qos m
        ≡ register_with d type_name name qos stored g m)
unfolding register_topic
register_topic-starts d type_name name qos m g p joined starts bare = elim starts [
  | inl e ↦ (true, ground arith)
  | inr (e, new) ↦ (false, ground arith)
]

module _ (d : Dds) (type_name name : Text) (qos : QosType) (m : Manager) (g : TopicGroup) (t : ℕ)
    (no_writer : g.writer ≡ none) (no_readers : g.readers ≡ []) (no_preset : g.qos_preset ≡ none)
    (made : d.object (create_topic name type_name g.topic_qos ∷ register_type type_name ∷ m.calls)
      ≡ some t) where
  unfoldable pub with_topic : TopicGroup
  with_topic = record g {
    type_name = type_name;
    topic = some t;
    domain = m.participant;
    listener = true;
  }

  pub create_topic_for-made :
      (stored : Bool)
      → (m' : Manager) × (create_topic_for d name qos stored
            (record g { type_name = type_name })
            (call (register_type type_name) m)
          ≡ done (true, m'))
        × Holds m' name
            (with_preset qos m with_topic)
            (create_topic name type_name g.topic_qos ∷ register_type type_name ∷ m.calls)
  unfolding create_topic_for with_topic put_group
  create_topic_for-made stored =
      let m₁ =
        put_group name with_topic
          (call (create_topic name type_name g.topic_qos) (call (register_type type_name) m)) in
      let (m', e, h) =
        apply_preset-found name qos m₁ with_topic (slot-put name with_topic _) no_readers
          no_writer in
      (
        m',
        rw
            (
              create_topic_for,
              made,
              register_qos-unset name qos m₁ with_topic (slot-put name with_topic _) no_preset,
            )
            e,
        h,
      )

module _ (d : Dds) (type_name name : Text) (qos : QosType) (m : Manager) (g : TopicGroup) (p t : ℕ)
    (joined : m.participant ≡ some p) (starts : StartsFrom m name g) (no_topic : g.topic ≡ none)
    (no_writer : g.writer ≡ none) (no_readers : g.readers ≡ []) (no_preset : g.qos_preset ≡ none)
    (made : d.object (create_topic name type_name g.topic_qos ∷ register_type type_name ∷ m.calls)
      ≡ some t) where
  -- Registering a topic that OpenDDS can make, in a group that has no topic, reader, writer or preset
  -- yet: it returns true, and the group has the topic and the three QoS of the preset, whatever QoS
  -- it had. But the topic itself was created with the QoS that the group had before.
  pub register_topic-made :
      (m' : Manager) × (register_topic d type_name name qos m ≡ done (true, m'))
      × (slot m' name
          ≡ found (record g {
            type_name = type_name;
            topic = some t;
            domain = m.participant;
            listener = true;
            topic_qos = topic_preset qos m.order;
            data_reader_qos = reader_preset qos m.order;
            data_writer_qos = writer_preset qos m.order;
            qos_preset = some qos;
          }))
      × (m'.calls ≡ create_topic name type_name g.topic_qos ∷ register_type type_name ∷ m.calls)
  unfolding register_topic register_with with_topic
  register_topic-made =
      let (stored, begins) =
        register_topic-starts d type_name name qos m g p joined starts no_topic in
      let (m', made_it, h) =
        create_topic_for-made d type_name name qos m g t no_writer no_readers no_preset made
          stored in
      (m', begins ∙ made_it, h.0, h.1)
