-- ===== src/Manager/Register.antt =====
-- `registerTopic` (src/dds_manager.hpp, as it is built without OPENDDW_PRECPP11), `registerQos`,
-- `unregisterTopic` and `cleanUpTopicsForOneManager` (src/dds_manager.cpp).
use open_ddw.Base.{
  Bool, true, false, Option, none, some, List, [], ◌∷◌, ◌&&◌, ◌||◌, is_some, if◌then◌else◌,
}
use open_ddw.Base.Text.{Text, text, same}
use open_ddw.Base.Dict.{Dict, erase}
use open_ddw.Qos.{QosType}
use open_ddw.Qos.Presets.{topic_preset, reader_preset, writer_preset}
use open_ddw.Dds.{
  Dds, Trace, Outcome, done, null_dereference, throws, ◌>>=◌, register_type, create_topic,
}
use open_ddw.Group.{TopicGroup, new_group}
use open_ddw.Group.Teardown.{teardown}
use open_ddw.Manager.{Manager, missing, null, found, slot, call, put_group}
use open_ddw.Manager.Settings.{group_at, set_topic_qos, set_reader_qos, set_writer_qos}

-- The `switch` and what follows it. A `QosType` has the four values of the enumeration, so the
-- `default` case has no counterpart.
unfoldable pub apply_preset : Text → QosType → Manager → Outcome (Bool × Manager)
unfolding set_topic_qos set_reader_qos set_writer_qos
apply_preset name qos_type m = do
  m₁ ← set_topic_qos name (topic_preset qos_type m.order) m
  m₂ ← set_reader_qos name (reader_preset qos_type m.order) m₁
  m₃ ← set_writer_qos name (writer_preset qos_type m.order) m₂
  g ← group_at m₃ name
  done (true, put_group name (record g { qos_preset = some qos_type }) m₃)

unfoldable pub register_qos : Text → QosType → Manager → Outcome (Bool × Manager)
unfolding slot
register_qos name qos_type m = elim (slot m name) [
  | missing ↦ done (false, m)
  | null ↦ null_dereference
  | found g ↦ if is_some g.qos_preset then done (true, m) else apply_preset name qos_type m
]

abbrev pub failed_participant : Text
failed_participant =
    text "Failed to initialize domain participant. Is there an error in your OpenDDS.ini file?"

-- The topics that the loop starts a thread for: those whose pointer is not null.
unfoldable pub started : Dict (Option TopicGroup) → List Text
started [] = []
started ((name, none) ∷ topics) = started topics
started ((name, some g) ∷ topics) = name ∷ started topics

abbrev pub member : Text → List Text → Bool
member name [] = false
member name (j ∷ js) = same name j || member name js

abbrev pub without : Text → List Text → List Text
without name [] = []
without name (j ∷ js) = let rest = without name js in if same name j then rest else j ∷ rest

-- The threads, each once: first those that `schedule` names, in its order, then the others.
unfoldable pub in_order : List Text → List Text → List Text
in_order [] waiting = waiting
in_order (name ∷ schedule) waiting =
    let next = in_order schedule (without name waiting) in
    let skip = in_order schedule waiting in if member name waiting then name ∷ next else skip

module _ (d : Dds) where
  -- From the creation of the topic on, with the group as it is by then. `stored` says whether it is
  -- the one in `m_topics`, which then sees each write.
  unfoldable pub create_topic_for :
      Text → QosType → Bool → TopicGroup → Manager → Outcome (Bool × Manager)
  create_topic_for name qos_type stored g m =
      let m₁ = call (create_topic name g.type_name g.topic_qos) m in
      elim (d.object m₁.calls) [
        | none ↦ done (false, if stored then put_group name (record g { topic = none }) m₁ else m₁)
        | some t ↦ register_qos name qos_type (
            put_group name (record g { topic = some t; domain = m.participant; listener = true })
              m₁)
      ]

  -- What follows the choice of the group: the type is registered under its name.
  unfoldable pub register_with :
      Text → Text → QosType → Bool → TopicGroup → Manager → Outcome (Bool × Manager)
  unfolding create_topic_for
  register_with type_name name qos_type stored g m =
      create_topic_for name qos_type stored (record g { type_name = type_name })
        (call (register_type type_name) m)

  -- `type_name` is what the type support of `TopicType` is called.
  unfoldable pub register_topic : Text → Text → QosType → Manager → Outcome (Bool × Manager)
  unfolding slot register_with
  register_topic type_name name qos_type m =
      if is_some m.participant
      then (elim (slot m name) [
        | missing ↦ register_with type_name name qos_type false (new_group m.order) m
        | null ↦ done (true, m)
        | found g ↦
            if is_some g.topic
            then done (true, m)
            else register_with type_name name qos_type true g m
      ])
      else throws failed_participant

  -- The group is erased first and torn down after.
  unfoldable pub unregister_topic : Text → Manager → Outcome (Bool × Manager)
  unfolding slot
  unregister_topic name m = elim (slot m name) [
    | missing ↦ done (false, m)
    | null ↦ done (false, m)
    | found g ↦ teardown d g m.calls >>= λ calls.
        done (true, record m { topics = erase name m.topics; calls = calls })
  ]

  -- The asynchronous calls of `unregisterTopic`, in the order in which they come to the lock, and
  -- the conjunction of what they return.
  unfoldable pub unregister_all : List Text → Bool → Manager → Outcome (Bool × Manager)
  unfolding unregister_topic
  unregister_all [] all_clear m = done (all_clear, m)
  unregister_all (name ∷ names) all_clear m =
      unregister_topic name m >>= λ (b, m'). unregister_all names (all_clear && b) m'

  -- `m_topics.clear()`, which destroys what the threads have left.
  unfoldable pub clear_topics : Dict (Option TopicGroup) → Trace → Outcome Trace
  unfolding teardown
  clear_topics [] calls = done calls
  clear_topics ((name, none) ∷ topics) calls = clear_topics topics calls
  clear_topics ((name, some g) ∷ topics) calls =
      teardown d g calls >>= λ calls'. clear_topics topics calls'

  -- A thread for each topic; `schedule` says in which order they come to the lock.
  unfoldable pub clean_up_topics : List Text → Manager → Outcome (Bool × Manager)
  unfolding unregister_all clear_topics started in_order
  clean_up_topics schedule m =
      unregister_all (in_order schedule (started m.topics)) true m >>= λ (b, m').
      clear_topics m'.topics m'.calls >>= λ calls.
      done (b, record m' { topics = []; calls = calls })
