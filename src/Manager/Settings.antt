-- ===== src/Manager/Settings.antt =====
-- The functions of `DDSManager` that set QoS, partitions and status handlers (src/dds_manager.cpp).
use open_ddw.Base.{◌≡◌, ℕ, Bool, true, false, Option, none, some, [], ◌∷◌, ◌++◌, if◌then◌else◌}
use open_ddw.Base.Text.{Text}
use open_ddw.Base.Dict.{Dict, contains}
use open_ddw.Qos.{TopicQos, DataReaderQos, DataWriterQos, GroupQos}
use open_ddw.Dds.{
  Event, Outcome, done, null_dereference, ◌>>=◌, publisher_set_qos, subscriber_set_qos,
  writer_set_qos, reader_set_qos,
}
use open_ddw.Group.{TopicGroup, GenericListener, new_group}
use open_ddw.Manager.{Manager, missing, null, found, slot, call, put_group}

-- The group that a setter makes where the topic has none.
unfoldable pub ensure_group : Text → Manager → Manager
ensure_group name m = if contains name m.topics then m else put_group name (new_group m.order) m

-- `m_topics[name]->`
unfoldable pub group_at : Manager → Text → Outcome TopicGroup
unfolding slot
group_at m name = elim (slot m name) [
  | missing ↦ null_dereference
  | null ↦ null_dereference
  | found g ↦ done g
]

pub group_at-found :
    (m : Manager) (name : Text) (g : TopicGroup) → slot m name ≡ found g → group_at m name ≡ done g
unfolding group_at
group_at-found m name g e = rw (e, group_at)

-- A call on an object that may not be there yet.
abbrev pub call_if : Option ℕ → (ℕ → Event) → Manager → Manager
call_if none event m = m
call_if (some x) event m = call (event x) m

unfoldable pub set_topic_qos : Text → TopicQos → Manager → Outcome Manager
unfolding group_at
set_topic_qos name qos m = do
  let m₁ = ensure_group name m
  g ← group_at m₁ name
  done (put_group name (record g { topic_qos = qos }) m₁)

unfoldable pub set_publisher_qos : Text → GroupQos → Manager → Outcome Manager
unfolding group_at
set_publisher_qos name qos m = do
  let m₁ = ensure_group name m
  g ← group_at m₁ name
  let m₂ = call_if g.publisher (λ p. publisher_set_qos p qos) m₁
  done (put_group name (record g { pub_qos = qos }) m₂)

unfoldable pub set_subscriber_qos : Text → GroupQos → Manager → Outcome Manager
unfolding group_at
set_subscriber_qos name qos m = do
  let m₁ = ensure_group name m
  g ← group_at m₁ name
  let m₂ = call_if g.subscriber (λ s. subscriber_set_qos s qos) m₁
  done (put_group name (record g { sub_qos = qos }) m₂)

unfoldable pub set_writer_qos : Text → DataWriterQos → Manager → Outcome Manager
unfolding group_at
set_writer_qos name qos m = do
  let m₁ = ensure_group name m
  g ← group_at m₁ name
  let m₂ = call_if g.writer (λ w. writer_set_qos w qos) m₁
  done (put_group name (record g { data_writer_qos = qos }) m₂)

-- The loop over the readers.
unfoldable pub set_each_reader_qos : Dict ℕ → DataReaderQos → Manager → Manager
set_each_reader_qos [] qos m = m
set_each_reader_qos ((k, r) ∷ rs) qos m = set_each_reader_qos rs qos (call (reader_set_qos r qos) m)

unfoldable pub set_reader_qos : Text → DataReaderQos → Manager → Outcome Manager
unfolding group_at
set_reader_qos name qos m = do
  let m₁ = ensure_group name m
  g ← group_at m₁ name
  let m₂ = set_each_reader_qos g.readers qos m₁
  done (put_group name (record g { data_reader_qos = qos }) m₂)

unfoldable pub add_partition : Text → Text → Manager → Outcome (Bool × Manager)
unfolding slot
add_partition name partition_name m = elim (slot m name) [
  | missing ↦ done (false, m)
  | null ↦ done (false, m)
  | found g ↦ done (
    true,
    put_group name
        (record g {
          sub_qos = record (g.sub_qos) { partition = g.sub_qos.partition ++ partition_name ∷ [] };
          pub_qos = record (g.pub_qos) { partition = g.pub_qos.partition ++ partition_name ∷ [] };
        })
        m,
  )
]

-- The loops over the groups and their listeners. The keys and their order stay.
unfoldable pub handle_readers : Option ℕ → Dict GenericListener → Dict GenericListener
handle_readers handler [] = []
handle_readers handler ((k, l) ∷ ls) =
    (k, record l { handler = handler }) ∷ handle_readers handler ls

unfoldable pub handle_topic_readers :
    Option ℕ → Dict (Option TopicGroup) → Outcome (Dict (Option TopicGroup))
unfolding handle_readers
handle_topic_readers handler [] = done []
handle_topic_readers handler ((k, none) ∷ ts) = null_dereference
handle_topic_readers handler ((k, some g) ∷ ts) = handle_topic_readers handler ts >>= λ ts'.
    done
      ((k, some (record g { reader_listeners = handle_readers handler g.reader_listeners })) ∷ ts')

unfoldable pub set_reader_listener_handler : Option ℕ → Manager → Outcome Manager
unfolding handle_topic_readers
set_reader_listener_handler handler m = do
  topics ← handle_topic_readers handler m.topics
  done (record m { rl_handler = handler; topics = topics })

-- `topicGroup.second->m_writerListener->SetHandler(m_wlHandler)`: both pointers may be null.
unfoldable pub handle_topic_writers :
    Option ℕ → Dict (Option TopicGroup) → Outcome (Dict (Option TopicGroup))
handle_topic_writers handler [] = done []
handle_topic_writers handler ((k, none) ∷ ts) = null_dereference
handle_topic_writers handler ((k, some g) ∷ ts) =
    let rest = handle_topic_writers handler ts in
    elim g.writer_listener [
      | none ↦ null_dereference
      | some l ↦ rest >>= λ ts'.
          done
            ((k, some (record g { writer_listener = some (record l { handler = handler }) })) ∷ ts')
    ]

unfoldable pub set_writer_listener_handler : Option ℕ → Manager → Outcome Manager
unfolding handle_topic_writers
set_writer_listener_handler handler m = do
  topics ← handle_topic_writers handler m.topics
  done (record m { wl_handler = handler; topics = topics })
