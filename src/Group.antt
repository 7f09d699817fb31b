-- ===== src/Group.antt =====
-- `DDSManager::TopicGroup` (src/dds_manager.h) and its constructor (src/dds_manager.cpp): what the
-- manager keeps for a topic.
pub mod Teardown
use open_ddw.Base.{
  ℕ, ◌≡◌, Bool, true, false, Option, none, some, List, [], ◌∷◌, implies, is_some, is_empty, not,
  if◌then◌else◌, arith, refl,
}
use open_ddw.Base.Text.{Text}
use open_ddw.Base.Dict.{Dict, All, keys}
use open_ddw.Qos.{
  OrderKind, TopicQos, DataReaderQos, DataWriterQos, GroupQos, QosType, latest_reliable_transient,
}
use open_ddw.Qos.Topic
use open_ddw.Qos.DataReader
use open_ddw.Qos.DataWriter
use open_ddw.Qos.Groups.{subscriber_default_qos, publisher_default_qos}
use open_ddw.Emitter.{Emitter}
use open_ddw.Emitter.Listen.{IsConsistent}

-- `GenericReaderListener` and `GenericWriterListener`: `m_handler`.
pub record GenericListener : Type 0 where
  pub handler : Option ℕ

-- A `std::unique_ptr` is an `Option`, or a flag where nothing reads what it holds. `qos_preset` is
-- `none` for the -1 of the source.
pub record TopicGroup : Type 0 where
  pub type_name : Text
  pub domain : Option ℕ
  pub topic : Option ℕ
  pub publisher : Option ℕ
  pub subscriber : Option ℕ
  pub writer : Option ℕ
  pub topic_qos : TopicQos
  pub pub_qos : GroupQos
  pub sub_qos : GroupQos
  pub data_writer_qos : DataWriterQos
  pub data_reader_qos : DataReaderQos
  pub reader_listeners : Dict GenericListener
  pub listener : Bool
  pub writer_listener : Option GenericListener
  pub qos_preset : Option QosType
  pub filtered_topics : Dict ℕ
  pub readers : Dict ℕ
  pub emitters : Dict Emitter

unfoldable pub new_group : OrderKind → TopicGroup
new_group order = record {
  type_name = [];
  domain = none;
  topic = none;
  publisher = none;
  subscriber = none;
  writer = none;
  topic_qos = Topic.latest_reliable_transient order;
  pub_qos = publisher_default_qos;
  sub_qos = subscriber_default_qos;
  data_writer_qos = DataWriter.latest_reliable_transient order;
  data_reader_qos = DataReader.latest_reliable_transient order;
  reader_listeners = [];
  listener = false;
  writer_listener = none;
  qos_preset = none;
  filtered_topics = [];
  readers = [];
  emitters = [];
}

-- What holds of every group that the manager keeps, for the manager's participant: each object that
-- is there stands on the objects that it needs, each reader and writer has its listener, and an
-- emitter has a thread exactly if it counts as running.
pub record IsValid (participant : Option ℕ) (g : TopicGroup) : Type 0 where
  pub topic_domain : g.domain ≡ (if is_some g.topic then participant else none)
  pub topic_participant : implies (is_some g.topic) (is_some participant) ≡ true
  pub publisher_topic : implies (is_some g.publisher) (is_some g.topic) ≡ true
  pub subscriber_topic : implies (is_some g.subscriber) (is_some g.topic) ≡ true
  pub writer_publisher : implies (is_some g.writer) (is_some g.publisher) ≡ true
  pub writer_has_listener : is_some g.writer_listener ≡ is_some g.writer
  pub readers_subscriber : implies (not (is_empty g.readers)) (is_some g.subscriber) ≡ true
  pub filters_subscriber : implies (not (is_empty g.filtered_topics)) (is_some g.subscriber) ≡ true
  pub readers_have_listeners : keys g.reader_listeners ≡ keys g.readers
  pub emitters_consistent : All IsConsistent g.emitters

pub new_group-IsValid :
    (participant : Option ℕ) (order : OrderKind) → IsValid participant (new_group order)
unfolding new_group
new_group-IsValid participant order = ground arith

pub new_group-topic : (order : OrderKind) → (new_group order).topic ≡ none
unfolding new_group
new_group-topic order = refl
