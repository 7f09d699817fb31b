-- ===== src/Manager.antt =====
-- `DDSManager` (src/dds_manager.h, src/dds_manager.cpp): its members, the look-up of a topic's group
-- and the getters. The functions take a lock of `m_topicMutex` around what they do with `m_topics`;
-- here each runs as a whole.
pub mod Settings
pub mod Register
pub mod Publish
pub mod Subscribe
pub mod Filter
pub mod Callbacks
pub mod Steps
pub mod Valid
pub mod Faults
pub mod Presets
pub mod Interrupted
pub mod Stages
pub mod Precpp11
pub mod Lifecycle
pub mod Readers
pub mod Rates
pub mod Samples
pub mod Footprint
pub mod Destroy
pub mod Addresses
use open_ddw.Base.{◌≡◌, arith, ℕ, Bool, Option, none, some, List, [], ◌∷◌, is_empty, if◌then◌else◌}
use open_ddw.Base.Text.{Text, same}
use open_ddw.Base.Dict.{Dict, lookup, insert, lookup-insert}
use open_ddw.Qos.{OrderKind, TopicQos, DataReaderQos, DataWriterQos, GroupQos}
use open_ddw.Qos.Topic
use open_ddw.Qos.DataReader
use open_ddw.Qos.DataWriter
use open_ddw.Qos.Groups.{subscriber_default_qos, publisher_default_qos}
use open_ddw.Dds.{Event, Trace, Outcome, done, null_dereference}
use open_ddw.Group.{TopicGroup, new_group}

-- `order` is the policy that the constructor made `getTimestampPolicy` fix; `calls` is what the
-- manager did to the outside. The pointers in `topics` may be null.
pub record Manager : Type 0 where
  pub participant : Option ℕ
  pub topics : Dict (Option TopicGroup)
  pub rl_handler : Option ℕ
  pub wl_handler : Option ℕ
  pub order : OrderKind
  pub calls : Trace

unfoldable pub new_manager : OrderKind → Manager
new_manager order = record {
  participant = none;
  topics = [];
  rl_handler = none;
  wl_handler = none;
  order = order;
  calls = [];
}

-- What `m_topics.find` comes to.
pub data Slot : Type 0 where
  missing null : Slot
  found : TopicGroup → Slot

abbrev pub slot_of : Option (Option TopicGroup) → Slot
slot_of none = missing
slot_of (some none) = null
slot_of (some (some g)) = found g

unfoldable pub slot : Manager → Text → Slot
slot m name = slot_of (lookup name m.topics)

abbrev pub call : Event → Manager → Manager
call event m = record m { calls = event ∷ m.calls }

-- A write through the shared pointer of the topic's group.
unfoldable pub put_group : Text → TopicGroup → Manager → Manager
put_group name g m = record m { topics = insert name (some g) m.topics }

-- `iter->second->`, where a missing topic has an answer of its own.
abbrev at_slot {ℓ} : {A : Type ℓ} → Slot → A → (TopicGroup → A) → Outcome A
at_slot missing default f = done default
at_slot null default f = null_dereference
at_slot (found g) default f = done (f g)

unfoldable pub get_topic : Manager → Text → Outcome (Option ℕ)
unfolding slot
get_topic m name = at_slot (slot m name) none (λ g. g.topic)

unfoldable pub get_publisher : Manager → Text → Outcome (Option ℕ)
unfolding slot
get_publisher m name = at_slot (slot m name) none (λ g. g.publisher)

unfoldable pub get_subscriber : Manager → Text → Outcome (Option ℕ)
unfolding slot
get_subscriber m name = at_slot (slot m name) none (λ g. g.subscriber)

unfoldable pub get_reader : Manager → Text → Text → Option ℕ
unfolding slot
get_reader m name reader = if is_empty reader then none else (elim (slot m name) [
  | missing ↦ none
  | null ↦ none
  | found g ↦ if is_empty g.readers then none else lookup reader g.readers
])

unfoldable pub get_writer : Manager → Text → Option ℕ
unfolding slot
get_writer m name = elim (slot m name) [ missing ↦ none | null ↦ none | found g ↦ g.writer ]

unfoldable pub get_topic_qos : Manager → Text → Outcome TopicQos
unfolding slot
get_topic_qos m name =
    at_slot (slot m name) (Topic.latest_reliable_transient m.order) (λ g. g.topic_qos)

unfoldable pub get_publisher_qos : Manager → Text → Outcome GroupQos
unfolding slot
get_publisher_qos m name = at_slot (slot m name) publisher_default_qos (λ g. g.pub_qos)

unfoldable pub get_subscriber_qos : Manager → Text → Outcome GroupQos
unfolding slot
get_subscriber_qos m name = at_slot (slot m name) subscriber_default_qos (λ g. g.sub_qos)

unfoldable pub get_writer_qos : Manager → Text → Outcome DataWriterQos
unfolding slot
get_writer_qos m name =
    at_slot (slot m name) (DataWriter.latest_reliable_transient m.order) (λ g. g.data_writer_qos)

unfoldable pub get_reader_qos : Manager → Text → Outcome DataReaderQos
unfolding slot
get_reader_qos m name =
    at_slot (slot m name) (DataReader.latest_reliable_transient m.order) (λ g. g.data_reader_qos)

pub slot-put_group :
    (j k : Text) (g : TopicGroup) (m : Manager)
    → slot (put_group k g m) j ≡ (if same j k then found g else slot m j)
unfolding slot put_group
slot-put_group j k g m = rw (lookup-insert j k (some g) m.topics) (ground arith)
