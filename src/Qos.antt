-- ===== src/Qos.antt =====
-- The QoS records that src/qos_dictionary.cpp fills in, with the members that it assigns, and the
-- preset names of idl/std_qos.idl. The record types and the constants are those of the DDS
-- specification; the strings of a partition are texts, and user data are bytes.
pub mod Timestamps
pub mod Topic
pub mod DataReader
pub mod DataWriter
pub mod Groups
pub mod Presets
pub mod Matching
use open_ddw.Base.{ℕ, Bool, List}
use open_ddw.Base.Text.{Text}

pub data DurabilityKind : Type 0 where
  volatile_durability transient_local_durability transient_durability : DurabilityKind
  persistent_durability : DurabilityKind

pub data HistoryKind : Type 0 where
  keep_last_history keep_all_history : HistoryKind

pub data LivelinessKind : Type 0 where
  automatic_liveliness manual_by_participant_liveliness manual_by_topic_liveliness : LivelinessKind

pub data ReliabilityKind : Type 0 where
  best_effort_reliability reliable_reliability : ReliabilityKind

pub data OrderKind : Type 0 where
  by_reception_timestamp by_source_timestamp : OrderKind

pub data OwnershipKind : Type 0 where
  shared_ownership exclusive_ownership : OwnershipKind

pub data CoercionKind : Type 0 where
  disallow_type_coercion allow_type_coercion : CoercionKind

pub data Representation : Type 0 where
  xcdr xml xcdr2 : Representation

pub data AccessScope : Type 0 where
  instance_presentation topic_presentation group_presentation : AccessScope

-- A length: `DDS::LENGTH_UNLIMITED` is -1.
pub data Limit : Type 0 where
  unlimited : Limit
  limit : ℕ → Limit

pub record Duration : Type 0 where
  pub sec : ℕ
  pub nanosec : ℕ

abbrev pub duration_zero : Duration
duration_zero = record { sec = 0; nanosec = 0 }

-- `DURATION_INFINITE_SEC` and `DURATION_INFINITE_NSEC`
abbrev pub duration_infinite : Duration
duration_infinite = record { sec = 0x7fff_ffff; nanosec = 0x7fff_ffff }

pub record History : Type 0 where
  pub kind : HistoryKind
  pub depth : ℕ

pub record ResourceLimits : Type 0 where
  pub max_samples : Limit
  pub max_instances : Limit
  pub max_samples_per_instance : Limit

abbrev pub unlimited_resources : ResourceLimits
unlimited_resources = record {
  max_samples = unlimited;
  max_instances = unlimited;
  max_samples_per_instance = unlimited;
}

pub record DurabilityService : Type 0 where
  pub service_cleanup_delay : Duration
  pub history : History
  pub limits : ResourceLimits

pub record Liveliness : Type 0 where
  pub kind : LivelinessKind
  pub lease_duration : Duration

pub record Reliability : Type 0 where
  pub kind : ReliabilityKind
  pub max_blocking_time : Duration

pub record TypeConsistency : Type 0 where
  pub kind : CoercionKind
  pub prevent_type_widening : Bool
  pub ignore_sequence_bounds : Bool
  pub ignore_string_bounds : Bool
  pub ignore_member_names : Bool
  pub force_type_validation : Bool

pub record TopicQos : Type 0 where
  pub topic_data : List ℕ
  pub durability : DurabilityKind
  pub durability_service : DurabilityService
  pub deadline : Duration
  pub latency_budget : Duration
  pub liveliness : Liveliness
  pub reliability : Reliability
  pub destination_order : OrderKind
  pub history : History
  pub resource_limits : ResourceLimits
  pub transport_priority : ℕ
  pub lifespan : Duration
  pub ownership : OwnershipKind
  pub representation : List Representation

pub record DataReaderQos : Type 0 where
  pub type_consistency : TypeConsistency
  pub durability : DurabilityKind
  pub deadline : Duration
  pub latency_budget : Duration
  pub liveliness : Liveliness
  pub reliability : Reliability
  pub destination_order : OrderKind
  pub history : History
  pub resource_limits : ResourceLimits
  pub ownership : OwnershipKind
  pub minimum_separation : Duration
  pub autopurge_nowriter_samples_delay : Duration
  pub autopurge_disposed_samples_delay : Duration
  pub representation : List Representation

pub record DataWriterQos : Type 0 where
  pub durability : DurabilityKind
  pub durability_service : DurabilityService
  pub deadline : Duration
  pub latency_budget : Duration
  pub liveliness : Liveliness
  pub reliability : Reliability
  pub destination_order : OrderKind
  pub history : History
  pub resource_limits : ResourceLimits
  pub transport_priority : ℕ
  pub lifespan : Duration
  pub ownership : OwnershipKind
  pub ownership_strength : ℕ
  pub autodispose_unregistered_instances : Bool
  pub representation : List Representation

-- `PublisherQos` and `SubscriberQos` have the same members.
pub record GroupQos : Type 0 where
  pub access_scope : AccessScope
  pub coherent_access : Bool
  pub ordered_access : Bool
  pub partition : List Text
  pub group_data : List ℕ
  pub autoenable_created_entities : Bool

-- `STD_QOS::QosType`
pub data QosType : Type 0 where
  latest_reliable_transient latest_reliable strict_reliable best_effort : QosType
