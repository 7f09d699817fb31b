-- ===== src/Qos/Topic.antt =====
-- The namespace `QosDictionary::Topic` and the `init` that it calls (src/qos_dictionary.cpp). Each
-- takes the value of `getTimestampPolicy()`.
use open_ddw.Base.{[], ◌∷◌}
use open_ddw.Qos.{
  TopicQos, OrderKind, duration_zero, duration_infinite, unlimited_resources, volatile_durability,
  transient_local_durability, keep_last_history, keep_all_history, automatic_liveliness,
  best_effort_reliability, reliable_reliability, shared_ownership,
}
use open_ddw.Qos.Timestamps.{get_data_representation_type}

pub init : OrderKind → TopicQos
init order = record {
  topic_data = [];
  durability = volatile_durability;
  durability_service = record {
    service_cleanup_delay = duration_zero;
    history = record { kind = keep_last_history; depth = 1 };
    limits = unlimited_resources;
  };
  deadline = duration_infinite;
  latency_budget = duration_zero;
  liveliness = record { kind = automatic_liveliness; lease_duration = duration_infinite };
  reliability = record { kind = best_effort_reliability; max_blocking_time = duration_infinite };
  destination_order = order;
  history = record { kind = keep_last_history; depth = 1 };
  resource_limits = unlimited_resources;
  transport_priority = 0;
  lifespan = duration_infinite;
  ownership = shared_ownership;
  representation = get_data_representation_type ∷ [];
}

unfoldable pub best_effort : OrderKind → TopicQos
unfolding init
best_effort order =
    let qos = init order in
    record qos {
      durability = volatile_durability;
      reliability = record (qos.reliability) { kind = best_effort_reliability };
    }

unfoldable pub latest_reliable_transient : OrderKind → TopicQos
unfolding init
latest_reliable_transient order =
    let qos = init order in
    record qos {
      durability = transient_local_durability;
      reliability = record (qos.reliability) { kind = reliable_reliability };
    }

unfoldable pub latest_reliable : OrderKind → TopicQos
unfolding init
latest_reliable order =
    let qos = init order in
    record qos {
      durability = volatile_durability;
      reliability = record (qos.reliability) { kind = reliable_reliability };
    }

unfoldable pub strict_reliable : OrderKind → TopicQos
unfolding init
strict_reliable order =
    let qos = init order in
    record qos {
      durability = volatile_durability;
      reliability = record (qos.reliability) { kind = reliable_reliability };
      history = record (qos.history) { kind = keep_all_history };
    }
