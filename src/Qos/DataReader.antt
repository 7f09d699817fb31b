-- ===== src/Qos/DataReader.antt =====
-- The namespace `QosDictionary::DataReader` and the `init` that it calls (src/qos_dictionary.cpp). Each
-- takes the value of `getTimestampPolicy()`.
use open_ddw.Base.{true, false, [], ◌∷◌}
use open_ddw.Qos.{
  DataReaderQos, OrderKind, duration_zero, duration_infinite, unlimited_resources,
  volatile_durability, transient_local_durability, keep_last_history, keep_all_history,
  automatic_liveliness, best_effort_reliability, reliable_reliability, shared_ownership,
  allow_type_coercion, xcdr, xcdr2,
}

pub init : OrderKind → DataReaderQos
init order = record {
  type_consistency = record {
    kind = allow_type_coercion;
    prevent_type_widening = false;
    ignore_sequence_bounds = true;
    ignore_string_bounds = true;
    ignore_member_names = false;
    force_type_validation = false;
  };
  durability = volatile_durability;
  deadline = duration_infinite;
  latency_budget = duration_zero;
  liveliness = record { kind = automatic_liveliness; lease_duration = duration_infinite };
  reliability = record { kind = best_effort_reliability; max_blocking_time = duration_infinite };
  destination_order = order;
  history = record { kind = keep_last_history; depth = 1 };
  resource_limits = unlimited_resources;
  ownership = shared_ownership;
  minimum_separation = duration_zero;
  autopurge_nowriter_samples_delay = record { sec = 5; nanosec = 0 };
  autopurge_disposed_samples_delay = record { sec = 5; nanosec = 0 };
  representation = xcdr ∷ xcdr2 ∷ [];
}

unfoldable pub best_effort : OrderKind → DataReaderQos
unfolding init
best_effort order =
    let qos = init order in
    record qos {
      durability = volatile_durability;
      reliability = record (qos.reliability) { kind = best_effort_reliability };
    }

unfoldable pub latest_reliable_transient : OrderKind → DataReaderQos
unfolding init
latest_reliable_transient order =
    let qos = init order in
    record qos {
      durability = transient_local_durability;
      reliability = record (qos.reliability) { kind = reliable_reliability };
    }

unfoldable pub latest_reliable : OrderKind → DataReaderQos
unfolding init
latest_reliable order =
    let qos = init order in
    record qos {
      durability = volatile_durability;
      reliability = record (qos.reliability) { kind = reliable_reliability };
    }

unfoldable pub strict_reliable : OrderKind → DataReaderQos
unfolding init
strict_reliable order =
    let qos = init order in
    record qos {
      durability = volatile_durability;
      reliability = record (qos.reliability) { kind = reliable_reliability };
      history = record (qos.history) { kind = keep_all_history };
    }
