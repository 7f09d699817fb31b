-- ===== src/Qos/Matching.antt =====
-- Which writers the presets let match which readers, by the request-offer rules of the DDS
-- specification: each offered policy must be at least what the reader requests.
use open_ddw.Base.{ℕ, ◌≡◌, Bool, false, ◌&&◌, ◌||◌, List, [], ◌∷◌, arith, ltb, leb, ◌==◌}
use open_ddw.Qos.{
  QosType, latest_reliable_transient, latest_reliable, strict_reliable, best_effort, OrderKind,
  by_reception_timestamp, by_source_timestamp, Duration, DurabilityKind, volatile_durability,
  transient_local_durability, transient_durability, persistent_durability, ReliabilityKind,
  best_effort_reliability, reliable_reliability, LivelinessKind, automatic_liveliness,
  manual_by_participant_liveliness, manual_by_topic_liveliness, OwnershipKind, shared_ownership,
  exclusive_ownership, Representation, xcdr, xml, xcdr2, DataReaderQos, DataWriterQos,
}
use open_ddw.Qos.Presets.{reader_preset, writer_preset}

-- The kinds of a policy as the specification orders them.
abbrev durability_rank : DurabilityKind → ℕ
durability_rank volatile_durability = 0
durability_rank transient_local_durability = 1
durability_rank transient_durability = 2
durability_rank persistent_durability = 3

abbrev reliability_rank : ReliabilityKind → ℕ
reliability_rank best_effort_reliability = 0
reliability_rank reliable_reliability = 1

abbrev liveliness_rank : LivelinessKind → ℕ
liveliness_rank automatic_liveliness = 0
liveliness_rank manual_by_participant_liveliness = 1
liveliness_rank manual_by_topic_liveliness = 2

abbrev order_rank : OrderKind → ℕ
order_rank by_reception_timestamp = 0
order_rank by_source_timestamp = 1

abbrev ownership_rank : OwnershipKind → ℕ
ownership_rank shared_ownership = 0
ownership_rank exclusive_ownership = 1

abbrev representation_id : Representation → ℕ
representation_id xcdr = 0
representation_id xml = 1
representation_id xcdr2 = 2

abbrev within : Duration → Duration → Bool
within a b = ltb a.sec b.sec || (a.sec == b.sec && leb a.nanosec b.nanosec)

abbrev offers_representation : List Representation → List Representation → Bool
offers_representation [] requested = false
offers_representation (r ∷ _) [] = false
offers_representation (r ∷ rs) (q ∷ qs) =
    representation_id r == representation_id q || offers_representation (r ∷ rs) qs

-- The request-offer rules: a writer may serve a reader.
abbrev pub compatible : DataWriterQos → DataReaderQos → Bool
compatible w r =
    leb (durability_rank r.durability) (durability_rank w.durability)
    && leb (reliability_rank r.reliability.kind) (reliability_rank w.reliability.kind)
    && within w.deadline r.deadline
    && within w.latency_budget r.latency_budget
    && leb (liveliness_rank r.liveliness.kind) (liveliness_rank w.liveliness.kind)
    && within w.liveliness.lease_duration r.liveliness.lease_duration
    && leb (order_rank r.destination_order) (order_rank w.destination_order)
    && (ownership_rank r.ownership == ownership_rank w.ownership)
    && offers_representation w.representation r.representation

-- How much a preset promises.
abbrev pub strength : QosType → ℕ
strength best_effort = 0
strength latest_reliable = 1
strength strict_reliable = 1
strength latest_reliable_transient = 2

-- The writer of a topic with preset `p` may serve a reader with preset `q` exactly if `p` promises
-- at least as much as `q` and the reader's process does not ask for source timestamps where the
-- writer's has them distrusted.
pub compatible_presets :
    (p q : QosType) (offered requested : OrderKind)
    → compatible (writer_preset p offered) (reader_preset q requested)
      ≡ (leb (strength q) (strength p) && leb (order_rank requested) (order_rank offered))
unfolding reader_preset writer_preset
compatible_presets latest_reliable_transient q offered requested = ground arith
compatible_presets latest_reliable q offered requested = ground arith
compatible_presets strict_reliable q offered requested = ground arith
compatible_presets best_effort q offered requested = ground arith
