-- ===== src/Tests/Locking.antt =====
-- Tests and instances of the theorems on threads that share a manager.
use open_ddw.Base.{ℕ, ◌≤◌, ◌≡◌, ◌⊎◌, refl, true, false, List, [], ◌∷◌, arith}
use open_ddw.Locks.{Program, finish, lock, unlock, look, change, test, both, exclusive, Mutex, free}
use open_ddw.Locks.Steps.{Reach, lock_exclusive, looks, holds, fails, first, second, begin, next}
use open_ddw.Locks.Calls.{
  create_publisher_program, unregister_topic_program, read_callbacks_program,
}
use open_ddw.Locks.Clients.{Call, Client, stop, all_clients, client_program, call_program}
use open_ddw.Locks.Progress.{size, CanStep, calls_return}
use open_ddw.Locks.Races.{ComeTo, changes_of, uses_of, topics_guarded, setters_race}
use open_ddw.Locks.Simple.{
  SimpleCall, SimpleClient, pub_map, sub_map, sub_map_race, all_simple_clients,
  simple_client_program, simple_program, publisher_program, write_program, pub_map_guarded,
}
use open_ddw.Locks.Relocks.{GetsStuck, relocks-GetsStuck, read_callbacks-GetsStuck}
use open_ddw.Base.Text.{text_discrete}
use open_ddw.Base.Dict.{lookup, insert}
use open_ddw.Qos.{by_source_timestamp, strict_reliable}
use open_ddw.Dds.{done}
use open_ddw.Group.{new_group, new_group-IsValid}
use open_ddw.Group.Teardown.{deletions, after}
use open_ddw.Manager.{Manager, new_manager, slot, found, put_group}
use open_ddw.Manager.Publish.{create_publisher}
use open_ddw.Manager.Interrupted.{
  unregister_shared, register_qos_among, ghost, register_qos_among-unregistered,
}
use open_ddw.Manager.Valid.{IsWell, put_group-IsWell}
use open_ddw.Tests.{granting, alarms, joined}

-- One thread unregisters a topic, another one creates a publisher.
abbrev threads : List Client
threads =
    Client.call Call.unregister_topic stop stop ∷ Client.call Call.create_publisher stop stop ∷ []

abbrev one_writer : Mutex
one_writer = record { readers = 0; writers = 1 }

-- The first is about to remove the topic, the second waits.
abbrev removing : Program
removing =
    both (change (unlock exclusive finish))
      (both (lock exclusive (look (test (unlock exclusive finish) (unlock exclusive finish))))
        finish finish)
      finish

abbrev to_removal : Reach true (all_clients threads) 3 one_writer removing
unfolding all_clients client_program call_program unregister_topic_program create_publisher_program
to_removal = next (next (next begin (first (lock_exclusive refl refl))) (first looks)) (first holds)

calls_return_example :
    (3 ≤ size (all_clients threads))
    × (((removing ≡ finish) × (one_writer ≡ free)) ⊎ CanStep one_writer removing)
calls_return_example = calls_return threads 3 one_writer removing refl to_removal

topics_guarded_example : uses_of removing ≡ 1
topics_guarded_example = topics_guarded threads 3 one_writer removing refl to_removal (omega arith)

-- One thread publishes, another one writes a sample.
abbrev writers : List SimpleClient
writers =
    SimpleClient.call SimpleCall.publisher SimpleClient.stop SimpleClient.stop
    ∷ SimpleClient.call SimpleCall.write SimpleClient.stop SimpleClient.stop
    ∷ []

-- The first is about to write the map, the second to look for the topic.
abbrev mapping : Program
mapping =
    both (change (unlock exclusive finish))
      (both
        (lock exclusive
          (look (test (unlock exclusive (test finish finish)) (unlock exclusive finish))))
        finish finish)
      finish

abbrev to_mapping : Reach true (all_simple_clients pub_map writers) 3 one_writer mapping
unfolding all_simple_clients simple_client_program simple_program publisher_program write_program
to_mapping =
    next (next (next begin (first holds)) (first (lock_exclusive refl refl))) (second (first fails))

pub_map_guarded_example : uses_of mapping ≤ 1
pub_map_guarded_example = pub_map_guarded writers 3 one_writer mapping to_mapping

sub_map_race_example :
    (n : ℕ) × (p : Program) × Reach true
      (all_simple_clients sub_map (
        SimpleClient.call SimpleCall.subscriber SimpleClient.stop SimpleClient.stop
        ∷ SimpleClient.call SimpleCall.callback SimpleClient.stop SimpleClient.stop
        ∷ []))
      n
      free
      p
    × (changes_of p ≡ 2)
sub_map_race_example =
    sub_map_race SimpleClient.stop SimpleClient.stop SimpleClient.stop SimpleClient.stop

setters_race_example :
    ComeTo
      (Client.call Call.set_qos stop stop)
      (Client.call Call.set_qos stop stop)
      (record { readers = 2; writers = 0 })
      2
      2
    × ComeTo
        (Client.call Call.set_handler stop stop)
        (Client.call Call.unregister_topic stop stop)
        one_writer
        1
        2
setters_race_example = setters_race stop stop stop stop

relocks-GetsStuck_example : GetsStuck false (
    all_clients
      (Client.call Call.add_callback stop stop ∷ Client.call Call.create_publisher stop stop ∷ []))
relocks-GetsStuck_example = relocks-GetsStuck Call.add_callback stop stop stop stop refl

read_callbacks-GetsStuck_example :
    GetsStuck true (read_callbacks_program (λ p. create_publisher_program (λ b. p)) (λ b. finish))
read_callbacks-GetsStuck_example = read_callbacks-GetsStuck true (λ b p. p) (λ b. finish)

-- The topic has a group that a setter of QoS made.
abbrev prepared : Manager
unfolding put_group insert new_group new_manager
prepared = put_group alarms (new_group by_source_timestamp) joined

prepared-IsWell : IsWell prepared
unfolding new_manager prepared put_group
prepared-IsWell =
    put_group-IsWell alarms (new_group by_source_timestamp) joined
      (new_group-IsValid joined.participant by_source_timestamp) tt

register_qos_among-unregistered_example :
    (m' : Manager) × (register_qos_among granting
        (unregister_shared alarms)
        alarms
        strict_reliable
        prepared
      ≡ done (true, m'))
    × (slot m' alarms ≡ found (ghost strict_reliable prepared))
    × (m'.calls ≡ after (deletions (new_group by_source_timestamp)) prepared.calls)
    × (create_publisher granting alarms m' ≡ done (false, m'))
unfolding slot lookup put_group insert new_group new_manager text_discrete
register_qos_among-unregistered_example =
    register_qos_among-unregistered granting alarms strict_reliable prepared
      (new_group by_source_timestamp) prepared-IsWell refl refl
