-- ===== src/Locks/Idle.antt =====
-- The functions of `DDSManager` that do not lock the mutex again while they have it: each returns
-- with every lock released, and so does a thread that calls only them.
use open_ddw.Base.{ℕ, zero, suc, ◌≡◌, Bool, true, false, List, [], ◌∷◌, arith, if◌then◌else◌}
use open_ddw.Locks.{Program}
use open_ddw.Locks.Calls.{
  get_program, get_reader_program, set_qos_program, set_handler_program, register_qos_program,
  register_topic_program, unregister_topic_program, unregister_each_program, clean_up_program,
  add_partition_program, create_subscriber_program, create_publisher_program,
  create_publisher_subscriber_program, read_callbacks_program, add_data_listener_program,
  replace_filter_program, set_max_data_rate_program,
}
use open_ddw.Locks.Clients.{
  Call, Client, stop, call_program, client_program, all_clients, every, all_every, locks_once,
}
use open_ddw.Locks.Count.{IsPaired, HoldsNone}

abbrev pub IsIdle : Program → Type 0
IsIdle p = HoldsNone p × IsPaired p

pub unregister_each_program-IsIdle : (n : ℕ) → IsIdle (unregister_each_program n)
unfolding unregister_each_program unregister_topic_program
unregister_each_program-IsIdle zero = omega arith
unregister_each_program-IsIdle (suc n) = ground (arith, unregister_each_program-IsIdle n)

module _ (next : Bool → Program) (t : IsIdle (next true)) (f : IsIdle (next false)) where
  register_qos_program-IsIdle : IsIdle (register_qos_program next)
  unfolding register_qos_program set_qos_program
  register_qos_program-IsIdle = ground arith

  register_topic_program-IsIdle : IsIdle (register_topic_program next)
  unfolding register_topic_program
  register_topic_program-IsIdle = ground (arith, register_qos_program-IsIdle)

  create_subscriber_program-IsIdle : IsIdle (create_subscriber_program next)
  unfolding create_subscriber_program
  create_subscriber_program-IsIdle = ground arith

  clean_up_program-IsIdle : (n : ℕ) → IsIdle (clean_up_program n next)
  unfolding clean_up_program
  clean_up_program-IsIdle n = ground (arith, unregister_each_program-IsIdle n)

  call_program-IsIdle : (c : Call) → locks_once c ≡ true → IsIdle (call_program c next)
  unfolding call_program get_program get_reader_program set_qos_program set_handler_program
      unregister_topic_program add_partition_program create_publisher_program
      create_publisher_subscriber_program read_callbacks_program add_data_listener_program
      replace_filter_program set_max_data_rate_program
  call_program-IsIdle Call.register_qos h = register_qos_program-IsIdle
  call_program-IsIdle Call.register_topic h = register_topic_program-IsIdle
  call_program-IsIdle (Call.clean_up n) h = clean_up_program-IsIdle n
  call_program-IsIdle Call.create_publisher_subscriber h =
      ground (arith, create_subscriber_program-IsIdle)
  call_program-IsIdle c h = ground arith

client_program-IsIdle : (c : Client) → every locks_once c ≡ true → IsIdle (client_program c)
unfolding client_program
client_program-IsIdle stop h = omega arith
client_program-IsIdle (Client.call c c₁ c₂) h =
    call_program-IsIdle (λ b. if b then client_program c₁ else client_program c₂)
      (client_program-IsIdle c₁ (ground arith)) (client_program-IsIdle c₂ (ground arith)) c
      (ground arith)

pub all_clients-IsIdle :
    (cs : List Client) → all_every locks_once cs ≡ true → IsIdle (all_clients cs)
unfolding all_clients
all_clients-IsIdle [] h = omega arith
all_clients-IsIdle (c ∷ cs) h =
    let i = client_program-IsIdle c (ground arith) in
    let is = all_clients-IsIdle cs (ground arith) in ground arith
