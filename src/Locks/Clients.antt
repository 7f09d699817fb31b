-- ===== src/Locks/Clients.antt =====
-- Threads that call the functions of one `DDSManager`, each a call after the other, the next one by
-- what the last returned.
use open_ddw.Base.{ℕ, Bool, true, false, List, [], ◌∷◌, ◌&&◌, if◌then◌else◌}
use open_ddw.Locks.{Program, finish, both}
use open_ddw.Locks.Calls.{
  get_program, get_reader_program, set_qos_program, set_handler_program, register_qos_program,
  register_topic_program, unregister_topic_program, clean_up_program, add_partition_program,
  create_subscriber_program, create_publisher_program, create_publisher_subscriber_program,
  read_callbacks_program, add_data_listener_program, replace_filter_program,
  replace_filter_params_program, set_max_data_rate_program, add_callback_program,
}

-- `get` is a getter other than `getReader`, `set_qos` one of the five setters of QoS, `set_handler`
-- one of the two setters of handlers. In `read_callbacks` the user's callbacks do not call the
-- manager.
pub data Call : Type 0 where
  get get_reader set_qos set_handler register_qos register_topic unregister_topic : Call
  clean_up : ℕ → Call
  add_partition create_subscriber create_publisher create_publisher_subscriber : Call
  read_callbacks add_data_listener replace_filter replace_filter_params : Call
  set_max_data_rate add_callback : Call

unfoldable pub call_program : Call → (Bool → Program) → Program
call_program get next = get_program next
call_program get_reader next = get_reader_program next
call_program set_qos next = set_qos_program (next true)
call_program set_handler next = set_handler_program (next true)
call_program register_qos next = register_qos_program next
call_program register_topic next = register_topic_program next
call_program unregister_topic next = unregister_topic_program next
call_program (clean_up n) next = clean_up_program n next
call_program add_partition next = add_partition_program next
call_program create_subscriber next = create_subscriber_program next
call_program create_publisher next = create_publisher_program next
call_program create_publisher_subscriber next = create_publisher_subscriber_program next
call_program read_callbacks next = read_callbacks_program (λ p. p) next
call_program add_data_listener next = add_data_listener_program (next true)
call_program replace_filter next = replace_filter_program next
call_program replace_filter_params next = replace_filter_params_program next
call_program set_max_data_rate next = set_max_data_rate_program next
call_program add_callback next = add_callback_program next

-- A thread: it ends, or calls and goes on in the first way where the call returns `true`.
pub data Client : Type 0 where
  stop : Client
  call : Call → Client → Client → Client

unfoldable pub client_program : Client → Program
unfolding call_program
client_program stop = finish
client_program (call c c₁ c₂) =
    let p₁ = client_program c₁ in
    let p₂ = client_program c₂ in call_program c (λ b. if b then p₁ else p₂)

-- The threads of a program, and their end.
unfoldable pub all_clients : List Client → Program
unfolding client_program
all_clients [] = finish
all_clients (c ∷ cs) = both (client_program c) (all_clients cs) finish

-- All calls of a thread pass the test.
abbrev pub every : (Call → Bool) → Client → Bool
every test stop = true
every test (call c c₁ c₂) = test c && (every test c₁ && every test c₂)

abbrev pub all_every : (Call → Bool) → List Client → Bool
all_every test [] = true
all_every test (c ∷ cs) = every test c && all_every test cs

-- The functions that do not lock the mutex again while they have it.
abbrev pub locks_once : Call → Bool
locks_once replace_filter_params = false
locks_once add_callback = false
locks_once _ = true

-- Those of them that also look at the keys of `m_topics` under a lock only, and change them under
-- an exclusive lock only.
abbrev pub guards_topics : Call → Bool
guards_topics set_qos = false
guards_topics set_handler = false
guards_topics register_qos = false
guards_topics register_topic = false
guards_topics replace_filter = false
guards_topics replace_filter_params = false
guards_topics add_callback = false
guards_topics _ = true
