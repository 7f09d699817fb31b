-- ===== src/Locks/Calls.antt =====
-- The public functions of `DDSManager` (src/dds_manager.cpp, src/dds_manager.hpp) as programs on
-- the mutex. The argument `next` is what the caller does with the result of the call.
use open_ddw.Base.{ℕ, zero, suc, Bool, true, false, if◌then◌else◌}
use open_ddw.Locks.{
  Program, finish, lock, unlock, look, change, test, both, Mode, shared, exclusive,
}

-- Returns `true` or `false`, the lock released by its destructor.
abbrev leave : Mode → (Bool → Program) → Program
leave mode next = test (unlock mode (next true)) (unlock mode (next false))

-- A function that is one section: it looks up the topic and returns with the lock.
abbrev section : Mode → (Bool → Program) → Program
section mode next = lock mode (look (leave mode next))

-- The getters, `true` where there is an object. `getReader` does not lock where the name is empty.
unfoldable pub get_program : (Bool → Program) → Program
get_program next = section shared next

unfoldable pub get_reader_program : (Bool → Program) → Program
get_reader_program next = test (section shared next) (next false)

-- The setters of QoS make the group where the topic has none.
unfoldable pub set_qos_program : Program → Program
set_qos_program next = lock shared (look (test (change (unlock shared next)) (unlock shared next)))

-- The setters of handlers loop over `m_topics` with no lock.
unfoldable pub set_handler_program : Program → Program
set_handler_program next = look next

unfoldable pub register_qos_program : (Bool → Program) → Program
unfolding set_qos_program
register_qos_program next =
    let return_true = next true in
    let return_false = next false in
    let store_preset = lock shared (unlock shared return_true) in
    let set_all = set_qos_program (set_qos_program (set_qos_program store_preset)) in
    lock shared (
      look (
        test (unlock shared (test return_true (test set_all return_false)))
          (unlock shared return_false)))

-- From the type's registration on, no lock is held until the group is stored. A marshalling failure
-- and the exception without a participant release the lock as a return does.
unfoldable pub register_topic_program : (Bool → Program) → Program
unfolding register_qos_program
register_topic_program next =
    let store = lock exclusive (change (unlock exclusive (register_qos_program next))) in
    let return_false = next false in
    let return_true = next true in
    lock shared (
      test (look (test (unlock shared (test store return_false)) (unlock shared return_true)))
        (unlock shared return_false))

unfoldable pub unregister_topic_program : (Bool → Program) → Program
unregister_topic_program next =
    let return_true = next true in
    let return_false = next false in
    lock exclusive
      (look (test (change (unlock exclusive return_true)) (unlock exclusive return_false)))

-- The asynchronous calls of `unregisterTopic`, one for each topic.
unfoldable pub unregister_each_program : ℕ → Program
unfolding unregister_topic_program
unregister_each_program zero = finish
unregister_each_program (suc n) =
    both (unregister_topic_program (λ b. finish)) (unregister_each_program n) finish

-- With `n` topics. The asynchronous calls may begin while the loop that starts them has the lock.
unfoldable pub clean_up_program : ℕ → (Bool → Program) → Program
unfolding unregister_each_program
clean_up_program n next = lock exclusive (
    look (
      both (unlock exclusive finish) (unregister_each_program n)
        (lock exclusive (change (leave exclusive next)))))

unfoldable pub add_partition_program : (Bool → Program) → Program
add_partition_program next = section shared next

unfoldable pub create_subscriber_program : (Bool → Program) → Program
create_subscriber_program next = test (section shared next) (next false)

unfoldable pub create_publisher_program : (Bool → Program) → Program
create_publisher_program next = section exclusive next

unfoldable pub create_publisher_subscriber_program : (Bool → Program) → Program
unfolding create_publisher_program create_subscriber_program
create_publisher_subscriber_program next =
    create_publisher_program (λ pass. if pass then create_subscriber_program next else next false)

-- `readQueue` calls the user's callbacks in the section; `callbacks` is what they do before they go
-- on with what they are given.
unfoldable pub read_callbacks_program : (Program → Program) → (Bool → Program) → Program
read_callbacks_program callbacks next =
    let return_true = next true in
    let return_false = next false in
    lock shared (
      test (look (test (callbacks (unlock shared return_true)) (unlock shared return_false)))
        (unlock shared return_false))

unfoldable pub add_data_listener_program : Program → Program
unfolding get_reader_program
add_data_listener_program next = test (get_reader_program (λ b. next)) next

-- `m_topics[topicName]` inserts where the topic has gone since `getReader` found it.
unfoldable pub replace_filter_program : (Bool → Program) → Program
unfolding get_program get_reader_program
replace_filter_program next =
    let return_false = next false in
    let body = lock shared (look (test (change (leave shared next)) (leave shared next))) in
    let with_reader = get_reader_program (λ b. if b then body else return_false) in
    test (get_program (λ b. if b then with_reader else return_false)) return_false

-- `getSubscriber` and `getReader` are called with the lock held.
unfoldable pub replace_filter_params_program : (Bool → Program) → Program
unfolding get_program get_reader_program
replace_filter_params_program next =
    let return_false = next false in
    let release = unlock shared return_false in
    let with_reader = get_reader_program (λ b. if b then look (leave shared next) else release) in
    let with_name = lock shared (get_program (λ b. if b then with_reader else release)) in
    test with_name return_false

unfoldable pub set_max_data_rate_program : (Bool → Program) → Program
unfolding get_program get_reader_program
set_max_data_rate_program next =
    let return_false = next false in
    let with_reader = get_program (λ b. next true) in
    test (get_reader_program (λ b. if b then with_reader else return_false)) return_false

-- `getReader` is called with the lock held.
unfoldable pub add_callback_program : (Bool → Program) → Program
unfolding get_reader_program
add_callback_program next =
    let return_true = next true in
    let return_false = next false in
    let add = test (unlock shared return_true) (unlock shared return_false) in
    let with_reader = get_reader_program (λ b. if b then add else unlock shared return_false) in
    lock shared (look (test with_reader (unlock shared return_false)))
