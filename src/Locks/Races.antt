-- ===== src/Locks/Races.antt =====
-- Which functions use the keys of `m_topics` without a race, and which do not.
use open_ddw.Base.{
  ℕ, zero, suc, ◌+◌, ◌≤◌, ◌<◌, ◌≡◌, inl, refl, Bool, true, false, List, [], ◌∷◌, arith,
  if◌then◌else◌,
}
use open_ddw.Locks.{
  Program, finish, lock, unlock, look, change, test, both, shared, exclusive, Mutex, readers_of,
  writers_of,
}
use open_ddw.Locks.Steps.{
  Step, Reach, lock_shared, lock_exclusive, unlock_shared, unlock_exclusive, looks, changes, holds,
  fails, first, second, joins, begin, next,
}
use open_ddw.Locks.Calls.{
  get_program, get_reader_program, set_qos_program, set_handler_program, unregister_topic_program,
  unregister_each_program, clean_up_program, add_partition_program, create_subscriber_program,
  create_publisher_program, create_publisher_subscriber_program, read_callbacks_program,
  add_data_listener_program, set_max_data_rate_program,
}
use open_ddw.Locks.Clients.{
  Call, Client, stop, call_program, client_program, all_clients, every, all_every, locks_once,
  guards_topics,
}
use open_ddw.Locks.Count.{Reach-IsCounted}
use open_ddw.Locks.Idle.{all_clients-IsIdle, unregister_each_program-IsIdle}

-- How many threads are about to change the keys, and how many to look at or to change them.
abbrev pub changes_of : Program → ℕ
changes_of (change p) = 1
changes_of (both p q r) = changes_of p + changes_of q
changes_of _ = 0

abbrev pub uses_of : Program → ℕ
uses_of (look p) = 1
uses_of (change p) = 1
uses_of (both p q r) = uses_of p + uses_of q
uses_of _ = 0

-- A look with one of the locks that `locks` counts, a change with an exclusive one.
abbrev pub IsGuarded : (Program → ℕ) → Program → Type 0
IsGuarded locks finish = Unit {0}
IsGuarded locks (lock mode p) = IsGuarded locks p
IsGuarded locks (unlock mode p) = IsGuarded locks p
IsGuarded locks (look p) = (locks p ≡ 1) × IsGuarded locks p
IsGuarded locks (change p) = (writers_of p ≡ 1) × IsGuarded locks p
IsGuarded locks (test p q) = IsGuarded locks p × IsGuarded locks q
IsGuarded locks (both p q r) = IsGuarded locks p × IsGuarded locks q × IsGuarded locks r

-- A lock of either kind.
abbrev holders_of : Program → ℕ
holders_of p = readers_of p + writers_of p

Step-IsGuarded :
    (locks : Program → ℕ) {beside : Bool} {x y : Mutex} {p q : Program}
    → Step beside x p y q
    → IsGuarded locks p
    → IsGuarded locks q
Step-IsGuarded locks (lock_shared w r) g = g
Step-IsGuarded locks (lock_exclusive w r) g = g
Step-IsGuarded locks unlock_shared g = g
Step-IsGuarded locks unlock_exclusive g = g
Step-IsGuarded locks looks g = g.1
Step-IsGuarded locks changes g = g.1
Step-IsGuarded locks holds g = g.0
Step-IsGuarded locks fails g = g.1
Step-IsGuarded locks (first s) g = (Step-IsGuarded locks s g.0, g.1, g.2)
Step-IsGuarded locks (second s) g = (g.0, Step-IsGuarded locks s g.1, g.2)
Step-IsGuarded locks joins g = g.2

pub Reach-IsGuarded :
    (locks : Program → ℕ) {beside : Bool} {start : Program} {n : ℕ} {x : Mutex} {p : Program}
    → IsGuarded locks start
    → Reach beside start n x p
    → IsGuarded locks p
Reach-IsGuarded locks g begin = g
Reach-IsGuarded locks g (next r s) = Step-IsGuarded locks s (Reach-IsGuarded locks g r)

changes-le : (p : Program) → IsGuarded holders_of p → changes_of p ≤ writers_of p
changes-le (change p) g = omega arith
changes-le (both p q r) g = omega (arith, changes-le p g.0, changes-le q g.1)
changes-le p g = omega arith

uses-le : (p : Program) → IsGuarded holders_of p → uses_of p ≤ readers_of p + writers_of p
uses-le (look p) g = omega arith
uses-le (change p) g = omega arith
uses-le (both p q r) g = omega (arith, uses-le p g.0, uses-le q g.1)
uses-le p g = omega arith

changes-le-uses : (p : Program) → changes_of p ≤ uses_of p
changes-le-uses (change p) = omega arith
changes-le-uses (both p q r) = omega (arith, changes-le-uses p, changes-le-uses q)
changes-le-uses p = omega arith

unregister_each_program-IsGuarded : (n : ℕ) → IsGuarded holders_of (unregister_each_program n)
unfolding unregister_each_program unregister_topic_program
unregister_each_program-IsGuarded zero = omega arith
unregister_each_program-IsGuarded (suc n) = ground (arith, unregister_each_program-IsGuarded n)

call_program-IsGuarded :
    (k : Bool → Program) (c : Call)
    → guards_topics c ≡ true
    → IsGuarded holders_of (k true)
    → IsGuarded holders_of (k false)
    → IsGuarded holders_of (call_program c k)
unfolding call_program get_program get_reader_program unregister_topic_program clean_up_program
    add_partition_program create_subscriber_program create_publisher_program
    create_publisher_subscriber_program read_callbacks_program add_data_listener_program
    set_max_data_rate_program
call_program-IsGuarded k (Call.clean_up n) h t f =
    ground (arith, unregister_each_program-IsGuarded n, unregister_each_program-IsIdle n)
call_program-IsGuarded k c h t f = ground arith

client_program-IsGuarded :
    (c : Client) → every guards_topics c ≡ true → IsGuarded holders_of (client_program c)
unfolding client_program
client_program-IsGuarded stop h = tt
client_program-IsGuarded (Client.call c c₁ c₂) h =
    call_program-IsGuarded (λ b. if b then client_program c₁ else client_program c₂) c
      (ground arith) (client_program-IsGuarded c₁ (ground arith))
      (client_program-IsGuarded c₂ (ground arith))

all_clients-IsGuarded :
    (cs : List Client) → all_every guards_topics cs ≡ true → IsGuarded holders_of (all_clients cs)
unfolding all_clients
all_clients-IsGuarded [] h = tt
all_clients-IsGuarded (c ∷ cs) h =
    (client_program-IsGuarded c (ground arith), all_clients-IsGuarded cs (ground arith), tt)

guards_topics-locks_once : (c : Call) → guards_topics c ≡ true → locks_once c ≡ true
guards_topics-locks_once (Call.clean_up n) h = refl
guards_topics-locks_once c h = ground arith

every-locks_once : (c : Client) → every guards_topics c ≡ true → every locks_once c ≡ true
every-locks_once stop h = refl
every-locks_once (Client.call c c₁ c₂) h =
    ground (arith, guards_topics-locks_once c, every-locks_once c₁, every-locks_once c₂)

all_every-locks_once :
    (cs : List Client) → all_every guards_topics cs ≡ true → all_every locks_once cs ≡ true
all_every-locks_once [] h = refl
all_every-locks_once (c ∷ cs) h = ground (arith, every-locks_once c, all_every-locks_once cs)

-- Threads that call any functions of one manager but the setters of QoS and of handlers,
-- `registerTopic`, `registerQos`, `replaceFilter`, `replaceFilterParams` and `addCallback`, use the
-- keys of `m_topics` without a race: in every state that they reach, while one is about to insert
-- or to remove a key, no other is about to look at the keys or to change them.
pub topics_guarded :
    (cs : List Client) (n : ℕ) (x : Mutex) (p : Program)
    → all_every guards_topics cs ≡ true
    → Reach true (all_clients cs) n x p
    → 0 < changes_of p
    → uses_of p ≡ 1
topics_guarded cs n x p guarded r some =
    let idle = all_clients-IsIdle cs (all_every-locks_once cs guarded) in
    let c = Reach-IsCounted idle.1 idle.0 r in
    let g = Reach-IsGuarded holders_of (all_clients-IsGuarded cs guarded) r in
    let a = changes-le p g in
    let b = uses-le p g in let d = changes-le-uses p in ground (arith, c.readers, c.writers)

-- Two threads come to a state where `x` is the mutex, `changing` of them are about to insert or to
-- remove a key, and `using` to look at the keys or to change them.
abbrev pub ComeTo : Client → Client → Mutex → ℕ → ℕ → Type 0
ComeTo c₁ c₂ x changing using =
    (n : ℕ) × (p : Program) × Reach true (all_clients (c₁ ∷ c₂ ∷ [])) n x p
    × (changes_of p ≡ changing)
    × (uses_of p ≡ using)

-- Two threads that set a QoS of topics without a group may both be about to insert a key, under a
-- shared lock each. A thread that sets a handler may be about to loop over the keys, with no lock,
-- while another one, that unregisters a topic, is about to remove one with the only lock.
pub setters_race :
    (c₁ c₂ d₁ d₂ : Client)
    → ComeTo
        (Client.call Call.set_qos c₁ c₂)
        (Client.call Call.set_qos d₁ d₂)
        (record { readers = 2; writers = 0 })
        2
        2
      × ComeTo
          (Client.call Call.set_handler c₁ c₂)
          (Client.call Call.unregister_topic d₁ d₂)
          (record { readers = 0; writers = 1 })
          1
          2
unfolding all_clients client_program call_program set_qos_program set_handler_program
    unregister_topic_program
setters_race c₁ c₂ d₁ d₂ =
    let p₁ = client_program c₁ in
    let p₂ = client_program d₁ in
    let q₁ = change (unlock shared p₁) in
    let q₂ = change (unlock shared p₂) in
    let q₃ = change (unlock exclusive p₂) in
    let two_locks =
      next (next begin (first (lock_shared refl (inl refl))))
        (second (first (lock_shared refl (inl refl)))) in
    let two_found =
      next (next (next (next two_locks (first looks)) (first holds)) (second (first looks)))
        (second (first holds)) in
    let removal =
      next (next (next begin (second (first (lock_exclusive refl refl)))) (second (first looks)))
        (second (first holds)) in
    (
      (6, both q₁ (both q₂ finish finish) finish, two_found, refl, refl),
      (3, both (look p₁) (both q₃ finish finish) finish, removal, refl, refl),
    )
