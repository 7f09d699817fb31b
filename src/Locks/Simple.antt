-- ===== src/Locks/Simple.antt =====
-- What the functions of `DDSSimpleManager` (src/dds_simple.h) do with `mutex_shr`, and with one of
-- the two maps that it stands for, `m_pubMap` and `m_subMap`. The other conditions are left open, and
-- the functions of `DDSManager`, which have a mutex of their own, are never called with this one
-- locked: what a thread does with that mutex, in `addCallback` too, is left out, so that a thread may
-- go on here where it waits there. Both `m_sharedLock` and `m_uniqueLock` are declared as a `std::unique_lock`, so every lock
-- is an exclusive one.
use open_ddw.Base.{ℕ, ◌≤◌, ◌≡◌, refl, Bool, true, false, List, [], ◌∷◌, arith, if◌then◌else◌}
use open_ddw.Locks.{
  Program, finish, lock, unlock, look, change, test, both, exclusive, Mutex, free, writers_of,
}
use open_ddw.Locks.Steps
use open_ddw.Locks.Steps.{Reach, holds, first, second}
use open_ddw.Locks.Count.{Reach-IsCounted}
use open_ddw.Locks.Idle.{IsIdle}
use open_ddw.Locks.Races.{changes_of, uses_of, IsGuarded, Reach-IsGuarded}

pub data TopicMap : Type 0 where
  pub_map sub_map : TopicMap

-- A use of the first map is seen where it is the second.
abbrev look_at : TopicMap → TopicMap → Program → Program
look_at pub_map pub_map p = look p
look_at sub_map sub_map p = look p
look_at _ _ p = p

abbrev change_of : TopicMap → TopicMap → Program → Program
change_of pub_map pub_map p = change p
change_of sub_map sub_map p = change p
change_of _ _ p = p

unfoldable pub publisher_program : TopicMap → (Bool → Program) → Program
publisher_program seen next =
    let return_true = next true in
    let return_false = next false in
    test (lock exclusive (change_of pub_map seen (unlock exclusive return_true))) return_false

-- `m_subMap` is written with no lock, whether there is a reader or not.
unfoldable pub subscriber_program : TopicMap → (Bool → Program) → Program
subscriber_program seen next =
    let return_true = next true in
    let return_false = next false in
    test (change_of sub_map seen return_true) (change_of sub_map seen return_false)

-- Without a reader it returns before the map is written.
unfoldable pub callback_program : TopicMap → (Bool → Program) → Program
callback_program seen next =
    let return_true = next true in
    let return_false = next false in
    test (test (change_of sub_map seen return_true) (change_of sub_map seen return_false))
      return_false

-- `Write` and `Dispose`: the map gives the topic where the caller names none.
unfoldable pub write_program : TopicMap → (Bool → Program) → Program
write_program seen next =
    let return_false = next false in
    let sends = test (next true) return_false in
    test sends (
      lock exclusive
        (look_at pub_map seen (test (unlock exclusive sends) (unlock exclusive return_false))))

-- `GetNumberOfSubscribers` and `GetNumberOfPublishers`: the lock is released before the wait.
-- `true` is a positive number.
unfoldable pub get_number_program : TopicMap → TopicMap → (Bool → Program) → Program
get_number_program map seen next =
    let return_false = next false in
    let waits = test (next true) return_false in
    lock exclusive
      (look_at map seen (test (unlock exclusive waits) (unlock exclusive return_false)))

-- `GetSubscriberAddress` and `GetPublisherAddress`, `true` where the map has the type.
unfoldable pub get_address_program : TopicMap → TopicMap → (Bool → Program) → Program
get_address_program map seen next =
    let found = next true in
    let missing = next false in
    lock exclusive (look_at map seen (test (unlock exclusive found) (unlock exclusive missing)))

-- `subscriber` is `Listener` too where that returns, `write` is `WriteWID` too, and the calls with
-- `number` are `WaitForSubscriber` and `WaitForPublisher` too. The message handler does not call the
-- manager.
pub data SimpleCall : Type 0 where
  publisher subscriber callback write dispose : SimpleCall
  number_of_subscribers number_of_publishers subscriber_address publisher_address : SimpleCall

unfoldable pub simple_program : TopicMap → SimpleCall → (Bool → Program) → Program
simple_program seen publisher next = publisher_program seen next
simple_program seen subscriber next = subscriber_program seen next
simple_program seen callback next = callback_program seen next
simple_program seen write next = write_program seen next
simple_program seen dispose next = write_program seen next
simple_program seen number_of_subscribers next = get_number_program pub_map seen next
simple_program seen number_of_publishers next = get_number_program sub_map seen next
simple_program seen subscriber_address next = get_address_program pub_map seen next
simple_program seen publisher_address next = get_address_program sub_map seen next

-- A thread: it ends, or calls and goes on in the first way where the call returns `true`.
pub data SimpleClient : Type 0 where
  stop : SimpleClient
  call : SimpleCall → SimpleClient → SimpleClient → SimpleClient

unfoldable pub simple_client_program : TopicMap → SimpleClient → Program
unfolding simple_program
simple_client_program seen stop = finish
simple_client_program seen (call c c₁ c₂) =
    let p₁ = simple_client_program seen c₁ in
    let p₂ = simple_client_program seen c₂ in simple_program seen c (λ b. if b then p₁ else p₂)

unfoldable pub all_simple_clients : TopicMap → List SimpleClient → Program
unfolding simple_client_program
all_simple_clients seen [] = finish
all_simple_clients seen (c ∷ cs) =
    both (simple_client_program seen c) (all_simple_clients seen cs) finish

-- Without the mutex before and after, and the map is used with an exclusive lock only.
abbrev IsSafe : Program → Type 0
IsSafe p = IsIdle p × IsGuarded writers_of p

simple_program-IsSafe :
    (next : Bool → Program) (c : SimpleCall)
    → IsSafe (next true)
    → IsSafe (next false)
    → IsSafe (simple_program pub_map c next)
unfolding simple_program publisher_program subscriber_program callback_program write_program
    get_number_program get_address_program
simple_program-IsSafe next c t f = ground arith

simple_client_program-IsSafe : (c : SimpleClient) → IsSafe (simple_client_program pub_map c)
unfolding simple_client_program
simple_client_program-IsSafe stop = ground arith
simple_client_program-IsSafe (call c c₁ c₂) =
    simple_program-IsSafe
      (λ b. if b then simple_client_program pub_map c₁ else simple_client_program pub_map c₂) c
      (simple_client_program-IsSafe c₁) (simple_client_program-IsSafe c₂)

all_simple_clients-IsSafe : (cs : List SimpleClient) → IsSafe (all_simple_clients pub_map cs)
unfolding all_simple_clients
all_simple_clients-IsSafe [] = ground arith
all_simple_clients-IsSafe (c ∷ cs) =
    ground (arith, simple_client_program-IsSafe c, all_simple_clients-IsSafe cs)

uses-le-writers : (p : Program) → IsGuarded writers_of p → uses_of p ≤ writers_of p
uses-le-writers (look p) g = omega arith
uses-le-writers (change p) g = omega arith
uses-le-writers (both p q r) g = omega (arith, uses-le-writers p g.0, uses-le-writers q g.1)
uses-le-writers p g = omega arith

-- Threads that call any functions of one `DDSSimpleManager`, with a message handler that does not
-- call it, use `m_pubMap` one at a time, those that only read it too: in every state that they
-- reach, at most one is about to look at the map or to change it.
pub pub_map_guarded :
    (cs : List SimpleClient) (n : ℕ) (x : Mutex) (p : Program)
    → Reach true (all_simple_clients pub_map cs) n x p
    → uses_of p ≤ 1
pub_map_guarded cs n x p r =
    let s = all_simple_clients-IsSafe cs in
    let c = Reach-IsCounted s.0.1 s.0.0 r in
    let u = uses-le-writers p (Reach-IsGuarded writers_of s.1 r) in
    ground (arith, c.writers, c.exclusive)

-- Two threads, one that calls `Subscriber` and one that calls `Callback` for a topic that gets a
-- reader, may both be about to write `m_subMap`, while none of them has `mutex_shr`.
pub sub_map_race :
    (c₁ c₂ d₁ d₂ : SimpleClient)
    → (n : ℕ) × (p : Program) × Reach true
        (all_simple_clients sub_map (call subscriber c₁ c₂ ∷ call callback d₁ d₂ ∷ []))
        n
        free
        p
      × (changes_of p ≡ 2)
unfolding all_simple_clients simple_client_program simple_program subscriber_program
    callback_program
sub_map_race c₁ c₂ d₁ d₂ =
    let p₁ = change (simple_client_program sub_map c₁) in
    let p₂ = change (simple_client_program sub_map d₁) in
    (
      3,
      both p₁ (both p₂ finish finish) finish,
      Steps.next (Steps.next (Steps.next Steps.begin (first holds)) (second (first holds)))
          (second (first holds)),
      refl,
    )
