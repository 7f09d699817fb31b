-- ===== src/Locks.antt =====
-- How threads share a `DDSManager`: what its functions do with `m_topicMutex`, a
-- `std::shared_mutex` (src/dds_manager.h), and with the keys of `m_topics` that it guards. The other
-- conditions of the functions are left open: each may come out either way. The module Simple has
-- `mutex_shr` of `DDSSimpleManager` (src/dds_simple.h) in the same way.
pub mod Calls
pub mod Clients
pub mod Steps
pub mod Count
pub mod Idle
pub mod Progress
pub mod Races
pub mod Relocks
pub mod Simple
use open_ddw.Base.{ℕ, zero, suc, ◌+◌, Bool, true, false}

-- `std::shared_lock` and `std::unique_lock`
pub data Mode : Type 0 where
  shared exclusive : Mode

-- What a thread still has to do. `look` is a `find` in `m_topics`, `change` an insertion or the
-- removal of a key. `test` goes on in one of two ways. `both` is two threads, and what follows once
-- both are finished.
pub data Program : Type 0 where
  finish : Program
  lock unlock : Mode → Program → Program
  look change : Program → Program
  test : Program → Program → Program
  both : Program → Program → Program → Program

-- How many threads have the mutex locked, shared and exclusively: a thread that locks next has it
-- not, one that unlocks next has it, and one that does something else has it if it has it after.
abbrev pub readers_of : Program → ℕ
readers_of finish = 0
readers_of (lock mode p) = 0
readers_of (unlock shared p) = 1
readers_of (unlock exclusive p) = 0
readers_of (look p) = readers_of p
readers_of (change p) = readers_of p
readers_of (test p q) = readers_of p
readers_of (both p q r) = readers_of p + readers_of q

abbrev pub writers_of : Program → ℕ
writers_of finish = 0
writers_of (lock mode p) = 0
writers_of (unlock shared p) = 0
writers_of (unlock exclusive p) = 1
writers_of (look p) = writers_of p
writers_of (change p) = writers_of p
writers_of (test p q) = writers_of p
writers_of (both p q r) = writers_of p + writers_of q

-- The state of the mutex.
pub record Mutex : Type 0 where
  pub readers : ℕ
  pub writers : ℕ

abbrev pub free : Mutex
free = record { readers = 0; writers = 0 }
