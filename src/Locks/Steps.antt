-- ===== src/Locks/Steps.antt =====
-- The steps of threads over one `std::shared_mutex`, in any order.
use open_ddw.Base.{ℕ, ◌+◌, ◌-◌, ◌≡◌, ◌⊎◌, Bool, true}
use open_ddw.Locks.{
  Program, finish, lock, unlock, look, change, test, both, shared, exclusive, Mutex, free,
}

-- A shared lock waits for a writer that has the mutex, an exclusive one until it is free. `beside`
-- says whether a reader may enter beside others: a mutex may make it wait, as for a writer that
-- waits.
pub data Step (beside : Bool) : Mutex → Program → Mutex → Program → Type 0 where
  lock_shared :
      {x : Mutex} {p : Program}
      → x.writers ≡ 0
      → (beside ≡ true) ⊎ (x.readers ≡ 0)
      → Step beside x (lock shared p) (record x { readers = x.readers + 1 }) p
  lock_exclusive :
      {x : Mutex} {p : Program}
      → x.writers ≡ 0
      → x.readers ≡ 0
      → Step beside x (lock exclusive p) (record x { writers = x.writers + 1 }) p
  unlock_shared :
      {x : Mutex} {p : Program}
      → Step beside x (unlock shared p) (record x { readers = x.readers - 1 }) p
  unlock_exclusive :
      {x : Mutex} {p : Program}
      → Step beside x (unlock exclusive p) (record x { writers = x.writers - 1 }) p
  looks : {x : Mutex} {p : Program} → Step beside x (look p) x p
  changes : {x : Mutex} {p : Program} → Step beside x (change p) x p
  holds : {x : Mutex} {p q : Program} → Step beside x (test p q) x p
  fails : {x : Mutex} {p q : Program} → Step beside x (test p q) x q
  first :
      {x y : Mutex} {p p' q r : Program}
      → Step beside x p y p'
      → Step beside x (both p q r) y (both p' q r)
  second :
      {x y : Mutex} {p q q' r : Program}
      → Step beside x q y q'
      → Step beside x (both p q r) y (both p q' r)
  joins : {x : Mutex} {r : Program} → Step beside x (both finish finish r) x r

-- So many steps from the free mutex on.
pub data Reach (beside : Bool) (start : Program) : ℕ → Mutex → Program → Type 0 where
  begin : Reach beside start 0 free start
  next :
      {n : ℕ} {x y : Mutex} {p q : Program}
      → Reach beside start n x p
      → Step beside x p y q
      → Reach beside start (n + 1) y q
