-- ===== src/Locks/Count.antt =====
-- In every reachable state the mutex counts the threads that have it.
use open_ddw.Base.{ℕ, ◌+◌, ◌≤◌, ◌≡◌, ◌⊎◌, inl, inr, refl, Bool, arith}
use open_ddw.Locks.{
  Program, finish, lock, unlock, look, change, test, both, Mode, shared, exclusive, Mutex,
  readers_of, writers_of,
}
use open_ddw.Locks.Steps.{
  Step, Reach, lock_shared, lock_exclusive, unlock_shared, unlock_exclusive, looks, changes, holds,
  fails, first, second, joins, begin, next,
}

-- A thread has a lock from where it locks to where it unlocks, on every way, and none when it
-- locks or ends.
abbrev pub HoldsOnly : Mode → Program → Type 0
HoldsOnly shared p = (readers_of p ≡ 1) × (writers_of p ≡ 0)
HoldsOnly exclusive p = (readers_of p ≡ 0) × (writers_of p ≡ 1)

abbrev pub HoldsNone : Program → Type 0
HoldsNone p = (readers_of p ≡ 0) × (writers_of p ≡ 0)

abbrev pub SameHolds : Program → Program → Type 0
SameHolds p q = (readers_of p ≡ readers_of q) × (writers_of p ≡ writers_of q)

abbrev pub IsPaired : Program → Type 0
IsPaired finish = Unit {0}
IsPaired (lock mode p) = HoldsOnly mode p × IsPaired p
IsPaired (unlock mode p) = HoldsNone p × IsPaired p
IsPaired (look p) = IsPaired p
IsPaired (change p) = IsPaired p
IsPaired (test p q) = SameHolds p q × IsPaired p × IsPaired q
IsPaired (both p q r) = HoldsNone r × IsPaired p × IsPaired q × IsPaired r

-- The mutex in a state in which all threads are paired, beside `a` readers and `b` writers of other
-- threads.
abbrev Counts : ℕ → ℕ → Mutex → Program → Type 0
Counts a b x p = (x.readers ≡ a + readers_of p) × (x.writers ≡ b + writers_of p)

Step-Counts :
    {beside : Bool} {x y : Mutex} {p q : Program} (a b : ℕ)
    → Step beside x p y q
    → IsPaired p
    → Counts a b x p
    → IsPaired q × Counts a b y q
Step-Counts a b (lock_shared w r) i c = ground arith
Step-Counts a b (lock_exclusive w r) i c = ground arith
Step-Counts a b unlock_shared i c = ground arith
Step-Counts a b unlock_exclusive i c = ground arith
Step-Counts a b looks i c = ground arith
Step-Counts a b changes i c = ground arith
Step-Counts a b holds i c = ground arith
Step-Counts a b fails i c = ground arith
Step-Counts a b (first {q} s) i c =
    ground (arith, Step-Counts (a + readers_of q) (b + writers_of q) s i.1)
Step-Counts a b (second {p} s) i c =
    ground (arith, Step-Counts (a + readers_of p) (b + writers_of p) s i.2)
Step-Counts a b joins i c = ground arith

-- At most one writer, and no reader beside it.
abbrev pub IsExclusive : Mutex → Type 0
IsExclusive x = (x.writers ≤ 1) × ((x.writers ≡ 0) ⊎ (x.readers ≡ 0))

Step-IsExclusive :
    {beside : Bool} {x y : Mutex} {p q : Program}
    → Step beside x p y q
    → IsExclusive x
    → IsExclusive y
Step-IsExclusive (lock_shared w r) e = (ground arith, inl w)
Step-IsExclusive (lock_exclusive w r) e = (ground arith, inr r)
Step-IsExclusive unlock_shared e = ground arith
Step-IsExclusive unlock_exclusive e = ground arith
Step-IsExclusive looks e = e
Step-IsExclusive changes e = e
Step-IsExclusive holds e = e
Step-IsExclusive fails e = e
Step-IsExclusive (first s) e = Step-IsExclusive s e
Step-IsExclusive (second s) e = Step-IsExclusive s e
Step-IsExclusive joins e = e

pub record IsCounted (x : Mutex) (p : Program) : Type 0 where
  pub paired : IsPaired p
  pub readers : x.readers ≡ readers_of p
  pub writers : x.writers ≡ writers_of p
  pub exclusive : IsExclusive x

pub Reach-IsCounted :
    {beside : Bool} {start : Program} {n : ℕ} {x : Mutex} {p : Program}
    → IsPaired start
    → HoldsNone start
    → Reach beside start n x p
    → IsCounted x p
Reach-IsCounted i h begin = record {
  paired = i;
  readers = omega arith;
  writers = omega arith;
  exclusive = (omega arith, inl refl);
}
Reach-IsCounted i h (next r s) =
    let c = Reach-IsCounted i h r in
    let k = Step-Counts 0 0 s c.paired (omega arith, omega arith) in
    record {
      paired = k.0;
      readers = omega arith;
      writers = omega arith;
      exclusive = Step-IsExclusive s c.exclusive;
    }
