-- ===== src/Locks/Progress.antt =====
-- Calls of the manager from any number of threads come to an end.
use open_ddw.Base.{
  ℕ, ◌+◌, ◌-◌, ◌≤◌, ◌<◌, ◌≡◌, ◌⊎◌, inl, inr, refl, Bool, true, false, List, arith, Positive-cases,
}
use open_ddw.Locks.{
  Program, finish, lock, unlock, look, change, test, both, shared, exclusive, Mutex, free,
  readers_of, writers_of,
}
use open_ddw.Locks.Steps.{
  Step, Reach, lock_shared, lock_exclusive, unlock_shared, unlock_exclusive, looks, changes, holds,
  fails, first, second, joins, begin, next,
}
use open_ddw.Locks.Clients.{Client, all_clients, all_every, locks_once}
use open_ddw.Locks.Count.{Reach-IsCounted}
use open_ddw.Locks.Idle.{IsIdle, all_clients-IsIdle}

-- No run takes more steps.
abbrev pub size : Program → ℕ
size finish = 0
size (lock mode p) = size p + 1
size (unlock mode p) = size p + 1
size (look p) = size p + 1
size (change p) = size p + 1
size (test p q) = size p + size q + 1
size (both p q r) = size p + size q + size r + 1

Step-size :
    {beside : Bool} {x y : Mutex} {p q : Program} → Step beside x p y q → size q + 1 ≤ size p
Step-size (lock_shared w r) = omega arith
Step-size (lock_exclusive w r) = omega arith
Step-size unlock_shared = omega arith
Step-size unlock_exclusive = omega arith
Step-size looks = omega arith
Step-size changes = omega arith
Step-size holds = omega arith
Step-size fails = omega arith
Step-size (first s) = omega (arith, Step-size s)
Step-size (second s) = omega (arith, Step-size s)
Step-size joins = omega arith

Reach-size :
    {beside : Bool} {start : Program} {n : ℕ} {x : Mutex} {p : Program}
    → Reach beside start n x p
    → n + size p ≤ size start
Reach-size begin = omega arith
Reach-size (next r s) = omega (arith, Reach-size r, Step-size s)

-- Some thread can go on, if the mutex lets no reader in beside another.
abbrev pub CanStep : Mutex → Program → Type 0
CanStep x p = (y : Mutex) × (q : Program) × Step false x p y q

first-CanStep : {x : Mutex} (p q r : Program) → CanStep x p → CanStep x (both p q r)
first-CanStep p q r (y, p', s) = (y, both p' q r, first s)

second-CanStep : {x : Mutex} (p q r : Program) → CanStep x q → CanStep x (both p q r)
second-CanStep p q r (y, q', s) = (y, both p q' r, second s)

-- A thread that has a lock waits for nothing.
holder-CanStep : (x : Mutex) (p : Program) → 0 < readers_of p + writers_of p → CanStep x p
holder-CanStep x finish h = absurd (omega arith)
holder-CanStep x (lock mode p) h = absurd (omega arith)
holder-CanStep x (unlock shared p) h = (record x { readers = x.readers - 1 }, p, unlock_shared)
holder-CanStep x (unlock exclusive p) h =
    (record x { writers = x.writers - 1 }, p, unlock_exclusive)
holder-CanStep x (look p) h = (x, p, looks)
holder-CanStep x (change p) h = (x, p, changes)
holder-CanStep x (test p q) h = (x, p, holds)
holder-CanStep x (both p q r) h = elim (Positive-cases (readers_of p + writers_of p)) [
  | inl z ↦ second-CanStep p q r (holder-CanStep x q (omega arith))
  | inr l ↦ first-CanStep p q r (holder-CanStep x p l)
]

-- A free mutex lets each thread go on.
free-CanStep :
    (x : Mutex) (p : Program) → x.readers ≡ 0 → x.writers ≡ 0 → (p ≡ finish) ⊎ CanStep x p
free-CanStep x finish a b = inl refl
free-CanStep x (lock shared p) a b =
    inr (record x { readers = x.readers + 1 }, p, lock_shared b (inr a))
free-CanStep x (lock exclusive p) a b =
    inr (record x { writers = x.writers + 1 }, p, lock_exclusive b a)
free-CanStep x (unlock shared p) a b = inr (record x { readers = x.readers - 1 }, p, unlock_shared)
free-CanStep x (unlock exclusive p) a b =
    inr (record x { writers = x.writers - 1 }, p, unlock_exclusive)
free-CanStep x (look p) a b = inr (x, p, looks)
free-CanStep x (change p) a b = inr (x, p, changes)
free-CanStep x (test p q) a b = inr (x, p, holds)
free-CanStep x (both p q r) a b = elim (free-CanStep x p a b) [
  | inr s ↦ inr (first-CanStep p q r s)
  | inl e ↦ elim (free-CanStep x q a b) [
    | inr s ↦ inr (second-CanStep p q r s)
    | inl e' ↦ inr (x, r, rw (e, e') joins)
  ]
]

-- A program that begins and ends without the mutex never gets stuck, and has a last step.
pub IsIdle-returns :
    (start : Program) (n : ℕ) (x : Mutex) (p : Program)
    → IsIdle start
    → Reach true start n x p
    → (n ≤ size start) × (((p ≡ finish) × (x ≡ free)) ⊎ CanStep x p)
IsIdle-returns start n x p idle r =
    let c = Reach-IsCounted idle.1 idle.0 r in
    let short : n ≤ size start = omega (arith, Reach-size r) in
    elim (Positive-cases (readers_of p + writers_of p)) [
      | inr held ↦ (short, inr (holder-CanStep x p held))
      | inl z ↦
          let a : x.readers ≡ 0 = omega (arith, c.readers) in
          let b : x.writers ≡ 0 = omega (arith, c.writers) in
          elim (free-CanStep x p a b) [
            | inl e ↦ (short, inl (e, ground arith))
            | inr s ↦ (short, inr s)
          ]
    ]

-- Threads that call any functions of one manager other than `addCallback` and
-- `replaceFilterParams`, with callbacks that do not call it, never wait for each other for ever. In
-- every state that they reach, in any order and whether or not the mutex lets readers in beside
-- others, they have all returned and the mutex is free, or one of them can go on, even if the mutex
-- lets no reader in beside another now. A run from the start takes at most `size` steps.
pub calls_return :
    (cs : List Client) (n : ℕ) (x : Mutex) (p : Program)
    → all_every locks_once cs ≡ true
    → Reach true (all_clients cs) n x p
    → (n ≤ size (all_clients cs)) × (((p ≡ finish) × (x ≡ free)) ⊎ CanStep x p)
calls_return cs n x p once r = IsIdle-returns (all_clients cs) n x p (all_clients-IsIdle cs once) r
