-- ===== src/Manager/Valid.antt =====
-- The invariant of the manager: no null pointer in `m_topics`, and every group valid.
pub mod Settings
pub mod Register
pub mod Subscribe
pub mod Publish
pub mod Callbacks
use open_ddw.Base.{ℕ, ◌≡◌, refl, ap, subst, ◌⊎◌, inl, inr, Bool, Option, none, some, arith}
use open_ddw.Base.Text.{Text}
use open_ddw.Base.Dict.{Dict, All, lookup, insert-All, lookup-All}
use open_ddw.Dds.{Outcome, done, null_dereference, throws, terminates, ◌>>=◌}
use open_ddw.Group.{TopicGroup, IsValid}
use open_ddw.Manager.{Manager, Slot, missing, null, found, slot, slot_of, put_group}

abbrev pub SlotValid : Option ℕ → Option TopicGroup → Type 0
SlotValid p none = ⊥
SlotValid p (some g) = IsValid p g

abbrev pub IsWell : Manager → Type 0
IsWell m = All (SlotValid m.participant) m.topics

-- An operation went through no null pointer and ended no program, and left a valid manager.
abbrev pub IsSafe : Outcome (Bool × Manager) → Type 0
IsSafe (done (b, m)) = IsWell m
IsSafe null_dereference = ⊥
IsSafe (throws message) = Unit
IsSafe terminates = ⊥

abbrev pub IsSafeState : Outcome Manager → Type 0
IsSafeState (done m) = IsWell m
IsSafeState null_dereference = ⊥
IsSafeState (throws message) = Unit
IsSafeState terminates = ⊥

pub slot-cases :
    (m : Manager) (name : Text)
    → IsWell m
    → (slot m name ≡ missing)
      ⊎ ((g : TopicGroup) × (slot m name ≡ found g) × IsValid m.participant g)
unfolding slot
slot-cases m name w = go (lookup name m.topics) refl
  where
    go :
        (o : Option (Option TopicGroup))
        → lookup name m.topics ≡ o
        → (slot_of (lookup name m.topics) ≡ missing)
          ⊎ ((g : TopicGroup) × (slot_of (lookup name m.topics) ≡ found g)
              × IsValid m.participant g)
    go none e = inl (ap slot_of e)
    go (some none) e = absurd (lookup-All (SlotValid m.participant) name m.topics none w e)
    go (some (some g)) e =
        inr (g, ap slot_of e, lookup-All (SlotValid m.participant) name m.topics (some g) w e)

pub slot-IsValid :
    (m : Manager) (name : Text) (g : TopicGroup)
    → IsWell m
    → slot m name ≡ found g
    → IsValid m.participant g
slot-IsValid m name g w e = elim (slot-cases m name w) [
  | inl absent ↦ cc
  | inr (x, there, v) ↦
      let eq : x ≡ g = ground (arith, there, e) in subst (IsValid m.participant) eq v
]

pub put_group-IsWell :
    (name : Text) (g : TopicGroup) (m : Manager)
    → IsValid m.participant g
    → IsWell m
    → IsWell (put_group name g m)
unfolding put_group
put_group-IsWell name g m v w = insert-All (SlotValid m.participant) name (some g) m.topics v w

-- Steps in a row.
pub >>=-IsSafe :
    (r : Outcome Manager) (f : Manager → Outcome (Bool × Manager))
    → IsSafeState r
    → ((m : Manager) → IsWell m → IsSafe (f m))
    → IsSafe (r >>= f)
>>=-IsSafe (done m) f s k = k m s
>>=-IsSafe null_dereference f s k = s
>>=-IsSafe (throws message) f s k = s
>>=-IsSafe terminates f s k = s

pub >>=-IsSafe_pair :
    (r : Outcome (Bool × Manager)) (f : Bool × Manager → Outcome (Bool × Manager))
    → IsSafe r
    → ((b : Bool) (m : Manager) → IsWell m → IsSafe (f (b, m)))
    → IsSafe (r >>= f)
>>=-IsSafe_pair (done (b, m)) f s k = k b m s
>>=-IsSafe_pair null_dereference f s k = s
>>=-IsSafe_pair (throws message) f s k = s
>>=-IsSafe_pair terminates f s k = s
