-- ===== src/Base/Dict.antt =====
-- `std::map` keyed by `std::string`: an association list in the order of the keys.
use mathlib.Core.Path.{◌≡◌, refl, subst}
use mathlib.Core.Logic.{inl, inr}
use mathlib.Core.Bool.{Bool}
use mathlib.Core.Option.{Option, none, some, some-injective}
use mathlib.Core.List.{List, [], ◌∷◌}
use native.Mathlib.Omega.{arith}
use open_ddw.Base.Tests.{if◌then◌else◌, is_some, Bool-cases}
use open_ddw.Base.Text.{Text, same, before}

abbrev pub Dict {ℓ} : Type ℓ → Type ℓ
Dict V = List (Text × V)

-- The keys of a map after the key `k` is there.
pub insert_key : Text → List Text → List Text
insert_key k [] = k ∷ []
insert_key k (j ∷ js) =
    let rest = insert_key k js in
    if same k j then k ∷ js else if before k j then k ∷ j ∷ js else j ∷ rest

module _ {ℓ} {V : Type ℓ} where
  unfoldable pub lookup : Text → Dict V → Option V
  lookup k [] = none
  lookup k ((j, v) ∷ d) = if same k j then some v else lookup k d

  abbrev pub contains : Text → Dict V → Bool
  contains k d = is_some (lookup k d)

  abbrev pub keys : Dict V → List Text
  keys [] = []
  keys ((k, v) ∷ d) = k ∷ keys d

  -- `d[k] = v`
  unfoldable pub insert : Text → V → Dict V → Dict V
  unfolding before
  insert k v [] = (k, v) ∷ []
  insert k v ((j, w) ∷ d) =
      let rest = insert k v d in
      if same k j then (k, v) ∷ d else if before k j then (k, v) ∷ (j, w) ∷ d else (j, w) ∷ rest

  -- `d.emplace(k, v)`: an entry that is there stays.
  unfoldable pub emplace : Text → V → Dict V → Dict V
  emplace k v d = if contains k d then d else insert k v d

  -- `d.erase(k)`
  unfoldable pub erase : Text → Dict V → Dict V
  erase k [] = []
  erase k ((j, w) ∷ d) = let rest = erase k d in if same k j then rest else (j, w) ∷ rest

  abbrev pub All {κ} : (V → Type κ) → Dict V → Type κ
  All P [] = Unit
  All P ((k, v) ∷ d) = P v × All P d

  pub lookup-insert :
      (j k : Text) (v : V) (d : Dict V)
      → lookup j (insert k v d) ≡ (if same j k then some v else lookup j d)
  unfolding insert lookup
  lookup-insert j k v [] = refl
  lookup-insert j k v ((i, w) ∷ d) = ground (arith, lookup-insert j k v d)

  pub lookup-erase :
      (j k : Text) (d : Dict V) → lookup j (erase k d) ≡ (if same j k then none else lookup j d)
  unfolding erase lookup
  lookup-erase j k [] = ground arith
  lookup-erase j k ((i, w) ∷ d) = ground (arith, lookup-erase j k d)

  pub keys-insert : (k : Text) (v : V) (d : Dict V) → keys (insert k v d) ≡ insert_key k (keys d)
  unfolding insert insert_key
  keys-insert k v [] = refl
  keys-insert k v ((j, w) ∷ d) = ground (arith, keys-insert k v d)

  pub insert-All {κ} :
      (P : V → Type κ) (k : Text) (v : V) (d : Dict V) → P v → All P d → All P (insert k v d)
  unfolding insert
  insert-All P k v [] p a = (p, tt)
  insert-All P k v ((j, w) ∷ d) p a = ground (arith, insert-All P k v d p a.1)

  pub erase-All {κ} : (P : V → Type κ) (k : Text) (d : Dict V) → All P d → All P (erase k d)
  unfolding erase
  erase-All P k [] a = tt
  erase-All P k ((j, w) ∷ d) a = ground (arith, erase-All P k d a.1)

  pub lookup-All {κ} :
      (P : V → Type κ) (k : Text) (d : Dict V) (v : V) → All P d → lookup k d ≡ some v → P v
  unfolding lookup
  lookup-All P k [] v a e = cc
  lookup-All P k ((j, w) ∷ d) v a e = elim (Bool-cases (same k j)) [
    | inl hit ↦ subst P (some-injective w v (rw hit at e)) a.0
    | inr miss ↦ lookup-All P k d v a.1 (rw miss at e)
  ]
