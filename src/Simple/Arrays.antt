-- ===== src/Simple/Arrays.antt =====
-- `AddToDdsArray` and `RemoveFromDdsArray` (src/dds_simple.h, built with OPENDDW_PRECPP11): each
-- version compares an element, its text or one of its members with a value; that test is an argument.
use mathlib.Core.List.{append_assoc, append-nil}
use native.Mathlib.Numerals.{unary_clauses}
use open_ddw.Base.{
  take, ℕ, zero, suc, ◌+◌, ◌-◌, ◌≡◌, refl, ap, Bool, true, false, Option, none, some, List, [], ◌∷◌,
  ◌++◌, arith, if◌then◌else◌, Bool-cases, inl, inr, length, length-append,
}

add_sub_one : (n : ℕ) → n + 1 - 1 ≡ n
add_sub_one n = omega arith

module _ {ℓ} {A : Type ℓ} where
  abbrev pub get_elem? : List A → ℕ → Option A
  get_elem? [] i = none
  get_elem? (x ∷ xs) zero = some x
  get_elem? (x ∷ xs) (suc i) = get_elem? xs i

  -- A write out of bounds changes nothing.
  abbrev pub set : List A → ℕ → A → List A
  set [] i v = []
  set (x ∷ xs) zero v = v ∷ xs
  set (x ∷ xs) (suc i) v = x ∷ set xs i v

  get_elem?-append : (xs ys : List A) (y : A) → get_elem? (xs ++ y ∷ ys) (length xs) ≡ some y
  get_elem?-append [] ys y = refl
  get_elem?-append (x ∷ xs) ys y = get_elem?-append xs ys y

  set-append : (xs ys : List A) (y z : A) → set (xs ++ y ∷ ys) (length xs) z ≡ xs ++ z ∷ ys
  set-append [] ys y z = refl
  set-append (x ∷ xs) ys y z = ap (λ l. x ∷ l) (set-append xs ys y z)

  take-append : (xs : List A) (z : A) → take (length xs) (xs ++ z ∷ []) ≡ xs
  take-append [] z = refl
  take-append (x ∷ xs) z = ap (λ l. x ∷ l) (take-append xs z)

  length-snoc : (xs : List A) (z : A) → length (xs ++ z ∷ []) ≡ length xs + 1
  length-snoc xs z = length-append xs (z ∷ [])

  snoc-append : (xs ys : List A) (z : A) → (xs ++ z ∷ []) ++ ys ≡ xs ++ z ∷ ys
  snoc-append xs ys z = append_assoc xs (z ∷ []) ys

  get_elem?-next :
      (xs ys : List A) (y z : A) → get_elem? (xs ++ y ∷ z ∷ ys) (length xs + 1) ≡ some z
  get_elem?-next [] ys y z = refl
  get_elem?-next (x ∷ xs) ys y z =
      simp unary_clauses (simp unary_clauses at (get_elem?-next xs ys y z))

  module _ (matches : A → Bool) where
    -- The loop of `AddToDdsArray` up to its `break`.
    unfoldable pub found_already : List A → Bool
    found_already [] = false
    found_already (x ∷ xs) = let rest = found_already xs in if matches x then true else rest

    -- The array grows by one and its new last element is set.
    unfoldable pub add_to_dds_array : A → List A → List A
    unfolding found_already
    add_to_dds_array to_add xs = if found_already xs then xs else xs ++ to_add ∷ []

    -- The loop of `RemoveFromDdsArray`, with the rounds that are left, the index, the flag and the
    -- array. The reads are inside the array.
    unfoldable pub remove_loop : ℕ → ℕ → Bool → List A → Bool × List A
    remove_loop zero i found xs = (found, xs)
    remove_loop (suc rounds) i true xs =
        remove_loop rounds (i + 1) true
          (elim (get_elem? xs i) [ none ↦ xs | some x ↦ set xs (i - 1) x ])
    remove_loop (suc rounds) i false xs =
        remove_loop rounds (i + 1) (elim (get_elem? xs i) [ none ↦ false | some x ↦ matches x ]) xs

    -- The array shrinks by one.
    abbrev cut : Bool × List A → Bool × List A
    cut (found, ys) = (found, if found then take (length ys - 1) ys else ys)

    unfoldable pub remove_from_dds_array : List A → Bool × List A
    unfolding remove_loop
    remove_from_dds_array xs = cut (remove_loop (length xs) 0 false xs)

    -- The list without the first element that matches.
    abbrev pub erase_first : List A → List A
    erase_first [] = []
    erase_first (x ∷ xs) = if matches x then xs else x ∷ erase_first xs

    -- Once the element is found, the rest moves down by one.
    remove_loop-found :
        (rest front : List A) (y : A)
        → (z : A) × (remove_loop (length rest) (length front + 1) true (front ++ y ∷ rest)
            ≡ (true, (front ++ rest) ++ z ∷ []))
    unfolding remove_loop
    remove_loop-found [] front y = (y, rw (append-nil front) refl)
    remove_loop-found (x ∷ rest) front y =
        let (z, e) = remove_loop-found rest (front ++ x ∷ []) x in
        let e' : remove_loop (length rest) (length front + 1 + 1) true (front ++ x ∷ x ∷ rest)
            ≡ (true, (front ++ x ∷ rest) ++ z ∷ []) =
          rw (length-snoc front x, snoc-append front (x ∷ rest) x, snoc-append front rest x) at e in
        (
          z,
          rw
              (
                remove_loop,
                get_elem?-next front rest y x,
                add_sub_one (length front),
                set-append front (x ∷ rest) y x,
              )
              e',
        )

    cut-found : (xs : List A) (z : A) → cut (true, xs ++ z ∷ []) ≡ (true, xs)
    cut-found xs z = rw (length-snoc xs z, add_sub_one (length xs), take-append xs z) refl

    remove_loop-erase :
        (rest front : List A)
        → cut (remove_loop (length rest) (length front) false (front ++ rest))
          ≡ (found_already rest, front ++ erase_first rest)
    unfolding remove_loop found_already
    remove_loop-erase [] front = refl
    remove_loop-erase (x ∷ rest) front = elim (Bool-cases (matches x)) [
      | inl e ↦
          let (z, f) = remove_loop-found rest front x in
          rw (remove_loop, get_elem?-append front rest x, e, f, cut-found (front ++ rest) z) refl
      | inr e ↦
          let ih : cut (remove_loop (length rest) (length front + 1) false (front ++ x ∷ rest))
              ≡ (found_already rest, front ++ x ∷ erase_first rest) =
            rw
              (
                length-snoc front x,
                snoc-append front rest x,
                snoc-append front (erase_first rest) x,
              )
              at (remove_loop-erase rest (front ++ x ∷ [])) in
          rw (remove_loop, get_elem?-append front rest x, e) ih
    ]

    -- `RemoveFromDdsArray` returns whether an element matches, and leaves the array without the first
    -- that does, the others in their order; an array where none matches is left as it is.
    pub remove_from_dds_array-erase_first :
        (xs : List A) → remove_from_dds_array xs ≡ (found_already xs, erase_first xs)
    unfolding remove_from_dds_array
    remove_from_dds_array-erase_first xs = remove_loop-erase xs []

    found_already-append :
        (xs : List A) (y : A)
        → matches y ≡ true
        → found_already xs ≡ false
        → (found_already (xs ++ y ∷ []) ≡ true) × (erase_first (xs ++ y ∷ []) ≡ xs)
    unfolding found_already
    found_already-append [] y hit e = (rw hit refl, rw hit refl)
    found_already-append (x ∷ xs) y hit e = ground (arith, found_already-append xs y hit)

    -- Where the array has no element that matches, and the new one does, `AddToDdsArray` and then
    -- `RemoveFromDdsArray` give the array back and return true.
    remove_from_dds_array-add_to_dds_array :
        (xs : List A) (y : A)
        → matches y ≡ true
        → found_already xs ≡ false
        → remove_from_dds_array (add_to_dds_array y xs) ≡ (true, xs)
    unfolding add_to_dds_array
    remove_from_dds_array-add_to_dds_array xs y hit e =
        let (f, g) = found_already-append xs y hit e in
        rw (e, remove_from_dds_array-erase_first (xs ++ y ∷ []), f, g) refl
