-- ===== src/Base/Text.antt =====
-- `std::string` as the list of its characters' codes, with the tests that the source makes.
use Prim.Native.Nat.{ℕ}
use Prim.Native.String.{String}
use Prim.Native.Char.{code}
use mathlib.Core.Path.{◌≡◌, refl, ap₂}
use mathlib.Core.Logic.{ite, dite}
use mathlib.Core.Bool.{Bool, true, false}
use mathlib.Core.List.{List, [], ◌∷◌}
use native.Mathlib.Decide.{ℕ_discrete}
use native.Mathlib.Omega.{arith}
use open_ddw.Base.Tests.{if◌then◌else◌, ltb}

abbrev pub Text : Type 0
Text = List ℕ

-- The text of a literal.
abbrev pub text : String → Text
text String.[] = []
text (String.◌∷◌ c s) = code c ∷ text s

-- Shut in proofs, where a split on `same s t` yields the equation or its negation.
unfoldable pub text_discrete : Discrete Text
unfolding ℕ_discrete
text_discrete [] [] = yes refl
text_discrete [] (c ∷ t) = no (λ e. cc)
text_discrete (a ∷ s) [] = no (λ e. cc)
text_discrete (a ∷ s) (c ∷ t) =
    let rest = text_discrete s t in
    dite (ℕ_discrete a c) (λ p. dite rest (λ q. yes (ap₂ ◌∷◌ p q)) (λ n. no (λ e. n (cc))))
      (λ n. no (λ e. n (cc)))

abbrev pub same : Text → Text → Bool
same s t = ite (text_discrete s t) true false

-- `operator<` of `std::string`, the order of the keys in `std::map`.
unfoldable pub before : Text → Text → Bool
before s [] = false
before [] (c ∷ t) = true
before (a ∷ s) (c ∷ t) =
    let rest = before s t in if ltb a c then true else if ltb c a then false else rest

pub same_eq : (s t : Text) → same s t ≡ true → s ≡ t
same_eq s t e = ground arith

pub same_refl : (s : Text) → same s s ≡ true
same_refl s = ground arith

pub before_irrefl : (s : Text) → before s s ≡ false
unfolding before
before_irrefl [] = refl
before_irrefl (a ∷ s) = ground (arith, before_irrefl s)

pub before_trans : (s t u : Text) → before s t ≡ true → before t u ≡ true → before s u ≡ true
unfolding before
before_trans s t [] p q = q
before_trans [] [] (c ∷ u) p q = refl
before_trans [] (b ∷ t) (c ∷ u) p q = refl
before_trans (a ∷ s) [] (c ∷ u) p q = cc
before_trans (a ∷ s) (b ∷ t) (c ∷ u) p q = ground (arith, before_trans s t u)

pub before_asym : (s t : Text) → before s t ≡ true → before t s ≡ false
before_asym s t p = ground (arith, before_trans s t s, before_irrefl s)

same_test : same (text "ab") (text "ab") ≡ true
unfolding text_discrete
same_test = refl

before_test : before (text "ab") (text "b") ≡ true
unfolding before
before_test = refl
