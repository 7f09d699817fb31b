-- ===== src/Base/Decimal.antt =====
-- `std::to_string` and `std::stoi` on numbers that are not negative, and the last piece of a name.
use Prim.Native.Nat.{ℕ, zero, suc, ◌+◌, ◌-◌, ◌*◌, ◌/◌, ◌%◌, ◌<◌}
use mathlib.Core.Path.{◌≡◌, refl, ◌∙◌, ap}
use mathlib.Core.Logic.{inl, inr}
use mathlib.Core.Bool.{Bool, true, false, ◌&&◌}
use mathlib.Core.Option.{Option, none, some}
use mathlib.Core.List.{[], ◌∷◌, ◌++◌}
use native.Mathlib.Omega.{arith}
use open_ddw.Base.Tests.{if◌then◌else◌, Bool-cases, ltb, leb, ◌==◌}
use open_ddw.Base.Text.{Text}

print_digits : ℕ → ℕ → Text → Text
print_digits zero n acc = acc
print_digits (suc fuel) n acc =
    let rest = print_digits fuel (n / 10) ((48 + n % 10) ∷ acc) in
    if ltb n 10 then (48 + n) ∷ acc else rest

-- `std::to_string`: the fuel is above the number of the digits.
unfoldable pub to_string : ℕ → Text
unfolding print_digits
to_string n = print_digits (suc n) n []

abbrev pub is_digit : ℕ → Bool
is_digit c = leb b'0' c && leb c b'9'

parse_digits : ℕ → Text → ℕ
parse_digits acc [] = acc
parse_digits acc (c ∷ t) =
    let rest = parse_digits (acc * 10 + (c - 48)) t in if is_digit c then rest else acc

-- `std::stoi` on a text without a sign or a space in front: it reads the digits that the text
-- begins with, and throws (`none`) if there is none.
unfoldable pub stoi : Text → Option ℕ
unfolding parse_digits
stoi [] = none
stoi (c ∷ t) = if is_digit c then some (parse_digits 0 (c ∷ t)) else none

abbrev has : ℕ → Text → Bool
has u [] = false
has u (b ∷ s) = if b == u then true else has u s

-- What follows the last occurrence of a character, or the whole text.
unfoldable pub after_last : ℕ → Text → Text
after_last u [] = []
after_last u (c ∷ t) =
    let rest = after_last u t in if has u t then rest else if c == u then t else c ∷ t

stoi-print_digits :
    (fuel n : ℕ) (acc : Text)
    → n < fuel
    → stoi (print_digits fuel n acc) ≡ some (parse_digits n acc)
unfolding print_digits stoi
stoi-print_digits zero n acc h = absurd (omega arith)
stoi-print_digits (suc fuel) n acc h = elim (Bool-cases (ltb n 10)) [
  | inl small ↦ rw small (ground arith)
  | inr large ↦ rw large (ground (arith, stoi-print_digits fuel (n / 10) ((48 + n % 10) ∷ acc)))
]

-- Reading back what was printed.
pub stoi-to_string : (n : ℕ) → stoi (to_string n) ≡ some n
unfolding to_string parse_digits
stoi-to_string n = stoi-print_digits (suc n) n [] (omega arith)

pub to_string-injective : (m n : ℕ) → to_string m ≡ to_string n → m ≡ n
to_string-injective m n e = ground (arith, stoi-to_string m, stoi-to_string n)

has-print_digits :
    (fuel n : ℕ) (acc : Text) → has b'_' acc ≡ false → has b'_' (print_digits fuel n acc) ≡ false
unfolding print_digits
has-print_digits zero n acc h = h
has-print_digits (suc fuel) n acc h =
    ground (arith, has-print_digits fuel (n / 10) ((48 + n % 10) ∷ acc))

has-append : (u : ℕ) (xs ys : Text) → has u (xs ++ u ∷ ys) ≡ true
has-append u [] ys = ground arith
has-append u (x ∷ xs) ys = ground (arith, has-append u xs ys)

after_last-append : (u : ℕ) (xs ys : Text) → has u ys ≡ false → after_last u (xs ++ u ∷ ys) ≡ ys
unfolding after_last
after_last-append u [] ys h = rw h (ground arith)
after_last-append u (x ∷ xs) ys h = rw has-append (after_last-append u xs ys h)

-- The number behind the last underscore of a name.
pub stoi-after_last :
    (prefix : Text) (n : ℕ) → stoi (after_last b'_' (prefix ++ b'_' ∷ to_string n)) ≡ some n
unfolding to_string
stoi-after_last prefix n =
    rw
      (after_last-append b'_' prefix (print_digits (suc n) n [])
        (has-print_digits (suc n) n [] refl))
      (stoi-to_string n)

print_digits-append :
    (fuel n : ℕ) (acc t : Text) → print_digits fuel n acc ++ t ≡ print_digits fuel n (acc ++ t)
unfolding print_digits
print_digits-append zero n acc t = refl
print_digits-append (suc fuel) n acc t =
    ground (arith, print_digits-append fuel (n / 10) ((48 + n % 10) ∷ acc) t)

-- A number is read up to the character behind it.
pub stoi-append : (n c : ℕ) (t : Text) → is_digit c ≡ false → stoi (to_string n ++ c ∷ t) ≡ some n
unfolding to_string parse_digits
stoi-append n c t other =
    rw print_digits-append
      (stoi-print_digits (suc n) n (c ∷ t) (omega arith) ∙ ap some (ground arith))

to_string_test : to_string 2048 ≡ 50 ∷ 48 ∷ 52 ∷ 56 ∷ []
unfolding to_string
to_string_test = refl
