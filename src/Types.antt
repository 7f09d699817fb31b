-- ===== src/Types.antt =====
-- Helpers on the types of topics: `ddsSampleEquals`, `ddsInit` and the topic data that `registerTopic`
-- makes where it is built with OPENDDW_PRECPP11 (src/dds_manager.hpp), and `ddsEnumToString`
-- (src/dds_manager.cpp).
use open_ddw.Base.{
  ℕ, zero, suc, ◌≡◌, ◌↔◌, refl, Bool, true, false, not, Option, none, some, List, [], ◌∷◌, ◌==◌,
  leb, if◌then◌else◌, length, arith,
}
use open_ddw.Base.Text.{Text}

-- `memcmp(a, b, n) == 0`, on n bytes that both have.
unfoldable pub memcmp_equal : ℕ → List ℕ → List ℕ → Bool
memcmp_equal zero xs ys = true
memcmp_equal (suc n) [] ys = true
memcmp_equal (suc n) (x ∷ xs) [] = true
memcmp_equal (suc n) (x ∷ xs) (y ∷ ys) =
    let rest = memcmp_equal n xs ys in if x == y then rest else false

-- `block` is what the serializer leaves of a sample in a message block of `sizeof(TopicType)` bytes.
unfoldable pub dds_sample_equals : {A : Type 0} → (A → List ℕ) → A → A → Bool
unfolding memcmp_equal
dds_sample_equals block lhs rhs =
    if not (length (block lhs) == length (block rhs))
    then false
    else memcmp_equal (length (block lhs)) (block lhs) (block rhs)

-- `read` is what the stream reads from a buffer of `sizeof(TopicType)` bytes of 0; it is `none` where
-- that fails and leaves the instance as it is.
unfoldable pub dds_init : {A : Type 0} → (List ℕ → Option A) → ℕ → A → Bool × A
dds_init read max_size topic_instance = elim (read (zeros max_size)) [
  | none ↦ (false, topic_instance)
  | some initialised ↦ (true, initialised)
]
  where
    zeros : ℕ → List ℕ
    zeros zero = []
    zeros (suc n) = 0 ∷ zeros n

abbrev member_name : List Text → ℕ → Text
member_name [] i = []
member_name (m ∷ ms) zero = m
member_name (m ∷ ms) (suc i) = member_name ms i

-- The type code is `none` for one that is not of an enumeration, and else the names of its members.
unfoldable pub dds_enum_to_string : Option (List Text) → ℕ → Text
dds_enum_to_string none enum_value = []
dds_enum_to_string (some members) enum_value =
    if leb (length members) enum_value then [] else member_name members enum_value

-- `OpenDDS::DCPS::Extensibility`
pub data Extensibility : Type 0 where
  final appendable mutable : Extensibility

abbrev extensibility_flag : Extensibility → ℕ
extensibility_flag final = 1
extensibility_flag appendable = 0
extensibility_flag mutable = 2

-- The bytes of the header, and the serialized type code behind it.
unfoldable pub usr_topic_data : Bool → Extensibility → List ℕ → List ℕ
usr_topic_data has_dcps_key extensibility type_code =
    b'U'
    ∷ b'S'
    ∷ b'R'
    ∷ 0
    ∷ 0
    ∷ (if has_dcps_key then 1 else 0)
    ∷ extensibility_flag extensibility
    ∷ 0
    ∷ type_code

memcmp_equal-eq :
    (xs ys : List ℕ) → length xs ≡ length ys → memcmp_equal (length xs) xs ys ≡ true → xs ≡ ys
unfolding memcmp_equal
memcmp_equal-eq [] [] l e = refl
memcmp_equal-eq [] (y ∷ ys) l e = absurd (omega arith)
memcmp_equal-eq (x ∷ xs) [] l e = absurd (omega arith)
memcmp_equal-eq (x ∷ xs) (y ∷ ys) l e = ground (arith, memcmp_equal-eq xs ys)

memcmp_equal_refl : (xs : List ℕ) → memcmp_equal (length xs) xs xs ≡ true
unfolding memcmp_equal
memcmp_equal_refl [] = refl
memcmp_equal_refl (x ∷ xs) = ground (arith, memcmp_equal_refl xs)

blocks_equal-eq :
    (xs ys : List ℕ)
    → (if not (length xs == length ys) then false else memcmp_equal (length xs) xs ys) ≡ true
    → xs ≡ ys
blocks_equal-eq xs ys e = ground (arith, memcmp_equal-eq xs ys)

blocks_equal_refl :
    (xs : List ℕ)
    → (if not (length xs == length xs) then false else memcmp_equal (length xs) xs xs) ≡ true
blocks_equal_refl xs = ground (arith, memcmp_equal_refl xs)

-- Two samples count as equal exactly if their blocks are the same bytes.
dds_sample_equals-block :
    {A : Type 0} (block : A → List ℕ) (lhs rhs : A)
    → (dds_sample_equals block lhs rhs ≡ true) ↔ (block lhs ≡ block rhs)
unfolding dds_sample_equals
dds_sample_equals-block block lhs rhs = (
  (λ e. blocks_equal-eq (block lhs) (block rhs) e),
  (λ e. rw (dds_sample_equals, e) (blocks_equal_refl (block rhs))),
)
