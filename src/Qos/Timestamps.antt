-- ===== src/Qos/Timestamps.antt =====
-- `QosDictionary::getTimestampPolicy`, its two function-local statics as a state, and
-- `getDataRepresentationType` (src/qos_dictionary.cpp).
use open_ddw.Base.{
  ℕ, ◌+◌, ◌≡◌, refl, Bool, true, false, not, ◌&&◌, Option, none, some, List, [], ◌∷◌, map,
  if◌then◌else◌, leb, ap,
}
use open_ddw.Base.Text.{Text, text, same, text_discrete}
use open_ddw.Qos.{
  OrderKind, by_reception_timestamp, by_source_timestamp, Representation, xcdr, xcdr2,
}

-- The statics `first_time` and `retval`.
pub record Cache : Type 0 where
  pub first_time : Bool
  pub retval : OrderKind

-- The statics when the program starts.
abbrev pub initial_cache : Cache
initial_cache = record { first_time = true; retval = by_reception_timestamp }

-- `tolower` in the C locale.
unfoldable pub to_lower : ℕ → ℕ
to_lower c = if leb b'A' c && leb c b'Z' then c + 32 else c

-- The test of `DDS_DISTRUST_TIMESTAMPS`; `none` is a variable that is not set.
unfoldable pub distrusts : Option Text → Bool
unfolding to_lower
distrusts none = false
distrusts (some value) =
    let distrust_val = map to_lower value in
    not (same distrust_val [])
    && not (same distrust_val (text "0"))
    && not (same distrust_val (text "false"))

-- The value and the new statics; `env` is what `getenv` would give.
unfoldable pub get_timestamp_policy : Option Text → Cache → OrderKind × Cache
unfolding distrusts
get_timestamp_policy env c =
    if not c.first_time
    then (c.retval, c)
    else (let retval =
          if not (distrusts env) then by_source_timestamp else by_reception_timestamp in
        (retval, record { first_time = false; retval = retval }))

abbrev pub get_data_representation_type : Representation
get_data_representation_type = xcdr2

-- `OpenDDS::DCPS::Encoding::Kind`, as far as it is used.
pub data EncodingKind : Type 0 where
  kind_xcdr1 kind_xcdr2 : EncodingKind

unfoldable pub get_encoding_kind : EncodingKind
get_encoding_kind = elim get_data_representation_type [ xcdr ↦ kind_xcdr1 | _ ↦ kind_xcdr2 ]

-- The values of successive calls, each made under its own environment.
unfoldable pub policies : List (Option Text) → Cache → List OrderKind
policies [] c = []
policies (env ∷ envs) c = let (kind, c') = get_timestamp_policy env c in kind ∷ policies envs c'

cons_eq : (kind : OrderKind) {xs ys : List OrderKind} → xs ≡ ys → kind ∷ xs ≡ kind ∷ ys
cons_eq kind p = ap (λ xs. kind ∷ xs) p

policies-cached :
    (envs : List (Option Text)) (kind : OrderKind)
    → policies envs (record { first_time = false; retval = kind }) ≡ map (λ _. kind) envs
unfolding policies get_timestamp_policy
policies-cached [] kind = refl
policies-cached (env ∷ envs) kind = cons_eq kind (policies-cached envs kind)

-- In a run of the program the first call decides: whatever the variable DDS_DISTRUST_TIMESTAMPS
-- holds at the later calls, each call gives the source timestamp policy if the value that the first
-- call found is not one to distrust by, and the reception timestamp policy if it is.
policies_first :
    (env : Option Text) (envs : List (Option Text))
    → policies (env ∷ envs) initial_cache
      ≡ map
          (λ _. if not (distrusts env) then by_source_timestamp else by_reception_timestamp)
          (env ∷ envs)
unfolding policies get_timestamp_policy
policies_first env envs = cons_eq _ (policies-cached envs _)

distrusts_test : distrusts (some (text "False")) ≡ false
unfolding distrusts text_discrete
distrusts_test = refl
