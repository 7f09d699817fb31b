-- ===== src/Monitor/Identity.antt =====
-- The texts that a participant is known by (src/participant_monitor.cpp): bytes of its GUID in
-- hexadecimal.
use open_ddw.Base.{
  Bool-cases, inl, inr, ◌-◌, ℕ, zero, suc, ◌+◌, ◌/◌, ◌%◌, ◌<◌, ◌≡◌, List, [], ◌∷◌, ◌++◌, arith,
  if◌then◌else◌, ltb, ◌==◌, ap,
}
use open_ddw.Base.Text.{Text, text}

-- The byte at an index of an array; 0 where there is none.
unfoldable pub byte_at : List ℕ → ℕ → ℕ
byte_at [] j = 0
byte_at (b ∷ bs) zero = b
byte_at (b ∷ bs) (suc j) = byte_at bs j

-- A digit as `std::hex` prints it.
abbrev pub hex_digit : ℕ → ℕ
hex_digit d = if ltb d 10 then 48 + d else 87 + d

-- The loop from the byte `lo + count - 1` down to `lo`, each printed with `std::setw(2)` and
-- `std::setfill('0')`.
unfoldable pub hex_bytes : List ℕ → ℕ → ℕ → Text
hex_bytes value lo zero = []
hex_bytes value lo (suc count) =
    let b = byte_at value (lo + count) in
    hex_digit (b / 16) ∷ hex_digit (b % 16) ∷ hex_bytes value lo count

abbrev pub host_id : List ℕ → Text
host_id value = hex_bytes value 0 4

abbrev pub app_id : List ℕ → Text
app_id value = hex_bytes value 4 4

abbrev pub instance_id : List ℕ → Text
instance_id value = hex_bytes value 8 4

-- `info.hostID + "." + info.appID + "." + info.instanceID`
abbrev pub identity : List ℕ → Text
identity value = host_id value ++ (text "." ++ (app_id value ++ (text "." ++ instance_id value)))

abbrev pub AllBytes : List ℕ → Type 0
AllBytes [] = Unit
AllBytes (b ∷ bs) = (b < 256) × AllBytes bs

byte_at-lt : (bs : List ℕ) (j : ℕ) → AllBytes bs → byte_at bs j < 256
unfolding byte_at
byte_at-lt [] j h = omega arith
byte_at-lt (b ∷ bs) zero h = h.0
byte_at-lt (b ∷ bs) (suc j) h = byte_at-lt bs j h.1

hex_digit-injective : (m n : ℕ) → m < 16 → n < 16 → hex_digit m ≡ hex_digit n → m ≡ n
hex_digit-injective m n p q e = ground arith

byte-injective :
    (m n : ℕ)
    → m < 256
    → n < 256
    → hex_digit (m / 16) ≡ hex_digit (n / 16)
    → hex_digit (m % 16) ≡ hex_digit (n % 16)
    → m ≡ n
byte-injective m n p q high low =
    let h = hex_digit-injective (m / 16) (n / 16) (omega arith) (omega arith) high in
    let l = hex_digit-injective (m % 16) (n % 16) (omega arith) (omega arith) low in omega arith

hex_bytes-injective :
    (v w : List ℕ) (lo count : ℕ) (s t : Text)
    → AllBytes v
    → AllBytes w
    → hex_bytes v lo count ++ s ≡ hex_bytes w lo count ++ t
    → ((j : ℕ) → j < count → byte_at v (lo + j) ≡ byte_at w (lo + j)) × (s ≡ t)
unfolding hex_bytes
hex_bytes-injective v w lo zero s t hv hw e = (λ j p. absurd (omega arith), e)
hex_bytes-injective v w lo (suc count) s t hv hw e =
    let b = byte_at v (lo + count) in
    let c = byte_at w (lo + count) in
    let high : hex_digit (b / 16) ≡ hex_digit (c / 16) = cc in
    let low : hex_digit (b % 16) ≡ hex_digit (c % 16) = cc in
    let rest : hex_bytes v lo count ++ s ≡ hex_bytes w lo count ++ t = cc in
    let (below, ends) = hex_bytes-injective v w lo count s t hv hw rest in
    let here : b ≡ c =
      byte-injective b c (byte_at-lt v (lo + count) hv) (byte_at-lt w (lo + count) hw) high low in
    (
      λ j p. elim (Bool-cases (j == count)) [
        | inl last ↦ let q : j ≡ count = ground arith in rw q here
        | inr earlier ↦ below j (ground arith)
      ],
      ends,
    )

-- Two GUIDs of bytes with the same text for a participant agree in their first twelve bytes, which
-- are all that name the participant.
pub identity-injective :
    (v w : List ℕ) (j : ℕ)
    → AllBytes v
    → AllBytes w
    → j < 12
    → identity v ≡ identity w
    → byte_at v j ≡ byte_at w j
identity-injective v w j hv hw p e =
    let (host, e₁) = hex_bytes-injective v w 0 4 _ _ hv hw e in
    let f₁ : app_id v ++ (text "." ++ instance_id v) ≡ app_id w ++ (text "." ++ instance_id w) =
      cc in
    let (app, e₂) = hex_bytes-injective v w 4 4 _ _ hv hw f₁ in
    let f₂ : instance_id v ++ [] ≡ instance_id w ++ [] =
      ap (λ t. t ++ []) (let g : instance_id v ≡ instance_id w = cc in g) in
    let (instance, e₃) = hex_bytes-injective v w 8 4 [] [] hv hw f₂ in
    elim (Bool-cases (ltb j 4)) [
      | inl first ↦ let q : 0 + j ≡ j = omega arith in rw q at (host j (ground arith))
      | inr after_host ↦ elim (Bool-cases (ltb j 8)) [
        | inl middle ↦
            let q : 4 + (j - 4) ≡ j = ground arith in rw q at (app (j - 4) (ground arith))
        | inr last ↦
            let q : 8 + (j - 8) ≡ j = ground arith in rw q at (instance (j - 8) (ground arith))
      ]
    ]
