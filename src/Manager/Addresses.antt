-- ===== src/Manager/Addresses.antt =====
-- Addresses for diagnostics: `GetAddressInfo`, `getWriterAddress` and `getReaderAddress`
-- (src/dds_manager.cpp), `GetSubscriberAddress` and `GetPublisherAddress` (src/dds_simple.h).
use mathlib.Core.List.{append_assoc, append-nil}
use open_ddw.Base.{
  Option-cases, ℕ, ◌≡◌, refl, ap, ◌∙◌, sym, false, Option, none, some, List, [], ◌∷◌, ◌++◌,
  is_empty, if◌then◌else◌, inl, inr, arith,
}
use open_ddw.Base.Text.{Text, text}
use open_ddw.Manager.{Manager, get_reader, get_writer}

-- A transport locator gives a sequence of locators, and a locator an address or none: both are of
-- OpenDDS, and parameters.
module _ {Transport Locator : Type 0} (locators : Transport → List Locator)
    (address : Locator → Option Text) where
  abbrev add_address : Text → Option Text → Text
  add_address so_far none = so_far
  add_address so_far (some addr) = (if is_empty so_far then so_far else so_far ++ text ",") ++ addr

  abbrev add_locators : Text → List Locator → Text
  add_locators so_far [] = so_far
  add_locators so_far (l ∷ ls) = add_locators (add_address so_far (address l)) ls

  abbrev add_transports : Text → List Transport → Text
  add_transports so_far [] = so_far
  add_transports so_far (t ∷ ts) = add_transports (add_locators so_far (locators t)) ts

  unfoldable pub get_address_info : List Transport → Text
  get_address_info info = add_transports [] info

  -- `connection` says what the writer or reader is: `none` for one that is not of OpenDDS itself.
  module _ (connection : ℕ → Option (List Transport)) where
    abbrev address_of : Text → Option ℕ → Text
    address_of invalid none = invalid
    address_of invalid (some entity) = elim (connection entity) [
      | none ↦ invalid
      | some info ↦ get_address_info info
    ]

    unfoldable pub get_writer_address : Text → Manager → Text
    unfolding get_address_info get_writer
    get_writer_address topic_name m = address_of (text "Invalid Writer") (get_writer m topic_name)

    unfoldable pub get_reader_address : Text → Text → Manager → Text
    unfolding get_address_info get_reader
    get_reader_address topic_name reader_name m =
        address_of (text "Invalid Reader") (get_reader m topic_name reader_name)

  -- The addresses of all transports, in their order.
  abbrev known : List Locator → List Text
  known [] = []
  known (l ∷ ls) = elim (address l) [ none ↦ known ls | some addr ↦ addr ∷ known ls ]

  abbrev pub addresses : List Transport → List Text
  addresses [] = []
  addresses (t ∷ ts) = known (locators t) ++ addresses ts

-- Texts with a comma between each two.
abbrev pub separated : List Text → Text
separated [] = []
separated (s ∷ []) = s
separated (s ∷ t ∷ ts) = s ++ (text "," ++ separated (t ∷ ts))

-- The texts after the first.
abbrev rest_of : List Text → Text
rest_of [] = []
rest_of (s ∷ ss) = text "," ++ (s ++ rest_of ss)

separated-rest_of : (s : Text) (ss : List Text) → separated (s ∷ ss) ≡ s ++ rest_of ss
separated-rest_of s [] = sym (append-nil s)
separated-rest_of s (t ∷ ts) = ap (λ u. s ++ (text "," ++ u)) (separated-rest_of t ts)

-- What one text after the other is added to.
abbrev grow : Text → List Text → Text
grow so_far [] = so_far
grow so_far (s ∷ ss) = grow ((if is_empty so_far then so_far else so_far ++ text ",") ++ s) ss

grow-append :
    (so_far : Text) (ss ts : List Text) → grow so_far (ss ++ ts) ≡ grow (grow so_far ss) ts
grow-append so_far [] ts = refl
grow-append so_far (s ∷ ss) ts = grow-append _ ss ts

grow-rest_of :
    (c : ℕ) (so_far : Text) (ss : List Text) → grow (c ∷ so_far) ss ≡ (c ∷ so_far) ++ rest_of ss
grow-rest_of c so_far [] = sym (append-nil (c ∷ so_far))
grow-rest_of c so_far (s ∷ ss) =
    grow-rest_of c ((so_far ++ text ",") ++ s) ss
    ∙ ap (λ t. c ∷ t)
        (append_assoc (so_far ++ text ",") s (rest_of ss)
          ∙ append_assoc so_far (text ",") (s ++ rest_of ss))

-- No text of the list is empty.
abbrev pub ArePresent : List Text → Type 0
ArePresent [] = Unit
ArePresent (s ∷ ss) = (is_empty s ≡ false) × ArePresent ss

grow-separated : (ss : List Text) → ArePresent ss → grow [] ss ≡ separated ss
grow-separated [] p = refl
grow-separated ([] ∷ ss) p = absurd (ground (arith, p.0))
grow-separated ((c ∷ s) ∷ ss) p = grow-rest_of c s ss ∙ sym (separated-rest_of (c ∷ s) ss)

module _ {Transport Locator : Type 0} (locators : Transport → List Locator)
    (address : Locator → Option Text) where
  add_locators-grow :
      (ls : List Locator) (so_far : Text)
      → add_locators locators address so_far ls ≡ grow so_far (known locators address ls)
  add_locators-grow [] so_far = refl
  add_locators-grow (l ∷ ls) so_far = elim (Option-cases (address l)) [
    | inl e ↦ rw (known, e) (add_locators-grow ls so_far)
    | inr (a, e) ↦ rw (known, e) (add_locators-grow ls _)
  ]

  add_transports-grow :
      (ts : List Transport) (so_far : Text)
      → add_transports locators address so_far ts ≡ grow so_far (addresses locators address ts)
  add_transports-grow [] so_far = refl
  add_transports-grow (t ∷ ts) so_far =
      add_transports-grow ts _
      ∙ ap (λ u. grow u (addresses locators address ts)) (add_locators-grow (locators t) so_far)
      ∙ sym
          (grow-append so_far (known locators address (locators t)) (addresses locators address ts))

  -- Where no address has an empty text, `GetAddressInfo` gives the addresses of all locators of all
  -- transports, in their order, with a comma between each two and none before the first or after the
  -- last; a locator without an address leaves no trace.
  pub get_address_info-separated :
      (info : List Transport)
      → ArePresent (addresses locators address info)
      → get_address_info locators address info ≡ separated (addresses locators address info)
  unfolding get_address_info
  get_address_info-separated info present =
      add_transports-grow info [] ∙ grow-separated (addresses locators address info) present
