-- ===== src/Manager/Samples.antt =====
-- `takeSample`, `takeAllSamples`, `writeSample` and `disposeSample` (src/dds_manager.hpp). What the
-- typed reader or writer answers is an argument.
use open_ddw.Base.{
  ℕ, ◌+◌, ◌≡◌, ◌⊎◌, ◌↔◌, refl, inl, inr, ap, Bool, true, false, not, ◌&&◌, Option, none, some, List,
  [], ◌∷◌, ◌++◌, arith, is_some, is_empty, if◌then◌else◌,
}
use open_ddw.Base.Text.{Text}
use open_ddw.Dds.{ReturnCode, Outcome, done, null_dereference, throws}
use open_ddw.Dds.Status.{is_ok}
use open_ddw.Manager.{Manager, get_reader, get_writer}

-- The calls of the typed reader; `none` is LENGTH_UNLIMITED.
pub data Request : Type 0 where
  create_querycondition : Text → Request
  delete_readcondition return_loan : Request
  take_w_condition take read_w_condition read : Option ℕ → Request

-- What a call that takes or reads gives.
pub record Answer (A : Type 0) : Type 0 where
  pub status : ReturnCode
  pub messages : List A

-- Under a query condition if the user gave a filter.
abbrev with_filter : Text → Request → Request → List Request
with_filter filter conditioned plain =
    if is_empty filter
    then plain ∷ []
    else create_querycondition filter ∷ conditioned ∷ delete_readcondition ∷ []

module _ {A : Type 0} where
  -- `none` is the result false, with the sample as it was. An access to the first of no samples
  -- counts as one through a null pointer.
  unfoldable pub take_sample :
      Manager → Text → Text → Text → Bool → Answer A → Outcome (Option A × List Request)
  unfolding get_reader
  take_sample m name reader_name filter narrowed answer = elim (get_reader m name reader_name) [
    | none ↦ done (none, [])
    | some r ↦
        if not narrowed
        then done (none, [])
        else (let requests = with_filter filter (take_w_condition (some 1)) (take (some 1)) in
            if not (is_ok answer.status) then done (none, requests) else (elim answer.messages [
              | [] ↦ null_dereference
              | sample ∷ _ ↦ done (some sample, requests ++ return_loan ∷ [])
            ]))
  ]

  -- On the reader that was found, and whether it narrows to the type of the samples.
  unfoldable take_all_from :
      Option ℕ → Bool → Text → Bool → Answer A → Option (List A) × List Request
  take_all_from none narrowed filter read_only answer = (none, [])
  take_all_from (some r) false filter read_only answer = (none, [])
  take_all_from (some r) true filter read_only answer =
      let requests =
        if read_only
        then with_filter filter (read_w_condition none) (read none)
        else with_filter filter (take_w_condition none) (take none) in
      if not (is_ok answer.status)
      then (none, requests)
      else (some answer.messages, requests ++ return_loan ∷ [])

  unfoldable pub take_all_samples :
      Manager → Text → Text → Text → Bool → Bool → Answer A → Option (List A) × List Request
  unfolding take_all_from
  take_all_samples m name reader_name filter read_only narrowed answer =
      take_all_from (get_reader m name reader_name) narrowed filter read_only answer

-- What `write` or `dispose` does.
pub data Written : Type 0 where
  returned : ReturnCode → Written
  runtime_error : Written
  other_exception : Text → Written

-- The status after the `try`: it stays RETCODE_OK where a `runtime_error` is caught.
abbrev status_after : Written → Outcome Bool
status_after (returned code) = done (is_ok code)
status_after runtime_error = done true
status_after (other_exception message) = throws message

-- On the writer that was found, and whether it narrows to the type of the sample.
unfoldable send : Option ℕ → Bool → Written → Outcome Bool
send none narrowed written = done false
send (some w) false written = done false
send (some w) true written = status_after written

unfoldable pub write_sample : Manager → Text → Bool → Written → Outcome Bool
unfolding send
write_sample m name narrowed written = send (get_writer m name) narrowed written

unfoldable pub dispose_sample : Manager → Text → Bool → Written → Outcome Bool
unfolding send
dispose_sample m name narrowed written = send (get_writer m name) narrowed written

-- RETCODE_OK, or a `runtime_error`.
abbrev pub accepted : Written → Bool
accepted (returned code) = is_ok code
accepted runtime_error = true
accepted (other_exception message) = false

abbrev conditions : List Request → ℕ
conditions [] = 0
conditions (create_querycondition f ∷ rs) = 1 + conditions rs
conditions (_ ∷ rs) = conditions rs

abbrev deleted_conditions : List Request → ℕ
deleted_conditions [] = 0
deleted_conditions (delete_readcondition ∷ rs) = 1 + deleted_conditions rs
deleted_conditions (_ ∷ rs) = deleted_conditions rs

abbrev returned_loans : List Request → ℕ
returned_loans [] = 0
returned_loans (return_loan ∷ rs) = 1 + returned_loans rs
returned_loans (_ ∷ rs) = returned_loans rs

abbrev removes_samples : List Request → Bool
removes_samples [] = false
removes_samples (take_w_condition max ∷ rs) = true
removes_samples (take max ∷ rs) = true
removes_samples (_ ∷ rs) = removes_samples rs

abbrev pub IsBalanced : {A : Type 0} → Bool → Option (List A) × List Request → Type 0
IsBalanced read_only (result, requests) =
    (conditions requests ≡ deleted_conditions requests)
    × (returned_loans requests ≡ (if is_some result then 1 else 0))
    × ((read_only && removes_samples requests) ≡ false)

take_all_from-IsBalanced :
    {A : Type 0} (reader : Option ℕ) (narrowed : Bool) (filter : Text) (read_only : Bool)
    (answer : Answer A)
    → IsBalanced read_only (take_all_from reader narrowed filter read_only answer)
unfolding take_all_from
take_all_from-IsBalanced none narrowed filter read_only answer = ground arith
take_all_from-IsBalanced (some r) false filter read_only answer = ground arith
take_all_from-IsBalanced (some r) true [] read_only answer = ground arith
take_all_from-IsBalanced (some r) true (c ∷ filter) read_only answer = ground arith

-- Whatever the reader answers, `takeAllSamples` deletes each query condition that it made, returns
-- the loan once if it returns true and never otherwise, and removes samples from the reader only if
-- it was not asked to leave them there.
pub take_all_samples-IsBalanced :
    {A : Type 0} (m : Manager) (name reader_name filter : Text) (read_only narrowed : Bool)
    (answer : Answer A)
    → IsBalanced read_only (take_all_samples m name reader_name filter read_only narrowed answer)
unfolding take_all_samples
take_all_samples-IsBalanced m name reader_name filter read_only narrowed answer =
    take_all_from-IsBalanced (get_reader m name reader_name) narrowed filter read_only answer

send-true :
    (writer : Option ℕ) (narrowed : Bool) (written : Written)
    → (send writer narrowed written ≡ done true)
      ↔ ((is_some writer && narrowed && accepted written) ≡ true)
unfolding send
send-true none narrowed written = ground arith
send-true (some w) false written = ground arith
send-true (some w) true (returned code) = ((λ e. cc), (λ e. ap done e))
send-true (some w) true runtime_error = ground arith
send-true (some w) true (other_exception message) = ground arith

send-cases :
    (writer : Option ℕ) (narrowed : Bool) (written : Written)
    → ((b : Bool) × (send writer narrowed written ≡ done b))
      ⊎ ((message : Text) × (send writer narrowed written ≡ throws message))
unfolding send
send-cases none narrowed written = inl (false, refl)
send-cases (some w) false written = inl (false, refl)
send-cases (some w) true (returned code) = inl (is_ok code, refl)
send-cases (some w) true runtime_error = inl (true, refl)
send-cases (some w) true (other_exception message) = inr (message, refl)

-- A sample is written, or not, or an exception is passed on.
pub write_sample-cases :
    (m : Manager) (name : Text) (narrowed : Bool) (written : Written)
    → ((b : Bool) × (write_sample m name narrowed written ≡ done b))
      ⊎ ((message : Text) × (write_sample m name narrowed written ≡ throws message))
unfolding write_sample
write_sample-cases m name narrowed written = send-cases (get_writer m name) narrowed written

-- `writeSample` returns true exactly if the topic has a writer, of the type of the sample, and its
-- `write` returned RETCODE_OK or threw a `runtime_error`; and so does `disposeSample`.
pub write_sample-true :
    (m : Manager) (name : Text) (narrowed : Bool) (written : Written)
    → ((write_sample m name narrowed written ≡ done true)
        ↔ ((is_some (get_writer m name) && narrowed && accepted written) ≡ true))
      × (dispose_sample m name narrowed written ≡ write_sample m name narrowed written)
unfolding write_sample dispose_sample
write_sample-true m name narrowed written = (send-true (get_writer m name) narrowed written, refl)
