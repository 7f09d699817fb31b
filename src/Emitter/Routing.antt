-- ===== src/Emitter/Routing.antt =====
-- Who gets a message (src/dds_callback.h).
use mathlib.Core.List.{append-nil, append_assoc}
use open_ddw.Base.{
  ℕ, ◌≡◌, refl, ◌∙◌, ap, Bool, true, false, Option, List, [], ◌∷◌, ◌++◌, map, arith, if◌then◌else◌,
  Bool-cases, inl, inr,
}
use open_ddw.Base.Text.{Text, same, before, before_irrefl, before_trans, before_asym}
use open_ddw.Emitter.{
  Emitter, Listeners, called, queued, new_emitter, add_callback, set_async, insert_callback,
  equal_range, emit_to, emit_message,
}

-- No entry of the list comes before the key.
abbrev NotBefore : Text → Listeners → Type 0
NotBefore k [] = Unit
NotBefore k ((j, g) ∷ l) = (before j k ≡ false) × NotBefore k l

abbrev IsSorted : Listeners → Type 0
IsSorted [] = Unit
IsSorted ((j, g) ∷ l) = NotBefore j l × IsSorted l

insert-NotBefore :
    (i k : Text) (f : ℕ) (l : Listeners)
    → before k i ≡ false
    → NotBefore i l
    → NotBefore i (insert_callback k f l)
unfolding insert_callback
insert-NotBefore i k f [] p n = (p, tt)
insert-NotBefore i k f ((j, g) ∷ l) p n = ground (arith, insert-NotBefore i k f l p n.1)

NotBefore-lt : (k j : Text) (l : Listeners) → before k j ≡ true → NotBefore j l → NotBefore k l
NotBefore-lt k j [] p n = tt
NotBefore-lt k j ((i, g) ∷ l) p n = (ground (arith, before_trans i k j), NotBefore-lt k j l p n.1)

insert-IsSorted : (k : Text) (f : ℕ) (l : Listeners) → IsSorted l → IsSorted (insert_callback k f l)
unfolding insert_callback
insert-IsSorted k f [] s = (tt, tt)
insert-IsSorted k f ((j, g) ∷ l) s = ground (
  arith,
  insert-IsSorted k f l s.1,
  insert-NotBefore j k f l,
  NotBefore-lt k j l,
  before_asym k j,
)

equal_range-NotBefore :
    (k j : Text) (l : Listeners) → before k j ≡ true → NotBefore j l → equal_range k l ≡ []
unfolding equal_range
equal_range-NotBefore k j [] p n = refl
equal_range-NotBefore k j ((i, g) ∷ l) p n = ground (arith, equal_range-NotBefore k j l p n.1)

equal_range-insert :
    (i k : Text) (f : ℕ) (l : Listeners)
    → IsSorted l
    → equal_range i (insert_callback k f l)
      ≡ (if same i k then equal_range i l ++ f ∷ [] else equal_range i l)
unfolding equal_range insert_callback
equal_range-insert i k f [] s = ground arith
equal_range-insert i k f ((j, g) ∷ l) s =
    ground (arith, equal_range-insert i k f l s.1, equal_range-NotBefore k j l, before_irrefl k)

-- The emitter after callbacks were added, the first of the list first.
abbrev pub add_all : List (Text × ℕ) → Emitter → Emitter
add_all [] e = e
add_all ((index, func) ∷ regs) e = add_all regs (add_callback index func e)

-- The callbacks that were added for a type, in their order.
abbrev pub added_for : Text → List (Text × ℕ) → List ℕ
added_for k [] = []
added_for k ((j, f) ∷ regs) = if same k j then f ∷ added_for k regs else added_for k regs

equal_range-add_all :
    (k : Text) (regs : List (Text × ℕ)) (e : Emitter)
    → IsSorted e.callbacks
    → equal_range k (add_all regs e).callbacks ≡ equal_range k e.callbacks ++ added_for k regs
unfolding add_callback
equal_range-add_all k [] e s = rw append-nil
equal_range-add_all k ((j, f) ∷ regs) e s =
    equal_range-add_all k regs (add_callback j f e) (insert-IsSorted j f e.callbacks s)
    ∙ rw (equal_range-insert k j f e.callbacks s) (elim (Bool-cases (same k j)) [
      | inl hit ↦ rw hit (append_assoc (equal_range k e.callbacks) (f ∷ []) _)
      | inr miss ↦ rw miss
    ])

async-add_all :
    (regs : List (Text × ℕ)) (e : Emitter) → (add_all regs e).async_emitter ≡ e.async_emitter
unfolding add_callback
async-add_all [] e = refl
async-add_all ((j, f) ∷ regs) e = async-add_all regs (add_callback j f e)

module _ {A : Type 0} (dispatcher : Bool) (m : A) where
  emit_to-called : (fs : List ℕ) → emit_to dispatcher false m fs ≡ map (λ f. called f m) fs
  unfolding emit_to
  emit_to-called [] = refl
  emit_to-called (f ∷ fs) = ap (λ ds. called f m ∷ ds) (emit_to-called fs)

  emit_to-queued :
      (fs : List ℕ)
      → emit_to dispatcher true m fs ≡ (if dispatcher then map (λ f. queued f m) fs else [])
  unfolding emit_to
  emit_to-queued [] = ground arith
  emit_to-queued (f ∷ fs) = ground (arith, emit_to-queued fs)

  -- After any callbacks were added to a new emitter, a message of a type goes to the callbacks that
  -- were added for that type and to no other, once each and in the order in which they were added.
  -- The calls are made at once, unless the emitter is asynchronous: then they are handed to the
  -- dispatcher, and dropped if there is none.
  pub emit_message-add_all :
      (reader : Option ℕ) (async : Bool) (k : Text) (regs : List (Text × ℕ))
      → emit_message dispatcher (set_async async (add_all regs (new_emitter reader))) k m ≡ (
          if async
          then (if dispatcher then map (λ f. queued f m) (added_for k regs) else [])
          else map (λ f. called f m) (added_for k regs))
  unfolding emit_message set_async new_emitter
  emit_message-add_all reader async k regs =
      rw (equal_range-add_all k regs (new_emitter reader) tt) (elim (Bool-cases async) [
        | inl a ↦ rw a (emit_to-queued (added_for k regs))
        | inr s ↦ rw s (emit_to-called (added_for k regs))
      ])
