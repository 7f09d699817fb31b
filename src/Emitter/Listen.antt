-- ===== src/Emitter/Listen.antt =====
-- The life of an emitter's thread and the loop of `Emitter::listen` (src/dds_callback.h).
use open_ddw.Base.{
  ℕ, ◌≡◌, refl, Bool, true, false, Option, none, some, List, [], ◌∷◌, ◌++◌, arith, if◌then◌else◌,
}
use open_ddw.Base.Text.{Text}
use open_ddw.Dds.{ReturnCode}
use open_ddw.Dds.Status.{is_ok}
use open_ddw.Emitter.{
  Emitter, listening, returned, Setup, Delivery, new_emitter, add_callback, set_async, set_reader,
  run, stop, joinable, reaches_loop, read_queue,
}

-- One round of the loop as the outside makes it: the flag that the test reads, what `wait` returns,
-- and what `take` would give to `readQueue`.
pub record Round (A : Type 0) : Type 0 where
  pub running : Bool
  pub waited : ReturnCode
  pub narrowed : Bool
  pub taken : ReturnCode
  pub messages : List A

abbrev prepend : {A : Type 0} → List A → Option (List A) → Option (List A)
prepend ds none = none
prepend ds (some es) = some (ds ++ es)

module _ {A : Type 0} (dispatcher : Bool) where
  -- What the callbacks get in a round: `continue` where the wait fails.
  unfoldable pub round : Emitter → Text → Round A → List (Delivery A)
  round e index r =
      if is_ok r.waited then read_queue dispatcher e index r.narrowed r.taken r.messages else []

  -- The loop over the rounds until the flag is found clear; `none` means that it is still running
  -- after the rounds. The value is what the callbacks got.
  unfoldable pub listen_loop : Emitter → Text → List (Round A) → Option (List (Delivery A))
  unfolding round
  listen_loop e index [] = none
  listen_loop e index (r ∷ rs) =
      let rest = prepend (round e index r) (listen_loop e index rs) in
      if r.running then rest else some []

  -- `listen`, with the reader that the emitter has when it returns.
  unfoldable pub listen :
      Setup → Emitter → Text → List (Round A) → Option (List (Delivery A) × Option ℕ)
  unfolding reaches_loop listen_loop
  listen a e index rs =
      if reaches_loop e.reader a
      then elim (listen_loop e index rs) [ none ↦ none | some ds ↦ some (ds, none) ]
      else some ([], e.reader)

-- The operations on an emitter from outside its thread.
pub data Action : Type 0 where
  adds : Text → ℕ → Action
  sets_async : Bool → Action
  sets_reader : Option ℕ → Action
  runs : Setup → Action
  stops : Action

unfoldable pub act : Action → Emitter → Option Emitter
unfolding add_callback set_async set_reader run stop
act (adds index func) e = some (add_callback index func e)
act (sets_async set) e = some (set_async set e)
act (sets_reader reader) e = some (set_reader reader e)
act (runs a) e = run a e
act stops e = some (stop e)

unfoldable pub act_all : List Action → Emitter → Option Emitter
unfolding act
act_all [] e = some e
act_all (a ∷ as') e = elim (act a e) [ none ↦ none | some e' ↦ act_all as' e' ]

-- An emitter that is not running has no thread to join.
abbrev pub IsConsistent : Emitter → Type 0
IsConsistent e = joinable e.thread ≡ e.running

pub run-IsConsistent :
    (a : Setup) (e : Emitter)
    → IsConsistent e
    → (e' : Emitter) × (run a e ≡ some e') × IsConsistent e'
unfolding run
run-IsConsistent a e h = go e.running refl
  where
    go : (b : Bool) → e.running ≡ b → (e' : Emitter) × (run a e ≡ some e') × IsConsistent e'
    go true p = (e, ground arith, h)
    go false p = (
      record e { running = true; thread = if reaches_loop e.reader a then listening else returned },
      ground arith,
      ground arith,
    )

act-IsConsistent :
    (a : Action) (e : Emitter)
    → IsConsistent e
    → (e' : Emitter) × (act a e ≡ some e') × IsConsistent e'
unfolding act
act-IsConsistent (adds index func) e h = (_, refl, h)
act-IsConsistent (sets_async set) e h = (_, refl, h)
act-IsConsistent (sets_reader reader) e h = (_, refl, h)
act-IsConsistent (runs a) e h = run-IsConsistent a e h
act-IsConsistent stops e h = (_, refl, refl)

act_all-IsConsistent :
    (as' : List Action) (e : Emitter)
    → IsConsistent e
    → (e' : Emitter) × (act_all as' e ≡ some e') × IsConsistent e'
unfolding act_all
act_all-IsConsistent [] e h = (e, refl, h)
act_all-IsConsistent (a ∷ as') e h =
    let (e₁, p, h₁) = act-IsConsistent a e h in
    let (e₂, q, h₂) = act_all-IsConsistent as' e₁ h₁ in (e₂, rw (p, act_all) q, h₂)

-- No order of calls on an emitter ends the program by starting a thread over one that is still
-- joinable, whatever OpenDDS answers, and afterwards the emitter has a thread exactly if it counts
-- as running.
pub act_all_total :
    (as' : List Action) (reader : Option ℕ)
    → (e : Emitter) × (act_all as' (new_emitter reader) ≡ some e) × (joinable e.thread ≡ e.running)
unfolding new_emitter
act_all_total as' reader = act_all-IsConsistent as' _ refl
