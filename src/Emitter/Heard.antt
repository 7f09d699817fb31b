-- ===== src/Emitter/Heard.antt =====
-- What the callbacks hear in a whole run of `Emitter::listen` (src/dds_callback.h).
use mathlib.Core.List.{append_assoc}
use open_ddw.Base.{
  ℕ, ◌≡◌, refl, ◌∙◌, sym, ap, Bool, true, false, ◌&&◌, ◌||◌, Option, some, List, [], ◌∷◌, ◌++◌, map,
  arith, if◌then◌else◌,
}
use open_ddw.Base.Text.{Text}
use open_ddw.Dds.Status.{is_ok, is_no_data}
use open_ddw.Emitter.{
  Emitter, Delivery, called, queued, new_emitter, set_async, emit_all, emit_message, read_queue,
}
use open_ddw.Emitter.Listen.{Round, round, listen_loop}
use open_ddw.Emitter.Routing.{add_all, added_for, emit_message-add_all}

module _ {A : Type 0} where
  abbrev pub AllRunning : List (Round A) → Type 0
  AllRunning [] = Unit
  AllRunning (r ∷ rs) = (r.running ≡ true) × AllRunning rs

  -- The messages that `take` gave in the rounds in which the wait was woken, the reader narrowed and
  -- `take` did not fail.
  abbrev pub heard : List (Round A) → List A
  heard [] = []
  heard (r ∷ rs) =
      if is_ok r.waited && (r.narrowed && (is_ok r.taken || is_no_data r.taken))
      then r.messages ++ heard rs
      else heard rs

  -- The calls for one message after the other.
  abbrev pub each : (A → List (Delivery A)) → List A → List (Delivery A)
  each f [] = []
  each f (m ∷ ms) = f m ++ each f ms

  each-append :
      (f : A → List (Delivery A)) (ms ns : List A) → each f (ms ++ ns) ≡ each f ms ++ each f ns
  each-append f [] ns = refl
  each-append f (m ∷ ms) ns =
      ap (λ ds. f m ++ ds) (each-append f ms ns) ∙ sym (append_assoc (f m) (each f ms) (each f ns))

  module _ (dispatcher : Bool) where
    emit_all-each :
        (e : Emitter) (index : Text) (ms : List A)
        → emit_all dispatcher e index ms ≡ each (emit_message dispatcher e index) ms
    unfolding emit_all
    emit_all-each e index [] = refl
    emit_all-each e index (m ∷ ms) = rw (emit_all-each e index ms) refl

    round-heard :
        (e : Emitter) (index : Text) (r : Round A) (rs : List (Round A))
        → round dispatcher e index r ++ each (emit_message dispatcher e index) (heard rs)
          ≡ each (emit_message dispatcher e index) (heard (r ∷ rs))
    unfolding round read_queue
    round-heard e index r rs = ground (
      arith,
      emit_all-each e index r.messages,
      each-append (emit_message dispatcher e index) r.messages (heard rs),
    )

    listen_loop-each :
        (e : Emitter) (index : Text) (rounds : List (Round A)) (r : Round A)
        (later : List (Round A))
        → AllRunning rounds
        → r.running ≡ false
        → listen_loop dispatcher e index (rounds ++ r ∷ later)
          ≡ some (each (emit_message dispatcher e index) (heard rounds))
    unfolding listen_loop
    listen_loop-each e index [] r later run stop = rw stop refl
    listen_loop-each e index (q ∷ qs) r later run stop =
        rw (run.0, listen_loop-each e index qs r later run.1 stop)
          (ap some (round-heard e index q qs))

    -- What a callback for the type gets of a message.
    abbrev pub deliveries : Bool → List ℕ → A → List (Delivery A)
    deliveries async funcs m =
        if async
        then (if dispatcher then map (λ f. queued f m) funcs else [])
        else map (λ f. called f m) funcs

    each-eq :
        (f g : A → List (Delivery A)) (ms : List A) → ((m : A) → f m ≡ g m) → each f ms ≡ each g ms
    each-eq f g [] h = refl
    each-eq f g (m ∷ ms) h = rw (h m, each-eq f g ms h) refl

    -- The loop of an emitter with callbacks ends at the first round that finds the flag clear, whatever
    -- would come later. By then each message that `take` gave, in the rounds before that one in which
    -- the wait was woken, the reader narrowed and `take` succeeded or found no data, went to the
    -- callbacks that were added for the type, in their order, one message after the other: at once, or
    -- through the dispatcher, or not at all, where the emitter is asynchronous and has no dispatcher.
    pub listen_loop-deliveries :
        (reader : Option ℕ) (async : Bool) (index : Text) (regs : List (Text × ℕ))
        (rounds : List (Round A)) (r : Round A) (later : List (Round A))
        → AllRunning rounds
        → r.running ≡ false
        → listen_loop dispatcher
            (set_async async (add_all regs (new_emitter reader)))
            index
            (rounds ++ r ∷ later)
          ≡ some (each (deliveries async (added_for index regs)) (heard rounds))
    listen_loop-deliveries reader async index regs rounds r later run stop =
        let e = set_async async (add_all regs (new_emitter reader)) in
        listen_loop-each e index rounds r later run stop
        ∙ ap some (
            each-eq _ _ (heard rounds)
              λ m. emit_message-add_all dispatcher m reader async index regs)
