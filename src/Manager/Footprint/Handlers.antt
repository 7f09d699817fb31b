-- ===== src/Manager/Footprint/Handlers.antt =====
-- Every reader listener has the handler that the manager was given last.
use open_ddw.Base.{
  ℕ, ◌≡◌, refl, ap, subst, Bool, true, Option, none, some, List, [], ◌∷◌, inl, inr, Bool-cases,
  Option-cases,
}
use open_ddw.Base.Text.{Text, same, same_eq}
use open_ddw.Base.Dict.{Dict, All, lookup, lookup-All}
use open_ddw.Dds.{Dds, done, >>=-eq-done}
use open_ddw.Group.{TopicGroup, GenericListener}
use open_ddw.Manager.{Manager, slot, slot_of, new_manager}
use open_ddw.Manager.Settings
use open_ddw.Manager.Settings.{handle_readers, handle_topic_readers}
use open_ddw.Manager.Register
use open_ddw.Manager.Steps.{Operation, set_reader_listener_handler, clean_up_topics, step}
use open_ddw.Manager.Steps.Safety.{Reach, start, join, next}
use open_ddw.Manager.Footprint.{Elsewhere, HasHandler, IsHandled}
use open_ddw.Manager.Footprint.Topics.{topic_of, step-Elsewhere}

abbrev pub AllHandled : Manager → Type 0
AllHandled m = (j : Text) → IsHandled m.rl_handler (slot m j)

-- An operation leaves every listener with its handler.
Elsewhere-AllHandled :
    (name : Text) (m m' : Manager) → Elsewhere name m m' → AllHandled m → AllHandled m'
Elsewhere-AllHandled name m m' f a j = elim (Bool-cases (same j name)) [
  | inl e ↦ rw (same_eq j name e) (f.handled (a name))
  | inr e ↦
      let h : m'.rl_handler ≡ m.rl_handler = ap (λ x. x.1) f.members_kept in
      rw (f.elsewhere j e, h) (a j)
]

handle_readers-All :
    (h : Option ℕ) (ls : Dict GenericListener) → All (HasHandler h) (handle_readers h ls)
unfolding handle_readers
handle_readers-All h [] = tt
handle_readers-All h ((k, l) ∷ ls) = (refl, handle_readers-All h ls)

abbrev IsEntryHandled : Option ℕ → Option TopicGroup → Type 0
IsEntryHandled h none = Unit
IsEntryHandled h (some g) = All (HasHandler h) g.reader_listeners

handle_topic_readers-All :
    (h : Option ℕ) (ts ts' : Dict (Option TopicGroup))
    → handle_topic_readers h ts ≡ done ts'
    → All (IsEntryHandled h) ts'
unfolding handle_topic_readers
handle_topic_readers-All h [] ts' e =
    let eq : ◌≡◌ {A = Dict (Option TopicGroup)} [] ts' = cc in subst (All (IsEntryHandled h)) eq tt
handle_topic_readers-All h ((k, none) ∷ ts) ts' e = absurd (cc)
handle_topic_readers-All h ((k, some g) ∷ ts) ts' e =
    let (us, e₁, e₂) = >>=-eq-done (handle_topic_readers h ts) _ e in
    let eq : (k, some (record g { reader_listeners = handle_readers h g.reader_listeners })) ∷ us
        ≡ ts' =
      cc in
    subst (All (IsEntryHandled h)) eq
      (handle_readers-All h g.reader_listeners, handle_topic_readers-All h ts us e₁)

All-AllHandled : (m : Manager) → All (IsEntryHandled m.rl_handler) m.topics → AllHandled m
unfolding slot
All-AllHandled m a j = go (lookup j m.topics) refl
  where
    go :
        (o : Option (Option TopicGroup))
        → lookup j m.topics ≡ o
        → IsHandled m.rl_handler (slot_of o)
    go none e = tt
    go (some none) e = tt
    go (some (some g)) e = lookup-All (IsEntryHandled m.rl_handler) j m.topics (some g) a e

set_reader_listener_handler-AllHandled :
    (h : Option ℕ) (m m' : Manager)
    → Settings.set_reader_listener_handler h m ≡ done m'
    → AllHandled m'
unfolding Settings.set_reader_listener_handler
set_reader_listener_handler-AllHandled h m m' e =
    let (ts, e₁, e₂) = >>=-eq-done (handle_topic_readers h m.topics) _ e in
    let eq : record m { rl_handler = h; topics = ts } ≡ m' = cc in
    subst AllHandled eq (All-AllHandled _ (handle_topic_readers-All h m.topics ts e₁))

clean_up_topics-AllHandled :
    (d : Dds) (schedule : List Text) (m m' : Manager) (b : Bool)
    → Register.clean_up_topics d schedule m ≡ done (b, m')
    → AllHandled m'
unfolding Register.clean_up_topics
clean_up_topics-AllHandled d schedule m m' b e =
    let order = Register.in_order schedule (Register.started m.topics) in
    let (x, e₁, e₂) = >>=-eq-done (Register.unregister_all d order true m) _ e in
    let (calls, e₃, e₄) = >>=-eq-done (Register.clear_topics d (x.1.topics) (x.1.calls)) _ e₂ in
    let m₁ = record (x.1) { topics = []; calls = calls } in
    let eq : m₁ ≡ m' = cc in subst AllHandled eq (All-AllHandled m₁ tt)

step-AllHandled :
    (d : Dds) (o : Operation) (m m' : Manager) (b : Bool)
    → step d o m ≡ done (b, m')
    → AllHandled m
    → AllHandled m'
unfolding step
step-AllHandled d (set_reader_listener_handler h) m m' b e a =
    let (x, e₁, e₂) = >>=-eq-done (Settings.set_reader_listener_handler h m) _ e in
    let eq : x ≡ m' = cc in subst AllHandled eq (set_reader_listener_handler-AllHandled h m x e₁)
step-AllHandled d (clean_up_topics schedule) m m' b e a =
    clean_up_topics-AllHandled d schedule m m' b e
step-AllHandled d o m m' b e a = elim (Option-cases (topic_of o)) [
  | inl unnamed ↦ absurd (cc)
  | inr (name, named) ↦ Elsewhere-AllHandled name m m' (step-Elsewhere d o name m m' b named e) a
]

pub Reach-AllHandled : {d : Dds} {m : Manager} → Reach d m → AllHandled m
unfolding new_manager slot
Reach-AllHandled (start order) = All-AllHandled (new_manager order) tt
Reach-AllHandled (join {m} p r absent) = Reach-AllHandled r
Reach-AllHandled {d} (next {m} {m'} {b} o r e) = step-AllHandled d o m m' b e (Reach-AllHandled r)
