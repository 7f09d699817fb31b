-- ===== src/Simple/Safety.antt =====
-- A simple manager stays valid, and its operations go through no null pointer.
use open_ddw.Base.{[], ℕ, ◌≡◌, refl, Bool, true, false, Bool-cases, Option-cases, inl, inr}
use open_ddw.Base.Int.{ℤ}
use open_ddw.Base.Text.{Text}
use open_ddw.Qos.{QosType}
use open_ddw.Dds.{Dds, Outcome, done, null_dereference, throws, terminates, ◌>>=◌}
use open_ddw.Emitter.{Setup}
use open_ddw.Manager.{Manager}
use open_ddw.Manager.Samples.{Written, write_sample, dispose_sample, write_sample-cases}
use open_ddw.Manager.Valid.{IsWell, IsSafe}
use open_ddw.Manager.Valid.Register.{register_topic-IsSafe}
use open_ddw.Manager.Valid.Publish.{create_publisher-IsSafe}
use open_ddw.Manager.Valid.Subscribe.{create_subscriber-IsSafe}
use open_ddw.Manager.Valid.Callbacks.{add_callback-IsSafe}
use open_ddw.Manager.Steps.{Operation, step}
use open_ddw.Manager.Steps.Safety.{Reach, Reach-IsWell, step-IsSafe}
use open_ddw.Simple.{
  SimpleManager, TopicType, new_simple_manager, set_event_id, publisher, subscriber, callback,
  write, dispose, topic_for,
}

-- As `IsSafe`, of the manager below.
abbrev pub IsSimplySafe : Outcome (Bool × SimpleManager) → Type 0
IsSimplySafe (done (b, s)) = IsWell s.manager
IsSimplySafe null_dereference = ⊥
IsSimplySafe (throws message) = Unit
IsSimplySafe terminates = ⊥

-- The operations of the class that change it or call OpenDDS, but for `Listener`, and, as
-- `inherited`, those of its base class. `Write` and `Dispose` get the type, the topic, whether the
-- writer narrows to the type, and how it answers; the message is a number.
pub data SimpleOperation : Type 0 where
  publish : TopicType → Text → QosType → SimpleOperation
  subscribe : TopicType → Text → QosType → Text → Text → SimpleOperation
  call_back : Setup → TopicType → Text → QosType → ℕ → Text → Bool → Text → SimpleOperation
  set_id : ℤ → SimpleOperation
  writes disposes : Text → Text → Bool → Written → SimpleOperation
  inherited : Operation → SimpleOperation

unfoldable pub simple_step : Dds → SimpleOperation → SimpleManager → Outcome (Bool × SimpleManager)
simple_step d (publish t topic qos) s = publisher d t topic qos s
simple_step d (subscribe t topic qos filter reader) s = subscriber d t topic qos filter reader s
simple_step d (call_back setup t topic qos func filter async reader) s =
    callback d setup t topic qos func filter async reader s
simple_step d (set_id id) s = done (true, set_event_id id s)
simple_step d (writes index topic narrowed written) s =
    write {A = ℕ} narrowed (λ m. written) index 0 topic s >>= λ b. done (b, s)
simple_step d (disposes index topic narrowed written) s =
    dispose {A = ℕ} narrowed (λ m. written) index 0 topic s >>= λ b. done (b, s)
simple_step d (inherited o) s = step d o s.manager >>= λ (b, m). done (b, record s { manager = m })

>>=-IsSimplySafe :
    (r : Outcome (Bool × Manager)) (f : Bool × Manager → Outcome (Bool × SimpleManager))
    → IsSafe r
    → ((b : Bool) (m : Manager) → IsWell m → IsSimplySafe (f (b, m)))
    → IsSimplySafe (r >>= f)
>>=-IsSimplySafe (done (b, m)) f s k = k b m s
>>=-IsSimplySafe null_dereference f s k = s
>>=-IsSimplySafe (throws message) f s k = s
>>=-IsSimplySafe terminates f s k = s

writes-IsSimplySafe :
    (index topic : Text) (narrowed : Bool) (written : Written) (s : SimpleManager)
    → IsWell s.manager
    → IsSimplySafe (write {A = ℕ} narrowed (λ m. written) index 0 topic s >>= λ b. done (b, s))
unfolding write
writes-IsSimplySafe index topic narrowed written s w =
    elim (Option-cases (topic_for index topic s)) [
      | inl unmapped ↦ rw (write, unmapped) w
      | inr (t, e) ↦ elim (write_sample-cases s.manager t narrowed written) [
        | inl (b, back) ↦ rw (write, e, back) w
        | inr (message, thrown) ↦ rw (write, e, thrown) tt
      ]
    ]

dispose-write :
    (index topic : Text) (narrowed : Bool) (written : Written) (s : SimpleManager)
    → dispose {A = ℕ} narrowed (λ m. written) index 0 topic s
      ≡ write {A = ℕ} narrowed (λ m. written) index 0 topic s
unfolding dispose write dispose_sample write_sample
dispose-write index topic narrowed written s = refl

module _ (d : Dds) where
  publisher-IsSimplySafe :
      (t : TopicType) (topic : Text) (qos : QosType) (s : SimpleManager)
      → IsWell s.manager
      → IsSimplySafe (publisher d t topic qos s)
  unfolding publisher
  publisher-IsSimplySafe t topic qos s w =
      >>=-IsSimplySafe _ _ (register_topic-IsSafe d t.type_name topic qos s.manager w) λ b₁ m₁ w₁.
        >>=-IsSimplySafe _ _ (create_publisher-IsSafe d topic m₁ w₁)
          λ b₂ m₂ w₂. elim (Bool-cases b₂) [ inl e ↦ rw e w₂ | inr e ↦ rw e w₂ ]

  subscriber-IsSimplySafe :
      (t : TopicType) (topic : Text) (qos : QosType) (filter reader : Text) (s : SimpleManager)
      → IsWell s.manager
      → IsSimplySafe (subscriber d t topic qos filter reader s)
  unfolding subscriber
  subscriber-IsSimplySafe t topic qos filter reader s w =
      >>=-IsSimplySafe _ _ (register_topic-IsSafe d t.type_name topic qos s.manager w) λ b₁ m₁ w₁.
        >>=-IsSimplySafe _ _ (create_subscriber-IsSafe d topic _ filter [] m₁ w₁) λ b₂ m₂ w₂. w₂

  callback-IsSimplySafe :
      (setup : Setup) (t : TopicType) (topic : Text) (qos : QosType) (func : ℕ) (filter : Text)
      (async : Bool) (reader : Text) (s : SimpleManager)
      → IsWell s.manager
      → IsSimplySafe (callback d setup t topic qos func filter async reader s)
  unfolding callback
  callback-IsSimplySafe setup t topic qos func filter async reader s w =
      >>=-IsSimplySafe _ _ (register_topic-IsSafe d t.type_name topic qos s.manager w) λ b₁ m₁ w₁.
        >>=-IsSimplySafe _ _ (create_subscriber-IsSafe d topic _ filter [] m₁ w₁) λ b₂ m₂ w₂.
          elim (Bool-cases b₂) [
            | inr e ↦ rw e w₂
            | inl e ↦ rw e (
                >>=-IsSimplySafe _ _
                  (add_callback-IsSafe setup t.index topic _ func false async m₂ w₂) λ b₃ m₃ w₃. w₃)
          ]

  simple_step-IsSimplySafe :
      (o : SimpleOperation) (s : SimpleManager)
      → IsWell s.manager
      → IsSimplySafe (simple_step d o s)
  unfolding simple_step set_event_id
  simple_step-IsSimplySafe (publish t topic qos) s w = publisher-IsSimplySafe t topic qos s w
  simple_step-IsSimplySafe (subscribe t topic qos filter reader) s w =
      subscriber-IsSimplySafe t topic qos filter reader s w
  simple_step-IsSimplySafe (call_back setup t topic qos func filter async reader) s w =
      callback-IsSimplySafe setup t topic qos func filter async reader s w
  simple_step-IsSimplySafe (set_id id) s w = w
  simple_step-IsSimplySafe (writes index topic narrowed written) s w =
      writes-IsSimplySafe index topic narrowed written s w
  simple_step-IsSimplySafe (disposes index topic narrowed written) s w =
      rw (dispose-write index topic narrowed written s)
        (writes-IsSimplySafe index topic narrowed written s w)
  simple_step-IsSimplySafe (inherited o) s w =
      >>=-IsSimplySafe _ _ (step-IsSafe d o s.manager w) λ b m w'. w'

  -- The simple managers that one over a reached manager comes to. A domain is joined once.
  pub data SimpleReach : SimpleManager → Type 0 where
    start : {m : Manager} (event_id : ℤ) → Reach d m → SimpleReach (new_simple_manager event_id m)
    next :
        {s s' : SimpleManager} {b : Bool} (o : SimpleOperation)
        → SimpleReach s
        → simple_step d o s ≡ done (b, s')
        → SimpleReach s'

  simple_result :
      (r : Outcome (Bool × SimpleManager)) (b : Bool) (s : SimpleManager)
      → r ≡ done (b, s)
      → IsSimplySafe r
      → IsWell s.manager
  simple_result r b s e safe = rw e at safe

  pub SimpleReach-IsWell : {s : SimpleManager} → SimpleReach s → IsWell s.manager
  unfolding new_simple_manager
  SimpleReach-IsWell (start event_id r) = Reach-IsWell r
  SimpleReach-IsWell (next {s} {s'} {b} o r e) =
      simple_result (simple_step d o s) b s' e (simple_step-IsSimplySafe o s (SimpleReach-IsWell r))

  -- After any history of a simple manager made over a manager that a history led to, whatever OpenDDS
  -- answers: `Publisher`, `Subscriber`, `Callback`, `Write`, `Dispose`, the setter of the event ID,
  -- and the inherited operations on topics and handlers, but for `SetWriterListenerHandler` and
  -- `replaceFilter`, which no history has either, go through no null pointer and do not end the
  -- program: each returns with a valid manager, or it throws.
  pub SimpleReach-IsSimplySafe :
      {s : SimpleManager} → SimpleReach s → (o : SimpleOperation) → IsSimplySafe (simple_step d o s)
  SimpleReach-IsSimplySafe {s} r o = simple_step-IsSimplySafe o s (SimpleReach-IsWell r)
