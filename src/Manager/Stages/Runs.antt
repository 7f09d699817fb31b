-- ===== src/Manager/Stages/Runs.antt =====
-- The manager as it is written does to each topic what the state machine allows.
use open_ddw.Base.{
  ◌≡◌, refl, inl, inr, Bool, true, false, Option, none, some, List, [], ◌∷◌, Option-cases, sym,
  subst, ap,
}
use open_ddw.Base.Text.{Text, same, same_eq}
use open_ddw.Dds.{Dds, Outcome, done, null_dereference, throws, terminates, ◌>>=◌, >>=-eq-done}
use open_ddw.Manager.{Manager}
use open_ddw.Manager.Settings
use open_ddw.Manager.Steps.{
  Operation, set_reader_listener_handler, register_topic, register_qos, unregister_topic,
  add_partition, create_subscriber, create_publisher, create_publisher_subscriber,
  add_data_listener, replace_filter_params, set_max_data_rate, add_callback, set_topic_qos,
  set_publisher_qos, set_subscriber_qos, set_writer_qos, set_reader_qos, clean_up_topics, void,
  step,
}
use open_ddw.Manager.Footprint.Topics.{topic_of, step_elsewhere}
use open_ddw.Manager.Stages.{Stage, stage, stage_of, Allows, Gives, GivesState, ensured}
use open_ddw.Manager.Stages.Subscribe.{create_subscriber-Gives}
use open_ddw.Manager.Stages.Publish.{create_publisher-Gives, create_publisher_subscriber-Gives}
use open_ddw.Manager.Stages.Settings.{
  set_topic_qos-stage, set_publisher_qos-stage, set_subscriber_qos-stage, set_writer_qos-stage,
  set_reader_qos-stage, add_partition-Gives,
}
use open_ddw.Manager.Stages.Presets.{register_qos-Gives}
use open_ddw.Manager.Stages.Register.{
  register_topic-Gives, unregister_topic-Gives, clean_up_topics-Gives,
}
use open_ddw.Manager.Stages.Calls.{
  add_callback-Gives, add_data_listener-stage, replace_filter_params-Gives, set_max_data_rate-Gives,
  set_reader_listener_handler-stage,
}

void-Gives :
    (P : Manager → Type 0) (r : Outcome Manager) → GivesState P r → Gives (λ b m. P m) (void r)
void-Gives P (done m) p = p
void-Gives P null_dereference p = p
void-Gives P (throws message) p = p
void-Gives P terminates p = p

ensuring-Gives :
    (k name : Text) (m : Manager) (r : Outcome Manager)
    → GivesState (λ x. stage k name x ≡ ensured (stage k name m)) r
    → Gives (λ b x. stage k name x ≡ ensured (stage k name m)) (void r)
ensuring-Gives k name m r p = void-Gives (λ x. stage k name x ≡ ensured (stage k name m)) r p

-- The operation's topic, or any where it names none.
abbrev Concerns : Option Text → Text → Type 0
Concerns none name = Unit {0}
Concerns (some n) name = n ≡ name

step-Gives :
    (d : Dds) (k name : Text) (o : Operation) (m : Manager)
    → Concerns (topic_of o) name
    → Gives (λ b m'. Allows k o b (stage k name m) (stage k name m')) (step d o m)
unfolding step
step-Gives d k name (set_reader_listener_handler h) m n =
    void-Gives (λ x. stage k name x ≡ stage k name m) (Settings.set_reader_listener_handler h m)
      (set_reader_listener_handler-stage k name h m)
step-Gives d k name (register_topic t x qos) m n = rw n (register_topic-Gives d k t name qos m)
step-Gives d k name (register_qos x qos) m n = rw n (register_qos-Gives k name qos m)
step-Gives d k name (unregister_topic x) m n = rw n (unregister_topic-Gives d k name m)
step-Gives d k name (add_partition x partition) m n = rw n (add_partition-Gives k name m partition)
step-Gives d k name (create_subscriber x reader filter params) m n =
    rw n (create_subscriber-Gives d k name reader filter params m)
step-Gives d k name (create_publisher x) m n = rw n (create_publisher-Gives d k name m)
step-Gives d k name (create_publisher_subscriber x reader filter params) m n =
    rw n (create_publisher_subscriber-Gives d k name reader filter params m)
step-Gives d k name (add_data_listener x reader listener mask) m n =
    rw n (add_data_listener-stage k name reader listener mask m)
step-Gives d k name (replace_filter_params x reader params) m n =
    rw n (replace_filter_params-Gives k name d reader params m)
step-Gives d k name (set_max_data_rate x reader rate) m n =
    rw n (set_max_data_rate-Gives k name reader rate m)
step-Gives d k name (add_callback setup index x reader func queue async) m n =
    rw n (add_callback-Gives k name setup index reader func queue async m)
step-Gives d k name (set_topic_qos x qos) m n =
    rw n (
      ensuring-Gives k name m (Settings.set_topic_qos name qos m)
        (set_topic_qos-stage k name m qos))
step-Gives d k name (set_publisher_qos x qos) m n = rw n (
    ensuring-Gives k name m (Settings.set_publisher_qos name qos m)
      (set_publisher_qos-stage k name m qos))
step-Gives d k name (set_subscriber_qos x qos) m n = rw n (
    ensuring-Gives k name m (Settings.set_subscriber_qos name qos m)
      (set_subscriber_qos-stage k name m qos))
step-Gives d k name (set_writer_qos x qos) m n = rw n (
    ensuring-Gives k name m (Settings.set_writer_qos name qos m)
      (set_writer_qos-stage k name m qos))
step-Gives d k name (set_reader_qos x qos) m n = rw n (
    ensuring-Gives k name m (Settings.set_reader_qos name qos m)
      (set_reader_qos-stage k name m qos))
step-Gives d k name (clean_up_topics schedule) m n = clean_up_topics-Gives d k name schedule m

-- Whether the operation is one for the topic.
abbrev pub concerns_topic : Option Text → Text → Bool
concerns_topic none name = true
concerns_topic (some n) name = same name n

abbrev pub concerns : Operation → Text → Bool
concerns o name = concerns_topic (topic_of o) name

-- The state machine of one topic over operations and what they returned: those for other topics
-- leave the stage.
abbrev pub Runs : Text → Text → List Operation → List Bool → Stage → Stage → Type 0
Runs k name [] [] u w = w ≡ u
Runs k name [] (b ∷ bs) u w = ⊥
Runs k name (o ∷ os) [] u w = ⊥
Runs k name (o ∷ os) (b ∷ bs) u w =
    (v : Stage) × ((concerns o name ≡ true) → Allows k o b u v)
    × ((concerns o name ≡ false) → v ≡ u)
    × Runs k name os bs v w

-- The operations in a row, as far as they return.
unfoldable pub run : Dds → List Operation → Manager → Outcome (List Bool × Manager)
unfolding step
run d [] m = done ([], m)
run d (o ∷ os) m = step d o m >>= λ (b, m₁). run d os m₁ >>= λ (bs, m₂). done (b ∷ bs, m₂)

Concerns-Concerns : (t : Option Text) (name : Text) → concerns_topic t name ≡ true → Concerns t name
Concerns-Concerns none name c = tt
Concerns-Concerns (some n) name c = sym (same_eq name n c)

-- One operation.
step-Allows :
    (d : Dds) (o : Operation) (m m' : Manager) (b : Bool) (k name : Text)
    → step d o m ≡ done (b, m')
    → concerns o name ≡ true
    → Allows k o b (stage k name m) (stage k name m')
step-Allows d o m m' b k name e c =
    let n = Concerns-Concerns (topic_of o) name c in rw e at (step-Gives d k name o m n)

step-stays :
    (d : Dds) (o : Operation) (m m' : Manager) (b : Bool) (k name : Text)
    → step d o m ≡ done (b, m')
    → concerns o name ≡ false
    → stage k name m' ≡ stage k name m
step-stays d o m m' b k name e c = elim (Option-cases (topic_of o)) [
  | inl unnamed ↦ absurd (cc)
  | inr (n, named) ↦
      let (kept, rest) = step_elsewhere d o n m m' b named e in
      ap (stage_of k) (kept name (rw named at c))
]

-- Operations that the manager runs, from any state and whatever OpenDDS answers, do to every topic,
-- and to its reader of any name, what the state machine of a topic allows: one operation after the
-- other, with what each returned; an operation on another topic leaves the stage as it is.
pub run-Runs :
    (d : Dds) (os : List Operation) (m m' : Manager) (bs : List Bool) (k name : Text)
    → run d os m ≡ done (bs, m')
    → Runs k name os bs (stage k name m) (stage k name m')
unfolding run
run-Runs d [] m m' bs k name e =
    let none_returned : [] ≡ bs = cc in
    let unchanged : m ≡ m' = cc in
    subst (λ x. Runs k name [] x (stage k name m) (stage k name m')) none_returned
      (subst (λ x. stage k name x ≡ stage k name m) unchanged refl)
run-Runs d (o ∷ os) m m' bs k name e =
    let ((b, m₁), e₁, e₂) = >>=-eq-done (step d o m) _ e in
    let ((rest, m₂), e₃, e₄) = >>=-eq-done (run d os m₁) _ e₂ in
    let returned : b ∷ rest ≡ bs = cc in
    let ended : m₂ ≡ m' = cc in
    let later =
      subst (λ x. Runs k name os rest (stage k name m₁) (stage k name x)) ended
        (run-Runs d os m₁ m₂ rest k name e₃) in
    subst (λ x. Runs k name (o ∷ os) x (stage k name m) (stage k name m')) returned
      (stage k name m₁, step-Allows d o m m₁ b k name e₁, step-stays d o m m₁ b k name e₁, later)
