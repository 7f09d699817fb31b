-- ===== src/Manager/Steps/Safety.antt =====
-- No history of operations goes through a null pointer.
use open_ddw.Base.{ℕ, ◌≡◌, Bool, Option, none, some, arith, [], ◌∷◌}
use open_ddw.Qos.{OrderKind}
use open_ddw.Dds.{Dds, Outcome, done, null_dereference, throws, terminates}
use open_ddw.Manager.{Manager, new_manager}
use open_ddw.Manager.Steps.{
  Operation, set_reader_listener_handler, register_topic, register_qos, unregister_topic,
  add_partition, create_subscriber, create_publisher, create_publisher_subscriber,
  add_data_listener, replace_filter_params, set_max_data_rate, add_callback, set_topic_qos,
  set_publisher_qos, set_subscriber_qos, set_writer_qos, set_reader_qos, clean_up_topics, void,
  step,
}
use open_ddw.Base.Dict.{Dict, All}
use open_ddw.Group.{TopicGroup, IsValid}
use open_ddw.Manager.Valid.{SlotValid, IsWell, IsSafe, IsSafeState}
use open_ddw.Manager.Valid.Settings
use open_ddw.Manager.Valid.Register
use open_ddw.Manager.Valid.Subscribe
use open_ddw.Manager.Valid.Publish
use open_ddw.Manager.Valid.Callbacks

void-IsSafe : (r : Outcome Manager) → IsSafeState r → IsSafe (void r)
void-IsSafe (done m) s = s
void-IsSafe null_dereference s = s
void-IsSafe (throws message) s = s
void-IsSafe terminates s = s

-- An operation on a valid manager, whatever its arguments and whatever OpenDDS answers, goes through
-- no null pointer and does not end the program. It leaves a valid manager, or it throws.
pub step-IsSafe : (d : Dds) (o : Operation) (m : Manager) → IsWell m → IsSafe (step d o m)
unfolding step
step-IsSafe d (set_reader_listener_handler h) m w =
    void-IsSafe _ (Settings.set_reader_listener_handler-IsSafe h m w)
step-IsSafe d (register_topic t name qos) m w = Register.register_topic-IsSafe d t name qos m w
step-IsSafe d (register_qos name qos) m w = Register.register_qos-IsSafe name qos m w
step-IsSafe d (unregister_topic name) m w = Register.unregister_topic-IsSafe d name m w
step-IsSafe d (add_partition name partition) m w = Settings.add_partition-IsSafe name partition m w
step-IsSafe d (create_subscriber name reader filter params) m w =
    Subscribe.create_subscriber-IsSafe d name reader filter params m w
step-IsSafe d (create_publisher name) m w = Publish.create_publisher-IsSafe d name m w
step-IsSafe d (create_publisher_subscriber name reader filter params) m w =
    Publish.create_publisher_subscriber-IsSafe d name reader filter params m w
step-IsSafe d (add_data_listener name reader listener mask) m w =
    Callbacks.add_data_listener-IsWell name reader listener mask m w
step-IsSafe d (replace_filter_params name reader params) m w =
    Callbacks.replace_filter_params-IsSafe d name reader params m w
step-IsSafe d (set_max_data_rate name reader rate) m w =
    Callbacks.set_max_data_rate-IsSafe name reader rate m w
step-IsSafe d (add_callback setup index name reader func queue async) m w =
    Callbacks.add_callback-IsSafe setup index name reader func queue async m w
step-IsSafe d (set_topic_qos name qos) m w =
    void-IsSafe _ (Settings.set_topic_qos-IsSafe name qos m w)
step-IsSafe d (set_publisher_qos name qos) m w =
    void-IsSafe _ (Settings.set_publisher_qos-IsSafe name qos m w)
step-IsSafe d (set_subscriber_qos name qos) m w =
    void-IsSafe _ (Settings.set_subscriber_qos-IsSafe name qos m w)
step-IsSafe d (set_writer_qos name qos) m w =
    void-IsSafe _ (Settings.set_writer_qos-IsSafe name qos m w)
step-IsSafe d (set_reader_qos name qos) m w =
    void-IsSafe _ (Settings.set_reader_qos-IsSafe name qos m w)
step-IsSafe d (clean_up_topics schedule) m w = Register.clean_up_topics-IsSafe d schedule m w

-- The managers that a new one comes to: it joins a domain once, and otherwise runs operations.
pub data Reach (d : Dds) : Manager → Type 0 where
  start : (order : OrderKind) → Reach d (new_manager order)
  join :
      {m : Manager} (p : ℕ)
      → Reach d m
      → m.participant ≡ none
      → Reach d (record m { participant = some p })
  next :
      {m m' : Manager} {b : Bool} (o : Operation)
      → Reach d m
      → step d o m ≡ done (b, m')
      → Reach d m'

join-IsValid : (p : ℕ) (g : TopicGroup) → IsValid none g → IsValid (some p) g
join-IsValid p g v = ground arith

join-All :
    (p : ℕ) (ts : Dict (Option TopicGroup)) → All (SlotValid none) ts → All (SlotValid (some p)) ts
join-All p [] a = tt
join-All p ((k, none) ∷ ts) a = absurd a.0
join-All p ((k, some g) ∷ ts) a = (join-IsValid p g a.0, join-All p ts a.1)

safe_result :
    (r : Outcome (Bool × Manager)) (b : Bool) (m : Manager) → r ≡ done (b, m) → IsSafe r → IsWell m
safe_result r b m e s = rw e at s

pub Reach-IsWell : {d : Dds} {m : Manager} → Reach d m → IsWell m
unfolding new_manager
Reach-IsWell (start order) = tt
Reach-IsWell (join {m} p r absent) = join-All p m.topics (rw absent at (Reach-IsWell r))
Reach-IsWell {d} (next {m} {m'} {b} o r e) =
    safe_result (step d o m) b m' e (step-IsSafe d o m (Reach-IsWell r))

-- After any history in which a new manager joins a domain and runs operations on its topics and
-- handlers, `SetWriterListenerHandler` and `replaceFilter` excepted, whatever OpenDDS answers, no
-- further operation but these two goes through a null pointer or ends the program: it returns with a
-- valid manager, or it throws.
pub Reach-IsSafe : {d : Dds} {m : Manager} → Reach d m → (o : Operation) → IsSafe (step d o m)
Reach-IsSafe {d} {m} r o = step-IsSafe d o m (Reach-IsWell r)
