-- ===== src/Simple.antt =====
-- `DDSSimpleManager` (src/dds_simple.h): a manager that remembers under which topic a type is
-- published and subscribed to. What it tells the message handler is in Messages.
pub mod Waiting
pub mod Arrays
pub mod Safety
pub mod Routes
pub mod Discovery
pub mod Messages
use open_ddw.Base.{
  ℕ, Bool, true, false, Option, none, some, List, [], ◌∷◌, ◌++◌, is_empty, if◌then◌else◌,
}
use open_ddw.Base.Int.{ℤ}
use open_ddw.Base.Text.{Text, text}
use open_ddw.Base.Dict.{Dict, lookup, insert}
use open_ddw.Base.Decimal.{to_string}
use open_ddw.Qos.{QosType}
use open_ddw.Dds.{Dds, Outcome, done, null_dereference, throws, ◌>>=◌, deref, set_listener}
use open_ddw.Emitter.{Setup}
use open_ddw.Manager.{Manager, call, get_reader}
use open_ddw.Manager.Register.{register_topic}
use open_ddw.Manager.Publish.{create_publisher}
use open_ddw.Manager.Subscribe.{create_subscriber}
use open_ddw.Manager.Callbacks.{add_callback}
use open_ddw.Manager.Samples.{Written, write_sample, dispose_sample}

-- The maps are from `typeid(T).name()` to topic names.
pub record SimpleManager : Type 0 where
  pub manager : Manager
  pub event_id : ℤ
  pub pub_map : Dict Text
  pub sub_map : Dict Text

unfoldable pub new_simple_manager : ℤ → Manager → SimpleManager
new_simple_manager event_id manager = record {
  manager = manager;
  event_id = event_id;
  pub_map = [];
  sub_map = [];
}

unfoldable pub set_event_id : ℤ → SimpleManager → SimpleManager
set_event_id id s = record s { event_id = id }

-- A topic type: `typeid(T).name()`, and what its type support is called.
pub record TopicType : Type 0 where
  pub index : Text
  pub type_name : Text

abbrev pub generate_reader_name : Text → Text → Text
generate_reader_name topic_name reader_name =
    if is_empty reader_name then topic_name ++ text "Reader" else reader_name

module _ (d : Dds) where
  unfoldable pub publisher :
      TopicType → Text → QosType → SimpleManager → Outcome (Bool × SimpleManager)
  publisher t topic_name qos s =
      register_topic d t.type_name topic_name qos s.manager >>= λ (registered, m₁).
      create_publisher d topic_name m₁ >>= λ (created, m₂).
      let s₂ = record s { manager = m₂ } in
      done (
        created,
        if created then record s₂ { pub_map = insert t.index topic_name s.pub_map } else s₂,
      )

  unfoldable pub subscriber :
      TopicType → Text → QosType → Text → Text → SimpleManager → Outcome (Bool × SimpleManager)
  subscriber t topic_name qos filter reader_name s =
      let name = generate_reader_name topic_name reader_name in
      register_topic d t.type_name topic_name qos s.manager >>= λ (registered, m₁).
      create_subscriber d topic_name name filter [] m₁ >>= λ (temp, m₂).
      done (temp, record s { manager = m₂; sub_map = insert t.index topic_name s.sub_map })

  -- The callback runs in its own thread, which `setup` answers.
  unfoldable pub callback :
      Setup
      → TopicType
      → Text
      → QosType
      → ℕ
      → Text
      → Bool
      → Text
      → SimpleManager
      → Outcome (Bool × SimpleManager)
  callback setup t topic_name qos func filter async reader_name s =
      let name = generate_reader_name topic_name reader_name in
      register_topic d t.type_name topic_name qos s.manager >>= λ (registered, m₁).
      create_subscriber d topic_name name filter [] m₁ >>= λ (created, m₂).
      if created
      then (add_callback setup t.index topic_name name func false async m₂ >>= λ (ret_val, m₃).
          done (ret_val, record s { manager = m₃; sub_map = insert t.index topic_name s.sub_map }))
      else done (false, record s { manager = m₂ })

  -- `data_available` is the mask, `new_listener` the listener that is made.
  unfoldable pub listener :
      ℕ → ℕ → TopicType → Text → QosType → Text → SimpleManager → Outcome SimpleManager
  unfolding subscriber
  listener data_available new_listener t topic_name qos filter s =
      subscriber t topic_name qos filter [] s >>= λ (subscribed, s₁).
      deref (get_reader s₁.manager topic_name (topic_name ++ text "Reader")) >>= λ r.
      done (record s₁ {
        manager = call (set_listener r (some new_listener) data_available) s₁.manager;
      })

-- The topic to write to: the one that is given, or the one of the type.
abbrev pub topic_for : Text → Text → SimpleManager → Option Text
topic_for index topic_name s =
    if is_empty topic_name then lookup index s.pub_map else some topic_name

-- `written` says how the writer answers a message of the type.
module _ {A : Type 0} (narrowed : Bool) (written : A → Written) where
  unfoldable pub write : Text → A → Text → SimpleManager → Outcome Bool
  unfolding lookup
  write index message topic_name s = elim (topic_for index topic_name s) [
    | none ↦ done false
    | some topic ↦ write_sample s.manager topic narrowed (written message)
  ]

  unfoldable pub dispose : Text → A → Text → SimpleManager → Outcome Bool
  unfolding lookup
  dispose index message topic_name s = elim (topic_for index topic_name s) [
    | none ↦ done false
    | some topic ↦ dispose_sample s.manager topic narrowed (written message)
  ]

  -- The message, as the caller has it afterwards, is the second part of the value.
  unfoldable pub write_wid : (ℤ → A → A) → Text → A → Text → SimpleManager → Outcome (Bool × A)
  unfolding write
  write_wid with_event_id index message topic_name s =
      let message' = with_event_id s.event_id message in
      write index message' topic_name s >>= λ b. done (b, message')

-- `WaitOnDiscovery` only throws.
unfoldable pub wait_on_discovery : Text → ℕ → Outcome Bool
unfolding to_string
wait_on_discovery index seconds = throws (
    text "Calls to WaitOnDiscovery have been deprecated. Please use WaitForSubscriber<"
    ++ (index ++ (text ">(" ++ (to_string seconds ++ text ") instead."))))
