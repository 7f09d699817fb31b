-- ===== src/Manager/Stages.antt =====
-- What `DDSManager` promises of a topic, without what OpenDDS answers: a state machine with few
-- stages, and the stage that a manager has a topic in.
pub mod Subscribe
pub mod Publish
pub mod Settings
pub mod Presets
pub mod Register
pub mod Calls
pub mod Runs
use open_ddw.Base.{
  ℕ, subst, sym, ◌≡◌, refl, ◌⊎◌, Bool, true, false, Option, none, some, arith, is_some,
  if◌then◌else◌,
}
use open_ddw.Base.Text.{Text, same, same_refl}
use open_ddw.Base.Dict.{contains}
use open_ddw.Dds.{Outcome, done, null_dereference, throws, terminates, ◌>>=◌, deref}
use open_ddw.Group.{TopicGroup}
use open_ddw.Manager.{Manager, Slot, missing, null, found, slot, put_group, slot-put_group}
use open_ddw.Manager.Steps.{
  Operation, set_reader_listener_handler, register_topic, register_qos, unregister_topic,
  add_partition, create_subscriber, create_publisher, create_publisher_subscriber,
  add_data_listener, replace_filter_params, set_max_data_rate, add_callback, set_topic_qos,
  set_publisher_qos, set_subscriber_qos, set_writer_qos, set_reader_qos, clean_up_topics,
}

-- A topic has no group, or a group with or without the DDS topic, a publisher, a data writer and a
-- data reader of one name. `broken` is a null pointer in `m_topics`.
pub data Stage : Type 0 where
  absent broken : Stage
  stands : (topic publisher writer reader : Bool) → Stage

abbrev pub group_stage : Text → TopicGroup → Stage
group_stage k g =
    stands (is_some g.topic) (is_some g.publisher) (is_some g.writer) (contains k g.readers)

abbrev pub stage_of : Text → Slot → Stage
stage_of k missing = absent
stage_of k null = broken
stage_of k (found g) = group_stage k g

-- For the reader name `k`.
abbrev pub stage : Text → Text → Manager → Stage
stage k name m = stage_of k (slot m name)

-- From which stage to which one a call may lead that returns the Boolean.
abbrev pub Registers : Bool → Stage → Stage → Type 0
Registers b broken v = (b ≡ true) × (v ≡ broken)
Registers true absent v = v ≡ stands true false false false
Registers false absent v = v ≡ absent
Registers true (stands t p w r) v = v ≡ stands true p w r
Registers false (stands t p w r) v = (t ≡ false) × (v ≡ stands t p w r)

-- A writer comes with its publisher only.
abbrev pub Publishes : Bool → Stage → Stage → Type 0
Publishes b broken v = (b ≡ false) × (v ≡ broken)
Publishes b absent v = (b ≡ false) × (v ≡ absent)
Publishes true (stands t p w r) v = (t ≡ true) × (v ≡ stands t true (if p then w else true) r)
Publishes false (stands t p w r) v =
    (v ≡ stands t p w r) ⊎ ((t ≡ true) × (p ≡ false) × (v ≡ stands t true false r))

abbrev pub Subscribes : Bool → Bool → Stage → Stage → Type 0
Subscribes is_k b broken v = (b ≡ false) × (v ≡ broken)
Subscribes is_k b absent v = (b ≡ false) × (v ≡ absent)
Subscribes is_k true (stands t p w r) v = (t ≡ true) × (v ≡ stands t p w (if is_k then true else r))
Subscribes is_k false (stands t p w r) v = v ≡ stands t p w r

abbrev pub PublishesAndSubscribes : Bool → Bool → Stage → Stage → Type 0
PublishesAndSubscribes is_k true u w = (v : Stage) × Publishes true u v × Subscribes is_k true v w
PublishesAndSubscribes is_k false u w =
    Publishes false u w ⊎ ((v : Stage) × Publishes true u v × Subscribes is_k false v w)

abbrev pub Unregisters : Bool → Stage → Stage → Type 0
Unregisters b broken v = (b ≡ false) × (v ≡ broken)
Unregisters b absent v = (b ≡ false) × (v ≡ absent)
Unregisters b (stands t p w r) v = (b ≡ true) × (v ≡ absent)

-- A call that needs a group, and leaves its stage.
abbrev pub NeedsGroup : Bool → Stage → Stage → Type 0
NeedsGroup b broken v = (b ≡ false) × (v ≡ broken)
NeedsGroup b absent v = (b ≡ false) × (v ≡ absent)
NeedsGroup b (stands t p w r) v = (b ≡ true) × (v ≡ stands t p w r)

-- A setter of QoS makes the group.
abbrev pub ensured : Stage → Stage
ensured absent = stands false false false false
ensured broken = broken
ensured (stands t p w r) = stands t p w r

-- The state machine of a topic. `k` is the name of the reader that the stages speak of.
abbrev pub Allows : Text → Operation → Bool → Stage → Stage → Type 0
Allows k (set_reader_listener_handler h) b u v = v ≡ u
Allows k (register_topic type_name name qos) b u v = Registers b u v
Allows k (register_qos name qos) b u v = NeedsGroup b u v
Allows k (unregister_topic name) b u v = Unregisters b u v
Allows k (add_partition name partition) b u v = NeedsGroup b u v
Allows k (create_subscriber name reader filter params) b u v = Subscribes (same k reader) b u v
Allows k (create_publisher name) b u v = Publishes b u v
Allows k (create_publisher_subscriber name reader filter params) b u v =
    PublishesAndSubscribes (same k reader) b u v
Allows k (add_data_listener name reader listener mask) b u v = v ≡ u
Allows k (replace_filter_params name reader params) b u v = v ≡ u
Allows k (set_max_data_rate name reader rate) b u v = v ≡ u
Allows k (add_callback setup index name reader func queue async) b u v = v ≡ u
Allows k (set_topic_qos name qos) b u v = v ≡ ensured u
Allows k (set_publisher_qos name qos) b u v = v ≡ ensured u
Allows k (set_subscriber_qos name qos) b u v = v ≡ ensured u
Allows k (set_writer_qos name qos) b u v = v ≡ ensured u
Allows k (set_reader_qos name qos) b u v = v ≡ ensured u
Allows k (clean_up_topics schedule) b u v = v ≡ absent

-- Of what an operation returns, where it returns.
abbrev pub Gives : (Bool → Manager → Type 0) → Outcome (Bool × Manager) → Type 0
Gives P (done (b, m)) = P b m
Gives P null_dereference = Unit
Gives P (throws message) = Unit
Gives P terminates = Unit

abbrev pub GivesState : (Manager → Type 0) → Outcome Manager → Type 0
GivesState P (done m) = P m
GivesState P null_dereference = Unit
GivesState P (throws message) = Unit
GivesState P terminates = Unit

pub stage-put_group :
    (k name : Text) (g : TopicGroup) (m : Manager)
    → stage k name (put_group name g m) ≡ group_stage k g
stage-put_group k name g m = rw (slot-put_group name name g m, same_refl name) refl

pub Gives-eq :
    (P : Bool → Manager → Type 0) (r r' : Outcome (Bool × Manager))
    → r ≡ r'
    → Gives P r'
    → Gives P r
Gives-eq P r r' e p = subst (Gives P) (sym e) p

pub deref-Gives :
    (P : Bool → Manager → Type 0) (o : Option ℕ) (r : Outcome (Bool × Manager))
    → Gives P r
    → Gives P (deref o >>= λ x. r)
deref-Gives P none r p = tt
deref-Gives P (some x) r p = p

pub Subscribes-refl : (is_k : Bool) (u : Stage) → Subscribes is_k false u u
Subscribes-refl is_k absent = (refl, refl)
Subscribes-refl is_k broken = (refl, refl)
Subscribes-refl is_k (stands t p w r) = refl

pub Gives-map :
    (P Q : Bool → Manager → Type 0) (r : Outcome (Bool × Manager))
    → ((b : Bool) (m : Manager) → P b m → Q b m)
    → Gives P r
    → Gives Q r
Gives-map P Q (done (b, m)) f p = f b m p
Gives-map P Q null_dereference f p = p
Gives-map P Q (throws message) f p = p
Gives-map P Q terminates f p = p
