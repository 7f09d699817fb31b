-- ===== src/Manager/Footprint/Topics.antt =====
-- Every operation keeps to the topic that it names.
use open_ddw.Base.{true, refl, subst, ◌≡◌, Bool, false, Option, none, some}
use open_ddw.Base.Text.{Text, same}
use open_ddw.Dds.{Dds, Outcome, done, null_dereference, throws, terminates}
use open_ddw.Manager.{Manager, slot}
use open_ddw.Manager.Steps.{
  Operation, set_reader_listener_handler, register_topic, register_qos, unregister_topic,
  add_partition, create_subscriber, create_publisher, create_publisher_subscriber,
  add_data_listener, replace_filter_params, set_max_data_rate, add_callback, set_topic_qos,
  set_publisher_qos, set_subscriber_qos, set_writer_qos, set_reader_qos, clean_up_topics, void,
  step,
}
use open_ddw.Manager.Footprint.{Elsewhere, Footprint, Post, members}
use open_ddw.Manager.Footprint.Settings.{
  itself, second, set_topic_qos-Post, set_publisher_qos-Post, set_subscriber_qos-Post,
  set_writer_qos-Post, set_reader_qos-Post, add_partition-Post,
}
use open_ddw.Manager.Footprint.Register.{
  register_topic-Post, register_qos-Post, unregister_topic-Elsewhere,
}
use open_ddw.Manager.Footprint.Endpoints.{
  create_subscriber-Post, create_publisher-Post, create_publisher_subscriber-Post,
}
use open_ddw.Manager.Footprint.Calls.{
  add_callback-Post, add_data_listener-Footprint, replace_filter_params-Post,
  set_max_data_rate-Post,
}

-- The topic that an operation names: all but two name one.
abbrev pub topic_of : Operation → Option Text
topic_of (set_reader_listener_handler h) = none
topic_of (register_topic type_name name qos) = some name
topic_of (register_qos name qos) = some name
topic_of (unregister_topic name) = some name
topic_of (add_partition name partition) = some name
topic_of (create_subscriber name reader filter params) = some name
topic_of (create_publisher name) = some name
topic_of (create_publisher_subscriber name reader filter params) = some name
topic_of (add_data_listener name reader listener mask) = some name
topic_of (replace_filter_params name reader params) = some name
topic_of (set_max_data_rate name reader rate) = some name
topic_of (add_callback setup index name reader func queue async) = some name
topic_of (set_topic_qos name qos) = some name
topic_of (set_publisher_qos name qos) = some name
topic_of (set_subscriber_qos name qos) = some name
topic_of (set_writer_qos name qos) = some name
topic_of (set_reader_qos name qos) = some name
topic_of (clean_up_topics schedule) = none

void-Post :
    (name : Text) (m : Manager) (r : Outcome Manager)
    → Post itself name m r
    → Post second name m (void r)
void-Post name m (done m') p = p
void-Post name m null_dereference p = p
void-Post name m (throws message) p = p
void-Post name m terminates p = p

-- Whether the operation ends topics.
abbrev pub ends_topics : Operation → Bool
ends_topics (unregister_topic name) = true
ends_topics (clean_up_topics schedule) = true
ends_topics _ = false

-- Of the operation's topic, if it names one.
abbrev AtTopic : Option Text → Manager → Outcome (Bool × Manager) → Type 0
AtTopic none m r = Unit
AtTopic (some name) m r = Post second name m r

step-AtTopic :
    (d : Dds) (o : Operation) (m : Manager)
    → ends_topics o ≡ false
    → AtTopic (topic_of o) m (step d o m)
unfolding step
step-AtTopic d (set_reader_listener_handler h) m stays = tt
step-AtTopic d (register_topic t name qos) m stays = register_topic-Post d t name qos m
step-AtTopic d (register_qos name qos) m stays = register_qos-Post name qos m
step-AtTopic d (unregister_topic name) m stays = absurd (cc)
step-AtTopic d (add_partition name partition) m stays = add_partition-Post name partition m
step-AtTopic d (create_subscriber name reader filter params) m stays =
    create_subscriber-Post d name reader filter params m
step-AtTopic d (create_publisher name) m stays = create_publisher-Post d name m
step-AtTopic d (create_publisher_subscriber name reader filter params) m stays =
    create_publisher_subscriber-Post d name reader filter params m
step-AtTopic d (add_data_listener name reader listener mask) m stays =
    add_data_listener-Footprint name reader listener mask m
step-AtTopic d (replace_filter_params name reader params) m stays =
    replace_filter_params-Post d name reader params m
step-AtTopic d (set_max_data_rate name reader rate) m stays =
    set_max_data_rate-Post name reader rate m
step-AtTopic d (add_callback setup index name reader func queue async) m stays =
    add_callback-Post setup index name reader func queue async m
step-AtTopic d (set_topic_qos name qos) m stays = void-Post name m _ (set_topic_qos-Post name qos m)
step-AtTopic d (set_publisher_qos name qos) m stays =
    void-Post name m _ (set_publisher_qos-Post name qos m)
step-AtTopic d (set_subscriber_qos name qos) m stays =
    void-Post name m _ (set_subscriber_qos-Post name qos m)
step-AtTopic d (set_writer_qos name qos) m stays =
    void-Post name m _ (set_writer_qos-Post name qos m)
step-AtTopic d (set_reader_qos name qos) m stays =
    void-Post name m _ (set_reader_qos-Post name qos m)
step-AtTopic d (clean_up_topics schedule) m stays = tt

pub step-Footprint :
    (d : Dds) (o : Operation) (name : Text) (m m' : Manager) (b : Bool)
    → topic_of o ≡ some name
    → ends_topics o ≡ false
    → step d o m ≡ done (b, m')
    → Footprint name m m'
step-Footprint d o name m m' b named stays e = rw (named, e) at (step-AtTopic d o m stays)

pub step-Elsewhere :
    (d : Dds) (o : Operation) (name : Text) (m m' : Manager) (b : Bool)
    → topic_of o ≡ some name
    → step d o m ≡ done (b, m')
    → Elsewhere name m m'
unfolding step
step-Elsewhere d (unregister_topic n) name m m' b named e =
    let eq : n ≡ name = cc in
    subst (λ x. Elsewhere x m m') eq (unregister_topic-Elsewhere d n m m' b e)
step-Elsewhere d (clean_up_topics schedule) name m m' b named e = absurd (cc)
step-Elsewhere d o name m m' b named e =
    let f = step-Footprint d o name m m' b named refl e in f.outside

-- An operation, other than `replaceFilter`, that names a topic and returns leaves the groups of all
-- other topics as they were, and the manager's participant, handlers and order of samples.
pub step_elsewhere :
    (d : Dds) (o : Operation) (name : Text) (m m' : Manager) (b : Bool)
    → topic_of o ≡ some name
    → step d o m ≡ done (b, m')
    → ((j : Text) → same j name ≡ false → slot m' j ≡ slot m j) × (members m' ≡ members m)
step_elsewhere d o name m m' b named e =
    let f = step-Elsewhere d o name m m' b named e in (f.elsewhere, f.members_kept)
