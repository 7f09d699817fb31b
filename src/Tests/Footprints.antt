-- ===== src/Tests/Footprints.antt =====
-- Theorems on what an operation leaves as it is, on listeners and on the destructor, applied to a
-- manager with two topics.
use open_ddw.Base.{
  ◌==◌, if◌then◌else◌, ◌≡◌, refl, ℕ, true, false, Option, none, some, List, [], ◌∷◌,
}
use open_ddw.Base.Text.{Text, text, same, text_discrete}
use open_ddw.Base.Dict.{lookup, insert, emplace}
use open_ddw.Qos.{by_source_timestamp}
use open_ddw.Dds.{done}
use open_ddw.Group.{TopicGroup, GenericListener, new_group}
use open_ddw.Listeners.{Description, Notice, ReaderStatus, subscription_matched, on_reader_status}
use open_ddw.Listeners.Handlers.{on_reader_status-Reach}
use open_ddw.Manager.{Manager, new_manager, get_reader, slot, found, put_group}
use open_ddw.Manager.Addresses.{get_address_info, get_address_info-separated}
use open_ddw.Manager.Footprint.{members}
use open_ddw.Manager.Footprint.Topics.{step_elsewhere}
use open_ddw.Manager.Footprint.Persistence.{Run, here, create_subscriber-Run}
use open_ddw.Manager.Footprint.Persistence
use open_ddw.Manager.Settings
use open_ddw.Manager.Settings.{
  ensure_group, set_each_reader_qos, handle_topic_readers, handle_readers,
}
use open_ddw.Manager.Register
use open_ddw.Manager.Publish
use open_ddw.Manager.Subscribe
use open_ddw.Manager.Steps.{step, add_partition, set_reader_listener_handler}
use open_ddw.Manager.Steps.Safety.{Reach, next, Reach-IsWell}
use open_ddw.Tests.{granting, alarms, joined, state_of, group_of}
use open_ddw.Tests.Managers.{
  status, log, severe, published, published-Reach, subscribed, subscribed-Reach,
}

abbrev two_groups : Manager
two_groups = record joined {
  topics =
      (alarms, some (new_group by_source_timestamp))
      ∷ (status, some (new_group by_source_timestamp))
      ∷ [];
}

abbrev partitioned : Manager
unfolding step Settings.add_partition slot lookup text_discrete put_group insert
partitioned = state_of (step granting (add_partition status (text "east")) two_groups)

partitioned_run :
    step granting (add_partition status (text "east")) two_groups ≡ done (true, partitioned)
unfolding step Settings.add_partition slot lookup text_discrete put_group insert
partitioned_run = refl

step_elsewhere_example :
    ((j : Text) → same j status ≡ false → slot partitioned j ≡ slot two_groups j)
    × (members partitioned ≡ members two_groups)
step_elsewhere_example =
    step_elsewhere granting (add_partition status (text "east")) status two_groups partitioned true
      refl partitioned_run

abbrev handled : Manager
unfolding step Register.register_topic Publish.create_publisher Subscribe.create_subscriber
    new_manager new_group lookup text_discrete Register.register_qos put_group insert
    Register.apply_preset ensure_group set_each_reader_qos Settings.set_reader_listener_handler
    handle_topic_readers handle_readers emplace
handled = state_of (step granting (set_reader_listener_handler (some 77)) subscribed)

handled-Reach : Reach granting handled
unfolding step Register.register_topic Publish.create_publisher Subscribe.create_subscriber
    new_manager new_group lookup text_discrete Register.register_qos put_group insert
    Register.apply_preset ensure_group set_each_reader_qos Settings.set_reader_listener_handler
    handle_topic_readers handle_readers emplace
handled-Reach = next {b = true} (set_reader_listener_handler (some 77)) subscribed-Reach refl

abbrev handled_group : TopicGroup
unfolding step Register.register_topic Publish.create_publisher Subscribe.create_subscriber
    new_manager new_group lookup text_discrete Register.register_qos put_group insert
    Register.apply_preset ensure_group set_each_reader_qos Settings.set_reader_listener_handler
    handle_topic_readers handle_readers emplace
handled_group = group_of (slot handled alarms)

handled_there : slot handled alarms ≡ found handled_group
unfolding step Register.register_topic Publish.create_publisher Subscribe.create_subscriber
    new_manager new_group lookup text_discrete Register.register_qos put_group insert
    Register.apply_preset ensure_group set_each_reader_qos Settings.set_reader_listener_handler
    handle_topic_readers handle_readers emplace
handled_there = refl

abbrev hears : GenericListener
hears = record { handler = some 77 }

hears_there : lookup log handled_group.reader_listeners ≡ some hears
unfolding step Register.register_topic Publish.create_publisher Subscribe.create_subscriber
    new_manager new_group lookup text_discrete Register.register_qos put_group insert
    Register.apply_preset ensure_group set_each_reader_qos Settings.set_reader_listener_handler
    handle_topic_readers handle_readers emplace
hears_there = refl

abbrev alarm_topic : Description
alarm_topic = record { name = alarms; type_name = text "Alarm" }

abbrev described : ℕ → Option Description
described reader = some alarm_topic

on_reader_status-Reach_example :
    (n : Notice ReaderStatus) × (on_reader_status described hears 7 (subscription_matched 5)
      ≡ done n)
    × (n.handed ≡ some (77, 7, subscription_matched 5))
unfolding step Register.register_topic Publish.create_publisher Subscribe.create_subscriber
    new_manager new_group lookup text_discrete Register.register_qos put_group insert
    Register.apply_preset ensure_group set_each_reader_qos Settings.set_reader_listener_handler
    handle_topic_readers handle_readers emplace
on_reader_status-Reach_example =
    on_reader_status-Reach alarms log handled_group hears described alarm_topic 7
      (subscription_matched 5) handled-Reach handled_there hears_there refl

subscribed_run :
    Subscribe.create_subscriber granting alarms log severe [] published ≡ done (true, subscribed)
unfolding step Register.register_topic Publish.create_publisher Subscribe.create_subscriber
    new_manager new_group lookup text_discrete Register.register_qos put_group insert
    Register.apply_preset ensure_group set_each_reader_qos
subscribed_run = refl

handled-Run : Run granting alarms subscribed handled
unfolding step Register.register_topic Publish.create_publisher Subscribe.create_subscriber
    new_manager new_group lookup text_discrete Register.register_qos put_group insert
    Register.apply_preset ensure_group set_each_reader_qos Settings.set_reader_listener_handler
    handle_topic_readers handle_readers emplace
handled-Run = Persistence.next {b = true} (set_reader_listener_handler (some 77)) here refl refl

create_subscriber-Run_example : (r : ℕ) × (get_reader handled alarms log ≡ some r)
create_subscriber-Run_example =
    create_subscriber-Run granting alarms log severe [] published subscribed handled
      (Reach-IsWell published-Reach) subscribed_run handled-Run

abbrev port_text : ℕ → Option Text
port_text n =
    if n == 0
    then none
    else if n == 1
    then some (text "10.0.0.1:7411")
    else some (text "10.0.0.2:7411")

abbrev given : List ℕ → List ℕ
given ls = ls

get_address_info-separated_example :
    get_address_info given port_text ((1 ∷ 0 ∷ []) ∷ (2 ∷ []) ∷ [])
    ≡ text "10.0.0.1:7411,10.0.0.2:7411"
get_address_info-separated_example =
    get_address_info-separated given port_text ((1 ∷ 0 ∷ []) ∷ (2 ∷ []) ∷ []) (refl, (refl, tt))
