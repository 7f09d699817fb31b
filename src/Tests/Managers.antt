-- ===== src/Tests/Managers.antt =====
-- Theorems on the manager, applied to managers that have run a few operations.
use open_ddw.Base.{
  ◌≡◌, refl, ℕ, true, false, Option, some, List, [], ◌∷◌, arith, inr, if◌then◌else◌, ltb,
}
use open_ddw.Base.Int.{pos}
use open_ddw.Base.Text.{Text, text, same, text_discrete}
use open_ddw.Base.Dict.{Dict, keys, lookup, insert}
use open_ddw.Qos.{by_source_timestamp, best_effort, strict_reliable}
use open_ddw.Qos.Presets.{topic_preset, reader_preset, writer_preset}
use open_ddw.Dds.{done, create_topic, register_type, reader_set_qos}
use open_ddw.Group.{TopicGroup, new_group}
use open_ddw.Group.Teardown.{teardown, after, deletions, held, teardown-deletions}
use open_ddw.Manager.{
  Manager, new_manager, slot, slot_of, found, missing, put_group, get_reader, call,
}
use open_ddw.Manager.Settings.{ensure_group, set_each_reader_qos}
use open_ddw.Manager.Register
use open_ddw.Manager.Publish
use open_ddw.Manager.Subscribe
use open_ddw.Manager.Filter.{set_max_data_rate}
use open_ddw.Manager.Valid.{IsSafe, slot-IsValid}
use open_ddw.Manager.Lifecycle.{IsSchedule, IsComplete, unregister_topic-found}
use open_ddw.Manager.Presets.{register_topic-made}
use open_ddw.Manager.Readers.{create_subscriber_twice}
use open_ddw.Manager.Rates.{set_max_data_rate-found}
use open_ddw.Manager.Steps.{
  step, register_topic, create_subscriber, create_publisher, replace_filter_params,
}
use open_ddw.Manager.Steps.Safety.{Reach, start, join, next, Reach-IsSafe, Reach-IsWell}
use open_ddw.Tests.{granting, alarms, joined, state_of, group_of}

abbrev pub status : Text
status = text "status"

abbrev pub log : Text
log = text "log_2"

abbrev pub severe : Text
severe = text "level > 3"

abbrev registered : Manager
unfolding step Register.register_topic Publish.create_publisher Subscribe.create_subscriber
    new_manager new_group lookup text_discrete Register.register_qos put_group insert
    Register.apply_preset ensure_group set_each_reader_qos
registered =
    state_of (Register.register_topic granting (text "Alarm") alarms strict_reliable joined)

abbrev pub published : Manager
unfolding step Register.register_topic Publish.create_publisher Subscribe.create_subscriber
    new_manager new_group lookup text_discrete Register.register_qos put_group insert
    Register.apply_preset ensure_group set_each_reader_qos
published = state_of (Publish.create_publisher granting alarms registered)

abbrev pub subscribed : Manager
unfolding step Register.register_topic Publish.create_publisher Subscribe.create_subscriber
    new_manager new_group lookup text_discrete Register.register_qos put_group insert
    Register.apply_preset ensure_group set_each_reader_qos
subscribed = state_of (Subscribe.create_subscriber granting alarms log severe [] published)

abbrev pub two_topics : Manager
unfolding step Register.register_topic Publish.create_publisher Subscribe.create_subscriber
    new_manager new_group lookup text_discrete Register.register_qos put_group insert
    Register.apply_preset ensure_group set_each_reader_qos
two_topics =
    state_of (Register.register_topic granting (text "Status") status best_effort subscribed)

abbrev pub alarms_group : TopicGroup
unfolding step Register.register_topic Publish.create_publisher Subscribe.create_subscriber
    new_manager new_group lookup text_discrete Register.register_qos put_group insert
    Register.apply_preset ensure_group set_each_reader_qos
alarms_group = group_of (slot two_topics alarms)

abbrev pub status_group : TopicGroup
unfolding step Register.register_topic Publish.create_publisher Subscribe.create_subscriber
    new_manager new_group lookup text_discrete Register.register_qos put_group insert
    Register.apply_preset ensure_group set_each_reader_qos
status_group = group_of (slot two_topics status)

registered-Reach : Reach granting registered
unfolding step Register.register_topic Publish.create_publisher Subscribe.create_subscriber
    new_manager new_group lookup text_discrete Register.register_qos put_group insert
    Register.apply_preset ensure_group set_each_reader_qos
registered-Reach =
    next {b = true} (register_topic (text "Alarm") alarms strict_reliable)
      (join 100 (start by_source_timestamp) refl) refl

pub published-Reach : Reach granting published
unfolding step Register.register_topic Publish.create_publisher Subscribe.create_subscriber
    new_manager new_group lookup text_discrete Register.register_qos put_group insert
    Register.apply_preset ensure_group set_each_reader_qos
published-Reach = next {b = true} (create_publisher alarms) registered-Reach refl

pub subscribed-Reach : Reach granting subscribed
unfolding step Register.register_topic Publish.create_publisher Subscribe.create_subscriber
    new_manager new_group lookup text_discrete Register.register_qos put_group insert
    Register.apply_preset ensure_group set_each_reader_qos
subscribed-Reach = next {b = true} (create_subscriber alarms log severe []) published-Reach refl

pub two_topics-Reach : Reach granting two_topics
unfolding step Register.register_topic Publish.create_publisher Subscribe.create_subscriber
    new_manager new_group lookup text_discrete Register.register_qos put_group insert
    Register.apply_preset ensure_group set_each_reader_qos
two_topics-Reach =
    next {b = true} (register_topic (text "Status") status best_effort) subscribed-Reach refl

pub alarms_there : slot two_topics alarms ≡ found alarms_group
unfolding step Register.register_topic Publish.create_publisher Subscribe.create_subscriber
    new_manager new_group lookup text_discrete Register.register_qos put_group insert
    Register.apply_preset ensure_group set_each_reader_qos
alarms_there = refl

status_there : slot two_topics status ≡ found status_group
unfolding step Register.register_topic Publish.create_publisher Subscribe.create_subscriber
    new_manager new_group lookup text_discrete Register.register_qos put_group insert
    Register.apply_preset ensure_group set_each_reader_qos
status_there = refl

Reach-IsSafe_example : IsSafe (step granting (replace_filter_params alarms log []) two_topics)
Reach-IsSafe_example = Reach-IsSafe two_topics-Reach (replace_filter_params alarms log [])

teardown-deletions_example :
    teardown granting alarms_group two_topics.calls
    ≡ done (after (deletions alarms_group) two_topics.calls)
teardown-deletions_example =
    teardown-deletions granting two_topics.participant alarms_group two_topics.calls
      (slot-IsValid two_topics alarms alarms_group (Reach-IsWell two_topics-Reach) alarms_there)

held_test : held alarms_group ≡ 6
unfolding step Register.register_topic Publish.create_publisher Subscribe.create_subscriber
    new_manager new_group lookup text_discrete Register.register_qos put_group insert
    Register.apply_preset ensure_group set_each_reader_qos
held_test = refl

unregister_topic-found_example :
    (m : Manager) × (Register.unregister_topic granting alarms two_topics ≡ done (true, m))
    × ((j : Text) → slot m j ≡ (if same j alarms then missing else slot two_topics j))
    × (m.calls ≡ after (deletions alarms_group) two_topics.calls)
unregister_topic-found_example =
    unregister_topic-found granting alarms two_topics alarms_group (Reach-IsWell two_topics-Reach)
      alarms_there

abbrev pub schedule : List (Text × TopicGroup)
schedule = (status, status_group) ∷ (alarms, alarms_group) ∷ []

pub schedule-IsSchedule : IsSchedule two_topics schedule
unfolding text_discrete
schedule-IsSchedule = (status_there, (refl, tt), (alarms_there, tt, tt))

two_keys : keys (two_topics.topics) ≡ alarms ∷ status ∷ []
unfolding step Register.register_topic Publish.create_publisher Subscribe.create_subscriber
    new_manager new_group lookup text_discrete Register.register_qos put_group insert
    Register.apply_preset ensure_group set_each_reader_qos
two_keys = refl

found-keys :
    (j : Text) (g : TopicGroup) (topics : Dict (Option TopicGroup))
    → slot_of (lookup j topics) ≡ found g
    → Register.member j (keys topics) ≡ true
unfolding lookup
found-keys j g [] e = absurd (cc)
found-keys j g ((name, x) ∷ topics) e = ground (arith, found-keys j g topics)

swap_names :
    (j a b : Text) → Register.member j (a ∷ b ∷ []) ≡ true → Register.member j (b ∷ a ∷ []) ≡ true
swap_names j a b e = ground arith

pub schedule-IsComplete : IsComplete two_topics schedule
unfolding slot
schedule-IsComplete j g e =
    swap_names j alarms status (rw two_keys at (found-keys j g (two_topics.topics) e))

abbrev fresh : TopicGroup
fresh = new_group by_source_timestamp

register_topic-made_example :
    (m : Manager) × (Register.register_topic granting (text "Alarm") alarms strict_reliable joined
      ≡ done (true, m))
    × (slot m alarms
        ≡ found (record fresh {
          type_name = text "Alarm";
          topic = some 2;
          domain = some 100;
          listener = true;
          topic_qos = topic_preset strict_reliable by_source_timestamp;
          data_reader_qos = reader_preset strict_reliable by_source_timestamp;
          data_writer_qos = writer_preset strict_reliable by_source_timestamp;
          qos_preset = some strict_reliable;
        }))
    × (m.calls
        ≡ create_topic alarms (text "Alarm") fresh.topic_qos ∷ register_type (text "Alarm") ∷ [])
unfolding new_manager new_group lookup slot
register_topic-made_example =
    register_topic-made granting (text "Alarm") alarms strict_reliable joined fresh 100 2 refl
      (inr (refl, refl)) refl refl refl refl refl

create_subscriber_twice_example :
    ((r : ℕ) × (get_reader subscribed alarms log ≡ some r))
    × (Subscribe.create_subscriber granting alarms log [] [] subscribed ≡ done (false, subscribed))
unfolding step Register.register_topic Publish.create_publisher Subscribe.create_subscriber
    new_manager new_group lookup text_discrete Register.register_qos put_group insert
    Register.apply_preset ensure_group set_each_reader_qos
create_subscriber_twice_example =
    create_subscriber_twice granting granting alarms log severe [] [] [] published subscribed
      (Reach-IsWell published-Reach) refl

set_max_data_rate-found_example :
    (set_max_data_rate alarms log (pos 20) two_topics
      ≡ done (
        true,
        call
            (reader_set_qos 7 (record alarms_group.data_reader_qos {
              minimum_separation = record { sec = 0; nanosec = 20000000 };
            }))
            two_topics,
      ))
    × (ltb 20000000 1000000000 ≡ true)
unfolding step Register.register_topic Publish.create_publisher Subscribe.create_subscriber
    new_manager new_group lookup text_discrete Register.register_qos put_group insert
    Register.apply_preset ensure_group set_each_reader_qos get_reader
set_max_data_rate-found_example =
    set_max_data_rate-found alarms log 20 7 alarms_group two_topics (omega arith) (omega arith)
      alarms_there refl
