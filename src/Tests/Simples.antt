-- ===== src/Tests/Simples.antt =====
-- Theorems on the simple manager, applied to one that publishes and subscribes to a type.
use open_ddw.Base.{List, Bool, leb, ◌&&◌, ◌≡◌, refl, ℕ, true, none, some, [], ◌∷◌, arith}
use open_ddw.Base.Int.{pos}
use open_ddw.Base.Text.{text, text_discrete}
use open_ddw.Base.Dict.{lookup, insert}
use open_ddw.Qos.{by_source_timestamp, strict_reliable}
use open_ddw.Dds.{Outcome, done, null_dereference, throws, terminates}
use open_ddw.Group.{new_group}
use open_ddw.Manager.{new_manager, put_group, get_writer}
use open_ddw.Manager.Settings.{ensure_group, set_each_reader_qos}
use open_ddw.Manager.Register
use open_ddw.Manager.Publish
use open_ddw.Manager.Subscribe
use open_ddw.Manager.Samples.{write_sample, dispose_sample, Written, runtime_error}
use open_ddw.Manager.Steps.Safety.{start, join}
use open_ddw.Simple.{
  SimpleManager, TopicType, new_simple_manager, publisher, subscriber, write, dispose,
}
use open_ddw.Simple.Waiting.{
  Look, number_of_matches, number_of_matches-first_enough, wait_for_subscriber,
  wait_for_subscriber-any,
}
use open_ddw.Simple.Arrays.{remove_from_dds_array, found_already, remove_from_dds_array-erase_first}
use open_ddw.Simple.Safety.{
  SimpleReach, SimpleReach-IsSimplySafe, IsSimplySafe, simple_step, publish, subscribe, start, next,
}
use open_ddw.Simple.Routes.{publisher-write}
use open_ddw.Tests.{granting, alarms, joined}

abbrev alarm_type : TopicType
alarm_type = record { index = text "5Alarm"; type_name = text "Alarm" }

abbrev fresh : SimpleManager
unfolding new_simple_manager
fresh = new_simple_manager (pos 7) joined

-- The simple manager that an outcome holds.
abbrev simple_state : Outcome (Bool × SimpleManager) → SimpleManager
unfolding new_simple_manager
simple_state (done (b, s)) = s
simple_state null_dereference = fresh
simple_state (throws message) = fresh
simple_state terminates = fresh

abbrev publishing : SimpleManager
unfolding publisher subscriber Register.register_topic Publish.create_publisher
    Subscribe.create_subscriber new_manager new_group lookup text_discrete Register.register_qos
    put_group insert Register.apply_preset ensure_group set_each_reader_qos new_simple_manager
publishing = simple_state (publisher granting alarm_type alarms strict_reliable fresh)

abbrev both : SimpleManager
unfolding publisher subscriber Register.register_topic Publish.create_publisher
    Subscribe.create_subscriber new_manager new_group lookup text_discrete Register.register_qos
    put_group insert Register.apply_preset ensure_group set_each_reader_qos new_simple_manager
both = simple_state (subscriber granting alarm_type alarms strict_reliable [] [] publishing)

published : publisher granting alarm_type alarms strict_reliable fresh ≡ done (true, publishing)
unfolding publisher subscriber Register.register_topic Publish.create_publisher
    Subscribe.create_subscriber new_manager new_group lookup text_discrete Register.register_qos
    put_group insert Register.apply_preset ensure_group set_each_reader_qos new_simple_manager
published = refl

subscribed :
    subscriber granting alarm_type alarms strict_reliable [] [] publishing ≡ done (true, both)
unfolding publisher subscriber Register.register_topic Publish.create_publisher
    Subscribe.create_subscriber new_manager new_group lookup text_discrete Register.register_qos
    put_group insert Register.apply_preset ensure_group set_each_reader_qos new_simple_manager
subscribed = refl

fresh-SimpleReach : SimpleReach granting fresh
unfolding new_simple_manager new_manager
fresh-SimpleReach = start (pos 7) (join 100 (start by_source_timestamp) refl)

publishing-SimpleReach : SimpleReach granting publishing
unfolding simple_step
publishing-SimpleReach =
    next (publish alarm_type alarms strict_reliable) fresh-SimpleReach published

SimpleReach-IsSimplySafe_example :
    IsSimplySafe
      (simple_step granting (subscribe alarm_type alarms strict_reliable [] []) publishing)
SimpleReach-IsSimplySafe_example =
    SimpleReach-IsSimplySafe granting publishing-SimpleReach
      (subscribe alarm_type alarms strict_reliable [] [])

abbrev three_looks : List Look
three_looks =
    record { time_waited = 100; current_count = 0 }
    ∷ record { time_waited = 203; current_count = 1 }
    ∷ record { time_waited = 304; current_count = 3 }
    ∷ []

number_of_matches-first_enough_example : number_of_matches 3 300 0 three_looks ≡ some 3
number_of_matches-first_enough_example =
    number_of_matches-first_enough 3 300 0 three_looks
      (omega arith, (omega arith, (omega arith, tt))) (omega arith)

wait_for_subscriber-any_example :
    wait_for_subscriber 250 (text "5Alarm") publishing 0 three_looks ≡ some true
unfolding publishing get_writer
wait_for_subscriber-any_example =
    wait_for_subscriber-any 250 (text "5Alarm") alarms publishing 4 0 three_looks refl refl
      (omega arith, (omega arith, (omega arith, tt))) (omega arith)

abbrev answered : ℕ → Written
answered n = runtime_error

publisher-write_example :
    (write true answered (text "5Alarm") 3 [] publishing
      ≡ write_sample publishing.manager alarms true runtime_error)
    × (dispose true answered (text "5Alarm") 3 [] publishing
        ≡ dispose_sample publishing.manager alarms true runtime_error)
    × (lookup (text "6Status") publishing.pub_map ≡ none)
unfolding publishing
publisher-write_example =
    publisher-write granting alarm_type alarms strict_reliable fresh publishing true answered 3
      (text "6Status") published

abbrev is_seven : ℕ → Bool
is_seven n = leb n 7 && leb 7 n

remove_from_dds_array-erase_first_example :
    remove_from_dds_array is_seven (5 ∷ 7 ∷ 6 ∷ 7 ∷ []) ≡ (true, 5 ∷ 6 ∷ 7 ∷ [])
unfolding found_already
remove_from_dds_array-erase_first_example =
    remove_from_dds_array-erase_first is_seven (5 ∷ 7 ∷ 6 ∷ 7 ∷ [])
