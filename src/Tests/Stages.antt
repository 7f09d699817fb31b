-- ===== src/Tests/Stages.antt =====
-- The state machine of a topic, for a few operations on two topics.
use open_ddw.Base.{◌≡◌, refl, true, List, [], ◌∷◌}
use open_ddw.Base.Text.{text, text_discrete}
use open_ddw.Base.Dict.{lookup, insert}
use open_ddw.Qos.{strict_reliable}
use open_ddw.Group.{new_group}
use open_ddw.Manager.{new_manager, put_group}
use open_ddw.Manager.Settings.{ensure_group, set_each_reader_qos}
use open_ddw.Manager.Register
use open_ddw.Manager.Publish
use open_ddw.Manager.Subscribe
use open_ddw.Manager.Steps.{Operation, register_topic, create_publisher, create_subscriber, step}
use open_ddw.Manager.Stages.{stands, stage}
use open_ddw.Manager.Stages.Runs.{Runs, run, run-Runs}
use open_ddw.Tests.{granting, alarms, joined}
use open_ddw.Tests.Managers.{log, severe, subscribed}

abbrev operations : List Operation
operations =
    register_topic (text "Alarm") alarms strict_reliable
    ∷ create_publisher alarms
    ∷ create_subscriber alarms log severe []
    ∷ []

-- The topic goes from nothing to a topic with a writer and the reader.
stage-subscribed : stage log alarms subscribed ≡ stands true true true true
unfolding step Register.register_topic Publish.create_publisher Subscribe.create_subscriber
    new_manager new_group lookup text_discrete Register.register_qos put_group insert
    Register.apply_preset ensure_group set_each_reader_qos
stage-subscribed = refl

run-Runs_example :
    Runs log alarms operations
      (true ∷ true ∷ true ∷ [])
      (stage log alarms joined)
      (stage log alarms subscribed)
unfolding run step Register.register_topic Publish.create_publisher Subscribe.create_subscriber
    new_manager new_group lookup text_discrete Register.register_qos put_group insert
    Register.apply_preset ensure_group set_each_reader_qos
run-Runs_example =
    run-Runs granting operations joined subscribed (true ∷ true ∷ true ∷ []) log alarms refl
