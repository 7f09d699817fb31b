-- ===== src/Tests/Faults.antt =====
-- Theorems on the failures of the manager, applied to concrete managers.
use open_ddw.Base.{◌≢◌, true, none, some, [], ◌∷◌}
use open_ddw.Base.Text.{text}
use open_ddw.Qos.{by_source_timestamp}
use open_ddw.Dds.{done}
use open_ddw.Group.{TopicGroup, new_group}
use open_ddw.Manager.{Manager}
use open_ddw.Manager.Filter.{replace_filter}
use open_ddw.Manager.Faults.{replace_filter-ne-true}
use open_ddw.Tests.{granting, setup, alarms, joined}

abbrev reading : TopicGroup
reading = record (new_group by_source_timestamp) {
  domain = some 100;
  topic = some 2;
  subscriber = some 3;
  readers = (text "log", 4) ∷ [];
  reader_listeners = (text "log", record { handler = none }) ∷ [];
}

abbrev one_topic : Manager
one_topic = record joined { topics = (alarms, some reading) ∷ [] }

replace_filter-ne-true_example :
    replace_filter granting setup alarms (text "log") (text "level > 3") one_topic
    ≢ done (true, one_topic)
replace_filter-ne-true_example =
    replace_filter-ne-true granting setup alarms (text "log") (text "level > 3") one_topic one_topic
