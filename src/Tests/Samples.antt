-- ===== src/Tests/Samples.antt =====
-- Theorems on reading and writing samples, applied to a concrete topic.
use open_ddw.Base.{ℕ, ◌≡◌, ◌↔◌, true, some, [], ◌∷◌, is_some, ◌&&◌}
use open_ddw.Base.Text.{text}
use open_ddw.Qos.{by_source_timestamp}
use open_ddw.Dds.{done, retcode_ok}
use open_ddw.Group.{TopicGroup, new_group}
use open_ddw.Manager.{Manager, get_writer}
use open_ddw.Manager.Samples.{
  Answer, take_all_samples, write_sample, dispose_sample, runtime_error, accepted, IsBalanced,
  take_all_samples-IsBalanced, write_sample-true,
}
use open_ddw.Tests.{alarms, joined}

abbrev busy : TopicGroup
busy = record (new_group by_source_timestamp) {
  topic = some 2;
  writer = some 5;
  readers = (text "log", 4) ∷ [];
}

abbrev one_topic : Manager
one_topic = record joined { topics = (alarms, some busy) ∷ [] }

abbrev two_samples : Answer ℕ
two_samples = record { status = retcode_ok; messages = 7 ∷ 8 ∷ [] }

take_all_samples-IsBalanced_example :
    IsBalanced true
      (take_all_samples one_topic alarms (text "log") (text "level > 3") true true two_samples)
take_all_samples-IsBalanced_example =
    take_all_samples-IsBalanced one_topic alarms (text "log") (text "level > 3") true true
      two_samples

write_sample-true_example :
    ((write_sample one_topic alarms true runtime_error ≡ done true)
      ↔ ((is_some (get_writer one_topic alarms) && true && accepted runtime_error) ≡ true))
    × (dispose_sample one_topic alarms true runtime_error
        ≡ write_sample one_topic alarms true runtime_error)
write_sample-true_example = write_sample-true one_topic alarms true runtime_error
