-- ===== src/Qos/Presets.antt =====
-- The four presets by name: the choice that the `switch` of `registerQos` makes
-- (src/dds_manager.cpp) among the functions of src/qos_dictionary.cpp.
use open_ddw.Qos.{
  QosType, latest_reliable_transient, latest_reliable, strict_reliable, best_effort, OrderKind,
  TopicQos, DataReaderQos, DataWriterQos,
}
use open_ddw.Qos.Topic
use open_ddw.Qos.DataReader
use open_ddw.Qos.DataWriter

unfoldable pub topic_preset : QosType → OrderKind → TopicQos
unfolding Topic.latest_reliable_transient Topic.latest_reliable Topic.strict_reliable
    Topic.best_effort
topic_preset latest_reliable_transient = Topic.latest_reliable_transient
topic_preset latest_reliable = Topic.latest_reliable
topic_preset strict_reliable = Topic.strict_reliable
topic_preset best_effort = Topic.best_effort

unfoldable pub reader_preset : QosType → OrderKind → DataReaderQos
unfolding DataReader.latest_reliable_transient DataReader.latest_reliable DataReader.strict_reliable
    DataReader.best_effort
reader_preset latest_reliable_transient = DataReader.latest_reliable_transient
reader_preset latest_reliable = DataReader.latest_reliable
reader_preset strict_reliable = DataReader.strict_reliable
reader_preset best_effort = DataReader.best_effort

unfoldable pub writer_preset : QosType → OrderKind → DataWriterQos
unfolding DataWriter.latest_reliable_transient DataWriter.latest_reliable DataWriter.strict_reliable
    DataWriter.best_effort
writer_preset latest_reliable_transient = DataWriter.latest_reliable_transient
writer_preset latest_reliable = DataWriter.latest_reliable
writer_preset strict_reliable = DataWriter.strict_reliable
writer_preset best_effort = DataWriter.best_effort
