-- ===== src/Qos/Groups.antt =====
-- `QosDictionary::Subscriber::defaultQos` and `QosDictionary::Publisher::defaultQos`
-- (src/qos_dictionary.cpp).
use open_ddw.Base.{true, false, []}
use open_ddw.Qos.{GroupQos, instance_presentation}

unfoldable pub subscriber_default_qos : GroupQos
subscriber_default_qos = record {
  access_scope = instance_presentation;
  coherent_access = false;
  ordered_access = false;
  partition = [];
  group_data = [];
  autoenable_created_entities = true;
}

unfoldable pub publisher_default_qos : GroupQos
publisher_default_qos = record {
  access_scope = instance_presentation;
  coherent_access = false;
  ordered_access = false;
  partition = [];
  group_data = [];
  autoenable_created_entities = true;
}
