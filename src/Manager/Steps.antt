-- ===== src/Manager/Steps.antt =====
-- Every operation of the manager as one step, and the states that the operations lead to.
pub mod Safety
use open_ddw.Base.{ℕ, Bool, true, Option, List, [], ◌∷◌}
use open_ddw.Base.Int.{ℤ}
use open_ddw.Base.Text.{Text}
use open_ddw.Qos.{QosType, TopicQos, DataReaderQos, DataWriterQos, GroupQos}
use open_ddw.Dds.{Dds, Outcome, done, ◌>>=◌}
use open_ddw.Emitter.{Setup}
use open_ddw.Manager.{Manager}
use open_ddw.Manager.Settings
use open_ddw.Manager.Register
use open_ddw.Manager.Publish
use open_ddw.Manager.Subscribe
use open_ddw.Manager.Filter
use open_ddw.Manager.Callbacks

-- The public operations that change the manager's topics or handlers, but for
-- `SetWriterListenerHandler` and `replaceFilter`, with their arguments.
pub data Operation : Type 0 where
  set_reader_listener_handler : Option ℕ → Operation
  register_topic : Text → Text → QosType → Operation
  register_qos : Text → QosType → Operation
  unregister_topic : Text → Operation
  add_partition : Text → Text → Operation
  create_subscriber : Text → Text → Text → List Text → Operation
  create_publisher : Text → Operation
  create_publisher_subscriber : Text → Text → Text → List Text → Operation
  add_data_listener : Text → Text → Option ℕ → ℕ → Operation
  replace_filter_params : Text → Text → List Text → Operation
  set_max_data_rate : Text → Text → ℤ → Operation
  add_callback : Setup → Text → Text → Text → ℕ → Bool → Bool → Operation
  set_topic_qos : Text → TopicQos → Operation
  set_publisher_qos set_subscriber_qos : Text → GroupQos → Operation
  set_writer_qos : Text → DataWriterQos → Operation
  set_reader_qos : Text → DataReaderQos → Operation
  clean_up_topics : List Text → Operation

abbrev pub void : Outcome Manager → Outcome (Bool × Manager)
void r = r >>= λ m. done (true, m)

-- What the operation returns, `true` where it returns nothing.
unfoldable pub step : Dds → Operation → Manager → Outcome (Bool × Manager)
step d (set_reader_listener_handler h) m = void (Settings.set_reader_listener_handler h m)
step d (register_topic type_name name qos) m = Register.register_topic d type_name name qos m
step d (register_qos name qos) m = Register.register_qos name qos m
step d (unregister_topic name) m = Register.unregister_topic d name m
step d (add_partition name partition) m = Settings.add_partition name partition m
step d (create_subscriber name reader filter params) m =
    Subscribe.create_subscriber d name reader filter params m
step d (create_publisher name) m = Publish.create_publisher d name m
step d (create_publisher_subscriber name reader filter params) m =
    Publish.create_publisher_subscriber d name reader filter params m
step d (add_data_listener name reader listener mask) m =
    done (true, Callbacks.add_data_listener name reader listener mask m)
step d (replace_filter_params name reader params) m =
    Filter.replace_filter_params d name reader params m
step d (set_max_data_rate name reader rate) m = Filter.set_max_data_rate name reader rate m
step d (add_callback setup index name reader func queue async) m =
    Callbacks.add_callback setup index name reader func queue async m
step d (set_topic_qos name qos) m = void (Settings.set_topic_qos name qos m)
step d (set_publisher_qos name qos) m = void (Settings.set_publisher_qos name qos m)
step d (set_subscriber_qos name qos) m = void (Settings.set_subscriber_qos name qos m)
step d (set_writer_qos name qos) m = void (Settings.set_writer_qos name qos m)
step d (set_reader_qos name qos) m = void (Settings.set_reader_qos name qos m)
step d (clean_up_topics schedule) m = Register.clean_up_topics d schedule m
