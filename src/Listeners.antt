-- ===== src/Listeners.antt =====
-- The listeners that the manager gives to OpenDDS (src/dds_listeners.h, src/dds_listeners.cpp). A
-- status is a number, as an object of OpenDDS is.
pub mod Handlers
use open_ddw.Base.{ℕ, Bool, true, false, Option, none, some, ◌∷◌, ◌++◌}
use open_ddw.Base.Text.{Text, text}
use open_ddw.Dds.{Outcome, done, null_dereference, ◌>>=◌, deref}
use open_ddw.Group.{GenericListener}

-- What a data reader reports.
pub data ReaderStatus : Type 0 where
  data_available : ReaderStatus
  requested_deadline_missed requested_incompatible_qos sample_rejected : ℕ → ReaderStatus
  liveliness_changed subscription_matched sample_lost : ℕ → ReaderStatus

-- What a data writer reports.
pub data WriterStatus : Type 0 where
  offered_deadline_missed liveliness_lost offered_incompatible_qos : ℕ → WriterStatus
  publication_matched instance_replaced : ℕ → WriterStatus

-- A topic as the error stream names it.
pub record Description : Type 0 where
  pub name : Text
  pub type_name : Text

-- What a listener does: the text that it writes to the error stream, and the call of a handler, with
-- the reader or writer and the status.
pub record Notice (Status : Type 0) : Type 0 where
  pub written : Option Text
  pub handed : Option (ℕ × ℕ × Status)

abbrev pub complaint : Text → Text → Text → Description → Text
complaint what before_name before_type t =
    what ++ (before_name ++ (t.name ++ (before_type ++ t.type_name)))

-- `if (m_handler != nullptr)`
abbrev pub hand_over : {Status : Type 0} → GenericListener → ℕ → Status → Option (ℕ × ℕ × Status)
hand_over l entity status = elim l.handler [ none ↦ none | some h ↦ some (h, entity, status) ]

unfoldable pub set_handler : Option ℕ → GenericListener → GenericListener
set_handler handler l = record l { handler = handler }

-- The callback runs on a topic that is there.
unfoldable pub on_inconsistent_topic : Description → Text
on_inconsistent_topic t =
    complaint (text "Inconsistent DDS topic definition.") (text " Topic: ") (text ", Type: ") t

-- The first argument says what `get_topicdescription` of the reader returns.
module _ (topic_desc : ℕ → Option Description) where
  abbrev pub report_reader :
      Text → GenericListener → ℕ → ReaderStatus → Outcome (Notice ReaderStatus)
  report_reader what l reader status = deref (topic_desc reader) >>= λ t. done (record {
    written = some (complaint what (text " Topic: ") (text ", Type: ") t);
    handed = hand_over l reader status;
  })

  unfoldable pub on_reader_status :
      GenericListener → ℕ → ReaderStatus → Outcome (Notice ReaderStatus)
  on_reader_status l reader data_available = done (record { written = none; handed = none })
  on_reader_status l reader (requested_deadline_missed status) =
      report_reader (text "DDS deadline missed.") l reader (requested_deadline_missed status)
  on_reader_status l reader (requested_incompatible_qos status) =
      report_reader (text "Incompatible DDS QoS.") l reader (requested_incompatible_qos status)
  on_reader_status l reader (sample_rejected status) =
      report_reader (text "DDS sample rejected.") l reader (sample_rejected status)
  on_reader_status l reader (liveliness_changed status) =
      done (record { written = none; handed = hand_over l reader (liveliness_changed status) })
  on_reader_status l reader (subscription_matched status) =
      done (record { written = none; handed = hand_over l reader (subscription_matched status) })
  on_reader_status l reader (sample_lost status) =
      done (record { written = none; handed = hand_over l reader (sample_lost status) })

-- The first argument says what `get_topic` of the writer returns.
module _ (topic : ℕ → Option Description) where
  unfoldable pub on_writer_status :
      GenericListener → ℕ → WriterStatus → Outcome (Notice WriterStatus)
  on_writer_status l writer (offered_deadline_missed status) = deref (topic writer) >>= λ t.
      done (record {
        written =
            some (complaint (text "DDS deadline missed.") (text " Topic: ") (text ", Type: ") t);
        handed = hand_over l writer (offered_deadline_missed status);
      })
  on_writer_status l writer (liveliness_lost status) =
      done (record { written = none; handed = hand_over l writer (liveliness_lost status) })
  on_writer_status l writer (offered_incompatible_qos status) = deref (topic writer) >>= λ t.
      done (record {
        written = some (
            complaint (text "Incompatible topic QoS settings") (text "  Topic: ") (text "  Type: ")
              t);
        handed = hand_over l writer (offered_incompatible_qos status);
      })
  on_writer_status l writer (publication_matched status) =
      done (record { written = none; handed = hand_over l writer (publication_matched status) })
  on_writer_status l writer (instance_replaced status) =
      done (record { written = none; handed = hand_over l writer (instance_replaced status) })
