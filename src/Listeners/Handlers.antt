-- ===== src/Listeners/Handlers.antt =====
-- Which handler a status comes to: the listeners of src/dds_listeners.cpp in the groups of the
-- manager (src/dds_manager.cpp).
use open_ddw.Base.{ℕ, ◌≡◌, refl, Option, none, some, arith}
use open_ddw.Base.Text.{Text, text}
use open_ddw.Base.Dict.{lookup, lookup-All}
use open_ddw.Dds.{Dds, done, deref}
use open_ddw.Group.{TopicGroup, GenericListener}
use open_ddw.Manager.{Manager, found, slot}
use open_ddw.Manager.Steps.Safety.{Reach}
use open_ddw.Manager.Footprint.{HasHandler, found-handled}
use open_ddw.Manager.Footprint.Handlers.{Reach-AllHandled}
use open_ddw.Listeners.{
  ReaderStatus, data_available, requested_deadline_missed, requested_incompatible_qos,
  sample_rejected, liveliness_changed, subscription_matched, sample_lost, Description, Notice,
  on_reader_status, report_reader, hand_over, complaint,
}

-- What a handler is to hear of: all but that data is available.
abbrev pub receives : Option ℕ → ℕ → ReaderStatus → Option (ℕ × ℕ × ReaderStatus)
receives none reader status = none
receives (some h) reader data_available = none
receives (some h) reader status = some (h, reader, status)

report_reader-handed :
    (topic_desc : ℕ → Option Description) (t : Description) (what : Text) (l : GenericListener)
    (reader : ℕ) (status : ReaderStatus)
    → topic_desc reader ≡ some t
    → (n : Notice ReaderStatus) × (report_reader topic_desc what l reader status ≡ done n)
      × (n.handed ≡ hand_over l reader status)
report_reader-handed topic_desc t what l reader status e = (
  record {
    written = some (complaint what (text " Topic: ") (text ", Type: ") t);
    handed = hand_over l reader status;
  },
  rw (e, deref) refl,
  refl,
)

on_reader_status-handed :
    (topic_desc : ℕ → Option Description) (t : Description) (l : GenericListener) (reader : ℕ)
    (status : ReaderStatus)
    → topic_desc reader ≡ some t
    → (n : Notice ReaderStatus) × (on_reader_status topic_desc l reader status ≡ done n)
      × (n.handed ≡ receives l.handler reader status)
unfolding on_reader_status
on_reader_status-handed topic_desc t l reader data_available e = (_, refl, ground arith)
on_reader_status-handed topic_desc t l reader (requested_deadline_missed s) e =
    let (n, returns, handed) =
      report_reader-handed topic_desc t (text "DDS deadline missed.") l reader
        (requested_deadline_missed s) e in
    (n, returns, ground arith)
on_reader_status-handed topic_desc t l reader (requested_incompatible_qos s) e =
    let (n, returns, handed) =
      report_reader-handed topic_desc t (text "Incompatible DDS QoS.") l reader
        (requested_incompatible_qos s) e in
    (n, returns, ground arith)
on_reader_status-handed topic_desc t l reader (sample_rejected s) e =
    let (n, returns, handed) =
      report_reader-handed topic_desc t (text "DDS sample rejected.") l reader (sample_rejected s)
        e in
    (n, returns, ground arith)
on_reader_status-handed topic_desc t l reader (liveliness_changed s) e = (_, refl, ground arith)
on_reader_status-handed topic_desc t l reader (subscription_matched s) e = (_, refl, ground arith)
on_reader_status-handed topic_desc t l reader (sample_lost s) e = (_, refl, ground arith)

-- In any manager that a history of joining a domain and of operations leads to: when OpenDDS reports
-- a status of a data reader, whose topic it can name, to a reader listener of the manager, the
-- listener returns and has handed the status to the handler that the manager holds at that time, and
-- to no other. It hands over nothing where the manager has no handler, and does not hand over that
-- data is available.
pub on_reader_status-Reach :
    {d : Dds} {m : Manager} (name key : Text) (g : TopicGroup) (l : GenericListener)
    (topic_desc : ℕ → Option Description) (t : Description) (reader : ℕ) (status : ReaderStatus)
    → Reach d m
    → slot m name ≡ found g
    → lookup key g.reader_listeners ≡ some l
    → topic_desc reader ≡ some t
    → (n : Notice ReaderStatus) × (on_reader_status topic_desc l reader status ≡ done n)
      × (n.handed ≡ receives m.rl_handler reader status)
on_reader_status-Reach {d} {m} name key g l topic_desc t reader status r there listening e =
    let handler : l.handler ≡ m.rl_handler =
      lookup-All (HasHandler m.rl_handler) key g.reader_listeners l
        (found-handled name g m there (Reach-AllHandled r name)) listening in
    let (n, returns, handed) = on_reader_status-handed topic_desc t l reader status e in
    (n, returns, rw (← handler) handed)
