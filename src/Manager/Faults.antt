-- ===== src/Manager/Faults.antt =====
-- The two operations of `DDSManager` that do go through a null pointer, and `createPublisher` after
-- a failure (src/dds_manager.cpp).
use open_ddw.Base.{
  ℕ, ◌≡◌, ◌≢◌, refl, inl, inr, true, false, Option, none, some, [], ◌∷◌, arith, Bool-cases,
  is_empty,
}
use open_ddw.Base.Text.{Text, same, same_refl}
use open_ddw.Base.Dict.{Dict, lookup, contains}
use open_ddw.Dds.{
  Dds, done, null_dereference, create_datawriter, delete_contained_entities, delete_datareader,
  domain_create_publisher,
}
use open_ddw.Dds.Status.{is_ok}
use open_ddw.Emitter.{Setup}
use open_ddw.Group.{TopicGroup}
use open_ddw.Manager.{Manager, found, slot, slot_of, put_group, call, get_writer, slot-put_group}
use open_ddw.Manager.Settings.{handle_topic_writers, set_writer_listener_handler}
use open_ddw.Manager.Publish.{create_publisher}
use open_ddw.Manager.Filter.{replace_filter, replace_reader}

handle_topic_writers-null :
    (h : Option ℕ) (name : Text) (ts : Dict (Option TopicGroup)) (g : TopicGroup)
    → slot_of (lookup name ts) ≡ found g
    → g.writer_listener ≡ none
    → handle_topic_writers h ts ≡ null_dereference
unfolding handle_topic_writers lookup
handle_topic_writers-null h name [] g e n = cc
handle_topic_writers-null h name ((k, none) ∷ ts) g e n = refl
handle_topic_writers-null h name ((k, some x) ∷ ts) g e n = elim (Bool-cases (same name k)) [
  | inl hit ↦ ground arith
  | inr miss ↦ ground (arith, handle_topic_writers-null h name ts g (rw miss at e) n)
]

-- `SetWriterListenerHandler` goes through a null pointer whenever some topic has no writer listener,
-- as every topic between `registerTopic` and `createPublisher`.
set_writer_listener_handler-null :
    (h : Option ℕ) (name : Text) (m : Manager) (g : TopicGroup)
    → slot m name ≡ found g
    → g.writer_listener ≡ none
    → set_writer_listener_handler h m ≡ null_dereference
unfolding set_writer_listener_handler slot
set_writer_listener_handler-null h name m g e n =
    rw (handle_topic_writers-null h name m.topics g e n)

replace_reader-ne-true :
    (d : Dds) (setup : Setup) (name reader filter : Text) (s r : ℕ) (g : TopicGroup)
    (m m' : Manager)
    → replace_reader d setup name reader filter s r g m ≢ done (true, m')
unfolding replace_reader
replace_reader-ne-true d setup name reader filter s r g m m' e = ground arith

-- `replaceFilter` never returns true, whatever OpenDDS answers.
pub replace_filter-ne-true :
    (d : Dds) (setup : Setup) (name reader filter : Text) (m m' : Manager)
    → replace_filter d setup name reader filter m ≢ done (true, m')
unfolding replace_filter
replace_filter-ne-true d setup name reader filter m m' e = ground arith

-- Where the topic has the reader with its listener and no callbacks, and OpenDDS grants both
-- deletions, `replaceFilter` goes through the data reader that it has just set to nil.
replace_filter-null :
    (d : Dds) (setup : Setup) (name reader filter : Text) (m : Manager) (g : TopicGroup) (s r : ℕ)
    → is_empty reader ≡ false
    → slot m name ≡ found g
    → g.subscriber ≡ some s
    → lookup reader g.readers ≡ some r
    → contains reader g.reader_listeners ≡ true
    → lookup reader g.emitters ≡ none
    → is_ok (d.code (delete_contained_entities r ∷ m.calls)) ≡ true
    → is_ok (d.code (delete_datareader s r ∷ delete_contained_entities r ∷ m.calls)) ≡ true
    → replace_filter d setup name reader filter m ≡ null_dereference
unfolding replace_filter lookup
replace_filter-null d setup name reader filter m g s r full there subscribed read listened quiet c₁
      c₂ =
    ground arith

-- `createPublisher` on a topic whose data writer could not be made returns false, and the next call
-- returns true without having called OpenDDS, though the topic still has no writer.
create_publisher_without_writer :
    (d : Dds) (name : Text) (m m' : Manager) (g : TopicGroup) (p t x : ℕ)
    → slot m name ≡ found g
    → g.topic ≡ some t
    → g.publisher ≡ none
    → m.participant ≡ some x
    → d.object (domain_create_publisher g.pub_qos ∷ m.calls) ≡ some p
    → d.object
        (create_datawriter p t g.data_writer_qos ∷ domain_create_publisher g.pub_qos ∷ m.calls)
      ≡ none
    → create_publisher d name m ≡ done (false, m')
    → (create_publisher d name m' ≡ done (true, m')) × (get_writer m' name ≡ none)
unfolding create_publisher get_writer
create_publisher_without_writer d name m m' g p t x there topic bare joined made refused e =
    let g₁ = record g { publisher = some p; writer = none } in
    let m₁ = put_group name g₁ (
      call (create_datawriter p t g.data_writer_qos)
        (call (domain_create_publisher g.pub_qos) m)) in
    let first : create_publisher d name m ≡ done (false, m₁) = ground arith in
    let same_manager : m₁ ≡ m' = ground (arith, first, e) in
    let kept : slot m₁ name ≡ found g₁ = rw (slot-put_group name name g₁ _, same_refl name) refl in
    rw (← same_manager) (ground (arith, kept), ground (arith, kept))
