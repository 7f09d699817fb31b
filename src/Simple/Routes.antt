-- ===== src/Simple/Routes.antt =====
-- Which topics a type is written to and read from (src/dds_simple.h).
use open_ddw.Base.{
  ℕ, ◌≡◌, refl, ap, ◌∙◌, Bool, true, false, none, some, List, [], ◌++◌, if◌then◌else◌,
}
use open_ddw.Base.Text.{Text, text, same, same_refl}
use open_ddw.Base.Dict.{lookup, lookup-insert}
use open_ddw.Qos.{QosType}
use open_ddw.Dds.{Dds, Outcome, done, null_dereference, >>=-eq-done, deref}
use open_ddw.Manager.{get_reader}
use open_ddw.Manager.Register.{register_topic}
use open_ddw.Manager.Publish.{create_publisher}
use open_ddw.Manager.Subscribe.{create_subscriber}
use open_ddw.Manager.Samples.{Written, write_sample, dispose_sample}
use open_ddw.Manager.Valid.{IsWell}
use open_ddw.Manager.Valid.Register.{register_topic-IsSafe}
use open_ddw.Manager.Readers.{create_subscriber_twice}
use open_ddw.Simple.{
  SimpleManager, TopicType, publisher, subscriber, listener, write, dispose, generate_reader_name,
}
use open_ddw.Simple.Waiting.{
  Look, number_of_matches, get_number_of_publishers, get_number_of_publishers-mapped,
}

returned_true :
    (b : Bool) (x y z : SimpleManager)
    → ◌≡◌ {A = Outcome (Bool × SimpleManager)} (done (b, if b then x else y)) (done (true, z))
    → x ≡ z
returned_true true x y z e = cc
returned_true false x y z e = absurd (cc)

returned_pair :
    (b : Bool) (x z : SimpleManager)
    → ◌≡◌ {A = Outcome (Bool × SimpleManager)} (done (b, x)) (done (true, z))
    → (b ≡ true) × (x ≡ z)
returned_pair b x z e = (cc, cc)

publisher-pub_map :
    (d : Dds) (t : TopicType) (topic : Text) (qos : QosType) (s s' : SimpleManager) (index : Text)
    → publisher d t topic qos s ≡ done (true, s')
    → lookup index s'.pub_map ≡ (if same index t.index then some topic else lookup index s.pub_map)
unfolding publisher
publisher-pub_map d t topic qos s s' index e =
    let (a, e₁, f₁) = >>=-eq-done (register_topic d t.type_name topic qos s.manager) _ e in
    let (b, e₂, f₂) = >>=-eq-done (create_publisher d topic a.1) _ f₁ in
    rw (← returned_true b.0 _ _ s' f₂) (lookup-insert index t.index topic s.pub_map)

-- After `Publisher` returned true for a type and a topic, `Write` and `Dispose` of that type without
-- a topic go to that topic, and those of any other type find the topic, or none, that they found
-- before.
pub publisher-write :
    {A : Type 0} (d : Dds) (t : TopicType) (topic : Text) (qos : QosType) (s s' : SimpleManager)
    (narrowed : Bool) (written : A → Written) (message : A) (index : Text)
    → publisher d t topic qos s ≡ done (true, s')
    → (write narrowed written t.index message [] s'
        ≡ write_sample s'.manager topic narrowed (written message))
      × (dispose narrowed written t.index message [] s'
          ≡ dispose_sample s'.manager topic narrowed (written message))
      × (lookup index s'.pub_map
          ≡ (if same index t.index then some topic else lookup index s.pub_map))
unfolding write dispose
publisher-write d t topic qos s s' narrowed written message index e =
    let own = publisher-pub_map d t topic qos s s' t.index e in
    let other = publisher-pub_map d t topic qos s s' index e in
    (rw (write, own, same_refl t.index) refl, rw (dispose, own, same_refl t.index) refl, other)

-- After `Subscriber` returned true on a valid manager, `GetNumberOfPublishers` of that type, with the
-- same reader name or again with none, polls the reader that was made.
subscriber-get_number_of_publishers :
    (d : Dds) (t : TopicType) (topic : Text) (qos : QosType) (filter reader : Text)
    (s s' : SimpleManager) (min_count max_wait c : ℕ) (looks : List Look)
    → IsWell s.manager
    → subscriber d t topic qos filter reader s ≡ done (true, s')
    → get_number_of_publishers min_count max_wait t.index reader s' c looks
      ≡ number_of_matches min_count max_wait c looks
unfolding subscriber
subscriber-get_number_of_publishers d t topic qos filter reader s s' min_count max_wait c looks w
      e =
    let (a, e₁, f₁) = >>=-eq-done (register_topic d t.type_name topic qos s.manager) _ e in
    let (b, e₂, f₂) =
      >>=-eq-done (create_subscriber d topic (generate_reader_name topic reader) filter [] a.1) _
        f₁ in
    let w₁ : IsWell a.1 = rw e₁ at (register_topic-IsSafe d t.type_name topic qos s.manager w) in
    let (yes_made, s'_is) = returned_pair b.0 _ s' f₂ in
    let made : create_subscriber d topic (generate_reader_name topic reader) filter [] a.1
        ≡ done (true, b.1) =
      e₂ ∙ ap (λ x. done (x, b.1)) yes_made in
    let ((r, read), again) =
      create_subscriber_twice d d topic (generate_reader_name topic reader) filter filter [] [] a.1
        b.1 w₁ made in
    rw (← s'_is) (
      get_number_of_publishers-mapped min_count max_wait t.index reader topic _ r c looks
        (lookup-insert t.index t.index topic s.sub_map ∙ rw (same_refl t.index) refl) read)

-- `Listener` does not look at what `Subscriber` returned: where that leaves no reader of the default
-- name, it goes through a null pointer.
listener-null :
    (d : Dds) (data_available new_listener : ℕ) (t : TopicType) (topic : Text) (qos : QosType)
    (filter : Text) (s s' : SimpleManager) (b : Bool)
    → subscriber d t topic qos filter [] s ≡ done (b, s')
    → get_reader s'.manager topic (topic ++ text "Reader") ≡ none
    → listener d data_available new_listener t topic qos filter s ≡ null_dereference
unfolding listener
listener-null d data_available new_listener t topic qos filter s s' b e absent =
    rw (listener, e, absent, deref) refl
