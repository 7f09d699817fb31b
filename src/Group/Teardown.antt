-- ===== src/Group/Teardown.antt =====
-- `DDSManager::TopicGroup::~TopicGroup` (src/dds_manager.cpp). A refused deletion is only reported;
-- the report reads the topic's name, through a pointer that could be null.
use open_ddw.Base.{
  ℕ, ◌+◌, ◌≡◌, refl, true, Option, none, some, List, [], length, length-append, ◌∷◌, ◌++◌, map,
  arith, if◌then◌else◌, is_empty, not, is_some, implies,
}
use open_ddw.Base.Dict.{Dict}
use open_ddw.Dds.{
  Dds, Event, Trace, Outcome, done, ◌>>=◌, deref, delete_datareader, delete_datawriter,
  delete_publisher, delete_subscriber, delete_contentfilteredtopic, delete_topic, stop_emitter,
}
use open_ddw.Dds.Status.{is_ok}
use open_ddw.Emitter.{Emitter}
use open_ddw.Group.{TopicGroup, IsValid}

-- The loops, with the trace so far.
unfoldable pub delete_readers : ℕ → Dict ℕ → Trace → Trace
delete_readers subscriber [] tr = tr
delete_readers subscriber ((k, r) ∷ rs) tr =
    delete_readers subscriber rs (delete_datareader subscriber r ∷ tr)

unfoldable pub stop_emitters : Dict Emitter → Trace → Trace
stop_emitters [] tr = tr
stop_emitters ((k, e) ∷ es) tr = stop_emitters es (stop_emitter k ∷ tr)

unfoldable pub delete_filters : ℕ → Dict ℕ → Trace → Trace
delete_filters domain [] tr = tr
delete_filters domain ((k, f) ∷ fs) tr =
    delete_filters domain fs (delete_contentfilteredtopic domain f ∷ tr)

-- `if (subscriber && !readers.empty())`, `if (domain && !filteredTopics.empty())`
abbrev readers_of : Option ℕ → Dict ℕ → Trace → Trace
readers_of none rs tr = tr
readers_of (some subscriber) rs tr = delete_readers subscriber rs tr

abbrev filters_of : Option ℕ → Dict ℕ → Trace → Trace
filters_of none fs tr = tr
filters_of (some domain) fs tr = delete_filters domain fs tr

module _ (d : Dds) where
  -- A deletion whose failure is reported with the name of the topic.
  unfoldable pub delete_reported : Option ℕ → Event → Trace → Outcome Trace
  delete_reported topic event tr =
      if is_ok (d.code (event ∷ tr))
      then done (event ∷ tr)
      else (deref topic >>= λ t. done (event ∷ tr))

  -- A deletion that is made if the object and its owner are there.
  unfoldable pub delete_owned :
      (ℕ → ℕ → Event) → Option ℕ → Option ℕ → Option ℕ → Trace → Outcome Trace
  unfolding delete_reported
  delete_owned delete none object topic tr = done tr
  delete_owned delete (some o) none topic tr = done tr
  delete_owned delete (some o) (some x) topic tr = delete_reported topic (delete o x) tr

  unfoldable pub teardown : TopicGroup → Trace → Outcome Trace
  unfolding delete_readers stop_emitters delete_filters delete_owned
  teardown g tr₀ = do
    tr₁ ←
        delete_owned delete_datawriter g.publisher g.writer g.topic
          (readers_of g.subscriber g.readers tr₀)
    tr₂ ← delete_owned delete_publisher g.domain g.publisher g.topic tr₁
    tr₃ ← delete_owned delete_subscriber g.domain g.subscriber g.topic tr₂
    delete_owned delete_topic g.domain g.topic g.topic
        (filters_of g.domain g.filtered_topics (stop_emitters g.emitters tr₃))

-- The trace after more events, the first of the list first.
abbrev pub after : List Event → Trace → Trace
after [] tr = tr
after (e ∷ es) tr = after es (e ∷ tr)

abbrev owned : (ℕ → ℕ → Event) → Option ℕ → Option ℕ → List Event
owned delete (some o) (some x) = delete o x ∷ []
owned delete _ _ = []

abbrev owned_all : (ℕ → ℕ → Event) → Option ℕ → Dict ℕ → List Event
owned_all delete none xs = []
owned_all delete (some o) xs = map (λ (k, x). delete o x) xs

-- What is deleted, first to last: the readers before the subscriber, the writer before the
-- publisher, and all of them before the filtered topics and the topic.
abbrev pub deletions : TopicGroup → List Event
deletions g =
    owned_all delete_datareader g.subscriber g.readers
    ++ (owned delete_datawriter g.publisher g.writer
        ++ (owned delete_publisher g.domain g.publisher
            ++ (owned delete_subscriber g.domain g.subscriber
                ++ (map (λ (k, e). stop_emitter k) g.emitters
                    ++ (owned_all delete_contentfilteredtopic g.domain g.filtered_topics
                        ++ owned delete_topic g.domain g.topic)))))

abbrev count : Option ℕ → ℕ
count none = 0
count (some x) = 1

-- How many objects and emitters a group holds.
abbrev pub held : TopicGroup → ℕ
held g =
    length g.readers
    + count g.writer
    + count g.publisher
    + count g.subscriber
    + length g.emitters
    + length g.filtered_topics
    + count g.topic

pub after-append : (es fs : List Event) (tr : Trace) → after (es ++ fs) tr ≡ after fs (after es tr)
after-append [] fs tr = refl
after-append (e ∷ es) fs tr = after-append es fs (e ∷ tr)

delete_readers-after :
    (s : ℕ) (rs : Dict ℕ) (tr : Trace)
    → delete_readers s rs tr ≡ after (owned_all delete_datareader (some s) rs) tr
unfolding delete_readers
delete_readers-after s [] tr = refl
delete_readers-after s ((k, r) ∷ rs) tr = delete_readers-after s rs _

delete_filters-after :
    (p : ℕ) (fs : Dict ℕ) (tr : Trace)
    → delete_filters p fs tr ≡ after (owned_all delete_contentfilteredtopic (some p) fs) tr
unfolding delete_filters
delete_filters-after p [] tr = refl
delete_filters-after p ((k, f) ∷ fs) tr = delete_filters-after p fs _

stop_emitters-after :
    (es : Dict Emitter) (tr : Trace)
    → stop_emitters es tr ≡ after (map (λ (k, e). stop_emitter k) es) tr
unfolding stop_emitters
stop_emitters-after [] tr = refl
stop_emitters-after ((k, e) ∷ es) tr = stop_emitters-after es _

readers_of-after :
    (s : Option ℕ) (rs : Dict ℕ) (tr : Trace)
    → readers_of s rs tr ≡ after (owned_all delete_datareader s rs) tr
readers_of-after none rs tr = refl
readers_of-after (some s) rs tr = delete_readers-after s rs tr

filters_of-after :
    (p : Option ℕ) (fs : Dict ℕ) (tr : Trace)
    → filters_of p fs tr ≡ after (owned_all delete_contentfilteredtopic p fs) tr
filters_of-after none fs tr = refl
filters_of-after (some p) fs tr = delete_filters-after p fs tr

length-map : {A : Type 0} (f : A → Event) (xs : List A) → length (map f xs) ≡ length xs
length-map f [] = refl
length-map f (x ∷ xs) = omega (arith, length-map f xs)

delete_owned-after :
    (d : Dds) (delete : ℕ → ℕ → Event) (owner object topic : Option ℕ) (tr : Trace)
    → implies (is_some object) (is_some topic) ≡ true
    → delete_owned d delete owner object topic tr ≡ done (after (owned delete owner object) tr)
unfolding delete_owned
delete_owned-after d delete none object topic tr h = refl
delete_owned-after d delete (some o) none topic tr h = refl
delete_owned-after d delete (some o) (some x) topic tr h = ground arith

-- The destructor of a valid group never goes through a null pointer, whatever OpenDDS returns. It
-- makes exactly the calls of `deletions`, in that order.
pub teardown-deletions :
    (d : Dds) (participant : Option ℕ) (g : TopicGroup) (tr : Trace)
    → IsValid participant g
    → teardown d g tr ≡ done (after (deletions g) tr)
unfolding teardown
teardown-deletions d participant g tr v =
    let wt : implies (is_some g.writer) (is_some g.topic) ≡ true = ground arith in
    let tt' : implies (is_some g.topic) (is_some g.topic) ≡ true = ground arith in
    rw
      (
        readers_of-after,
        delete_owned-after d delete_datawriter g.publisher g.writer g.topic _ wt,
        delete_owned-after d delete_publisher g.domain g.publisher g.topic _ v.publisher_topic,
        delete_owned-after d delete_subscriber g.domain g.subscriber g.topic _ v.subscriber_topic,
        stop_emitters-after,
        filters_of-after,
        delete_owned-after d delete_topic g.domain g.topic g.topic _ tt',
      )
      (simp after-append)

length-owned :
    (delete : ℕ → ℕ → Event) (owner object : Option ℕ)
    → implies (is_some object) (is_some owner) ≡ true
    → length (owned delete owner object) ≡ count object
length-owned delete none object h = ground arith
length-owned delete (some o) none h = refl
length-owned delete (some o) (some x) h = refl

length-owned_all :
    (delete : ℕ → ℕ → Event) (owner : Option ℕ) (xs : Dict ℕ)
    → implies (not (is_empty xs)) (is_some owner) ≡ true
    → length (owned_all delete owner xs) ≡ length xs
length-owned_all delete none [] h = refl
length-owned_all delete none (x ∷ xs) h = cc
length-owned_all delete (some o) xs h = length-map _ xs

-- For a valid group of a manager with a participant, the calls that `deletions` lists are as many
-- as the objects and the emitters that the group holds.
length-deletions :
    (participant : ℕ) (g : TopicGroup)
    → IsValid (some participant) g
    → length (deletions g) ≡ held g
length-deletions participant g v =
    let domain : is_some g.domain ≡ is_some g.topic = ground (arith, v.topic_domain) in
    rw
      (
        length-append,
        length-append,
        length-append,
        length-append,
        length-append,
        length-append,
        length-owned_all delete_datareader g.subscriber g.readers v.readers_subscriber,
        length-owned delete_datawriter g.publisher g.writer v.writer_publisher,
        length-owned delete_publisher g.domain g.publisher (ground (arith, v.publisher_topic)),
        length-owned delete_subscriber g.domain g.subscriber (ground (arith, v.subscriber_topic)),
        length-map,
        length-owned_all delete_contentfilteredtopic g.domain g.filtered_topics
            (ground (arith, v.filters_subscriber, v.subscriber_topic)),
        length-owned delete_topic g.domain g.topic (ground arith),
      )
      (omega arith)
