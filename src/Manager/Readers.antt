-- ===== src/Manager/Readers.antt =====
-- The readers of a topic by name (src/dds_manager.cpp).
use open_ddw.Base.{
  ℕ, ◌≡◌, refl, ap, inl, inr, Bool, true, false, Option, none, some, List, [], ◌∷◌, arith,
  Bool-cases, Option-cases, is_some, is_empty,
}
use open_ddw.Base.Text.{Text, same_refl}
use open_ddw.Base.Dict.{lookup, contains, insert, emplace, lookup-insert}
use open_ddw.Dds.{
  Dds, Outcome, done, null_dereference, throws, terminates, deref, create_datareader,
  create_contentfilteredtopic, domain_create_subscriber,
}
use open_ddw.Group.{TopicGroup, GenericListener}
use open_ddw.Manager.{Manager, found, slot, call, slot-put_group, get_reader}
use open_ddw.Manager.Subscribe.{
  create_reader_for, subscribe_with, subscribe_in, create_subscriber, first_filter_name,
}
use open_ddw.Manager.Valid.{IsWell, slot-cases}

-- A successful result has the reader, and its listener.
abbrev Subscribed : Text → Text → Outcome (Bool × Manager) → Type 0
Subscribed name reader (done (true, m)) =
    (g : TopicGroup) × (slot m name ≡ found g)
    × (is_some g.topic ≡ true)
    × (contains reader g.reader_listeners ≡ true)
    × ((r : ℕ) × (lookup reader g.readers ≡ some r))
Subscribed name reader (done (false, m)) = Unit
Subscribed name reader null_dereference = Unit
Subscribed name reader (throws message) = Unit
Subscribed name reader terminates = Unit

module _ (d : Dds) (name reader : Text) where
  create_reader_for-Subscribed :
      (s target : ℕ) (g : TopicGroup) (m : Manager)
      → is_some g.topic ≡ true
      → Subscribed name reader (create_reader_for d name reader s target g m)
  unfolding create_reader_for emplace
  create_reader_for-Subscribed s target g m topic = go (d.object m₁.calls) refl
    where
      m₁ : Manager
      m₁ = call (create_datareader s (some target) g.data_reader_qos) m

      go :
          (o : Option ℕ)
          → d.object m₁.calls ≡ o
          → Subscribed name reader (create_reader_for d name reader s target g m)
      go none e = rw (e, create_reader_for) tt
      go (some r) e =
          let l : GenericListener = record { handler = m.rl_handler } in
          let g' = record g {
            readers = insert reader r g.readers;
            reader_listeners = emplace reader l g.reader_listeners;
          } in
          rw (e, create_reader_for)
            (
              g',
              rw (slot-put_group name name g' m₁, same_refl name) refl,
              topic,
              ground (arith, lookup-insert reader reader l g.reader_listeners, same_refl reader),
              (r, rw (lookup-insert reader reader r g.readers, same_refl reader) refl),
            )

  subscribe_with-Subscribed :
      (filter : Text) (params : List Text) (t s : ℕ) (g : TopicGroup) (m : Manager)
      → is_some g.topic ≡ true
      → Subscribed name reader (subscribe_with d name reader filter params t s g m)
  unfolding subscribe_with
  subscribe_with-Subscribed [] params t s g m topic = create_reader_for-Subscribed s t g m topic
  subscribe_with-Subscribed (c ∷ cs) params t s g m topic = elim (Option-cases m.participant) [
    | inl absent ↦ rw (subscribe_with, absent, deref) tt
    | inr (x, joined) ↦ go (d.object m₁.calls) refl x joined
  ]
    where
      m₁ : Manager
      m₁ =
          call
            (create_contentfilteredtopic (first_filter_name name reader) (some t) (c ∷ cs) params) m

      go :
          (o : Option ℕ)
          → d.object m₁.calls ≡ o
          → (x : ℕ) → m.participant ≡ some x
          → Subscribed name reader (subscribe_with d name reader (c ∷ cs) params t s g m)
      go none e x joined = rw (subscribe_with, joined, deref, e) tt
      go (some f) e x joined =
          rw (subscribe_with, joined, deref, e) (create_reader_for-Subscribed s f _ m₁ topic)

  subscribe_in-Subscribed :
      (filter : Text) (params : List Text) (t : ℕ) (g : TopicGroup) (m : Manager)
      → is_some g.topic ≡ true
      → Subscribed name reader (subscribe_in d name reader filter params t g m)
  unfolding subscribe_in
  subscribe_in-Subscribed filter params t g m topic = elim (Option-cases g.subscriber) [
    | inr (s, there) ↦
        rw (subscribe_in, there) (subscribe_with-Subscribed filter params t s g m topic)
    | inl none_yet ↦ elim (Option-cases m.participant) [
      | inl absent ↦ rw (subscribe_in, none_yet, absent, deref) tt
      | inr (x, joined) ↦ go (d.object m₁.calls) refl none_yet x joined
    ]
  ]
    where
      m₁ : Manager
      m₁ = call (domain_create_subscriber g.sub_qos) m

      go :
          (o : Option ℕ)
          → d.object m₁.calls ≡ o
          → g.subscriber ≡ none
          → (x : ℕ) → m.participant ≡ some x
          → Subscribed name reader (subscribe_in d name reader filter params t g m)
      go none e none_yet x joined = rw (subscribe_in, none_yet, joined, deref, e) tt
      go (some s) e none_yet x joined =
          rw (subscribe_in, none_yet, joined, deref, e)
            (subscribe_with-Subscribed filter params t s _ m₁ topic)

create_subscriber-Subscribed :
    (d : Dds) (name : Text) (c : ℕ) (cs filter : Text) (params : List Text) (m : Manager)
    → IsWell m
    → Subscribed name (c ∷ cs) (create_subscriber d name (c ∷ cs) filter params m)
unfolding create_subscriber
create_subscriber-Subscribed d name c cs filter params m w = elim (slot-cases m name w) [
  | inl e ↦ rw (e, create_subscriber) tt
  | inr (g, e, v) ↦ elim (Option-cases g.topic) [
    | inl bare ↦ rw (e, create_subscriber, bare) tt
    | inr (t, topic) ↦ elim (Bool-cases (contains (c ∷ cs) g.reader_listeners)) [
      | inl taken ↦ rw (e, create_subscriber, topic, taken) tt
      | inr fresh ↦
          rw (e, create_subscriber, topic, fresh)
            (subscribe_in-Subscribed d name (c ∷ cs) filter params t g m (ap is_some topic))
    ]
  ]
]

result_Subscribed :
    (name reader : Text) (o : Outcome (Bool × Manager)) (m : Manager)
    → o ≡ done (true, m)
    → Subscribed name reader o
    → Subscribed name reader (done (true, m))
result_Subscribed name reader o m e s = rw e at s

get_reader-found :
    (name : Text) (c : ℕ) (cs : Text) (m : Manager) (g : TopicGroup) (r : ℕ)
    → slot m name ≡ found g
    → lookup (c ∷ cs) g.readers ≡ some r
    → get_reader m name (c ∷ cs) ≡ some r
unfolding get_reader lookup
get_reader-found name c cs m g r there read = elim (Bool-cases (is_empty g.readers)) [
  | inl none_yet ↦ ground arith
  | inr some_there ↦ rw (get_reader, there, some_there) read
]

create_subscriber-taken :
    (d : Dds) (name : Text) (c : ℕ) (cs filter : Text) (params : List Text) (m : Manager)
    (g : TopicGroup)
    → slot m name ≡ found g
    → is_some g.topic ≡ true
    → contains (c ∷ cs) g.reader_listeners ≡ true
    → create_subscriber d name (c ∷ cs) filter params m ≡ done (false, m)
unfolding create_subscriber
create_subscriber-taken d name c cs filter params m g there topic listened =
    elim (Option-cases g.topic) [
      | inl bare ↦ ground arith
      | inr (t, has) ↦ rw (create_subscriber, there, has, listened) refl
    ]

-- When `createSubscriber` returns true on a valid manager, `getReader` has a reader under the
-- name in the manager that it leaves, and a second `createSubscriber` on that manager for the
-- same topic and name, with whatever filter and whatever OpenDDS would answer, returns false and
-- changes nothing.
pub create_subscriber_twice :
    (d d' : Dds) (name reader filter filter' : Text) (params params' : List Text) (m m' : Manager)
    → IsWell m
    → create_subscriber d name reader filter params m ≡ done (true, m')
    → ((r : ℕ) × (get_reader m' name reader ≡ some r))
      × (create_subscriber d' name reader filter' params' m' ≡ done (false, m'))
unfolding create_subscriber get_reader lookup
create_subscriber_twice d d' name [] filter filter' params params' m m' w e = absurd (cc)
create_subscriber_twice d d' name (c ∷ cs) filter filter' params params' m m' w e =
    let (g, there, topic, listened, (r, read)) =
      result_Subscribed name (c ∷ cs) (create_subscriber d name (c ∷ cs) filter params m) m' e
        (create_subscriber-Subscribed d name c cs filter params m w) in
    (
      (r, get_reader-found name c cs m' g r there read),
      create_subscriber-taken d' name c cs filter' params' m' g there topic listened,
    )
