-- ===== src/Manager/Valid/Subscribe.antt =====
-- Creating subscribers keeps the manager valid, and goes through no null pointer.
use open_ddw.Base.{
  ℕ, ◌≡◌, refl, ap, inl, inr, true, false, Option, none, some, List, [], ◌∷◌, arith, Bool-cases,
  Option-cases, is_some, is_empty, ◌∙◌, sym,
}
use open_ddw.Base.Text.{Text}
use open_ddw.Base.Dict.{contains, insert, emplace, keys, keys-insert}
use open_ddw.Dds.{
  Dds, deref, domain_create_subscriber, create_datareader, create_contentfilteredtopic,
}
use open_ddw.Group.{TopicGroup, GenericListener, IsValid}
use open_ddw.Manager.{Manager, call}
use open_ddw.Manager.Subscribe.{
  create_reader_for, subscribe_with, subscribe_in, create_subscriber, first_filter_name,
}
use open_ddw.Manager.Valid.{IsWell, IsSafe, slot-cases, put_group-IsWell}

subscriber-IsValid :
    (p : Option ℕ) (g : TopicGroup) (x : ℕ)
    → is_some g.topic ≡ true
    → IsValid p g
    → IsValid p (record g { subscriber = some x })
subscriber-IsValid p g x topic v = ground arith

filter-IsValid :
    (p : Option ℕ) (g : TopicGroup) (k : Text) (f : ℕ)
    → is_some g.subscriber ≡ true
    → IsValid p g
    → IsValid p (record g { filtered_topics = insert k f g.filtered_topics })
filter-IsValid p g k f subscribed v = ground arith

reader-IsValid :
    (p : Option ℕ) (g : TopicGroup) (k : Text) (r : ℕ) (l : GenericListener)
    → is_some g.subscriber ≡ true
    → contains k g.reader_listeners ≡ false
    → IsValid p g
    → IsValid p (record g {
      readers = insert k r g.readers;
      reader_listeners = emplace k l g.reader_listeners;
    })
unfolding emplace
reader-IsValid p g k r l subscribed fresh v =
    let same_keys : keys (emplace k l g.reader_listeners) ≡ keys (insert k r g.readers) = rw fresh (
      keys-insert k l g.reader_listeners
      ∙ rw v.readers_have_listeners (sym (keys-insert k r g.readers))) in
    ground (arith, same_keys)

module _ (d : Dds) where
  create_reader_for-IsSafe :
      (name reader : Text) (s target : ℕ) (g : TopicGroup) (m : Manager)
      → is_some g.subscriber ≡ true
      → contains reader g.reader_listeners ≡ false
      → IsValid m.participant g
      → IsWell m
      → IsSafe (create_reader_for d name reader s target g m)
  unfolding create_reader_for
  create_reader_for-IsSafe name reader s target g m subscribed fresh v w =
      go (d.object m₁.calls) refl
    where
      m₁ : Manager
      m₁ = call (create_datareader s (some target) g.data_reader_qos) m

      go :
          (o : Option ℕ)
          → d.object m₁.calls ≡ o
          → IsSafe (create_reader_for d name reader s target g m)
      go none e = rw (e, create_reader_for) (put_group-IsWell name g m₁ v w)
      go (some r) e =
          rw (e, create_reader_for)
            (put_group-IsWell name _ m₁ (reader-IsValid _ g reader r _ subscribed fresh v) w)

  subscribe_with-IsSafe :
      (name reader filter : Text) (params : List Text) (t s : ℕ) (g : TopicGroup) (m : Manager)
      → is_some m.participant ≡ true
      → is_some g.subscriber ≡ true
      → contains reader g.reader_listeners ≡ false
      → IsValid m.participant g
      → IsWell m
      → IsSafe (subscribe_with d name reader filter params t s g m)
  unfolding subscribe_with
  subscribe_with-IsSafe name reader filter params t s g m joined subscribed fresh v w =
      elim (Bool-cases (is_empty filter)) [
        | inl plain ↦
            rw (plain, subscribe_with)
              (create_reader_for-IsSafe name reader s t g m subscribed fresh v w)
        | inr filtered ↦ elim (Option-cases m.participant) [
          | inl absent ↦ absurd (ground arith)
          | inr (x, e) ↦ go (d.object m₁.calls) refl filtered x e
        ]
      ]
    where
      m₁ : Manager
      m₁ =
          call (create_contentfilteredtopic (first_filter_name name reader) (some t) filter params)
            m

      go :
          (o : Option ℕ)
          → d.object m₁.calls ≡ o
          → is_empty filter ≡ false
          → (x : ℕ) → m.participant ≡ some x
          → IsSafe (subscribe_with d name reader filter params t s g m)
      go none e filtered x p =
          rw (filtered, subscribe_with, p, deref, e) (put_group-IsWell name g m₁ v w)
      go (some f) e filtered x p =
          rw (filtered, subscribe_with, p, deref, e)
            (create_reader_for-IsSafe name reader s f _ m₁ subscribed fresh
              (filter-IsValid _ g (first_filter_name name reader) f subscribed v) w)

  subscribe_in-IsSafe :
      (name reader filter : Text) (params : List Text) (t : ℕ) (g : TopicGroup) (m : Manager)
      → is_some m.participant ≡ true
      → is_some g.topic ≡ true
      → contains reader g.reader_listeners ≡ false
      → IsValid m.participant g
      → IsWell m
      → IsSafe (subscribe_in d name reader filter params t g m)
  unfolding subscribe_in
  subscribe_in-IsSafe name reader filter params t g m joined topic fresh v w =
      elim (Option-cases g.subscriber) [
        | inr (s, there) ↦
            rw (subscribe_in, there)
              (subscribe_with-IsSafe name reader filter params t s g m joined (ap is_some there)
                fresh v w)
        | inl none_yet ↦ elim (Option-cases m.participant) [
          | inl absent ↦ absurd (ground arith)
          | inr (x, e) ↦ go (d.object m₁.calls) refl none_yet x e
        ]
      ]
    where
      m₁ : Manager
      m₁ = call (domain_create_subscriber g.sub_qos) m

      go :
          (o : Option ℕ)
          → d.object m₁.calls ≡ o
          → g.subscriber ≡ none
          → (x : ℕ) → m.participant ≡ some x
          → IsSafe (subscribe_in d name reader filter params t g m)
      go none e none_yet x p = rw (subscribe_in, none_yet, p, deref, e) w
      go (some s) e none_yet x p =
          rw (subscribe_in, none_yet, p, deref, e)
            (subscribe_with-IsSafe name reader filter params t s _ m₁ joined refl fresh
              (subscriber-IsValid _ g s topic v) w)

  pub create_subscriber-IsSafe :
      (name reader filter : Text) (params : List Text) (m : Manager)
      → IsWell m
      → IsSafe (create_subscriber d name reader filter params m)
  unfolding create_subscriber
  create_subscriber-IsSafe name [] filter params m w = w
  create_subscriber-IsSafe name (c ∷ cs) filter params m w = elim (slot-cases m name w) [
    | inl e ↦ rw (e, create_subscriber) w
    | inr (g, e, v) ↦ elim (Option-cases g.topic) [
      | inl bare ↦ rw (e, create_subscriber, bare) w
      | inr (t, topic) ↦ elim (Bool-cases (contains (c ∷ cs) g.reader_listeners)) [
        | inl taken ↦ rw (e, create_subscriber, topic, taken) w
        | inr fresh ↦
            rw (e, create_subscriber, topic, fresh)
              (subscribe_in-IsSafe name (c ∷ cs) filter params t g m (ground arith)
                (ap is_some topic) fresh v w)
      ]
    ]
  ]
