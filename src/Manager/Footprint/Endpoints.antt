-- ===== src/Manager/Footprint/Endpoints.antt =====
-- Creating writers and readers keeps to the topic, and new listeners get the manager's handler.
use open_ddw.Base.{
  true, ◌≡◌, arith, ℕ, refl, Bool, Option, none, some, List, [], ◌∷◌, inl, inr, Bool-cases,
  Option-cases, is_empty,
}
use open_ddw.Base.Text.{Text}
use open_ddw.Base.Dict.{insert, Dict, lookup-insert, All, contains, emplace, insert-All}
use open_ddw.Dds.{
  Dds, Outcome, ◌>>=◌, deref, create_datareader, create_datawriter, create_contentfilteredtopic,
  domain_create_publisher, domain_create_subscriber,
}
use open_ddw.Group.{TopicGroup, GenericListener}
use open_ddw.Manager.{Manager, slot, call}
use open_ddw.Manager.Subscribe.{
  create_reader_for, subscribe_with, subscribe_in, create_subscriber, first_filter_name,
}
use open_ddw.Manager.Publish.{
  create_writer_for, create_publisher_for, create_publisher, create_publisher_subscriber,
}
use open_ddw.Manager.Footprint.{
  Footprint-refl, Post, >>=-Post, call-Post, HasHandler, Fits, put_group-Footprint, found-Fits,
  Slot-cases,
}
use open_ddw.Manager.Footprint.Settings.{second}

emplace-All :
    (h : Option ℕ) (k : Text) (ls : Dict GenericListener)
    → All (HasHandler h) ls
    → All (HasHandler h) (emplace k (record { handler = h }) ls)
unfolding emplace
emplace-All h k ls a = elim (Bool-cases (contains k ls)) [
  | inl there ↦ rw there a
  | inr fresh ↦ rw fresh (insert-All (HasHandler h) k (record { handler = h }) ls refl a)
]

contains-insert :
    (x k : Text) (r : ℕ) (rs : Dict ℕ) → contains x rs ≡ true → contains x (insert k r rs) ≡ true
contains-insert x k r rs h = ground (arith, lookup-insert x k r rs)

deref-Post :
    (name : Text) (m : Manager) (o : Option ℕ) (r : Outcome (Bool × Manager))
    → Post second name m r
    → Post second name m (deref o >>= λ x. r)
deref-Post name m none r p = tt
deref-Post name m (some x) r p = p

module _ (d : Dds) where
  create_reader_for-Post :
      (name reader : Text) (s target : ℕ) (g : TopicGroup) (m : Manager)
      → Fits name g m
      → Post second name m (create_reader_for d name reader s target g m)
  unfolding create_reader_for slot
  create_reader_for-Post name reader s target g m k =
      let event = create_datareader s (some target) g.data_reader_qos in
      let m₁ = call event m in
      call-Post second name event m _ (elim (Option-cases (d.object m₁.calls)) [
        | inl e ↦ rw (e, create_reader_for) (put_group-Footprint name g m₁ k)
        | inr (r, e) ↦
            rw (e, create_reader_for)
              (put_group-Footprint name _ m₁ (
                λ h. emplace-All m.rl_handler reader g.reader_listeners (k.0 h),
                λ x h. contains-insert x reader r g.readers (k.1 x h),
              ))
      ])

  subscribe_with-Post :
      (name reader filter : Text) (params : List Text) (t s : ℕ) (g : TopicGroup) (m : Manager)
      → Fits name g m
      → Post second name m (subscribe_with d name reader filter params t s g m)
  unfolding subscribe_with slot
  subscribe_with-Post name reader filter params t s g m k = elim (Bool-cases (is_empty filter)) [
    | inl plain ↦ rw (plain, subscribe_with) (create_reader_for-Post name reader s t g m k)
    | inr filtered ↦
        let event =
          create_contentfilteredtopic (first_filter_name name reader) (some t) filter params in
        let m₁ = call event m in
        rw (filtered, subscribe_with)
          (deref-Post name m m.participant _ (
            call-Post second name event m _ (elim (Option-cases (d.object m₁.calls)) [
              | inl e ↦ rw e (put_group-Footprint name g m₁ k)
              | inr (f, e) ↦ rw e (create_reader_for-Post name reader s f _ m₁ k)
            ])))
  ]

  subscribe_in-Post :
      (name reader filter : Text) (params : List Text) (t : ℕ) (g : TopicGroup) (m : Manager)
      → Fits name g m
      → Post second name m (subscribe_in d name reader filter params t g m)
  unfolding subscribe_in slot
  subscribe_in-Post name reader filter params t g m k = elim (Option-cases g.subscriber) [
    | inr (s, there) ↦
        rw (subscribe_in, there) (subscribe_with-Post name reader filter params t s g m k)
    | inl none_yet ↦
        let event = domain_create_subscriber g.sub_qos in
        let m₁ = call event m in
        rw (subscribe_in, none_yet)
          (deref-Post name m m.participant _ (
            call-Post second name event m _ (elim (Option-cases (d.object m₁.calls)) [
              | inl e ↦ rw e (Footprint-refl name m₁)
              | inr (s, e) ↦ rw e (subscribe_with-Post name reader filter params t s _ m₁ k)
            ])))
  ]

  pub create_subscriber-Post :
      (name reader filter : Text) (params : List Text) (m : Manager)
      → Post second name m (create_subscriber d name reader filter params m)
  unfolding create_subscriber
  create_subscriber-Post name [] filter params m = Footprint-refl name m
  create_subscriber-Post name (c ∷ cs) filter params m = elim (Slot-cases (slot m name)) [
    | inl e ↦ rw (e, create_subscriber) (Footprint-refl name m)
    | inr (inl e) ↦ rw (e, create_subscriber) (Footprint-refl name m)
    | inr (inr (g, e)) ↦ elim (Option-cases g.topic) [
      | inl bare ↦ rw (e, create_subscriber, bare) (Footprint-refl name m)
      | inr (t, topic) ↦ elim (Bool-cases (contains (c ∷ cs) g.reader_listeners)) [
        | inl taken ↦ rw (e, create_subscriber, topic, taken) (Footprint-refl name m)
        | inr fresh ↦
            rw (e, create_subscriber, topic, fresh)
              (subscribe_in-Post name (c ∷ cs) filter params t g m (found-Fits name g m e))
      ]
    ]
  ]

  create_writer_for-Post :
      (name : Text) (g : TopicGroup) (p t : ℕ) (m : Manager)
      → Fits name g m
      → Post second name m (create_writer_for d name g p t m)
  unfolding create_writer_for slot
  create_writer_for-Post name g p t m k =
      let event = create_datawriter p t g.data_writer_qos in
      let m₁ = call event m in
      call-Post second name event m _ (elim (Option-cases (d.object m₁.calls)) [
        | inl e ↦ rw (e, create_writer_for) (put_group-Footprint name _ m₁ k)
        | inr (w, e) ↦ rw (e, create_writer_for) (put_group-Footprint name _ m₁ k)
      ])

  create_publisher_for-Post :
      (name : Text) (g : TopicGroup) (t : ℕ) (m : Manager)
      → Fits name g m
      → Post second name m (create_publisher_for d name g t m)
  unfolding create_publisher_for slot
  create_publisher_for-Post name g t m k =
      let event = domain_create_publisher g.pub_qos in
      let m₁ = call event m in
      deref-Post name m m.participant _ (
        call-Post second name event m _ (elim (Option-cases (d.object m₁.calls)) [
          | inl e ↦ rw e (Footprint-refl name m₁)
          | inr (p, e) ↦
              rw e (create_writer_for-Post name (record g { publisher = some p }) p t m₁ k)
        ]))

  pub create_publisher-Post :
      (name : Text) (m : Manager) → Post second name m (create_publisher d name m)
  unfolding create_publisher
  create_publisher-Post name m = elim (Slot-cases (slot m name)) [
    | inl e ↦ rw (e, create_publisher) (Footprint-refl name m)
    | inr (inl e) ↦ rw (e, create_publisher) (Footprint-refl name m)
    | inr (inr (g, e)) ↦ elim (Option-cases g.topic) [
      | inl bare ↦ rw (e, create_publisher, bare) (Footprint-refl name m)
      | inr (t, topic) ↦ elim (Option-cases g.publisher) [
        | inr (p, there) ↦ rw (e, create_publisher, topic, there) (Footprint-refl name m)
        | inl none_yet ↦
            rw (e, create_publisher, topic, none_yet)
              (create_publisher_for-Post name g t m (found-Fits name g m e))
      ]
    ]
  ]

  pub create_publisher_subscriber-Post :
      (name reader filter : Text) (params : List Text) (m : Manager)
      → Post second name m (create_publisher_subscriber d name reader filter params m)
  unfolding create_publisher_subscriber
  create_publisher_subscriber-Post name reader filter params m =
      >>=-Post second second name m _ _ (create_publisher-Post name m) λ (b, m₁).
        elim (Bool-cases b) [
          | inl e ↦ rw e (create_subscriber-Post name reader filter params m₁)
          | inr e ↦ rw e (Footprint-refl name m₁)
        ]
