-- ===== src/Manager/Footprint/Persistence.antt =====
-- A data reader stays until its topic ends (src/dds_manager.cpp).
use open_ddw.Base.{
  ℕ, ◌≡◌, refl, subst, Bool, true, false, not, Option, none, some, List, [], ◌∷◌, arith, is_empty,
  inl, inr, Bool-cases, Option-cases,
}
use open_ddw.Base.Text.{Text, same, same_eq}
use open_ddw.Base.Dict.{Dict, lookup, contains}
use open_ddw.Dds.{Dds, done, >>=-eq-done}
use open_ddw.Group.{TopicGroup}
use open_ddw.Manager.{Manager, slot, slot_of, get_reader}
use open_ddw.Manager.Settings
use open_ddw.Manager.Settings.{handle_readers, handle_topic_readers}
use open_ddw.Manager.Subscribe.{create_subscriber}
use open_ddw.Manager.Readers.{create_subscriber_twice}
use open_ddw.Manager.Valid.{IsWell}
use open_ddw.Manager.Steps.{
  Operation, set_reader_listener_handler, unregister_topic, clean_up_topics, step,
}
use open_ddw.Manager.Footprint.{Footprint, HasReader, Slot-cases}
use open_ddw.Emitter.{Setup}
use open_ddw.Manager.Filter.{replace_filter}
use open_ddw.Manager.Footprint.Refilter.{replace_filter-Post, set_writer_listener_handler-HasReader}
use open_ddw.Manager.Footprint.Topics.{topic_of, step-Footprint, step-Elsewhere}

-- An operation does not end the topic.
abbrev pub spares : Text → Operation → Bool
spares topic (unregister_topic name) = not (same topic name)
spares topic (clean_up_topics schedule) = false
spares topic _ = true

handle_topic_readers-HasReader :
    (h : Option ℕ) (topic k : Text) (ts ts' : Dict (Option TopicGroup))
    → handle_topic_readers h ts ≡ done ts'
    → HasReader k (slot_of (lookup topic ts))
    → HasReader k (slot_of (lookup topic ts'))
unfolding handle_topic_readers lookup
handle_topic_readers-HasReader h topic k [] ts' e r = absurd r
handle_topic_readers-HasReader h topic k ((j, none) ∷ ts) ts' e r = absurd (cc)
handle_topic_readers-HasReader h topic k ((j, some g) ∷ ts) ts' e r =
    let (us, e₁, e₂) = >>=-eq-done (handle_topic_readers h ts) _ e in
    let eq : (j, some (record g { reader_listeners = handle_readers h g.reader_listeners })) ∷ us
        ≡ ts' =
      cc in
    subst (λ x. HasReader k (slot_of (lookup topic x))) eq
      (elim (Bool-cases (same topic j)) [
        | inl here ↦ rw here (rw here at r)
        | inr on ↦ rw on (handle_topic_readers-HasReader h topic k ts us e₁ (rw on at r))
      ])

set_reader_listener_handler-HasReader :
    (h : Option ℕ) (topic k : Text) (m m' : Manager)
    → Settings.set_reader_listener_handler h m ≡ done m'
    → HasReader k (slot m topic)
    → HasReader k (slot m' topic)
unfolding Settings.set_reader_listener_handler slot
set_reader_listener_handler-HasReader h topic k m m' e r =
    let (ts, e₁, e₂) = >>=-eq-done (handle_topic_readers h m.topics) _ e in
    let eq : record m { rl_handler = h; topics = ts } ≡ m' = cc in
    subst (λ x. HasReader k (slot x topic)) eq
      (handle_topic_readers-HasReader h topic k m.topics ts e₁ r)

-- An operation on a topic, the same or another.
Footprint-HasReader :
    (name topic k : Text) (m m' : Manager)
    → Footprint name m m'
    → HasReader k (slot m topic)
    → HasReader k (slot m' topic)
Footprint-HasReader name topic k m m' f r = elim (Bool-cases (same topic name)) [
  | inl hit ↦ let eq = same_eq topic name hit in rw eq (f.readers_kept k (rw eq at r))
  | inr other ↦ rw (f.outside.elsewhere topic other) r
]

step-HasReader :
    (d : Dds) (o : Operation) (topic k : Text) (m m' : Manager) (b : Bool)
    → spares topic o ≡ true
    → step d o m ≡ done (b, m')
    → HasReader k (slot m topic)
    → HasReader k (slot m' topic)
unfolding step
step-HasReader d (set_reader_listener_handler h) topic k m m' b spared e r =
    let (x, e₁, e₂) = >>=-eq-done (Settings.set_reader_listener_handler h m) _ e in
    let eq : x ≡ m' = cc in
    subst (λ y. HasReader k (slot y topic)) eq
      (set_reader_listener_handler-HasReader h topic k m x e₁ r)
step-HasReader d (clean_up_topics schedule) topic k m m' b spared e r = absurd (cc)
step-HasReader d (unregister_topic name) topic k m m' b spared e r =
    let f = step-Elsewhere d (unregister_topic name) name m m' b refl e in
    let other : same topic name ≡ false = ground arith in rw (f.elsewhere topic other) r
step-HasReader d o topic k m m' b spared e r = elim (Option-cases (topic_of o)) [
  | inl unnamed ↦ absurd (cc)
  | inr (name, named) ↦
      Footprint-HasReader name topic k m m' (step-Footprint d o name m m' b named refl e) r
]

-- Operations in a row, none of which ends the topic, and each of which returns.
pub data Run (d : Dds) (topic : Text) (m : Manager) : Manager → Type 0 where
  here : Run d topic m m
  next :
      {m₁ m₂ : Manager} {b : Bool} (o : Operation)
      → Run d topic m m₁
      → spares topic o ≡ true
      → step d o m₁ ≡ done (b, m₂)
      → Run d topic m m₂
  refilter :
      {m₁ m₂ : Manager} {b : Bool} (setup : Setup) (name reader filter : Text)
      → Run d topic m m₁
      → replace_filter d setup name reader filter m₁ ≡ done (b, m₂)
      → Run d topic m m₂
  handle_writers :
      {m₁ m₂ : Manager} (h : Option ℕ)
      → Run d topic m m₁
      → Settings.set_writer_listener_handler h m₁ ≡ done m₂
      → Run d topic m m₂

replace_filter-Footprint :
    (d : Dds) (setup : Setup) (name reader filter : Text) (m m' : Manager) (b : Bool)
    → replace_filter d setup name reader filter m ≡ done (b, m')
    → Footprint name m m'
replace_filter-Footprint d setup name reader filter m m' b e =
    rw e at (replace_filter-Post d setup name reader filter m)

Run-HasReader :
    {d : Dds} {topic : Text} {m m' : Manager} (k : Text)
    → Run d topic m m'
    → HasReader k (slot m topic)
    → HasReader k (slot m' topic)
Run-HasReader k here r = r
Run-HasReader {d} {topic} k (next {m₁} {m₂} {b} o run spared e) r =
    step-HasReader d o topic k m₁ m₂ b spared e (Run-HasReader k run r)
Run-HasReader {d} {topic} k (refilter {m₁} {m₂} {b} setup name reader filter run e) r =
    Footprint-HasReader name topic k m₁ m₂
      (replace_filter-Footprint d setup name reader filter m₁ m₂ b e) (Run-HasReader k run r)
Run-HasReader {d} {topic} k (handle_writers {m₁} {m₂} h run e) r =
    set_writer_listener_handler-HasReader h topic k m₁ m₂ e (Run-HasReader k run r)

HasReader-get_reader :
    (m : Manager) (topic reader : Text)
    → is_empty reader ≡ false
    → HasReader reader (slot m topic)
    → (r : ℕ) × (get_reader m topic reader ≡ some r)
unfolding get_reader lookup
HasReader-get_reader m topic [] full h = absurd (cc)
HasReader-get_reader m topic (c ∷ cs) full h = elim (Slot-cases (slot m topic)) [
  | inl e ↦ absurd (rw e at h)
  | inr (inl e) ↦ absurd (rw e at h)
  | inr (inr (g, e)) ↦
      let there : contains (c ∷ cs) g.readers ≡ true = rw e at h in
      elim (Option-cases (lookup (c ∷ cs) g.readers)) [
        | inl absent ↦ absurd (ground arith)
        | inr (r, read) ↦ (r, ground (arith, e, read))
      ]
]

get_reader-HasReader :
    (m : Manager) (topic reader : Text) (r : ℕ)
    → get_reader m topic reader ≡ some r
    → (is_empty reader ≡ false) × HasReader reader (slot m topic)
unfolding get_reader
get_reader-HasReader m topic [] r e = absurd (cc)
get_reader-HasReader m topic (c ∷ cs) r e = elim (Slot-cases (slot m topic)) [
  | inl s ↦ absurd (ground (arith, s))
  | inr (inl s) ↦ absurd (ground (arith, s))
  | inr (inr (g, s)) ↦ (refl, rw s (ground (arith, s)))
]

-- When `createSubscriber` returned true on a valid manager, `getReader` has a reader under the name
-- from then on: after any of the manager's operations on topics, readers, writers, callbacks, QoS
-- and handlers, all of which return and of which none unregisters the topic or cleans up all
-- topics.
pub create_subscriber-Run :
    (d : Dds) (topic reader filter : Text) (params : List Text) (m m₁ m₂ : Manager)
    → IsWell m
    → create_subscriber d topic reader filter params m ≡ done (true, m₁)
    → Run d topic m₁ m₂
    → (r : ℕ) × (get_reader m₂ topic reader ≡ some r)
create_subscriber-Run d topic reader filter params m m₁ m₂ w e run =
    let ((r, read), again) =
      create_subscriber_twice d d topic reader filter filter params params m m₁ w e in
    let (full, h) = get_reader-HasReader m₁ topic reader r read in
    HasReader-get_reader m₂ topic reader full (Run-HasReader reader run h)
