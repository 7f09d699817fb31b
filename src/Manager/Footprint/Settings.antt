-- ===== src/Manager/Footprint/Settings.antt =====
-- The setters keep to their topic.
use open_ddw.Base.{
  arith, false, ℕ, ◌≡◌, refl, ap, Bool, Option, none, some, [], ◌∷◌, inl, inr, Bool-cases,
}
use open_ddw.Base.Text.{Text}
use open_ddw.Base.Dict.{Dict, contains}
use open_ddw.Qos.{TopicQos, DataReaderQos, DataWriterQos, GroupQos}
use open_ddw.Dds.{
  Event, done, ◌>>=◌, publisher_set_qos, subscriber_set_qos, writer_set_qos, reader_set_qos,
}
use open_ddw.Group.{TopicGroup, new_group}
use open_ddw.Manager.{Manager, found, slot, put_group, call, missing}
use open_ddw.Manager.Settings.{
  ensure_group, group_at, set_topic_qos, set_publisher_qos, set_subscriber_qos, set_writer_qos,
  set_reader_qos, set_each_reader_qos, add_partition, call_if,
}
use open_ddw.Manager.Footprint.{
  members, Footprint, Footprint-refl, Footprint-trans, Post, Post-after, put_group-Footprint,
  found-Fits, Slot-cases,
}

abbrev pub itself : Manager → Manager
itself m = m

pub absent_slot :
    (name : Text) (m : Manager) → contains name m.topics ≡ false → slot m name ≡ missing
unfolding slot
absent_slot name m e = ground arith

ensure_group-Footprint : (name : Text) (m : Manager) → Footprint name m (ensure_group name m)
unfolding ensure_group new_group
ensure_group-Footprint name m = elim (Bool-cases (contains name m.topics)) [
  | inl e ↦ rw (ensure_group, e) (Footprint-refl name m)
  | inr e ↦
      rw (ensure_group, e)
        (put_group-Footprint name (new_group m.order) m
          (λ h. tt, λ k h. absurd (rw (absent_slot name m e) at h)))
]

-- Only calls were made.
abbrev IsQuiet : Manager → Manager → Type 0
IsQuiet m m' = (members m' ≡ members m) × (m'.topics ≡ m.topics)

call_if-IsQuiet : (x : Option ℕ) (event : ℕ → Event) (m : Manager) → IsQuiet m (call_if x event m)
call_if-IsQuiet none event m = (refl, refl)
call_if-IsQuiet (some x) event m = (refl, refl)

set_each-IsQuiet :
    (rs : Dict ℕ) (qos : DataReaderQos) (m : Manager) → IsQuiet m (set_each_reader_qos rs qos m)
unfolding set_each_reader_qos
set_each-IsQuiet [] qos m = (refl, refl)
set_each-IsQuiet ((k, r) ∷ rs) qos m = set_each-IsQuiet rs qos (call (reader_set_qos r qos) m)

quiet-Footprint : (name : Text) (m m' : Manager) → IsQuiet m m' → Footprint name m m'
unfolding slot
quiet-Footprint name m m' (kept, topics) = record {
  outside = record {
    members_kept = kept;
    elsewhere = λ j e. rw topics refl;
    handled = λ h. rw (topics, handler) h;
  };
  readers_kept = λ k h. rw topics h;
}
  where
    handler : m'.rl_handler ≡ m.rl_handler
    handler = ap (λ x. x.1) kept

-- The same listeners and readers.
abbrev Alike : TopicGroup → TopicGroup → Type 0
Alike g' g = (g'.reader_listeners ≡ g.reader_listeners) × (g'.readers ≡ g.readers)

quiet_put-Footprint :
    (name : Text) (g g' : TopicGroup) (m m' : Manager)
    → IsQuiet m m'
    → slot m name ≡ found g
    → Alike g' g
    → Footprint name m (put_group name g' m')
unfolding slot
quiet_put-Footprint name g g' m m' quiet there (ls, rs) =
    let fits = found-Fits name g m' (rw quiet.1 there) in
    Footprint-trans name m m' _ (quiet-Footprint name m m' quiet)
      (put_group-Footprint name g' m' (λ h. rw ls (fits.0 h), λ k h. rw rs (fits.1 k h)))

-- What the setters have in common: a group is there or made, `make` calls OpenDDS, and the group,
-- changed but for its readers and their listeners, is written back.
setter-Post :
    (name : Text) (m : Manager) (make : TopicGroup → Manager) (change : TopicGroup → TopicGroup)
    → ((g : TopicGroup) → IsQuiet (ensure_group name m) (make g))
    → ((g : TopicGroup) → Alike (change g) g)
    → Post itself name m
        (group_at (ensure_group name m) name >>= λ g. done (put_group name (change g) (make g)))
unfolding group_at
setter-Post name m make change f k =
    Post-after itself name m (ensure_group name m) _ (ensure_group-Footprint name m)
      (elim (Slot-cases (slot m₁ name)) [
        | inl e ↦ rw (e, group_at) tt
        | inr (inl e) ↦ rw (e, group_at) tt
        | inr (inr (g, e)) ↦
            rw (e, group_at) (quiet_put-Footprint name g (change g) m₁ (make g) (f g) e (k g))
      ])
  where
    m₁ : Manager
    m₁ = ensure_group name m

pub set_topic_qos-Post :
    (name : Text) (qos : TopicQos) (m : Manager) → Post itself name m (set_topic_qos name qos m)
unfolding set_topic_qos
set_topic_qos-Post name qos m =
    setter-Post name m (λ g. ensure_group name m) (λ g. record g { topic_qos = qos })
      (λ g. (refl, refl)) (λ g. (refl, refl))

pub set_publisher_qos-Post :
    (name : Text) (qos : GroupQos) (m : Manager) → Post itself name m (set_publisher_qos name qos m)
unfolding set_publisher_qos
set_publisher_qos-Post name qos m =
    setter-Post name m
      (λ g. call_if g.publisher (λ p. publisher_set_qos p qos) (ensure_group name m))
      (λ g. record g { pub_qos = qos }) (λ g. call_if-IsQuiet g.publisher _ _) (λ g. (refl, refl))

pub set_subscriber_qos-Post :
    (name : Text) (qos : GroupQos) (m : Manager)
    → Post itself name m (set_subscriber_qos name qos m)
unfolding set_subscriber_qos
set_subscriber_qos-Post name qos m =
    setter-Post name m
      (λ g. call_if g.subscriber (λ s. subscriber_set_qos s qos) (ensure_group name m))
      (λ g. record g { sub_qos = qos }) (λ g. call_if-IsQuiet g.subscriber _ _) (λ g. (refl, refl))

pub set_writer_qos-Post :
    (name : Text) (qos : DataWriterQos) (m : Manager)
    → Post itself name m (set_writer_qos name qos m)
unfolding set_writer_qos
set_writer_qos-Post name qos m =
    setter-Post name m (λ g. call_if g.writer (λ w. writer_set_qos w qos) (ensure_group name m))
      (λ g. record g { data_writer_qos = qos }) (λ g. call_if-IsQuiet g.writer _ _)
      (λ g. (refl, refl))

pub set_reader_qos-Post :
    (name : Text) (qos : DataReaderQos) (m : Manager)
    → Post itself name m (set_reader_qos name qos m)
unfolding set_reader_qos
set_reader_qos-Post name qos m =
    setter-Post name m (λ g. set_each_reader_qos g.readers qos (ensure_group name m))
      (λ g. record g { data_reader_qos = qos }) (λ g. set_each-IsQuiet g.readers qos _)
      (λ g. (refl, refl))

abbrev pub second : Bool × Manager → Manager
second (b, m) = m

pub add_partition-Post :
    (name partition : Text) (m : Manager) → Post second name m (add_partition name partition m)
unfolding add_partition
add_partition-Post name partition m = elim (Slot-cases (slot m name)) [
  | inl e ↦ rw (e, add_partition) (Footprint-refl name m)
  | inr (inl e) ↦ rw (e, add_partition) (Footprint-refl name m)
  | inr (inr (g, e)) ↦ rw (e, add_partition) (put_group-Footprint name _ m (found-Fits name g m e))
]
