-- ===== src/Manager/Valid/Settings.antt =====
-- The setters keep the manager valid, and go through no null pointer.
use open_ddw.Base.{ℕ, ap, ◌∙◌, ◌∷◌, ◌≡◌, refl, inl, inr, Option, none, some, arith, []}
use open_ddw.Base.Text.{Text, same_refl}
use open_ddw.Base.Dict.{Dict, All, keys}
use open_ddw.Qos.{TopicQos, DataReaderQos, DataWriterQos, GroupQos}
use open_ddw.Dds.{Event, writer_set_qos, done}
use open_ddw.Group.{TopicGroup, GenericListener, IsValid, new_group, new_group-IsValid}
use open_ddw.Manager.{Manager, found, slot, put_group, slot-put_group}
use open_ddw.Manager.Settings.{
  ensure_group, group_at, set_topic_qos, set_publisher_qos, set_subscriber_qos, set_writer_qos,
  set_reader_qos, set_each_reader_qos, add_partition, handle_readers, handle_topic_readers,
  set_reader_listener_handler, call_if,
}
use open_ddw.Manager.Valid.{IsWell, IsSafe, IsSafeState, SlotValid, slot-cases, put_group-IsWell}

-- After `ensure_group` the topic has a valid group.
group_ensured :
    (name : Text) (m : Manager)
    → IsWell m
    → (g : TopicGroup) × (m₁ : Manager) × (ensure_group name m ≡ m₁)
      × (group_at m₁ name ≡ done g)
      × IsValid m₁.participant g
      × IsWell m₁
unfolding ensure_group group_at slot put_group
group_ensured name m w = elim (slot-cases m name w) [
  | inl e ↦
      let v = new_group-IsValid m.participant m.order in
      (
        new_group m.order,
        put_group name (new_group m.order) m,
        ground arith,
        ground (arith, slot-put_group name name (new_group m.order) m, same_refl name),
        v,
        put_group-IsWell name (new_group m.order) m v w,
      )
  | inr (g, e, v) ↦ (g, m, ground arith, ground arith, v, w)
]

pub set_topic_qos-IsSafe :
    (name : Text) (qos : TopicQos) (m : Manager) → IsWell m → IsSafeState (set_topic_qos name qos m)
unfolding set_topic_qos
set_topic_qos-IsSafe name qos m w =
    let (g, m₁, e, a, v, w₁) = group_ensured name m w in
    rw (e, a) (put_group-IsWell name _ m₁ (assumption) w₁)

call_if-IsWell :
    (x : Option ℕ) (event : ℕ → Event) (m : Manager) → IsWell m → IsWell (call_if x event m)
call_if-IsWell none event m w = w
call_if-IsWell (some x) event m w = w

call_if-participant :
    (x : Option ℕ) (event : ℕ → Event) (m : Manager)
    → (call_if x event m).participant ≡ m.participant
call_if-participant none event m = refl
call_if-participant (some x) event m = refl

pub set_publisher_qos-IsSafe :
    (name : Text) (qos : GroupQos) (m : Manager)
    → IsWell m
    → IsSafeState (set_publisher_qos name qos m)
unfolding set_publisher_qos
set_publisher_qos-IsSafe name qos m w =
    let (g, m₁, e, a, v, w₁) = group_ensured name m w in
    rw (e, a)
      (put_group-IsWell name _ (call_if g.publisher _ m₁)
        (rw (call_if-participant g.publisher _ m₁) (assumption))
        (call_if-IsWell g.publisher _ m₁ w₁))

pub set_subscriber_qos-IsSafe :
    (name : Text) (qos : GroupQos) (m : Manager)
    → IsWell m
    → IsSafeState (set_subscriber_qos name qos m)
unfolding set_subscriber_qos
set_subscriber_qos-IsSafe name qos m w =
    let (g, m₁, e, a, v, w₁) = group_ensured name m w in
    rw (e, a)
      (put_group-IsWell name _ (call_if g.subscriber _ m₁)
        (rw (call_if-participant g.subscriber _ m₁) (assumption))
        (call_if-IsWell g.subscriber _ m₁ w₁))

-- The writer's QoS is set in a valid group, which is there afterwards.
pub set_writer_qos-found :
    (name : Text) (qos : DataWriterQos) (m : Manager)
    → IsWell m
    → (m' : Manager) × (set_writer_qos name qos m ≡ done m')
      × IsWell m'
      × ((g : TopicGroup) × (slot m' name ≡ found g) × IsValid m'.participant g)
unfolding set_writer_qos put_group
set_writer_qos-found name qos m w =
    let (g, m₁, e, a, v, w₁) = group_ensured name m w in
    let m₂ = call_if g.writer (λ x. writer_set_qos x qos) m₁ in
    let g' = record g { data_writer_qos = qos } in
    let v' : IsValid m₂.participant g' = rw (call_if-participant g.writer _ m₁) (assumption) in
    (
      put_group name g' m₂,
      rw (e, a),
      put_group-IsWell name g' m₂ v' (call_if-IsWell g.writer _ m₁ w₁),
      (g', ground (arith, slot-put_group name name g' m₂, same_refl name), v'),
    )

pub set_writer_qos-IsSafe :
    (name : Text) (qos : DataWriterQos) (m : Manager)
    → IsWell m
    → IsSafeState (set_writer_qos name qos m)
set_writer_qos-IsSafe name qos m w =
    let (m', e, w', _) = set_writer_qos-found name qos m w in rw e w'

set_each-IsWell :
    (rs : Dict ℕ) (qos : DataReaderQos) (m : Manager)
    → IsWell m
    → IsWell (set_each_reader_qos rs qos m)
unfolding set_each_reader_qos
set_each-IsWell [] qos m w = w
set_each-IsWell ((k, r) ∷ rs) qos m w = set_each-IsWell rs qos _ w

set_each-participant :
    (rs : Dict ℕ) (qos : DataReaderQos) (m : Manager)
    → (set_each_reader_qos rs qos m).participant ≡ m.participant
unfolding set_each_reader_qos
set_each-participant [] qos m = refl
set_each-participant ((k, r) ∷ rs) qos m = set_each-participant rs qos _

pub set_reader_qos-IsSafe :
    (name : Text) (qos : DataReaderQos) (m : Manager)
    → IsWell m
    → IsSafeState (set_reader_qos name qos m)
unfolding set_reader_qos
set_reader_qos-IsSafe name qos m w =
    let (g, m₁, e, a, v, w₁) = group_ensured name m w in
    rw (e, a)
      (put_group-IsWell name _ (set_each_reader_qos g.readers qos m₁)
        (rw (set_each-participant g.readers qos m₁) (assumption))
        (set_each-IsWell g.readers qos m₁ w₁))

pub add_partition-IsSafe :
    (name partition : Text) (m : Manager) → IsWell m → IsSafe (add_partition name partition m)
unfolding add_partition
add_partition-IsSafe name partition m w = elim (slot-cases m name w) [
  | inl e ↦ rw (e, add_partition) w
  | inr (g, e, v) ↦ rw (e, add_partition) (put_group-IsWell name _ m (assumption) w)
]

keys-handle_readers :
    (h : Option ℕ) (ls : Dict GenericListener) → keys (handle_readers h ls) ≡ keys ls
unfolding handle_readers
keys-handle_readers h [] = refl
keys-handle_readers h ((k, l) ∷ ls) = ap (λ ks. k ∷ ks) (keys-handle_readers h ls)

handled_topics :
    (p h : Option ℕ) (ts : Dict (Option TopicGroup))
    → All (SlotValid p) ts
    → (ts' : Dict (Option TopicGroup)) × (handle_topic_readers h ts ≡ done ts')
      × All (SlotValid p) ts'
unfolding handle_topic_readers
handled_topics p h [] a = ([], refl, tt)
handled_topics p h ((k, none) ∷ ts) a = absurd a.0
handled_topics p h ((k, some g) ∷ ts) a =
    let (ts', e, a') = handled_topics p h ts a.1 in
    let v = a.0 in
    let listeners : keys (handle_readers h g.reader_listeners) ≡ keys g.readers =
      keys-handle_readers h g.reader_listeners ∙ v.readers_have_listeners in
    (
      (k, some (record g { reader_listeners = handle_readers h g.reader_listeners })) ∷ ts',
      rw (e, handle_topic_readers),
      ((assumption), a'),
    )

pub set_reader_listener_handler-IsSafe :
    (h : Option ℕ) (m : Manager) → IsWell m → IsSafeState (set_reader_listener_handler h m)
unfolding set_reader_listener_handler
set_reader_listener_handler-IsSafe h m w =
    let (ts, e, a) = handled_topics m.participant h m.topics w in rw e a
