-- ===== src/Domain/Race.antt =====
-- Managers that join domains at the same time (`joinDomain`, src/dds_manager.cpp). The counters of
-- transport instances are global; the mutex around their use, `m_transportMapMutex`
-- (src/dds_manager.h), is a member of each manager.
use open_ddw.Base.{
  ℕ, ◌≤◌, ◌<◌, ◌≡◌, ◌≢◌, refl, Bool, true, false, Option, none, some, ◌==◌, arith, if◌then◌else◌,
  sym, ap, ◌∙◌,
}
use open_ddw.Base.Text.{Text}
use open_ddw.Domain.Transports.{config_name-domain}
use open_ddw.Domain.{Instances, next_instance, count_join, config_name}

-- How far a manager is: before the counter, between its use and the name, or with the number that
-- its configuration is named by. It holds the mutex in between.
pub data Phase : Type 0 where
  waiting counted : Phase
  named : ℕ → Phase

pub record Joins : Type 0 where
  pub instances : Instances
  pub held : ℕ → Bool
  pub phase : ℕ → Phase

abbrev pub update {ℓ} : {A : Type ℓ} → ℕ → A → (ℕ → A) → ℕ → A
update i x f j = if j == i then x else f j

-- `g_transportInstances[domainID]`
abbrev pub counter : Option ℕ → ℕ
counter none = 0
counter (some n) = n

unfoldable pub count : (ℕ → ℕ) → (ℕ → ℕ) → ℕ → Joins → Joins
count domain mutex i s = record {
  instances = count_join (domain i) s.instances;
  held = update (mutex i) true s.held;
  phase = update i counted s.phase;
}

unfoldable pub give_name : (ℕ → ℕ) → (ℕ → ℕ) → ℕ → Joins → Joins
give_name domain mutex i s = record s {
  held = update (mutex i) false s.held;
  phase = update i (named (counter (s.instances (domain i)))) s.phase;
}

-- `domain i` is what manager i joins, `mutex i` the mutex that it locks.
counter-next_instance : (c : Option ℕ) → counter c < next_instance c
counter-next_instance none = omega arith
counter-next_instance (some n) = omega arith

counter-count_join_same :
    (d : ℕ) (instances : Instances) → counter (instances d) < counter (count_join d instances d)
counter-count_join_same d instances = ground (arith, counter-next_instance (instances d))

counter-count_join :
    (d e : ℕ) (instances : Instances) → counter (instances d) ≤ counter (count_join e instances d)
counter-count_join d e instances = ground (arith, counter-next_instance (instances d))

module _ (domain mutex : ℕ → ℕ) where
  pub data Steps : Joins → Joins → Type 0 where
    stay : {s : Joins} → Steps s s
    lock_and_count :
        {s t : Joins} (i : ℕ)
        → Steps s t
        → t.phase i ≡ waiting
        → t.held (mutex i) ≡ false
        → Steps s (count domain mutex i t)
    name_and_unlock :
        {s t : Joins} (i : ℕ)
        → Steps s t
        → t.phase i ≡ counted
        → Steps s (give_name domain mutex i t)

  abbrev pub IsStart : Joins → Type 0
  IsStart s = (i : ℕ) → s.phase i ≡ waiting

  -- With one mutex: the manager between the counter and the name is the only one, and the numbers
  -- given so far for a domain differ and are not above its counter, and below it for that manager.
  record IsOrdered (s : Joins) : Type 0 where
    one_counts : (i j : ℕ) → s.phase i ≡ counted → s.phase j ≡ counted → i ≡ j
    counting_holds : (i : ℕ) → s.phase i ≡ counted → s.held (mutex i) ≡ true
    below_counter : (i k : ℕ) → s.phase i ≡ named k → k ≤ counter (s.instances (domain i))
    below_counting :
        (i j k : ℕ)
        → s.phase i ≡ named k
        → s.phase j ≡ counted
        → domain i ≡ domain j
        → k < counter (s.instances (domain i))
    numbers_differ :
        (i j k : ℕ) → s.phase i ≡ named k → s.phase j ≡ named k → domain i ≡ domain j → i ≡ j

  module _ (one_mutex : (i j : ℕ) → mutex i ≡ mutex j) where
    start-IsOrdered : (s : Joins) → IsStart s → IsOrdered s
    start-IsOrdered s w = record {
      one_counts = λ i j e f. ground (arith, w i);
      counting_holds = λ i e. ground (arith, w i);
      below_counter = λ i k e. ground (arith, w i);
      below_counting = λ i j k e f g. ground (arith, w i);
      numbers_differ = λ i j k e f g. ground (arith, w i);
    }

    -- Where the mutex is free.
    none_counts :
        (i a : ℕ) (s : Joins) → s.held (mutex i) ≡ false → IsOrdered s → s.phase a ≢ counted
    none_counts i a s free o e =
        let held : s.held (mutex i) ≡ true = rw (one_mutex i a) (o.counting_holds a e) in
        absurd (cc)

    count-IsOrdered :
        (i : ℕ) (s : Joins)
        → s.phase i ≡ waiting
        → s.held (mutex i) ≡ false
        → IsOrdered s
        → IsOrdered (count domain mutex i s)
    unfolding count
    count-IsOrdered i s w free o = record {
      one_counts = λ a b e f. ground (arith, none_counts i a s free o, none_counts i b s free o);
      counting_holds = λ a e. rw (one_mutex a i) (ground arith);
      below_counter = λ a k e.
          ground (arith, o.below_counter a k, counter-count_join (domain a) (domain i) s.instances);
      below_counting = λ a b k e f g. ground (
        arith,
        o.below_counter a k,
        none_counts i b s free o,
        counter-count_join_same (domain i) s.instances,
      );
      numbers_differ = λ a b k e f g. ground (arith, o.numbers_differ a b k);
    }

    give_name-IsOrdered :
        (i : ℕ) (s : Joins)
        → s.phase i ≡ counted
        → IsOrdered s
        → IsOrdered (give_name domain mutex i s)
    unfolding give_name
    give_name-IsOrdered i s w o = record {
      one_counts = λ a b e f. ground (arith, o.one_counts a i);
      counting_holds = λ a e. ground (arith, o.one_counts a i);
      below_counter = λ a k e. ground (arith, o.below_counter a k);
      below_counting = λ a b k e f g. ground (arith, o.one_counts b i);
      numbers_differ = λ a b k e f g.
          ground (arith, o.numbers_differ a b k, o.below_counting a i k, o.below_counting b i k);
    }

    Steps-IsOrdered : {s t : Joins} → IsStart s → Steps s t → IsOrdered t
    Steps-IsOrdered {s} w stay = start-IsOrdered s w
    Steps-IsOrdered w (lock_and_count {s} {t} i r waits free) =
        count-IsOrdered i t waits free (Steps-IsOrdered w r)
    Steps-IsOrdered w (name_and_unlock {s} {t} i r counts) =
        give_name-IsOrdered i t counts (Steps-IsOrdered w r)

  abbrev pub name_of : Joins → ℕ → Option Text
  name_of s i = elim (s.phase i) [
    | waiting ↦ none
    | counted ↦ none
    | named k ↦ some (config_name (domain i) k)
  ]

  phase_of_name :
      (s : Joins) (i : ℕ) (name : Text)
      → name_of s i ≡ some name
      → (k : ℕ) × (s.phase i ≡ named k) × (config_name (domain i) k ≡ name)
  phase_of_name s i name e = go (s.phase i) refl
    where
      go :
          (p : Phase)
          → s.phase i ≡ p
          → (k : ℕ) × (s.phase i ≡ named k) × (config_name (domain i) k ≡ name)
      go waiting f = absurd (ground arith)
      go counted f = absurd (ground arith)
      go (named k) f = (k, f, ground (arith, f, e))

  name_of_phase :
      (s : Joins) (i k : ℕ) → s.phase i ≡ named k → name_of s i ≡ some (config_name (domain i) k)
  name_of_phase s i k e = rw (name_of, e) refl

  -- If all managers that join lock one and the same mutex, two of them never name their configurations
  -- alike, for whatever domains and in whatever order they take their steps.
  one_mutex_distinct :
      (s t : Joins) (i j : ℕ) (x y : Text)
      → ((a b : ℕ) → mutex a ≡ mutex b)
      → IsStart s
      → Steps s t
      → i ≢ j
      → name_of t i ≡ some x
      → name_of t j ≡ some y
      → x ≢ y
  one_mutex_distinct s t i j x y one_mutex w r apart e f alike =
      let (k, p, q) = phase_of_name t i x e in
      let (l, p', q') = phase_of_name t j y f in
      let (same_domain, same_number) =
        config_name-domain (domain i) (domain j) k l (q ∙ alike ∙ sym q') in
      let o = Steps-IsOrdered one_mutex w r in
      apart (o.numbers_differ i j k p (rw same_number p') same_domain)

  -- With mutexes of their own, free both, two managers that are about to join one domain may both
  -- count before either of them names its configuration, and then give the same name.
  pub own_mutexes_clash :
      (s : Joins) (i j : ℕ)
      → i ≢ j
      → mutex i ≢ mutex j
      → domain i ≡ domain j
      → (s.phase i ≡ waiting) × (s.phase j ≡ waiting)
      → (s.held (mutex i) ≡ false) × (s.held (mutex j) ≡ false)
      → (t : Joins) × Steps s t
        × (name : Text) × (name_of t i ≡ some name)
        × (name_of t j ≡ some name)
  unfolding count give_name
  own_mutexes_clash s i j apart own same_domain waits free =
      let s₁ = count domain mutex i s in
      let s₂ = count domain mutex j s₁ in
      let s₃ = give_name domain mutex i s₂ in
      let s₄ = give_name domain mutex j s₃ in
      let r₁ : Steps s s₁ = lock_and_count i stay waits.0 free.0 in
      let r₂ : Steps s s₂ = lock_and_count j r₁ (ground arith) (ground arith) in
      let r₃ : Steps s s₃ = name_and_unlock i r₂ (ground arith) in
      let r₄ : Steps s s₄ = name_and_unlock j r₃ (ground arith) in
      let i_j : (i == j) ≡ false = ground arith in
      let n = counter (s₂.instances (domain i)) in
      let phase_i : s₄.phase i ≡ named n = ground (arith, i_j) in
      let phase_j : s₄.phase j ≡ named n = rw same_domain (ground arith) in
      (
        s₄,
        r₄,
        config_name (domain i) n,
        name_of_phase s₄ i n phase_i,
        name_of_phase s₄ j n phase_j ∙ ap (λ d. some (config_name d n)) (sym same_domain),
      )
