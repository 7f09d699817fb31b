-- ===== src/Simple/Waiting.antt =====
-- `GetNumberOfSubscribers`, `GetNumberOfPublishers`, `WaitForSubscriber` and `WaitForPublisher`
-- (src/dds_simple.h): the polling loops. A wait or a count below 0 acts as 0 does, so both are
-- natural numbers.
use open_ddw.Base.{
  ℕ, ◌+◌, ◌*◌, ◌≤◌, ◌≡◌, refl, ap, Bool, true, false, Option, none, some, List, [], ◌∷◌, ◌||◌,
  arith, ltb, leb, if◌then◌else◌, Bool-cases, inl, inr, length,
}
use open_ddw.Base.Text.{Text}
use open_ddw.Base.Dict.{lookup}
use open_ddw.Manager.{get_reader, get_writer}
use open_ddw.Simple.{SimpleManager, generate_reader_name}

-- After a sleep: the time since the start in milliseconds, and the count of matches.
pub record Look : Type 0 where
  pub time_waited : ℕ
  pub current_count : ℕ

-- The `while` loop, with the looks that the outside grants. `none` means that it still waits when
-- they are used up.
unfoldable pub poll : ℕ → ℕ → ℕ → ℕ → List Look → Option ℕ
poll min_count max_wait time_waited current_count [] =
    if ltb time_waited max_wait then none else some current_count
poll min_count max_wait time_waited current_count (l ∷ looks) =
    let rest = poll min_count max_wait l.time_waited l.current_count looks in
    if ltb time_waited max_wait
    then (if leb min_count l.current_count then some l.current_count else rest)
    else some current_count

-- From the status on: a first look without a sleep, at the time 0.
unfoldable pub number_of_matches : ℕ → ℕ → ℕ → List Look → Option ℕ
unfolding poll
number_of_matches min_count max_wait current_count looks =
    if leb min_count current_count
    then some current_count
    else poll min_count max_wait 0 current_count looks

-- The last two arguments are what the status of the writer or reader shows.
module _ (min_count max_wait : ℕ) where
  unfoldable pub get_number_of_subscribers : Text → SimpleManager → ℕ → List Look → Option ℕ
  unfolding lookup
  get_number_of_subscribers index s current_count looks = elim (lookup index s.pub_map) [
    | none ↦ some 0
    | some topic ↦ elim (get_writer s.manager topic) [
      | none ↦ some 0
      | some dw ↦ number_of_matches min_count max_wait current_count looks
    ]
  ]

  unfoldable pub get_number_of_publishers : Text → Text → SimpleManager → ℕ → List Look → Option ℕ
  unfolding lookup
  get_number_of_publishers index reader_name s current_count looks = elim (lookup index s.sub_map) [
    | none ↦ some 0
    | some topic ↦ elim (get_reader s.manager topic (generate_reader_name topic reader_name)) [
      | none ↦ some 0
      | some dr ↦ number_of_matches min_count max_wait current_count looks
    ]
  ]

abbrev positive : Option ℕ → Option Bool
positive none = none
positive (some n) = some (ltb 0 n)

unfoldable pub wait_for_subscriber : ℕ → Text → SimpleManager → ℕ → List Look → Option Bool
unfolding get_number_of_subscribers
wait_for_subscriber time_to_wait index s current_count looks =
    positive (get_number_of_subscribers 1 time_to_wait index s current_count looks)

unfoldable pub wait_for_publisher : ℕ → Text → Text → SimpleManager → ℕ → List Look → Option Bool
unfolding get_number_of_publishers
wait_for_publisher time_to_wait index reader_name s current_count looks =
    positive (get_number_of_publishers 1 time_to_wait index reader_name s current_count looks)

-- The counts that a loop which is never satisfied comes to see from a time on.
abbrev pub counts_within : ℕ → ℕ → List Look → List ℕ
counts_within max_wait time [] = []
counts_within max_wait time (l ∷ looks) =
    if ltb time max_wait then l.current_count ∷ counts_within max_wait l.time_waited looks else []

-- The first of the counts that is enough, or else the last.
abbrev pub first_enough : ℕ → ℕ → List ℕ → ℕ
first_enough min_count c [] = c
first_enough min_count c (n ∷ ns) = if leb min_count c then c else first_enough min_count n ns

abbrev pub any_positive : List ℕ → Bool
any_positive [] = false
any_positive (n ∷ ns) = ltb 0 n || any_positive ns

-- Each sleep takes 100 milliseconds or more.
abbrev pub AreSpaced : ℕ → List Look → Type 0
AreSpaced time [] = Unit
AreSpaced time (l ∷ looks) = (time + 100 ≤ l.time_waited) × AreSpaced l.time_waited looks

first_enough-hit :
    (min_count c : ℕ) (ns : List ℕ) → leb min_count c ≡ true → first_enough min_count c ns ≡ c
first_enough-hit min_count c [] hit = refl
first_enough-hit min_count c (n ∷ ns) hit = rw hit

poll-first_enough :
    (min_count max_wait time c : ℕ) (looks : List Look)
    → leb min_count c ≡ false
    → AreSpaced time looks
    → max_wait ≤ time + 100 * length looks
    → poll min_count max_wait time c looks
      ≡ some (first_enough min_count c (counts_within max_wait time looks))
unfolding poll
poll-first_enough min_count max_wait time c [] short spaced enough = ground arith
poll-first_enough min_count max_wait time c (l ∷ looks) short spaced enough =
    elim (Bool-cases (leb min_count l.current_count)) [
      | inl found ↦ ground (
        arith,
        first_enough-hit min_count l.current_count (counts_within max_wait l.time_waited looks),
      )
      | inr more ↦
          ground (arith, poll-first_enough min_count max_wait l.time_waited l.current_count looks)
    ]

-- The loop ends: looks that are 100 milliseconds or more apart are enough if they are a hundredth as
-- many as the milliseconds of the wait. The result is the first count that reaches the least one, of
-- those seen up to the first look at or after the end of the wait, or the last of these.
pub number_of_matches-first_enough :
    (min_count max_wait c : ℕ) (looks : List Look)
    → AreSpaced 0 looks
    → max_wait ≤ 100 * length looks
    → number_of_matches min_count max_wait c looks
      ≡ some (first_enough min_count c (counts_within max_wait 0 looks))
unfolding number_of_matches
number_of_matches-first_enough min_count max_wait c looks spaced enough = ground (
  arith,
  first_enough-hit min_count c (counts_within max_wait 0 looks),
  poll-first_enough min_count max_wait 0 c looks,
)

first_enough-any : (c : ℕ) (ns : List ℕ) → ltb 0 (first_enough 1 c ns) ≡ any_positive (c ∷ ns)
first_enough-any c [] = ground arith
first_enough-any c (n ∷ ns) = ground (arith, first_enough-any n ns)

pub get_number_of_subscribers-mapped :
    (min_count max_wait : ℕ) (index topic : Text) (s : SimpleManager) (w c : ℕ) (looks : List Look)
    → lookup index s.pub_map ≡ some topic
    → get_writer s.manager topic ≡ some w
    → get_number_of_subscribers min_count max_wait index s c looks
      ≡ number_of_matches min_count max_wait c looks
unfolding get_number_of_subscribers
get_number_of_subscribers-mapped min_count max_wait index topic s w c looks mapped there =
    rw (get_number_of_subscribers, mapped, there) refl

pub get_number_of_publishers-mapped :
    (min_count max_wait : ℕ) (index reader_name topic : Text) (s : SimpleManager) (r c : ℕ)
    (looks : List Look)
    → lookup index s.sub_map ≡ some topic
    → get_reader s.manager topic (generate_reader_name topic reader_name) ≡ some r
    → get_number_of_publishers min_count max_wait index reader_name s c looks
      ≡ number_of_matches min_count max_wait c looks
unfolding get_number_of_publishers
get_number_of_publishers-mapped min_count max_wait index reader_name topic s r c looks mapped
      there =
    rw (get_number_of_publishers, mapped, there) refl

-- Where the type is published under a topic with a writer, and the looks are as far apart and as many
-- as the wait asks for, `WaitForSubscriber` returns, and returns true exactly if the look at the start
-- or one of the later looks, up to the first at or after the end of the wait and that one included,
-- shows a subscriber.
pub wait_for_subscriber-any :
    (time_to_wait : ℕ) (index topic : Text) (s : SimpleManager) (w c : ℕ) (looks : List Look)
    → lookup index s.pub_map ≡ some topic
    → get_writer s.manager topic ≡ some w
    → AreSpaced 0 looks
    → time_to_wait ≤ 100 * length looks
    → wait_for_subscriber time_to_wait index s c looks
      ≡ some (any_positive (c ∷ counts_within time_to_wait 0 looks))
unfolding wait_for_subscriber
wait_for_subscriber-any time_to_wait index topic s w c looks mapped there spaced enough =
    rw
      (
        wait_for_subscriber,
        get_number_of_subscribers-mapped 1 time_to_wait index topic s w c looks mapped there,
        number_of_matches-first_enough 1 time_to_wait c looks spaced enough,
      )
      (ap some (first_enough-any c (counts_within time_to_wait 0 looks)))
