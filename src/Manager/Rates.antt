-- ===== src/Manager/Rates.antt =====
-- The names of the filtered topics that `replaceFilter` makes, and the least separation that
-- `setMaxDataRate` asks for (src/dds_manager.cpp).
use open_ddw.Base.{
  ℕ, zero, suc, ◌+◌, ◌*◌, ◌≤◌, ◌<◌, ◌^◌, ◌≡◌, ◌≢◌, refl, true, some, [], ◌∷◌, ◌++◌, arith, ltb,
}
use open_ddw.Base.Int.{pos}
use open_ddw.Base.Text.{Text, text}
use open_ddw.Base.Decimal.{to_string, stoi, after_last, stoi-after_last}
use open_ddw.Dds.{done, reader_set_qos}
use open_ddw.Group.{TopicGroup}
use open_ddw.Manager.{Manager, found, slot, call, get_reader}
use open_ddw.Manager.Subscribe.{first_filter_name}
use open_ddw.Manager.Filter.{
  filter_name, filter_counter, in_int, next_count, next_filter_name, set_max_data_rate, nanoseconds,
}

append_assoc : (xs ys zs : Text) → xs ++ (ys ++ zs) ≡ (xs ++ ys) ++ zs
append_assoc [] ys zs = refl
append_assoc (x ∷ xs) ys zs = rw (append_assoc xs ys zs) refl

filter_counter-append :
    (xs ys : Text) (c : ℕ)
    → filter_counter (xs ++ c ∷ ys) ≡ in_int (stoi (after_last b'_' (xs ++ c ∷ ys)))
unfolding filter_counter
filter_counter-append [] ys c = refl
filter_counter-append (x ∷ xs) ys c = refl

split_name :
    (name reader end : Text)
    → name ++ (text "_" ++ (reader ++ end)) ≡ (name ++ (text "_" ++ reader)) ++ end
split_name name reader end = append_assoc name (95 ∷ reader) end

filter_counter-filter_name :
    (name reader : Text) (counter : ℕ)
    → counter < 2 ^ 31
    → filter_counter (filter_name name reader counter) ≡ some counter
filter_counter-filter_name name reader counter small =
    let prefix : Text = name ++ (text "_" ++ reader) in
    rw
      (
        split_name name reader (b'_' ∷ to_string counter),
        filter_counter-append prefix (to_string counter) b'_',
      )
      (rw (stoi-after_last prefix counter) (ground arith))

-- Whatever underscores the names of the topic and the reader have, the filter that replaces one
-- with a counter in its name, below the greatest `int`, would get the next counter, so a name unlike
-- the replaced one; the name that `createSubscriber` makes is the one with the counter 0.
next_filter_name-filter_name :
    (name reader : Text) (i : ℕ)
    → i + 1 < 2 ^ 31
    → (next_filter_name name reader (filter_name name reader i)
        ≡ some (filter_name name reader (i + 1)))
      × (filter_name name reader (i + 1) ≢ filter_name name reader i)
      × (first_filter_name name reader ≡ filter_name name reader 0)
unfolding next_filter_name to_string
next_filter_name-filter_name name reader i small =
    let count : next_count i ≡ to_string (i + 1) = ground arith in
    let before = filter_counter-filter_name name reader i (omega arith) in
    let after = filter_counter-filter_name name reader (i + 1) small in
    (rw (next_filter_name, before, count) refl, (λ e. ground (arith, before, after)), refl)

-- For a rate from 1 to 2147, where the product of the source fits in an `int`, and a topic with the
-- reader, `setMaxDataRate` returns true and gives the reader the topic's data reader QoS with that
-- many million nanoseconds; they are below a second, as a DDS duration asks, just where the rate
-- is below 1000.
pub set_max_data_rate-found :
    (name reader : Text) (rate r : ℕ) (g : TopicGroup) (m : Manager)
    → 1 ≤ rate
    → rate ≤ 2147
    → slot m name ≡ found g
    → get_reader m name reader ≡ some r
    → (set_max_data_rate name reader (pos rate) m
        ≡ done (
          true,
          call
              (reader_set_qos r (record g.data_reader_qos {
                minimum_separation = record { sec = 0; nanosec = rate * 1000000 };
              }))
              m,
        ))
      × (ltb (rate * 1000000) 1000000000 ≡ ltb rate 1000)
unfolding set_max_data_rate get_reader
set_max_data_rate-found name reader zero r g m low high there read = absurd (omega arith)
set_max_data_rate-found name reader (suc k) r g m low high there read =
    let small : nanoseconds (suc k) ≡ suc k * 1000000 = omega arith in
    (ground (arith, read, there, small), ground arith)
