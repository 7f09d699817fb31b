-- ===== src/Manager/Filter.antt =====
-- `replaceFilter`, `replaceFilterParams` and `setMaxDataRate` (src/dds_manager.cpp).
use open_ddw.Base.{
  ℕ, zero, suc, ◌+◌, ◌*◌, ◌%◌, ◌^◌, Bool, true, false, Option, none, some, List, [], ◌∷◌, ◌++◌,
  ◌==◌, ltb, is_empty, if◌then◌else◌,
}
use open_ddw.Base.Int.{ℤ, pos, negsuc}
use open_ddw.Base.Text.{Text, text}
use open_ddw.Base.Dict.{Dict, lookup, insert, emplace, erase, contains}
use open_ddw.Base.Decimal.{to_string, stoi, after_last}
use open_ddw.Dds.{
  Dds, Outcome, done, throws, terminates, ◌>>=◌, deref, delete_contained_entities,
  delete_datareader, delete_contentfilteredtopic, create_contentfilteredtopic, create_datareader,
  set_expression_parameters, reader_set_qos, run_emitter, stop_emitter,
}
use open_ddw.Dds.Status.{is_ok}
use open_ddw.Emitter
use open_ddw.Emitter.{Emitter, Setup}
use open_ddw.Group.{TopicGroup}
use open_ddw.Manager.{Manager, call, put_group, get_subscriber, get_reader, get_reader_qos}
use open_ddw.Manager.Settings.{group_at}

-- The key under which a filtered topic is kept: the loop over `filteredTopics` up to its `break`.
unfoldable pub filter_key : ℕ → Dict ℕ → Option Text
filter_key topic [] = none
filter_key topic ((k, f) ∷ fs) = if f == topic then some k else filter_key topic fs

-- `std::stoi` of a number without a sign: `none` is an exception, of a text that is no number or of
-- a number that is no `int`.
abbrev pub in_int : Option ℕ → Option ℕ
in_int none = none
in_int (some n) = if ltb n (2 ^ 31) then some n else none

-- The counter behind the name of the filter that is replaced.
unfoldable pub filter_counter : Text → Option ℕ
unfolding stoi after_last
filter_counter [] = some 0
filter_counter (c ∷ existing) = in_int (stoi (after_last b'_' (c ∷ existing)))

-- `std::to_string` of the counter after `++counter`: the greatest `int` wraps around to the least.
abbrev pub next_count : ℕ → Text
next_count counter =
    if counter + 1 == 2 ^ 31 then b'-' ∷ to_string (2 ^ 31) else to_string (counter + 1)

-- `topicName + "_" + readerName + "_" + std::to_string(counter)`
abbrev pub name_with : Text → Text → Text → Text
name_with name reader_name count = name ++ (text "_" ++ (reader_name ++ (b'_' ∷ count)))

abbrev pub filter_name : Text → Text → ℕ → Text
filter_name name reader_name counter = name_with name reader_name (to_string counter)

unfoldable pub next_filter_name : Text → Text → Text → Option Text
unfolding filter_counter
next_filter_name name reader_name existing = elim (filter_counter existing) [
  | none ↦ none
  | some counter ↦ some (name_with name reader_name (next_count counter))
]

module _ (d : Dds) where
  -- `if (emitter->isRunning()) emitter->stop()`, for an emitter that exists.
  unfoldable pub stop_emitter_of : Text → Text → TopicGroup → Manager → TopicGroup × Manager
  unfolding Emitter.stop
  stop_emitter_of name reader_name g m = elim (lookup reader_name g.emitters) [
    | none ↦ (g, m)
    | some e ↦
        if e.running
        then (let g₁ = record g { emitters = insert reader_name (Emitter.stop e) g.emitters } in
            (g₁, put_group name g₁ (call (stop_emitter reader_name) m)))
        else (g, m)
  ]

  -- The filtered topic of the deleted reader goes, if the participant lets it. The text is its name.
  unfoldable pub remove_filter :
      Text → Option ℕ → TopicGroup → Manager → Text × TopicGroup × Manager
  unfolding filter_key
  remove_filter name none g m = ([], g, m)
  remove_filter name (some topic) g m =
      let existing = d.topic_name m.calls topic in
      elim m.participant [
        | none ↦ ([], g, m)
        | some p ↦ elim (filter_key topic g.filtered_topics) [
          | none ↦ (existing, g, m)
          | some key ↦
              let m₁ = call (delete_contentfilteredtopic p topic) m in
              if is_ok (d.code m₁.calls)
              then (let g₁ = record g { filtered_topics = erase key g.filtered_topics } in
                  (existing, g₁, put_group name g₁ m₁))
              else (existing, g, m₁)
        ]
      ]

  -- From the new listener on: the new data reader on `target`, and the emitter restarted with it.
  unfoldable pub rebuild_reader :
      Setup → Text → Text → Option ℕ → TopicGroup → Manager → Outcome (Bool × Manager)
  unfolding Emitter.set_reader Emitter.run
  rebuild_reader setup name reader_name target g m =
      let g₁ = record g {
        reader_listeners =
            emplace reader_name (record { handler = m.rl_handler }) g.reader_listeners;
      } in
      deref g.subscriber >>= λ s.
      let m₁ = call (create_datareader s target g.data_reader_qos) m in
      elim (d.object m₁.calls) [
        | none ↦ done (false, put_group name g₁ m₁)
        | some r ↦
            let g₂ = record g₁ { readers = insert reader_name r g.readers } in
            elim (lookup reader_name g.emitters) [
              | none ↦ done (true, put_group name g₂ m₁)
              | some e ↦ elim (Emitter.run setup (Emitter.set_reader (some r) e)) [
                | none ↦ terminates
                | some e' ↦ done (
                  true,
                  put_group name (record g₂ { emitters = insert reader_name e' g.emitters })
                      (call (run_emitter reader_name) m₁),
                )
              ]
            ]
      ]

  -- From the filter on: a new filtered topic under a new name, if there is a filter.
  unfoldable pub refilter :
      Setup → Text → Text → Text → Text → TopicGroup → Manager → Outcome (Bool × Manager)
  unfolding next_filter_name rebuild_reader
  refilter setup name reader_name filter existing g m =
      if is_empty filter
      then rebuild_reader setup name reader_name g.topic g m
      else (elim (next_filter_name name reader_name existing) [
        | none ↦ throws (text "stoi")
        | some new_name ↦ deref m.participant >>= λ p.
            let m₁ = call (create_contentfilteredtopic new_name g.topic filter []) m in
            elim (d.object m₁.calls) [
              | none ↦ done (false, m₁)
              | some f ↦
                  rebuild_reader setup name reader_name (some f)
                    (record g { filtered_topics = insert new_name f g.filtered_topics }) m₁
            ]
      ])

  -- From the deletions on, for the subscriber `s` and the data reader `r`. After the first call of
  -- `delete_datareader` the source sets `dataReader` to nil, and later calls through it again.
  unfoldable pub replace_reader :
      Setup → Text → Text → Text → ℕ → ℕ → TopicGroup → Manager → Outcome (Bool × Manager)
  unfolding remove_filter refilter
  replace_reader setup name reader_name filter s r g m =
      let topic_desc = d.narrow_to_filtered m.calls (d.topicdescription m.calls r) in
      let m₁ = call (delete_contained_entities r) m in
      let m₂ = call (delete_datareader s r) m₁ in
      let data_reader : Option ℕ = none in
      if is_ok (d.code m₁.calls)
      then (if is_ok (d.code m₂.calls)
          then (let (existing, g₁, m₃) = remove_filter name topic_desc g m₂ in
              deref data_reader >>= λ r'.
              let m₄ = call (delete_datareader s r') (call (delete_contained_entities r') m₃) in
              refilter setup name reader_name filter existing g₁ m₄)
          else done (false, m₂))
      else done (false, m₁)

  unfoldable pub replace_filter : Setup → Text → Text → Text → Manager → Outcome (Bool × Manager)
  unfolding get_subscriber get_reader group_at stop_emitter_of replace_reader
  replace_filter setup name reader_name filter m =
      if is_empty reader_name
      then done (false, m)
      else (get_subscriber m name >>= λ subscriber. elim subscriber [
        | none ↦ done (false, m)
        | some s ↦ elim (get_reader m name reader_name) [
          | none ↦ done (false, m)
          | some r ↦ group_at m name >>= λ g.
              if contains reader_name g.reader_listeners
              then (let (g₁, m₁) = stop_emitter_of name reader_name g m in
                  replace_reader setup name reader_name filter s r g₁ m₁)
              else done (false, m)
        ]
      ])

  -- The filtered topic of the reader gets the parameters, if the group keeps it.
  unfoldable pub set_params : List Text → Manager → TopicGroup → Option ℕ → Outcome (Bool × Manager)
  unfolding filter_key
  set_params params m g none = done (false, m)
  set_params params m g (some topic) = elim (filter_key topic g.filtered_topics) [
    | none ↦ done (false, m)
    | some key ↦
        let m₁ = call (set_expression_parameters topic params) m in
        done (is_ok (d.code m₁.calls), m₁)
  ]

  unfoldable pub replace_filter_params :
      Text → Text → List Text → Manager → Outcome (Bool × Manager)
  unfolding get_subscriber get_reader group_at set_params
  replace_filter_params name reader_name params m =
      if is_empty reader_name
      then done (false, m)
      else (get_subscriber m name >>= λ subscriber. elim subscriber [
        | none ↦ done (false, m)
        | some s ↦ elim (get_reader m name reader_name) [
          | none ↦ done (false, m)
          | some r ↦ group_at m name >>= λ g.
              set_params params m g (d.narrow_to_filtered m.calls (d.topicdescription m.calls r))
        ]
      ])

-- `rate * 1000000`, in the unsigned 32 bits of `nanosec`: the product of the source overflows the
-- `int` where it is 2 ^ 31 or more.
abbrev pub nanoseconds : ℕ → ℕ
nanoseconds rate = rate * 1000000 % 2 ^ 32

unfoldable pub limit_rate : Text → Text → ℕ → Manager → Outcome (Bool × Manager)
unfolding get_reader get_reader_qos
limit_rate name reader_name rate m = elim (get_reader m name reader_name) [
  | none ↦ done (false, m)
  | some r ↦ get_reader_qos m name >>= λ qos.
      let qos' = record qos {
        minimum_separation = record { sec = 0; nanosec = nanoseconds rate };
      } in
      done (true, call (reader_set_qos r qos') m)
]

unfoldable pub set_max_data_rate : Text → Text → ℤ → Manager → Outcome (Bool × Manager)
unfolding limit_rate
set_max_data_rate name reader_name (negsuc n) m = done (false, m)
set_max_data_rate name reader_name (pos zero) m = done (false, m)
set_max_data_rate name reader_name (pos (suc k)) m = limit_rate name reader_name (suc k) m
