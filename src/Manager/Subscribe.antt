-- ===== src/Manager/Subscribe.antt =====
-- `createSubscriber` (src/dds_manager.cpp).
use open_ddw.Base.{ℕ, Bool, true, false, none, some, List, ◌++◌, is_empty, if◌then◌else◌}
use open_ddw.Base.Text.{Text, text}
use open_ddw.Base.Dict.{insert, emplace, contains}
use open_ddw.Dds.{
  Dds, Outcome, done, ◌>>=◌, deref, domain_create_subscriber, create_contentfilteredtopic,
  create_datareader,
}
use open_ddw.Group.{TopicGroup}
use open_ddw.Manager.{Manager, missing, null, found, slot, call, put_group}

-- `topicName + "_" + readerName + "_0"`
abbrev pub first_filter_name : Text → Text → Text
first_filter_name name reader_name = name ++ (text "_" ++ (reader_name ++ text "_0"))

module _ (d : Dds) where
  -- The data reader on `target`, and its entries in the group.
  unfoldable pub create_reader_for :
      Text → Text → ℕ → ℕ → TopicGroup → Manager → Outcome (Bool × Manager)
  create_reader_for name reader_name s target g m =
      let m₁ = call (create_datareader s (some target) g.data_reader_qos) m in
      elim (d.object m₁.calls) [
        | none ↦ done (false, put_group name g m₁)
        | some r ↦ done (
          true,
          put_group name
              (record g {
                readers = insert reader_name r g.readers;
                reader_listeners =
                    emplace reader_name (record { handler = m.rl_handler }) g.reader_listeners;
              })
              m₁,
        )
      ]

  -- From the subscriber `s` on: a filtered topic if there is a filter, and the data reader.
  unfoldable pub subscribe_with :
      Text → Text → Text → List Text → ℕ → ℕ → TopicGroup → Manager → Outcome (Bool × Manager)
  unfolding create_reader_for
  subscribe_with name reader_name filter params t s g m =
      if is_empty filter
      then create_reader_for name reader_name s t g m
      else (deref m.participant >>= λ participant.
          let filter_name = first_filter_name name reader_name in
          let m₁ = call (create_contentfilteredtopic filter_name (some t) filter params) m in
          elim (d.object m₁.calls) [
            | none ↦ done (false, put_group name g m₁)
            | some f ↦
                create_reader_for name reader_name s f
                  (record g { filtered_topics = insert filter_name f g.filtered_topics }) m₁
          ])

  -- The subscriber is made if the group has none.
  unfoldable pub subscribe_in :
      Text → Text → Text → List Text → ℕ → TopicGroup → Manager → Outcome (Bool × Manager)
  unfolding subscribe_with
  subscribe_in name reader_name filter params t g m = elim g.subscriber [
    | some s ↦ subscribe_with name reader_name filter params t s g m
    | none ↦ deref m.participant >>= λ participant.
        let m₁ = call (domain_create_subscriber g.sub_qos) m in
        elim (d.object m₁.calls) [
          | none ↦ done (false, m₁)
          | some s ↦
              subscribe_with name reader_name filter params t s (record g { subscriber = some s })
                m₁
        ]
  ]

  unfoldable pub create_subscriber :
      Text → Text → Text → List Text → Manager → Outcome (Bool × Manager)
  unfolding slot subscribe_in
  create_subscriber name reader_name filter params m =
      if is_empty reader_name then done (false, m) else (elim (slot m name) [
        | missing ↦ done (false, m)
        | null ↦ done (false, m)
        | found g ↦ elim g.topic [
          | none ↦ done (false, m)
          | some t ↦
              if contains reader_name g.reader_listeners
              then done (false, m)
              else subscribe_in name reader_name filter params t g m
        ]
      ])
