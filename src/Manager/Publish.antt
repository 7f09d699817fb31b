-- ===== src/Manager/Publish.antt =====
-- `createPublisher` and `createPublisherSubscriber` (src/dds_manager.cpp).
use open_ddw.Base.{ℕ, if◌then◌else◌, Bool, true, false, none, some, List}
use open_ddw.Base.Text.{Text}
use open_ddw.Dds.{Dds, Outcome, done, ◌>>=◌, deref, domain_create_publisher, create_datawriter}
use open_ddw.Group.{TopicGroup}
use open_ddw.Manager.{Manager, missing, null, found, slot, call, put_group}
use open_ddw.Manager.Subscribe.{create_subscriber}

module _ (d : Dds) where
  -- The data writer of the new publisher `p`.
  unfoldable pub create_writer_for : Text → TopicGroup → ℕ → ℕ → Manager → Outcome (Bool × Manager)
  create_writer_for name g p t m =
      let m₁ = call (create_datawriter p t g.data_writer_qos) m in
      elim (d.object m₁.calls) [
        | none ↦ done (false, put_group name (record g { writer = none }) m₁)
        | some w ↦ done (
          true,
          put_group name
              (record g {
                writer = some w;
                writer_listener = some (record { handler = m.wl_handler });
              })
              m₁,
        )
      ]

  unfoldable pub create_publisher_for : Text → TopicGroup → ℕ → Manager → Outcome (Bool × Manager)
  unfolding create_writer_for
  create_publisher_for name g t m = deref m.participant >>= λ participant.
      let m₁ = call (domain_create_publisher g.pub_qos) m in
      elim (d.object m₁.calls) [
        | none ↦ done (false, m₁)
        | some p ↦ create_writer_for name (record g { publisher = some p }) p t m₁
      ]

  unfoldable pub create_publisher : Text → Manager → Outcome (Bool × Manager)
  unfolding slot create_publisher_for
  create_publisher name m = elim (slot m name) [
    | missing ↦ done (false, m)
    | null ↦ done (false, m)
    | found g ↦ elim g.topic [
      | none ↦ done (false, m)
      | some t ↦ elim g.publisher [
        | some p ↦ done (true, m)
        | none ↦ create_publisher_for name g t m
      ]
    ]
  ]

  -- `createPublisherSubscriber`
  unfoldable pub create_publisher_subscriber :
      Text → Text → Text → List Text → Manager → Outcome (Bool × Manager)
  create_publisher_subscriber name reader_name filter params m =
      create_publisher name m >>= λ (pass, m₁).
      if pass then create_subscriber d name reader_name filter params m₁ else done (false, m₁)
