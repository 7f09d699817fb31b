-- ===== src/Manager/Callbacks.antt =====
-- `addCallback` (src/dds_manager.hpp), `readCallbacks` and `addDataListener`
-- (src/dds_manager.cpp).
use open_ddw.Base.{ℕ, Bool, true, false, Option, none, some, List, [], is_empty, if◌then◌else◌}
use open_ddw.Base.Text.{Text}
use open_ddw.Base.Dict.{lookup, insert}
use open_ddw.Dds.{ReturnCode, Outcome, done, terminates, set_listener, run_emitter}
use open_ddw.Emitter
use open_ddw.Emitter.{Emitter, Setup, Delivery}
use open_ddw.Group.{TopicGroup}
use open_ddw.Manager.{Manager, missing, null, found, slot, call, put_group, get_reader}

-- `emitters[readerName]`, or a new emitter for the reader.
abbrev pub emitter_for : ℕ → Option Emitter → Emitter
emitter_for reader none = Emitter.new_emitter (some reader)
emitter_for reader (some e) = e

-- The new emitter or the one that is there, with the callback added. Unless the messages stay
-- queued its thread is started.
unfoldable pub add_callback_to :
    Setup
    → Text
    → Text
    → Text
    → ℕ
    → Bool
    → Bool
    → ℕ
    → TopicGroup
    → Manager
    → Outcome (Bool × Manager)
unfolding Emitter.new_emitter Emitter.add_callback Emitter.set_async Emitter.run
add_callback_to setup type_index name reader_name func queue_messages async reader g m =
    let e = emitter_for reader (lookup reader_name g.emitters) in
    let e₁ = Emitter.set_async async (Emitter.add_callback type_index func e) in
    if queue_messages
    then done (true, put_group name (record g { emitters = insert reader_name e₁ g.emitters }) m)
    else (elim (Emitter.run setup e₁) [
      | none ↦ terminates
      | some e₂ ↦ done (
        true,
        put_group name (record g { emitters = insert reader_name e₂ g.emitters })
            (call (run_emitter reader_name) m),
      )
    ])

-- `setup` is what the new thread, if one is started, is answered.
unfoldable pub add_callback :
    Setup → Text → Text → Text → ℕ → Bool → Bool → Manager → Outcome (Bool × Manager)
unfolding slot get_reader add_callback_to
add_callback setup type_index name reader_name func queue_messages async m = elim (slot m name) [
  | missing ↦ done (false, m)
  | null ↦ done (false, m)
  | found g ↦ elim (get_reader m name reader_name) [
    | none ↦ done (false, m)
    | some r ↦ add_callback_to setup type_index name reader_name func queue_messages async r g m
  ]
]

-- The arguments after the names say how `readQueue` is answered, and for which type its emitter
-- was made. The list is what the callbacks get.
unfoldable pub read_callbacks :
    {A : Type 0}
    → Manager
    → Text
    → Text
    → Bool
    → Text
    → Bool
    → ReturnCode
    → List A
    → Bool × List (Delivery A)
unfolding slot Emitter.read_queue
read_callbacks m name reader_name dispatcher type_index narrowed status messages =
    if is_empty reader_name then (false, []) else (elim (slot m name) [
      | missing ↦ (false, [])
      | null ↦ (false, [])
      | found g ↦ elim (lookup reader_name g.emitters) [
        | none ↦ (false, [])
        | some e ↦ (true, Emitter.read_queue dispatcher e type_index narrowed status messages)
      ]
    ])

unfoldable pub add_data_listener : Text → Text → Option ℕ → ℕ → Manager → Manager
unfolding get_reader
add_data_listener name reader_name listener mask m =
    if is_empty reader_name then m else (elim (get_reader m name reader_name) [
      | none ↦ m
      | some r ↦ call (set_listener r listener mask) m
    ])
