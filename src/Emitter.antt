-- ===== src/Emitter.antt =====
-- `EmitterBase` and `Emitter` (src/dds_callback.h, src/dds_callback.cpp). A callback is a number, a
-- type index the name of its type. What OpenDDS answers the thread as it starts, and whether the
-- dispatcher still lives, are arguments.
pub mod Listen
pub mod Routing
pub mod Heard
use open_ddw.Base.{
  ℕ, Bool, true, false, Option, none, some, List, [], ◌∷◌, ◌++◌, map, if◌then◌else◌, ◌&&◌,
}
use open_ddw.Base.Text.{Text, same, before}
use open_ddw.Dds.{ReturnCode}
use open_ddw.Dds.Status.{is_ok, is_no_data}

-- `std::multimap` by type index, the entries of a key in the order of their insertion.
abbrev pub Listeners : Type 0
Listeners = List (Text × ℕ)

-- `m_dataThread`: none, one in the loop of `listen`, or one that returned before it. The last two
-- are joinable.
pub data Thread : Type 0 where
  no_thread listening returned : Thread

abbrev pub joinable : Thread → Bool
joinable no_thread = false
joinable _ = true

pub record Emitter : Type 0 where
  pub reader : Option ℕ
  pub running : Bool
  pub async_emitter : Bool
  pub thread : Thread
  pub callbacks : Listeners

unfoldable pub new_emitter : Option ℕ → Emitter
new_emitter reader = record {
  reader = reader;
  running = false;
  async_emitter = false;
  thread = no_thread;
  callbacks = [];
}

-- `m_callbacks.insert`: behind the entries of its key.
unfoldable pub insert_callback : Text → ℕ → Listeners → Listeners
insert_callback k f [] = (k, f) ∷ []
insert_callback k f ((j, g) ∷ l) =
    let rest = insert_callback k f l in if before k j then (k, f) ∷ (j, g) ∷ l else (j, g) ∷ rest

unfoldable pub add_callback : Text → ℕ → Emitter → Emitter
add_callback index func e = record e { callbacks = insert_callback index func e.callbacks }

unfoldable pub set_async : Bool → Emitter → Emitter
set_async set e = record e { async_emitter = set }

unfoldable pub set_reader : Option ℕ → Emitter → Emitter
set_reader reader e = record e { reader = reader }

unfoldable pub is_running : Emitter → Bool
is_running e = e.running

-- The answers to what `listen` does before its loop.
pub record Setup : Type 0 where
  pub narrowed : Bool
  pub has_condition : Bool
  pub enabled : ReturnCode
  pub attached : ReturnCode

-- `listen` comes to its loop. A nil reader narrows to nil.
unfoldable pub reaches_loop : Option ℕ → Setup → Bool
reaches_loop none a = false
reaches_loop (some r) a = a.narrowed && a.has_condition && is_ok a.enabled && is_ok a.attached

-- `none` is the call of `std::terminate` that assigning to a joinable thread makes.
unfoldable pub run : Setup → Emitter → Option Emitter
unfolding reaches_loop
run a e =
    if e.running
    then some e
    else if joinable e.thread
    then none
    else some (record e {
      running = true;
      thread = if reaches_loop e.reader a then listening else returned;
    })

-- A thread that leaves the loop of `listen` drops the reader; `stop` joins it.
unfoldable pub stop : Emitter → Emitter
stop e = record e {
  running = false;
  thread = no_thread;
  reader = elim e.thread [ listening ↦ none | _ ↦ e.reader ];
}

-- `m_callbacks.equal_range(index)`
unfoldable pub equal_range : Text → Listeners → List ℕ
equal_range k [] = []
equal_range k ((j, f) ∷ l) = let rest = equal_range k l in if same k j then f ∷ rest else rest

-- A call of a callback with a message, at once or by the thread pool.
pub data Delivery (A : Type 0) : Type 0 where
  called queued : ℕ → A → Delivery A

-- `AddToThreadPool`: without a dispatcher the call is dropped.
abbrev pub add_to_thread_pool : {A : Type 0} → Bool → ℕ → A → List (Delivery A)
add_to_thread_pool dispatcher func arg = if dispatcher then queued func arg ∷ [] else []

module _ {A : Type 0} (dispatcher : Bool) where
  -- The body of the loop over the range.
  unfoldable pub emit_to : Bool → A → List ℕ → List (Delivery A)
  emit_to async_emitter arg [] = []
  emit_to async_emitter arg (func ∷ range) =
      (if async_emitter then add_to_thread_pool dispatcher func arg else called func arg ∷ [])
      ++ emit_to async_emitter arg range

  unfoldable pub emit_message : Emitter → Text → A → List (Delivery A)
  unfolding emit_to equal_range
  emit_message e index arg = emit_to e.async_emitter arg (equal_range index e.callbacks)

  unfoldable pub emit_all : Emitter → Text → List A → List (Delivery A)
  unfolding emit_message
  emit_all e index [] = []
  emit_all e index (m ∷ messages) = emit_message e index m ++ emit_all e index messages

  -- `narrowed` says whether `_narrow` gave a reader; the rest is what `take` gave.
  unfoldable pub read_queue : Emitter → Text → Bool → ReturnCode → List A → List (Delivery A)
  unfolding emit_all
  read_queue e index narrowed status messages =
      if narrowed
      then (if is_ok status
          then emit_all e index messages
          else if is_no_data status
          then emit_all e index messages
          else [])
      else []
