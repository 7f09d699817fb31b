-- ===== src/Tests.antt =====
-- Concrete runs: an OpenDDS that grants everything, managers after a few operations, and the
-- theorems applied to them.
pub mod Managers
pub mod Faults
pub mod Emitters
pub mod Policies
pub mod Domains
pub mod Samples
pub mod Monitors
pub mod Simples
pub mod Footprints
pub mod Environments
pub mod Locking
pub mod Stages
use open_ddw.Base.{ℕ, ◌+◌, Bool, true, false, Option, none, some, List, [], ◌∷◌}
use open_ddw.Base.{length}
use open_ddw.Base.Text.{Text, text}
use open_ddw.Qos.{by_source_timestamp, best_effort, strict_reliable}
use open_ddw.Dds.{
  Dds, Outcome, done, null_dereference, throws, terminates, retcode_ok, Event, create_datawriter,
}
use open_ddw.Emitter.{Setup}
use open_ddw.Group.{TopicGroup, new_group}
use open_ddw.Manager.{Manager, new_manager, Slot, missing, null, found}

-- Each call makes an object whose number is the number of the calls so far.
abbrev pub granting : Dds
granting = record {
  object = λ calls. some (length calls);
  code = λ _. retcode_ok;
  topic_name = λ _ _. [];
  topicdescription = λ _ _. none;
  narrow_to_filtered = λ _ _. none;
}

abbrev pub setup : Setup
setup = record {
  narrowed = true;
  has_condition = true;
  enabled = retcode_ok;
  attached = retcode_ok;
}

abbrev pub alarms : Text
alarms = text "alarms_1"

abbrev pub joined : Manager
joined = record (new_manager by_source_timestamp) { participant = some 100 }

-- The manager that an outcome holds.
abbrev pub state_of : Outcome (Bool × Manager) → Manager
state_of (done (b, m)) = m
state_of null_dereference = joined
state_of (throws message) = joined
state_of terminates = joined

-- The group of a topic that is there.
abbrev pub group_of : Slot → TopicGroup
group_of missing = new_group by_source_timestamp
group_of null = new_group by_source_timestamp
group_of (found g) = g
