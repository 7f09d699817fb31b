-- ===== src/Manager/Lifecycle.antt =====
-- The end of a topic, alone or with all the others (src/dds_manager.cpp).
use open_ddw.Base.{◌≡◌, refl, true, false, List, [], ◌∷◌, ◌++◌, arith, if◌then◌else◌}
use open_ddw.Base.Text.{Text, same}
use open_ddw.Base.Dict.{Dict, lookup-erase, erase}
use open_ddw.Dds.{Dds, Event, Trace, done}
use open_ddw.Group.{TopicGroup}
use open_ddw.Group.Teardown.{teardown-deletions, deletions, after}
use open_ddw.Manager.{Manager, missing, found, slot}
use open_ddw.Manager.Register.{unregister_topic, member}
use open_ddw.Manager.Valid.{IsWell, slot-IsValid}

unfoldable pub erased : Text → Manager → Trace → Manager
erased name m calls = record m { topics = erase name m.topics; calls = calls }

pub slot-erased :
    (name j : Text) (m : Manager) (calls : Trace)
    → slot (erased name m calls) j ≡ (if same j name then missing else slot m j)
unfolding slot erased
slot-erased name j m calls = rw (lookup-erase j name m.topics) (ground arith)

-- Unregistering a topic of a valid manager returns true, forgets that topic and no other, and makes
-- the calls of its group's destructor, in their order and no others.
pub unregister_topic-found :
    (d : Dds) (name : Text) (m : Manager) (g : TopicGroup)
    → IsWell m
    → slot m name ≡ found g
    → (m' : Manager) × (unregister_topic d name m ≡ done (true, m'))
      × ((j : Text) → slot m' j ≡ (if same j name then missing else slot m j))
      × (m'.calls ≡ after (deletions g) m.calls)
unfolding unregister_topic erased
unregister_topic-found d name m g w e = (
  erased name m (after (deletions g) m.calls),
  rw (
    e,
    unregister_topic,
    teardown-deletions d m.participant g m.calls (slot-IsValid m name g w e),
  ),
  (λ j. slot-erased name j m (after (deletions g) m.calls)),
  refl,
)

-- Topics with their groups, each of the manager and none twice, in the order in which the threads of
-- `cleanUpTopicsForOneManager` come to them.
abbrev Absent : Text → List (Text × TopicGroup) → Type 0
Absent name [] = Unit
Absent name ((j, g) ∷ rest) = (same j name ≡ false) × Absent name rest

abbrev pub IsSchedule : Manager → List (Text × TopicGroup) → Type 0
IsSchedule m [] = Unit
IsSchedule m ((name, g) ∷ rest) = (slot m name ≡ found g) × Absent name rest × IsSchedule m rest

abbrev pub names : List (Text × TopicGroup) → List Text
names [] = []
names ((name, g) ∷ rest) = name ∷ names rest

abbrev pub all_deletions : List (Text × TopicGroup) → List Event
all_deletions [] = []
all_deletions ((name, g) ∷ rest) = deletions g ++ all_deletions rest

-- Every topic of the manager is in the list.
abbrev pub IsComplete : Manager → List (Text × TopicGroup) → Type 0
IsComplete m schedule =
    (j : Text) (g : TopicGroup) → slot m j ≡ found g → member j (names schedule) ≡ true
