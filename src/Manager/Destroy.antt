-- ===== src/Manager/Destroy.antt =====
-- `DDSManager::~DDSManager` (src/dds_manager.cpp).
use open_ddw.Base.{Bool, none, List, if◌then◌else◌}
use open_ddw.Base.Text.{Text}
use open_ddw.Dds.{
  Dds, Outcome, done, ◌>>=◌, delete_contained_entities, delete_participant, shutdown_dispatcher,
}
use open_ddw.Manager.{Manager, call}
use open_ddw.Manager.Settings.{call_if}
use open_ddw.Manager.Register.{clean_up_topics}

module _ (d : Dds) where
  -- `has_factory` says whether `TheParticipantFactory` is there. What the calls return is only
  -- reported. `participant` is `nullptr` for `delete_participant`, too, where no domain was joined.
  unfoldable pub destroy : Bool → List Text → Manager → Outcome Manager
  unfolding clean_up_topics
  destroy has_factory schedule m = clean_up_topics d schedule m >>= λ (all_clear, m₁).
      let m₂ = call_if m₁.participant delete_contained_entities m₁ in
      let m₃ = if has_factory then call (delete_participant m₁.participant) m₂ else m₂ in
      done (call shutdown_dispatcher (record m₃ { participant = none }))
