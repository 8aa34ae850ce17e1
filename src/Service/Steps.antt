-- ===== src/Service/Steps.antt =====
-- The life of the sources as a sequence of operations, in any order: what operators and workers do
-- to sources and their revisions, each in its transactions.
use shadow_relay.Prelude.{String, Option, List, [], ◌∷◌}
use shadow_relay.Store.Op.{state, write}
use shadow_relay.Store.Op.Always.{Always-quiet}
use shadow_relay.Security.Headers.{Headers}
use shadow_relay.Adapter.Difference.{Reader}
use shadow_relay.Model.Source.{Source, Normalized, Probe}
use shadow_relay.Model.Database.{Database}
use shadow_relay.Service.Draws.{Draws}
use shadow_relay.Service.Sound.{IsSound}
use shadow_relay.Service.Visibility.{Relay, source_action, delete_source, soft_delete_source}
use shadow_relay.Service.Visibility.Soundness.{
  source_action-IsSound, delete_source-IsSound, soft_delete_source-IsSound,
}
use shadow_relay.Service.Sync.{Fetched, sync_tx, stage_tx}
use shadow_relay.Service.Sync.Soundness.{sync_tx-IsSound, stage_tx-IsSound}
use shadow_relay.Service.Probing.{save_probe}
use shadow_relay.Service.Probing.Soundness.{save_probe-IsSound}
use shadow_relay.Service.Intake.{Site, SourceInput}
use shadow_relay.Service.Preview.{World, import}
use shadow_relay.Service.Preview.Soundness.{defaults-quiet, import-IsSound}
use shadow_relay.Service.Editing.{edit_source, set_headers}
use shadow_relay.Service.Editing.Soundness.{edit_source_tx-IsSound, set_headers-IsSound}
use shadow_relay.Service.Removal.{undo_delete_tx}
use shadow_relay.Service.Removal.Soundness.{undo_delete_tx-IsSound}
use shadow_relay.Service.Catalogs.{candidate_action}
use shadow_relay.Service.Catalogs.Accepted.{candidate_action-IsSound}

-- An operation with its arguments, and what it draws and reads outside.
pub data SourceStep : Type 0 where
  acting : Relay → String → String → String → SourceStep
  syncing :
      Reader → Draws → String → Source → Fetched → String → Normalized → Option Probe → SourceStep
  staging : Reader → Draws → String → Source → String → Normalized → SourceStep
  probing : Draws → Source → Probe → SourceStep
  importing : Site → World → Reader → Draws → Draws → SourceInput → SourceStep
  editing : Site → Draws → String → SourceInput → SourceStep
  crediting : Site → Draws → String → Option Headers → SourceStep
  deleting : Relay → String → SourceStep
  soft_deleting : Relay → String → SourceStep
  undoing : Draws → String → SourceStep
  choosing : Site → World → Reader → Draws → String → String → SourceStep

unfoldable pub source_step : SourceStep → Database → Database
source_step (acting relay id action revision) d = state (source_action relay id action revision d)
source_step (syncing rd w id src res hash n p) d =
    state (write (sync_tx rd w id src res hash n p) d)
source_step (staging rd w id src hash n) d = state (write (stage_tx rd w id src hash n) d)
source_step (probing w src p) d = state (save_probe w src p d)
source_step (importing site world rd w w' i) d = state (import site world rd w w' i d)
source_step (editing site w id i) d = state (edit_source site w id i d)
source_step (crediting site w id h) d = state (set_headers site w id h d)
source_step (deleting relay id) d = state (delete_source relay id d)
source_step (soft_deleting relay id) d = state (soft_delete_source relay id d)
source_step (undoing w id) d = state (write (undo_delete_tx w id) d)
source_step (choosing site world rd w id action) d =
    state (candidate_action site world rd w id action d)

unfoldable pub source_steps : List SourceStep → Database → Database
source_steps [] d = d
source_steps (x ∷ xs) d = source_steps xs (source_step x d)

edit_source-IsSound :
    (site : Site) (w : Draws) (id : String) (request : SourceInput) (d : Database)
    → IsSound d
    → IsSound (state (edit_source site w id request d))
unfolding edit_source
edit_source-IsSound site w id request d h =
    Always-quiet IsSound _ _ d h (defaults-quiet site.urls request d)
      λ i. edit_source_tx-IsSound site w id i d h

source_step-IsSound : (x : SourceStep) (d : Database) → IsSound d → IsSound (source_step x d)
unfolding source_step
source_step-IsSound (acting relay id action revision) d h =
    source_action-IsSound relay id action revision d h
source_step-IsSound (syncing rd w id src res hash n p) d h =
    sync_tx-IsSound rd w id src res hash n p d h
source_step-IsSound (staging rd w id src hash n) d h = stage_tx-IsSound rd w id src hash n d h
source_step-IsSound (probing w src p) d h = save_probe-IsSound w src p d h
source_step-IsSound (importing site world rd w w' i) d h = import-IsSound site world rd w w' i d h
source_step-IsSound (editing site w id i) d h = edit_source-IsSound site w id i d h
source_step-IsSound (crediting site w id c) d h = set_headers-IsSound site w id c d h
source_step-IsSound (deleting relay id) d h = delete_source-IsSound relay id d h
source_step-IsSound (soft_deleting relay id) d h = soft_delete_source-IsSound relay id d h
source_step-IsSound (undoing w id) d h = undo_delete_tx-IsSound w id d h
source_step-IsSound (choosing site world rd w id action) d h =
    candidate_action-IsSound site world rd w id action d h

-- any sequence of actions on sources with the aggregates that follow, syncs, staged contents,
-- probes, imports, edits, new credentials, deletions and soft deletions with the aggregates that
-- follow, undos and actions on candidates, whether each of them succeeds or fails, keeps the
-- database sound: the active revision of a source is an approved one of its own, its staged
-- revision is a staged one of its own, it stands under its own id, and it is enabled only with an
-- active revision.
pub source_steps-IsSound :
    (xs : List SourceStep) → (d : Database) → IsSound d → IsSound (source_steps xs d)
unfolding source_steps
source_steps-IsSound [] d h = h
source_steps-IsSound (x ∷ xs) d h =
    source_steps-IsSound xs (source_step x d) (source_step-IsSound x d h)
