-- ===== src/Service/Removal.antt =====
-- DeleteSource of internal/service/service.go, SoftDeleteSource and UndoDeleteSource of steward.go:
-- how a source goes, for good or until it is taken back.
pub mod Soundness
pub mod Gone
pub mod Undo
use shadow_relay.Prelude.{String, Bool, false, not, ◌&&◌, List, any}
use shadow_relay.Store.Table.{has}
use shadow_relay.Store.Op.{Op, message, pure, guard, ◌>>=◌, ◌>>◌}
use shadow_relay.Store.Rows.{get_row, put_row, list_rows, delete_row, discard_row}
use shadow_relay.Model.Source.{Source, disabled}
use shadow_relay.Model.Publication.{SourceSet}
use shadow_relay.Model.Database.{Database, sources, source_sets, secrets, deleted_sources}
use shadow_relay.Service.Draws.{Draws, audit}
use shadow_relay.Service.Buckets.{is_aggregate_set_id}
use shadow_relay.Service.Aggregates.{is_member, strip_membership}

-- Is the source a member of one of the sets?
unfoldable pub is_used : String → List SourceSet → Bool
is_used id sets = any (λ s. is_member id s.members) sets

-- The transaction of DeleteSource.
unfoldable pub delete_source_tx : Draws → String → Op Database Source
delete_source_tx w id = do
  v ← get_row sources id
  strip_membership w id
  sets ← list_rows source_sets
  guard (not (is_used id sets)) (message "remove source from its source sets before deletion")
  delete_row sources id
  discard_row secrets id
  audit w 0 "source.delete" id
  pure v

-- Is the source a member of a set that is no aggregate?
unfoldable pub is_used_by_hand : String → List SourceSet → Bool
is_used_by_hand id sets = any (λ s. not (is_aggregate_set_id s.id) && is_member id s.members) sets

-- The transaction of SoftDeleteSource.
unfoldable pub soft_delete_tx : Draws → String → Op Database Source
soft_delete_tx w id = do
  v ← get_row sources id
  strip_membership w id
  sets ← list_rows source_sets
  guard (not (is_used_by_hand id sets))
      (message "remove source from its source sets before deletion")
  let u : Source = record v { enabled = false; health = disabled; updated_at = w.now }
  put_row deleted_sources id (record { id = id; source = u; deleted_at = w.now })
  put_row sources id u
  audit w 0 "source.soft_delete" id
  pure v

-- The transaction of UndoDeleteSource.
unfoldable pub undo_delete_tx : Draws → String → Op Database Source
undo_delete_tx w id = do
  gone ← get_row deleted_sources id
  v ← get_row sources id
  delete_row deleted_sources id
  let u : Source = record v { updated_at = w.now }
  put_row sources id u
  audit w 0 "source.undo_delete" id
  pure u

-- `IsSoftDeleted`
unfoldable pub is_soft_deleted : String → Database → Bool
is_soft_deleted id d = has d.deleted_sources id
