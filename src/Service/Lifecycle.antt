-- ===== src/Service/Lifecycle.antt =====
-- SourceAction of internal/service/service.go: the transaction that moves a source through
-- approval, rejection, rollback, enabling, quarantine and release.
pub mod Soundness
pub mod Enabling
use shadow_relay.Prelude.{String, true, false, not, ◌&&◌, ◌||◌, ◌==◌, if◌then◌else◌, ◌<>◌}
use shadow_relay.Store.Op.{when◌run◌or◌, Op, message, pure, fail, guard, ◌>>=◌, ◌>>◌}
use shadow_relay.Store.Rows.{get_row, put_row}
use shadow_relay.Model.Source.{
  Source, Revision, unknown, degraded, disabled, quarantined, approved, rejected, is_held,
  is_disabled, is_quarantined, is_staged, is_approved, is_invalid,
}
use shadow_relay.Model.Database.{Database, sources, revisions}
use shadow_relay.Service.Draws.{Draws, audit}

-- The fields that an approval of revision `r` changes.
unfoldable pub approved_source : String → Revision → Source → Source
approved_source action r v =
    let v1 = record v {
      active_revision = r.id;
      staged_revision = if r.id == v.staged_revision then "" else v.staged_revision;
      update_policy = if action == "rollback" then "pinned" else v.update_policy;
    } in
    let v2 = if is_held v1.health then v1 else record v1 { health = degraded; score = 60 } in
    if action == "approve-enable"
    then (if is_disabled v2.health
        then record v2 { enabled = true; health = degraded; score = 60 }
        else record v2 { enabled = true })
    else v2

-- case "approve", "approve-enable", "rollback"
unfoldable pub approve : Draws → String → String → String → Source → Op Database (Source × String)
approve w id action revision v = do
  guard
      (not (action == "approve-enable" && (revision == "" || not (revision == v.staged_revision))))
      (message "待审核版本已变化，请刷新后重新审核")
  r ← get_row revisions (if revision == "" then v.staged_revision else revision)
  guard (r.source_id == id) (message "revision does not belong to source")
  guard (not (is_invalid r.status)) (message "invalid revision cannot be approved")
  guard (not (action == "approve-enable" && not (is_staged r.status))) (message "只能批准并启用当前待审核版本")
  guard (not (action == "rollback" && not (is_approved r.status)))
      (message "rollback requires a previously approved revision")
  put_row revisions r.id (record r { status = approved })
  when action == "approve-enable"
      run (do audit w 0 "source.approve" id; pure (approved_source action r v, "enable"))
      or pure (approved_source action r v, action)

-- case "reject"
unfoldable pub reject : Source → Op Database Source
reject v = do
  guard (not (v.staged_revision == "")) (message "no staged revision")
  r ← get_row revisions v.staged_revision
  put_row revisions r.id (record r { status = rejected })
  pure (record v { staged_revision = "" })

unfoldable pub enabled_source : Source → Source
enabled_source v =
    if is_disabled v.health
    then record v { enabled = true; health = unknown; score = 0 }
    else record v { enabled = true }

-- case "enable"
unfoldable pub enable : Source → Op Database Source
enable v = do
  guard (not (v.active_revision == "")) (message "请先在源库审核版本，或选择“批准并启用”")
  pure (enabled_source v)

-- case "release"
unfoldable pub release : Source → Op Database Source
release v = do
  guard (is_quarantined v.health) (message "source is not quarantined")
  pure (record v { health = unknown; failures = 0; score = 0 })

-- The `switch` on the action; the second result is the action that goes on to the audit.
unfoldable pub act : Draws → String → String → String → Source → Op Database (Source × String)
act w id action revision v =
    when action == "approve" || action == "approve-enable" || action == "rollback"
    run approve w id action revision v
    or when action == "reject"
    run (do u ← reject v; pure (u, action))
    or when action == "enable"
    run (do u ← enable v; pure (u, action))
    or when action == "disable"
    run pure (record v { enabled = false; health = disabled }, action)
    or when action == "quarantine"
    run pure (record v { health = quarantined; score = 0 }, action)
    or when action == "release"
    run (do u ← release v; pure (u, action))
    or fail (message "unknown source action")

-- The function that SourceAction hands to DB.Write: the source after it, and the action.
unfoldable pub source_action_tx : Draws → String → String → String → Op Database (Source × String)
source_action_tx w id action revision = do
  v ← get_row sources id
  (u, done) ← act w id action revision v
  let after = record u { updated_at = w.now }
  put_row sources id after
  audit w 1 ("source." <> done) id
  pure (after, done)
