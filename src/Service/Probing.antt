-- ===== src/Service/Probing.antt =====
-- saveProbe and recordFailure of internal/service/service.go: what the outcome of a probe does to
-- the health of a source.
pub mod Health
pub mod Soundness
use shadow_relay.Prelude.{
  ℕ, suc, ◌-◌, ◌*◌, String, Bool, true, false, not, ◌&&◌, ◌==◌, [], ◌∷◌, if◌then◌else◌, leb,
}
use shadow_relay.Prelude.Int.{pos}
use shadow_relay.Store.Op.{Error, conflict, Op, fail, guard, write, ◌>>=◌, ◌>>◌}
use shadow_relay.Store.Rows.{get_row, put_row, insert_row}
use shadow_relay.Model.Source.{Source, Probe, healthy, degraded, failing, avoid, is_held}
use shadow_relay.Model.Database.{Database, sources, probes}
use shadow_relay.Service.Draws.{Draws, new_id}

-- A successful probe: full marks for a functional one.
unfoldable pub passed : String → Source → Source
passed level v =
    let v1 = record v { failures = 0 } in
    if is_held v1.health
    then v1
    else if level == "functional"
    then record v1 { health = healthy; score = 100 }
    else record v1 { health = degraded; score = 60 }

-- `max(0, 60-v.Failures*20)` is a truncated difference.
unfoldable pub failed : Draws → Source → Source
failed w v =
    let v1 = record v { failures = suc v.failures } in
    if is_held v1.health
    then v1
    else (let v2 = record v1 { score = 60 - v1.failures * 20 } in
        if leb 3 v2.failures
        then record v2 { health = avoid; next_probe = w.later (pos 30) }
        else record v2 { health = if leb 2 v2.failures then failing else degraded })

unfoldable pub probed : Draws → Probe → Source → Source
unfolding passed failed
probed w p v =
    let v1 = record v { last_checked = w.now } in
    if p.success then passed p.level v1 else failed w v1

unfoldable pub save_probe_tx : Draws → Source → Probe → Op Database Unit
save_probe_tx w src p = do
  v ← get_row sources src.id
  guard
      (v.updated_at == src.updated_at
        && v.active_revision == src.active_revision
        && v.runtime_id == src.runtime_id)
      conflict
  insert_row probes p.id p
  put_row sources v.id (record (probed w p v) { updated_at = w.now })

unfoldable pub save_probe : Draws → Source → Probe → Op Database Unit
save_probe w src p = write (save_probe_tx w src p)

-- A failed sync is a failed probe, and its cause is the result.
unfoldable pub record_failure : Draws → Source → String → Error → Op Database Unit
record_failure w src code cause = do
  save_probe w src (record {
    id = new_id w "probe" 0;
    source_id = src.id;
    level = "structure";
    success = false;
    latency_ms = 0;
    code = code;
    checks = code ∷ [];
    created_at = w.now;
  })
  fail cause
