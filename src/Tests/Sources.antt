-- ===== src/Tests/Sources.antt =====
-- The theorems on sources at the inputs of Tests/Fixtures.
use shadow_relay.Prelude.{◌⊎◌, ◌*◌, ◌<◌, true, false, some, refl, ◌≡◌, [], ◌∷◌, ◌&&◌, not, ◌↔◌}
use shadow_relay.Store.Op.{state, write, ok, ◌>>=◌, guard, when◌run◌or◌}
use shadow_relay.Store.Table.{get, put, replace, place, rows}
use shadow_relay.Store.Rows.{get_row, put_row, insert_row, list_rows}
use shadow_relay.Service.Draws.{audit}
use shadow_relay.Model.Database.{Database}
use shadow_relay.Adapter.Difference.{
  difference, entries, hosts, missing, altered, size, new_hosts, add_host,
}
use shadow_relay.Model.Source.{Source, quarantined, failing}
use shadow_relay.Adapter.Difference.Laws.{difference_quiet, difference_self, IsHostKnown}
use shadow_relay.Adapter.Difference.Counting.{Counts, has_key}
use shadow_relay.Service.Sound.{IsSound}
use shadow_relay.Service.Lifecycle.{source_action_tx}
use shadow_relay.Service.Lifecycle.Soundness.{source_action_tx-IsSound}
use shadow_relay.Service.Probing.{save_probe}
use shadow_relay.Service.Probing.Soundness.{save_probe-IsSound}
use shadow_relay.Service.Probing.Health.{probed_all, probed_all_held, probed_all_failed}
use shadow_relay.Service.Sync.{
  sync_tx, stage_tx, take_document, new_revision, old_revision, is_pending, keep_sample, checked,
  goes_live, is_functional,
}
use shadow_relay.Service.Sync.Soundness.{sync_tx-IsSound, stage_tx-IsSound}
use shadow_relay.Service.Sync.Review.{Served, sync_tx_reviewed}
use shadow_relay.Tests.Fixtures.{
  draws, reader, source, probe, fetched, document, next_document, database, database-IsSound,
}

source_action_tx-IsSound_example :
    IsSound (state (write (source_action_tx draws "src" "approve-enable" "rev_2") database))
source_action_tx-IsSound_example =
    source_action_tx-IsSound draws "src" "approve-enable" "rev_2" database database-IsSound

save_probe-IsSound_example : IsSound (state (save_probe draws source (probe false) database))
save_probe-IsSound_example = save_probe-IsSound draws source (probe false) database database-IsSound

sync_tx-IsSound_example : IsSound (
    state (
      write
        (sync_tx reader draws "src" source fetched "h3" next_document (some (probe true)))
        database))
sync_tx-IsSound_example =
    sync_tx-IsSound reader draws "src" source fetched "h3" next_document (some (probe true))
      database database-IsSound

stage_tx-IsSound_example :
    IsSound (state (write (stage_tx reader draws "src" source "h3" next_document) database))
stage_tx-IsSound_example =
    stage_tx-IsSound reader draws "src" source "h3" next_document database database-IsSound

abbrev synced : Database
synced =
    state
      (sync_tx reader draws "src" source fetched "h3" next_document (some (probe true)) database)

sync_succeeds :
    sync_tx reader draws "src" source fetched "h3" next_document (some (probe true)) database
    ≡ ok tt synced
unfolding get put replace place rows sync_tx take_document new_revision old_revision is_pending
    keep_sample checked goes_live is_functional audit difference entries hosts missing altered size
    new_hosts add_host get_row put_row insert_row list_rows ◌>>=◌ guard when◌run◌or◌
sync_succeeds = refl

source_row : get database.sources "src" ≡ some source
unfolding get
source_row = refl

sync_tx_reviewed_example :
    (u : Source) × (get synced.sources "src" ≡ some u)
    × Served reader database source next_document (some (probe true)) u
sync_tx_reviewed_example =
    sync_tx_reviewed reader draws "src" source fetched "h3" next_document (some (probe true))
      database synced source source_row sync_succeeds

probed_all_failed_example :
    let u = probed_all ((draws, probe false) ∷ (draws, probe false) ∷ []) source in
    (u.failures ≡ 2) × (u.health ≡ failing) × (u.score ≡ 20)
probed_all_failed_example =
    probed_all_failed (draws, probe false) ((draws, probe false) ∷ []) source (refl, (refl, tt))
      refl

probed_all_held_example :
    let u = probed_all ((draws, probe true) ∷ []) (record source { health = quarantined }) in
    (u.health ≡ quarantined) × (u.score ≡ 100)
probed_all_held_example =
    probed_all_held ((draws, probe true) ∷ []) (record source { health = quarantined }) refl

grown_quietly : (difference reader document next_document).requires_review ≡ false
unfolding difference entries hosts missing altered size new_hosts add_host get put replace place
grown_quietly = refl

difference_quiet_example :
    let d = difference reader document next_document in
    let total = size (entries reader document.items []) in
    Counts d.added (λ k. has_key next_document.items k && not (has_key document.items k))
    × Counts d.removed (λ k. has_key document.items k && not (has_key next_document.items k))
    × Counts total (has_key document.items)
    × (d.requires_review ≡ false
        ↔ (((total ≡ 0) ⊎ (5 * d.removed < total)) × IsHostKnown reader document next_document))
difference_quiet_example = difference_quiet reader document next_document

difference_self_example :
    let d = difference reader document document in
    (d.added ≡ 0)
    × (d.removed ≡ 0)
    × (d.changed ≡ 0)
    × (d.domain_changes ≡ [])
    × (d.requires_review ≡ false)
difference_self_example = difference_self reader document
