-- ===== src/Service/Probing/Soundness.antt =====
-- The outcome of a probe changes neither the revisions nor what is served of a source.
use mathlib.Core.Path.{subst}
use shadow_relay.Prelude.{◌≡◌, arith, sym}
use shadow_relay.Store.Op.{state}
use shadow_relay.Store.Op.Ensures.{Ensures-guard, write-keeps}
use shadow_relay.Store.Rows.Rules.{Ensures-get_row, Ensures_put_row_last, Ensures-insert_row}
use shadow_relay.Model.Source.{Source, Probe}
use shadow_relay.Model.Database.{sources, probes, Database}
use shadow_relay.Service.Draws.{Draws}
use shadow_relay.Service.Sound.{SourceOk, IsSound, Sound-put}
use shadow_relay.Service.Probing.{probed, save_probe, save_probe_tx}

-- A probe leaves the references of a source.
pub probed-refs :
    (w : Draws) (p : Probe) (v : Source)
    → let u = probed w p v in
      (u.active_revision ≡ v.active_revision)
      × (u.staged_revision ≡ v.staged_revision)
      × (u.id ≡ v.id)
      × (u.enabled ≡ v.enabled)
unfolding probed
probed-refs w p v = (ground arith, ground arith, ground arith, ground arith)

-- saving the outcome of a probe, whether it succeeds or fails, keeps the database sound in the
-- sense of source_action_tx-IsSound.
pub save_probe-IsSound :
    (w : Draws) (src : Source) (p : Probe)
    → (d : Database) → IsSound d
    → IsSound (state (save_probe w src p d))
unfolding save_probe save_probe_tx
save_probe-IsSound w src p d start = write-keeps IsSound _ d start λ h.
    Ensures-get_row sources _ _ d λ v e. Ensures-guard _ _ _ d λ same.
      Ensures-insert_row probes _ _ _ d λ _ _. Ensures_put_row_last sources _ _ _ λ _.
        let old = h.each src.id v e in
        let (a, s, i, l) = probed-refs w p v in
        Sound-put d.sources d.revisions v.id _ h
          (rw (a, s, i, l) (subst (λ k. SourceOk d.revisions k v) (sym old.named) old))
