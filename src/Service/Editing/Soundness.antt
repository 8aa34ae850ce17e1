-- ===== src/Service/Editing/Soundness.antt =====
-- Edits and new credentials keep the sources and their revisions in order.
use shadow_relay.Prelude.{String, Option, ◌≡◌, arith}
use shadow_relay.Store.Table.{has}
use shadow_relay.Store.Op.{state, write}
use shadow_relay.Store.Op.Ensures.{
  Ensures, Ensures-ok, Ensures-bind, Ensures-guard, Ensures-when, write-keeps,
}
use shadow_relay.Store.Rows.Rules.{
  Ensures-get_row, Ensures-put_row, Ensures-insert_row, Ensures_put_row_last,
  Ensures_insert_row_last,
}
use shadow_relay.Security.Headers.{Headers}
use shadow_relay.Model.Source.{Source}
use shadow_relay.Model.Database.{Database, sources, runtimes, audits}
use shadow_relay.Service.Draws.{Draws, audit}
use shadow_relay.Service.Sound.{IsSound, SourceOk, Sound-put}
use shadow_relay.Service.Intake.{Site, SourceInput, validate_runtime, save_secret}
use shadow_relay.Service.Intake.Reads.{validate_runtime-Reads, save_secret-Apart}
use shadow_relay.Service.Editing.{
  edited, unproven, edit_source_tx, touch_runtime, touch_source, set_headers_tx, set_headers,
}

pub unproven-refs :
    (w : Draws) (v : Source)
    → let u = unproven w v in
      (u.active_revision ≡ v.active_revision)
      × (u.staged_revision ≡ v.staged_revision)
      × (u.id ≡ v.id)
      × (u.enabled ≡ v.enabled)
      × (u.protocol ≡ v.protocol)
      × (u.url ≡ v.url)
      × (u.catalog_id ≡ v.catalog_id)
unfolding unproven
unproven-refs w v = (
  ground arith,
  ground arith,
  ground arith,
  ground arith,
  ground arith,
  ground arith,
  ground arith,
)

unproven-Ok :
    (w : Draws) (id : String) (v : Source) (d : Database)
    → SourceOk d.revisions id v
    → SourceOk d.revisions id (unproven w v)
unproven-Ok w id v d h = let (a, s, i, n, _, _, _) = unproven-refs w v in rw (a, s, i, n) h

-- the transaction of an edit, whether it succeeds or fails, keeps the database sound in the sense
-- of source_action_tx-IsSound.
pub edit_source_tx-IsSound :
    (site : Site) (w : Draws) (id : String) (i : SourceInput)
    → (d : Database) → IsSound d
    → IsSound (state (write (edit_source_tx site w id i) d))
unfolding edit_source_tx audit edited
edit_source_tx-IsSound site w id i d start = write-keeps IsSound _ d start λ h.
    Ensures-get_row sources _ _ d λ v e. Ensures-guard _ _ _ d λ _. Ensures-guard _ _ _ d λ _.
      let u = edited i v in
      let mine : SourceOk d.revisions id (unproven w u) = unproven-Ok w id u d (h.each id v e) in
      Ensures-bind (validate_runtime site u) _ d (validate_runtime-Reads site u d) λ _ d1 e1.
        rw e1 (
          Ensures-bind (save_secret site w id i.headers) _ d
            (save_secret-Apart site w id i.headers d)
            λ _ d2 e2. Ensures-put_row sources _ _ _ d2 λ _.
              Ensures-insert_row audits _ _ _ _ λ _ _.
                Ensures-ok _ _
                  (rw (e2.0, e2.1) (Sound-put d.sources d.revisions id (unproven w u) h mine)))

touch_source-IsSound :
    (w : Draws) (id : String) (d : Database)
    → IsSound d
    → Ensures (λ _ t. IsSound t) (touch_source w id d)
unfolding touch_source
touch_source-IsSound w id d h = Ensures-get_row sources _ _ d λ v e.
    Ensures_put_row_last sources _ _ d λ _.
      Sound-put d.sources d.revisions id (unproven w v) h (unproven-Ok w id v d (h.each id v e))

touch_runtime-IsSound :
    (w : Draws) (id : String) (d : Database)
    → IsSound d
    → Ensures (λ _ t. IsSound t) (touch_runtime w id d)
unfolding touch_runtime
touch_runtime-IsSound w id d h =
    Ensures-get_row runtimes _ _ d λ _ _. Ensures_put_row_last runtimes _ _ d λ _. h

-- new credentials for a source or a runtime, whether they are taken or refused, keep the database
-- sound.
pub set_headers-IsSound :
    (site : Site) (w : Draws) (id : String) (h : Option Headers)
    → (d : Database) → IsSound d
    → IsSound (state (set_headers site w id h d))
unfolding set_headers set_headers_tx audit
set_headers-IsSound site w id h d start = write-keeps IsSound _ d start λ s.
    Ensures-bind _ _ d
      (Ensures-when (has d.sources id) _ _ d (λ _. touch_source-IsSound w id d s)
        λ _. touch_runtime-IsSound w id d s)
      λ _ d1 s1.
        Ensures-bind (save_secret site w id h) _ d1 (save_secret-Apart site w id h d1)
          λ _ d2 e2. Ensures_insert_row_last audits _ _ d2 λ _ _. rw (e2.0, e2.1) s1
