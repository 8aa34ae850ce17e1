-- ===== src/Service/Intake/Soundness.antt =====
-- Importing a source keeps the sources and their revisions in order.
use shadow_relay.Prelude.{String, refl, ◌≡◌, ◌∙◌, false}
use shadow_relay.Store.Op.{state, write}
use shadow_relay.Store.Op.Ensures.{Ensures-ok, Ensures-bind, write-keeps}
use shadow_relay.Store.Rows.Rules.{Ensures-insert_row}
use shadow_relay.Store.Table.{put}
use shadow_relay.Model.Source.{Source, Normalized, staged}
use shadow_relay.Model.Database.{Database, sources, revisions, audits}
use shadow_relay.Adapter.Difference.{Reader}
use shadow_relay.Service.Draws.{Draws, audit, new_id, new_id-ne}
use shadow_relay.Service.Sound.{IsSound, SourceOk, Sound-add, Backed-here}
use shadow_relay.Service.Intake.{
  Site, SourceInput, new_source, first_revision, import_tx, validate_runtime, save_secret,
  put_endpoint,
}
use shadow_relay.Service.Intake.Reads.{
  validate_runtime-Reads, save_secret-Apart, put_endpoint-Apart,
}
use mathlib.Core.Bool.{false≢true}

-- A new source and its first revision, which waits.
pub new_source-Ok :
    (rd : Reader) (w : Draws) (v : Source) (hash : String) (n : Normalized) (d : Database)
    → v.active_revision ≡ ""
    → v.enabled ≡ false
    → let rev = first_revision rd w v.id hash n in
      v.staged_revision ≡ rev.id → SourceOk (put d.revisions rev.id rev) v.id v
new_source-Ok rd w v hash n d a e s =
    let rev = first_revision rd w v.id hash n in
    rw (a, e, s)
      (record {
        named = refl;
        active = λ ne. absurd (ne refl);
        staged = λ _. Backed-here d.revisions v.id staged rev.id rev refl refl;
        live = λ x. absurd (false≢true x);
      })

-- the transaction of an import, whether it succeeds or fails, keeps the database sound in the
-- sense of source_action_tx-IsSound.
pub import_tx-IsSound :
    (site : Site) (rd : Reader) (w : Draws) (i : SourceInput) (hash : String) (n : Normalized)
    → (d : Database) → IsSound d
    → IsSound (state (write (import_tx site rd w i hash n) d))
unfolding import_tx audit new_source
import_tx-IsSound site rd w i hash n d start = write-keeps IsSound _ d start λ h.
    let rev = first_revision rd w (new_id w "src" 0) hash n in
    let v : Source = record (new_source w i n) { staged_revision = rev.id } in
    let here : SourceOk (put d.revisions rev.id rev) v.id v =
      new_source-Ok rd w v hash n d refl refl refl in
    Ensures-bind (validate_runtime site v) _ d (validate_runtime-Reads site v d) λ _ d1 e1. rw e1 (
      Ensures-insert_row sources _ _ _ d λ _ _.
        let d2 : Database = record d { sources = put d.sources v.id v } in
        Ensures-insert_row revisions _ _ _ d2 λ fresh _.
          let d3 : Database = record d2 { revisions = put d.revisions rev.id rev } in
          let all : IsSound d3 =
            Sound-add d.sources d.revisions v.id v rev.id rev h fresh (new_id-ne w "rev" 1) refl
              here in
          Ensures-bind (save_secret site w v.id i.headers) _ d3
            (save_secret-Apart site w v.id i.headers d3)
            λ _ d4 e4. Ensures-bind (put_endpoint v) _ d4 (put_endpoint-Apart v d4) λ _ d5 e5.
              Ensures-insert_row audits _ _ _ d5
                λ _ _. Ensures-ok _ _ (rw (e5.0 ∙ e4.0, e5.1 ∙ e4.1) all))
