-- ===== src/Service/Intake/Live.antt =====
-- An ordinary import by the operator goes live at once: Import, followed by the SourceAction that
-- autoEnableImport asks for.
use mathlib.Core.Path.{subst}
use shadow_relay.Prelude.{sym, String, ◌≡◌, ◌≢◌, ◌∙◌, refl, true, some, none, arith, sym}
use shadow_relay.Store.Table.{get, put, get-put_same}
use shadow_relay.Store.Op.{ok, state, write, Op, pure, ◌>>=◌, when◌run◌or◌, state}
use shadow_relay.Store.Op.Ensures.{Ensures, Ensures-ok, Ensures-bind, Ensures-result, write-eq-ok}
use shadow_relay.Store.Op.Succeeds.{Succeeds, Succeeds-bind, Succeeds-yes, Succeeds-ok}
use shadow_relay.Store.Rows.Rules.{Ensures-insert_row}
use shadow_relay.Model.Source.{Source, Normalized}
use shadow_relay.Model.Database.{Database, sources, revisions, audits}
use shadow_relay.Adapter.Difference.{Reader}
use shadow_relay.Service.Draws.{Draws, audit, new_id, new_id-ne}
use shadow_relay.Service.Sound.{IsSound}
use shadow_relay.Service.Lifecycle.{source_action_tx}
use shadow_relay.Service.Lifecycle.Enabling.{Enabled, approve_enable-Succeeds}
use shadow_relay.Service.Intake.{
  Site, SourceInput, new_source, first_revision, import_tx, validate_runtime, save_secret,
  put_endpoint, auto_enable_import,
}
use shadow_relay.Service.Intake.Reads.{
  validate_runtime-Reads, save_secret-Apart, put_endpoint-Apart,
}
use shadow_relay.Service.Intake.Soundness.{import_tx-IsSound}
use mathlib.Core.Path.{subst, sym}

-- The imported source as the transaction leaves it.
record Imported (w : Draws) (v : Source) (t : Database) : Type 0 where
  pub row : get t.sources v.id ≡ some v
  pub staged : v.staged_revision ≡ new_id w "rev" 1
  pub admitted : sources.admits t v.id v ≡ true

import_tx-Imported :
    (site : Site) (rd : Reader) (w : Draws) (i : SourceInput) (hash : String) (n : Normalized)
    → (d : Database) → Ensures (Imported w) (import_tx site rd w i hash n d)
unfolding import_tx audit new_source
import_tx-Imported site rd w i hash n d =
    let rev = first_revision rd w (new_id w "src" 0) hash n in
    let v : Source = record (new_source w i n) { staged_revision = rev.id } in
    Ensures-bind (validate_runtime site v) _ d (validate_runtime-Reads site v d) λ _ d1 e1. rw e1 (
      Ensures-insert_row sources _ _ _ d λ _ admitted.
        let d2 : Database = record d { sources = put d.sources v.id v } in
        Ensures-insert_row revisions _ _ _ d2 λ fresh _.
          let d3 : Database = record d2 { revisions = put d.revisions rev.id rev } in
          Ensures-bind (save_secret site w v.id i.headers) _ d3
            (save_secret-Apart site w v.id i.headers d3)
            λ _ d4 e4. Ensures-bind (put_endpoint v) _ d4 (put_endpoint-Apart v d4) λ _ d5 e5.
              Ensures-insert_row audits _ _ _ d5 λ _ _. Ensures-ok _ _ (record {
                row = rw (e5.0 ∙ e4.0) (get-put_same d.sources v.id v);
                staged = refl;
                admitted = ground (arith, admitted, e5.2, e4.2);
              }))

-- `if autoEnableImport(src) { s.SourceAction(ctx, src.ID, "approve-enable", src.StagedRevision) }`:
-- the two transactions of Import. Each draws its own ids.
unfoldable pub import_source :
    Site → Reader → Draws → Draws → SourceInput → String → Normalized → Op Database Source
import_source site rd w w' i hash n = do
  v ← write (import_tx site rd w i hash n)
  when auto_enable_import v
      run (do
        (u, done) ← write (source_action_tx w' v.id "approve-enable" v.staged_revision)
        pure u)
      or pure v

-- where the database is sound, the first transaction of an import succeeds with a source that
-- autoEnableImport takes, and the ids of the two audits of the second transaction are new and
-- differ, the second transaction succeeds too, and then the source is enabled, its active
-- revision is the one of the import, which is approved, and nothing is staged.
pub import_goes_live :
    (site : Site) (rd : Reader) (w w' : Draws) (i : SourceInput) (hash : String) (n : Normalized)
    → (d t : Database) (v : Source) → IsSound d
    → write (import_tx site rd w i hash n) d ≡ ok v t
    → auto_enable_import v ≡ true
    → (get t.audits (new_id w' "audit" 0) ≡ none) × (get t.audits (new_id w' "audit" 1) ≡ none)
    → new_id w' "audit" 0 ≢ new_id w' "audit" 1
    → Succeeds (Enabled v.id (new_id w "rev" 1)) (import_source site rd w w' i hash n d)
unfolding import_source
import_goes_live site rd w w' i hash n d t v h e auto fresh apart =
    let got = Ensures-result _ (import_tx-Imported site rd w i hash n d) (write-eq-ok _ d e) in
    let sound : IsSound t =
      subst (λ o. IsSound (state o)) e (import_tx-IsSound site rd w i hash n d h) in
    let waits : v.staged_revision ≢ "" = λ x. new_id-ne w "rev" 1 (sym got.staged ∙ x) in
    let first : Succeeds (λ a x. (a ≡ v) × (x ≡ t)) (write (import_tx site rd w i hash n) d) =
      record { value = v; after = t; equation = e; holds = (refl, refl) } in
    Succeeds-bind _ _ d first λ a x p.
      rw (p.0, p.1)
        (Succeeds-yes _ _ t auto (
          Succeeds-bind _ _ t
            (approve_enable-Succeeds w' v.id v t sound got.row waits got.admitted fresh apart)
            λ y z k. Succeeds-ok _ _ (rw (← got.staged) k)))
