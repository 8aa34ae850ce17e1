-- ===== src/Service/Editing/Kept.antt =====
-- What an edit leaves as it was.
use shadow_relay.Prelude.{String, ◌≡◌, ◌≢◌, ◌∙◌, some, ap}
use shadow_relay.Store.Table.{get, get-put_same, get-put_other}
use shadow_relay.Store.Op.{ok}
use shadow_relay.Store.Op.Ensures.{
  Ensures, Ensures-ok, Ensures-bind, Ensures-guard, Ensures-write, Ensures-result,
}
use shadow_relay.Store.Rows.Rules.{Ensures-get_row, Ensures-put_row, Ensures-insert_row}
use shadow_relay.Model.Source.{Source}
use shadow_relay.Model.Database.{Database, sources, audits}
use shadow_relay.Service.Draws.{Draws, audit}
use shadow_relay.Service.Intake.{Site, SourceInput, validate_runtime, save_secret}
use shadow_relay.Service.Intake.Reads.{validate_runtime-Reads, save_secret-Apart}
use shadow_relay.Service.Intake.Ranges.{defaults-Ensures}
use shadow_relay.Service.Editing.{edited, unproven, edit_source_tx, edit_source}
use shadow_relay.Service.Editing.Soundness.{unproven-refs}

-- The source `out` that an edit leaves: what it serves and where it comes from are the same, the
-- other sources and the revisions are too.
pub record Kept (id : String) (d : Database) (out : Source) (t : Database) : Type 0 where
  pub old : Source
  pub before : get d.sources id ≡ some old
  pub after : get t.sources id ≡ some out
  pub active : out.active_revision ≡ old.active_revision
  pub staged : out.staged_revision ≡ old.staged_revision
  pub enabled : out.enabled ≡ old.enabled
  pub protocol : out.protocol ≡ old.protocol
  pub url : out.url ≡ old.url
  pub others : (j : String) → id ≢ j → get t.sources j ≡ get d.sources j
  pub revisions : t.revisions ≡ d.revisions

edit_source_tx-Kept :
    (site : Site) (w : Draws) (id : String) (i : SourceInput) (d : Database)
    → Ensures (Kept id d) (edit_source_tx site w id i d)
unfolding edit_source_tx audit edited
edit_source_tx-Kept site w id i d = Ensures-get_row sources _ _ d λ v e. Ensures-guard _ _ _ d λ _.
    Ensures-guard _ _ _ d λ _.
      let u = edited i v in
      let (a, s, _, n, p, l, _) = unproven-refs w u in
      Ensures-bind (validate_runtime site u) _ d (validate_runtime-Reads site u d) λ _ d1 e1.
        rw e1 (
          Ensures-bind (save_secret site w id i.headers) _ d
            (save_secret-Apart site w id i.headers d)
            λ _ d2 e2. Ensures-put_row sources _ _ _ d2 λ _.
              Ensures-insert_row audits _ _ _ _ λ _ _. Ensures-ok _ _ (record {
                old = v;
                before = e;
                after = get-put_same d2.sources id (unproven w u);
                active = a;
                staged = s;
                enabled = n;
                protocol = p;
                url = l;
                others = λ j ne.
                    get-put_other d2.sources id j (unproven w u) ne ∙ ap (λ x. get x j) e2.0;
                revisions = e2.1;
              }))

-- where an edit of a source succeeds, the source keeps its protocol, its URL, its active and its
-- staged revision and whether it is enabled, and the other sources and all revisions are as they
-- were.
pub edit_source_keeps :
    (site : Site) (w : Draws) (id : String) (request : SourceInput) (d t : Database) (out : Source)
    → edit_source site w id request d ≡ ok out t
    → Kept id d out t
unfolding edit_source
edit_source_keeps site w id request d t out e =
    Ensures-result {Q = Kept id d} _
      (Ensures-bind _ _ d (defaults-Ensures site.urls request d)
        λ i x (_, same, _). rw same (Ensures-write _ d (edit_source_tx-Kept site w id i d)))
      e
