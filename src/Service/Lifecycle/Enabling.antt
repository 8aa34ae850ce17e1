-- ===== src/Service/Lifecycle/Enabling.antt =====
-- A staged revision can always be approved and enabled, and then it is what the source serves.
use shadow_relay.Prelude.{
  if◌then◌else◌, String, ◌≡◌, ◌≢◌, refl, true, some, none, arith, ◌==◌, eq_iff, ◌∙◌,
}
use shadow_relay.Store.Table.{get, put, get-put_same, get-put_other}
use shadow_relay.Store.Op.{write}
use shadow_relay.Store.Op.Succeeds.{
  Succeeds, Succeeds-ok, Succeeds-yes, Succeeds-guard, Succeeds-write, Succeeds-bind,
}
use shadow_relay.Store.Rows.Succeeding.{Succeeds-get_row, Succeeds-put_row, Succeeds-insert_row}
use shadow_relay.Model.Source.{Source, Revision, approved, staged}
use shadow_relay.Model.Database.{Database, sources, revisions, audits}
use shadow_relay.Service.Draws.{Draws, audit, new_id}
use shadow_relay.Service.Sound.{IsSound, Backed, IsKeyed-get, Backed-here, get_own}
use shadow_relay.Service.Lifecycle.{approved_source, approve, act, source_action_tx}

-- The source is enabled, serves that revision, and waits for nothing.
pub record Enabled (id rid : String) (u : Source) (d : Database) : Type 0 where
  pub row : get d.sources id ≡ some u
  pub enabled : u.enabled ≡ true
  pub serves : u.active_revision ≡ rid
  pub waits : u.staged_revision ≡ ""
  pub revision : Backed d.revisions id approved rid

enabling-fields :
    (r : Revision) (v : Source)
    → let u = approved_source "approve-enable" r v in
      (u.active_revision ≡ r.id)
      × (u.enabled ≡ true)
      × (u.runtime_id ≡ v.runtime_id)
      × (u.catalog_id ≡ v.catalog_id)
      × (u.staged_revision ≡ (if r.id == v.staged_revision then "" else v.staged_revision))
unfolding approved_source
enabling-fields r v = (ground arith, ground arith, ground arith, ground arith, ground arith)

module _ (w : Draws) (id : String) (v : Source) (d : Database) (row : get d.sources id ≡ some v)
    (admitted : sources.admits d id v ≡ true)
    (fresh : (get d.audits (new_id w "audit" 0) ≡ none)
      × (get d.audits (new_id w "audit" 1) ≡ none))
    (apart : new_id w "audit" 0 ≢ new_id w "audit" 1) where
  module _ (r : Revision) (found : get d.revisions r.id ≡ some r) (same : r.id ≡ v.staged_revision)
      (waits : v.staged_revision ≢ "") (status : r.status ≡ staged) (own : r.source_id ≡ id) where
    approve-Succeeds :
        (Q : Source × String → Database → Type 0)
        → ((t : Database)
            → t.sources ≡ d.sources
            → t.runtimes ≡ d.runtimes
            → t.catalogs ≡ d.catalogs
            → get t.audits (new_id w "audit" 1) ≡ none
            → t.revisions ≡ put d.revisions r.id (record r { status = approved })
            → Q (approved_source "approve-enable" r v, "enable") t)
        → Succeeds Q (act w id "approve-enable" v.staged_revision v d)
    unfolding act approve audit
    approve-Succeeds Q k = Succeeds-yes _ _ d refl (
        Succeeds-guard _ _ d
          (ground (arith, eq_iff v.staged_revision "", eq_iff v.staged_revision v.staged_revision))
          (Succeeds-get_row revisions _ _ d {v = r} (ground (arith, found, same)) (
            Succeeds-guard _ _ d ((eq_iff r.source_id id).1 own) (
              Succeeds-guard _ _ d (rw status refl) (
                Succeeds-guard _ _ d (rw status refl) (
                  Succeeds-guard _ _ d refl (
                    Succeeds-put_row revisions _ _ _ d (ground (arith, row, own)) (
                      Succeeds-yes _ _ _ refl (
                        Succeeds-insert_row audits _ _ _ _ fresh.0 refl (
                          Succeeds-ok _ _ (
                            k _ refl refl refl (get-put_other d.audits _ _ _ apart ∙ fresh.1)
                              refl)))))))))))

    -- What SourceAction leaves when the staged revision is approved and enabled.
    enable-Succeeds :
        Succeeds
          (λ x t. Enabled id v.staged_revision x.0 t)
          (source_action_tx w id "approve-enable" v.staged_revision d)
    unfolding source_action_tx audit
    enable-Succeeds =
        let (a, n, rt, c, s) = enabling-fields r v in
        Succeeds-get_row sources _ _ d {v = v} row (
          Succeeds-bind
            {P = λ x t.
              (x ≡ (approved_source "approve-enable" r v, "enable"))
              × (t.sources ≡ d.sources)
              × (t.runtimes ≡ d.runtimes)
              × (t.catalogs ≡ d.catalogs)
              × (get t.audits (new_id w "audit" 1) ≡ none)
              × (t.revisions ≡ put d.revisions r.id (record r { status = approved }))}
            (act w id "approve-enable" v.staged_revision v) _ d
            (approve-Succeeds _ λ t x y z f q. (refl, x, y, z, f, q))
            λ x t (e, ss, rts, cs, f, q). rw e (
              let u : Source = record (approved_source "approve-enable" r v) {
                updated_at = w.now;
              } in
              Succeeds-put_row sources _ _ _ t (ground (arith, rts, cs, rt, c, admitted)) (
                Succeeds-insert_row audits _ _ _ _ f refl (
                  Succeeds-ok _ _ (record {
                    row = get-put_same t.sources id u;
                    enabled = n;
                    serves = a ∙ same;
                    waits = s ∙ ground (arith, same, eq_iff r.id v.staged_revision);
                    revision = rw q (
                        rw (← same) (
                          Backed-here d.revisions id approved r.id (record r { status = approved })
                            refl own));
                  })))))

-- where the database is sound and holds a source with a staged revision whose references are in
-- place, and the ids of the two audits are new and differ, approving and enabling the staged
-- revision succeeds, and then the source is enabled, its active revision is that revision, which
-- is approved, and nothing is staged.
pub approve_enable-Succeeds :
    (w : Draws) (id : String) (v : Source) (d : Database)
    → IsSound d
    → get d.sources id ≡ some v
    → v.staged_revision ≢ ""
    → sources.admits d id v ≡ true
    → (get d.audits (new_id w "audit" 0) ≡ none) × (get d.audits (new_id w "audit" 1) ≡ none)
    → new_id w "audit" 0 ≢ new_id w "audit" 1
    → Succeeds
        (λ x t. Enabled id v.staged_revision x.0 t)
        (write (source_action_tx w id "approve-enable" v.staged_revision) d)
approve_enable-Succeeds w id v d h row waits admitted fresh apart =
    let (r, e, status, own) = (h.each id v row).staged waits in
    let (same, _) = IsKeyed-get d.revisions v.staged_revision r h.keyed e in
    Succeeds-write _ d (
      enable-Succeeds w id v d row admitted fresh apart r
        (get_own d.revisions v.staged_revision r h.keyed e) same waits status own)
