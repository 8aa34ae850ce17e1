-- ===== src/Service/Removal/Undo.antt =====
-- A soft deletion takes a source out of every set and keeps its revisions, and an undo finds it.
use shadow_relay.Prelude.{
  String, ◌≡◌, refl, some, none, arith, true, false, Bool-cases, inl, inr, eq_iff, ap,
}
use shadow_relay.Store.Table.{get, get-put_same, get-remove, rows}
use shadow_relay.Store.Op.{ok, write}
use shadow_relay.Store.Op.Ensures.{
  Ensures, Ensures-ok, Ensures-bind, Ensures-guard, Ensures-write, Ensures-result, Ensures-weaken,
  Ensures-both,
}
use shadow_relay.Store.Op.Succeeds.{Succeeds, Succeeds-ok, Succeeds-write}
use shadow_relay.Store.Rows.Rules.{
  Ensures-get_row, Ensures-put_row, Ensures-insert_row, Ensures-list_rows,
}
use shadow_relay.Store.Rows.Succeeding.{
  Succeeds-get_row, Succeeds-put_row, Succeeds-insert_row, Succeeds-delete_row,
}
use shadow_relay.Model.Source.{Source, disabled}
use shadow_relay.Model.Publication.{DeletedSource}
use shadow_relay.Model.Database.{Database, sources, audits, source_sets, deleted_sources}
use shadow_relay.Service.Draws.{Draws, audit, new_id}
use shadow_relay.Service.Buckets.{is_aggregate_set_id}
use shadow_relay.Service.Aggregates.{strip_membership}
use shadow_relay.Service.Aggregates.Membership.{Named, IsStripped, strip_membership-IsStripped}
use shadow_relay.Service.Removal.{is_used_by_hand, soft_delete_tx, undo_delete_tx, is_soft_deleted}
use shadow_relay.Service.Removal.Soundness.{strip_membership-Apart}
use shadow_relay.Service.Removal.Gone.{any-rows, IsNoMember}

-- The source is off, in no set, and in the table of the soft-deleted ones; its revisions are there.
pub record Archived (id : String) (d : Database) (v : Source) (t : Database) : Type 0 where
  pub before : get d.sources id ≡ some v
  pub off : Source
  pub off_eq :
      (time : String) × (off ≡ record v { enabled = false; health = disabled; updated_at = time })
  pub row : get t.sources id ≡ some off
  pub tombstone : DeletedSource
  pub deleted : get t.deleted_sources id ≡ some tombstone
  pub admitted : sources.admits t id off ≡ true
  pub revisions : t.revisions ≡ d.revisions
  pub members : IsNoMember id t

-- Where no set made by hand has the source and the aggregates were stripped of it, none has it.
no_member :
    (id : String) (d : Database)
    → IsStripped id d.source_sets
    → is_used_by_hand id (rows d.source_sets) ≡ false
    → IsNoMember id d
unfolding IsStripped is_used_by_hand
no_member id d (named, gone) unused k s e = elim (Bool-cases (is_aggregate_set_id k)) [
  | inl agg ↦ gone k s e agg
  | inr hand ↦
      let here = any-rows _ d.source_sets k s unused e in
      ground (arith, here, hand, named.each k s e, ap is_aggregate_set_id (named.each k s e))
]

pub soft_delete_tx-Archived :
    (w : Draws) (id : String) (d : Database)
    → Named d.source_sets
    → Ensures (Archived id d) (soft_delete_tx w id d)
unfolding soft_delete_tx audit
soft_delete_tx-Archived w id d named = Ensures-get_row sources _ _ d λ v e.
    Ensures-bind
      {P = λ _ t.
        (t.sources ≡ d.sources) × (t.revisions ≡ d.revisions) × IsStripped id t.source_sets}
      (strip_membership w id) _ d
      (Ensures-weaken
        (Ensures-both (strip_membership-Apart w id d) (strip_membership-IsStripped w id d named))
        λ _ t (same, h). (same.0, same.1, h))
      λ _ d1 (ss, rs, stripped). Ensures-list_rows source_sets _ d1 (
        Ensures-guard _ _ _ d1 λ unused.
          let u : Source = record v { enabled = false; health = disabled; updated_at = w.now } in
          Ensures-put_row deleted_sources _ _ _ d1 λ _. Ensures-put_row sources _ _ _ _ λ admitted.
            Ensures-insert_row audits _ _ _ _ λ _ _. Ensures-ok _ _ (record {
              before = e;
              off = u;
              off_eq = (w.now, refl);
              row = get-put_same d1.sources id u;
              tombstone = record { id = id; source = u; deleted_at = w.now };
              deleted = get-put_same d1.deleted_sources id _;
              admitted = admitted;
              revisions = rs;
              members = no_member id d1 stripped (ground arith);
            }))

-- What an undo leaves: the source as it was, but off, with its revisions, and no tombstone.
pub record Restored (id : String) (d : Database) (v u : Source) (t : Database) : Type 0 where
  pub row : get t.sources id ≡ some u
  pub same :
      (time : String) × (u ≡ record v { enabled = false; health = disabled; updated_at = time })
  pub revisions : t.revisions ≡ d.revisions
  pub tombstone : is_soft_deleted id t ≡ false

undo_delete_tx-Succeeds :
    (w : Draws) (id : String) (d t : Database) (v : Source)
    → Archived id d v t
    → get t.audits (new_id w "audit" 0) ≡ none
    → Succeeds (Restored id d v) (undo_delete_tx w id t)
unfolding undo_delete_tx audit is_soft_deleted
undo_delete_tx-Succeeds w id d t v h fresh =
    let u : Source = record h.off { updated_at = w.now } in
    Succeeds-get_row deleted_sources _ _ t h.deleted (
      Succeeds-get_row sources _ _ t h.row (
        Succeeds-delete_row deleted_sources _ _ t h.deleted (
          Succeeds-put_row sources _ _ _ _ h.admitted (
            Succeeds-insert_row audits _ _ _ _ fresh refl (
              Succeeds-ok _ _ (record {
                row = get-put_same t.sources id u;
                same = (w.now, rw h.off_eq.1 refl);
                revisions = h.revisions;
                tombstone = ground (arith, get-remove t.deleted_sources id id, eq_iff id id);
              }))))))

-- where the sets stand under their own ids and a soft deletion of a source succeeds, no set has
-- the source as a member, it is disabled, it has a tombstone, and all revisions are as before;
-- and an undo whose audit has a new id succeeds, after which the source is as before the
-- deletion, but disabled and with a new time of change, all revisions are as before, and it is no
-- longer soft-deleted.
pub undo-soft_delete :
    (w w' : Draws) (id : String) (d t : Database) (v : Source)
    → Named d.source_sets
    → write (soft_delete_tx w id) d ≡ ok v t
    → get t.audits (new_id w' "audit" 0) ≡ none
    → Archived id d v t × Succeeds (Restored id d v) (write (undo_delete_tx w' id) t)
undo-soft_delete w w' id d t v named e fresh =
    let h = Ensures-result _ (Ensures-write _ d (soft_delete_tx-Archived w id d named)) e in
    (h, Succeeds-write _ t (undo_delete_tx-Succeeds w' id d t v h fresh))
