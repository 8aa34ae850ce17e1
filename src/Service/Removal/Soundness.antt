-- ===== src/Service/Removal/Soundness.antt =====
-- Deleting a source, for good or softly, and taking a soft deletion back keep the others in order.
use shadow_relay.Prelude.{
  String, refl, ◌≡◌, ◌≢◌, ◌∙◌, arith, false, some, List, [], ◌∷◌, Bool, eq_iff, ◌==◌,
}
use shadow_relay.Store.Table.{Table, get, remove, remove_where, get-remove}
use shadow_relay.Store.Op.{state, write}
use shadow_relay.Store.Op.Ensures.{
  Ensures, Ensures-ok, Ensures-bind, Ensures-guard, Ensures-when, Ensures-weaken, write-keeps,
}
use shadow_relay.Store.Rows.Rules.{
  Ensures-get_row, Ensures-put_row, Ensures-insert_row, Ensures_put_row_last, Ensures-list_rows,
  Ensures-delete_row, Ensures-discard_row,
}
use shadow_relay.Model.Source.{Source, Revision, RevisionStatus, disabled}
use shadow_relay.Model.Publication.{SourceSet}
use shadow_relay.Model.Database.{
  Database, sources, audits, source_sets, secrets, deleted_sources, cascade_source,
}
use shadow_relay.Service.Draws.{Draws, audit}
use shadow_relay.Service.Sound.{IsSound, Sound, SourceOk, Sound-put, IsKeyed, Backed}
use shadow_relay.Service.Aggregates.{strip_sets, strip_membership}
use shadow_relay.Service.Intake.Reads.{Apart}
use shadow_relay.Service.Removal.{delete_source_tx, soft_delete_tx, undo_delete_tx}
use mathlib.Core.Bool.{false≢true}

strip_sets-Apart :
    (w : Draws) (sid : String) (ss : List SourceSet) (d : Database)
    → Ensures (Apart d) (strip_sets w sid ss d)
unfolding strip_sets
strip_sets-Apart w sid [] d = Ensures-ok _ _ (refl, refl, refl)
strip_sets-Apart w sid (s ∷ ss) d =
    Ensures-bind {P = Apart d} _ _ d
      (Ensures-when _ _ _ d (λ _. Ensures_put_row_last source_sets _ _ d λ _. (refl, refl, refl))
        λ _. Ensures-ok _ _ (refl, refl, refl))
      λ _ t e.
        Ensures-weaken (strip_sets-Apart w sid ss t) λ _ u f. (f.0 ∙ e.0, f.1 ∙ e.1, f.2 ∙ e.2)

pub strip_membership-Apart :
    (w : Draws) (sid : String) (d : Database) → Ensures (Apart d) (strip_membership w sid d)
unfolding strip_membership
strip_membership-Apart w sid d = Ensures-list_rows source_sets _ d (strip_sets-Apart w sid _ d)

-- What a test passes over stays.
get-remove_where :
    (p : Revision → Bool) (t : Table Revision) (k : String) (r : Revision)
    → get t k ≡ some r
    → p r ≡ false
    → get (remove_where p t) k ≡ some r
unfolding get remove_where
get-remove_where p [] k r e n = cc
get-remove_where p ((j, q) ∷ t) k r e n = ground (arith, get-remove_where p t k r, eq_iff j k)

IsKeyed-remove_where :
    (p : Revision → Bool) (t : Table Revision) → IsKeyed t → IsKeyed (remove_where p t)
unfolding remove_where
IsKeyed-remove_where p [] h = tt
IsKeyed-remove_where p ((j, q) ∷ t) h = ground (arith, IsKeyed-remove_where p t h.2)

Backed-remove_where :
    (t : Table Revision) (k id : String) (s : RevisionStatus) (rid : String)
    → id ≢ k
    → Backed t k s rid
    → Backed (remove_where (λ r. r.source_id == id) t) k s rid
Backed-remove_where t k id s rid ne (r, e, st, own) = (
  r,
  get-remove_where (λ q. q.source_id == id) t rid r e (ground (arith, eq_iff r.source_id id)),
  st,
  own,
)

-- A source goes with all its revisions.
pub Sound-remove :
    (ss : Table Source) (t : Table Revision) (id : String)
    → Sound ss t
    → Sound (remove ss id) (remove_where (λ r. r.source_id == id) t)
Sound-remove ss t id h = record {
  keyed = IsKeyed-remove_where (λ r. r.source_id == id) t h.keyed;
  each = λ k v e.
      let ne : id ≢ k = ground (arith, get-remove ss id k, eq_iff id k) in
      let old = h.each k v (ground (arith, get-remove ss id k, eq_iff id k)) in
      record {
        named = old.named;
        active = λ n. Backed-remove_where t k id _ _ ne (old.active n);
        staged = λ n. Backed-remove_where t k id _ _ ne (old.staged n);
        live = old.live;
      };
}

-- the transaction that deletes a source for good, whether it succeeds or fails, keeps the database
-- sound in the sense of source_action_tx-IsSound.
pub delete_source_tx-IsSound :
    (w : Draws) (id : String) (d : Database)
    → IsSound d
    → IsSound (state (write (delete_source_tx w id) d))
unfolding delete_source_tx audit cascade_source
delete_source_tx-IsSound w id d start = write-keeps IsSound _ d start λ h.
    Ensures-get_row sources _ _ d λ v _.
      Ensures-bind (strip_membership w id) _ d (strip_membership-Apart w id d) λ _ d1 e1.
        Ensures-list_rows source_sets _ d1 (
          Ensures-guard _ _ _ d1 λ _. Ensures-delete_row sources _ _ d1 λ _ _.
            Ensures-discard_row secrets _ _ _ (
              Ensures-insert_row audits _ _ _ _
                λ _ _. Ensures-ok _ _ (rw (e1.0, e1.1) (Sound-remove d.sources d.revisions id h))))

off-Ok :
    (t : Table Revision) (k : String) (v u : Source)
    → u.id ≡ v.id
    → u.active_revision ≡ v.active_revision
    → u.staged_revision ≡ v.staged_revision
    → u.enabled ≡ false
    → SourceOk t k v
    → SourceOk t k u
off-Ok t k v u i a s n h =
    rw (i, a, s, n)
      (record {
        named = h.named;
        active = h.active;
        staged = h.staged;
        live = λ x. absurd (false≢true x);
      })

-- the transaction of a soft deletion, whether it succeeds or fails, keeps the database sound.
pub soft_delete_tx-IsSound :
    (w : Draws) (id : String) (d : Database)
    → IsSound d
    → IsSound (state (write (soft_delete_tx w id) d))
unfolding soft_delete_tx audit
soft_delete_tx-IsSound w id d start = write-keeps IsSound _ d start λ h.
    Ensures-get_row sources _ _ d λ v e.
      Ensures-bind (strip_membership w id) _ d (strip_membership-Apart w id d) λ _ d1 e1.
        Ensures-list_rows source_sets _ d1 (
          Ensures-guard _ _ _ d1 λ _.
            let u : Source = record v { enabled = false; health = disabled; updated_at = w.now } in
            let mine : SourceOk d.revisions id u =
              off-Ok d.revisions id v u refl refl refl refl (h.each id v e) in
            Ensures-put_row deleted_sources _ _ _ d1 λ _. Ensures-put_row sources _ _ _ _ λ _.
              Ensures-insert_row audits _ _ _ _ λ _ _.
                Ensures-ok _ _ (rw (e1.0, e1.1) (Sound-put d.sources d.revisions id u h mine)))

-- the transaction that takes a soft deletion back, whether it succeeds or fails, keeps the
-- database sound.
pub undo_delete_tx-IsSound :
    (w : Draws) (id : String) (d : Database)
    → IsSound d
    → IsSound (state (write (undo_delete_tx w id) d))
unfolding undo_delete_tx audit
undo_delete_tx-IsSound w id d start = write-keeps IsSound _ d start λ h.
    Ensures-get_row deleted_sources _ _ d λ _ _. Ensures-get_row sources _ _ d λ v e.
      Ensures-delete_row deleted_sources _ _ d λ _ _. Ensures-put_row sources _ _ _ _ λ _.
        Ensures-insert_row audits _ _ _ _ λ _ _.
          Ensures-ok _ _
            (Sound-put d.sources d.revisions id (record v { updated_at = w.now }) h (h.each id v e))
