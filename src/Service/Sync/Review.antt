-- ===== src/Service/Sync/Review.antt =====
-- What it takes for a document to be served without a review.
use mathlib.Core.Path.{subst}
use shadow_relay.Prelude.{
  String, true, false, ◌≡◌, ◌≢◌, refl, ◌⊎◌, inl, inr, Option, none, some, arith, ◌==◌, eq_iff,
  eq_refl, Bool-cases,
}
use shadow_relay.Store.Table.{get, get-put, get_functional}
use shadow_relay.Store.Op.{ok}
use shadow_relay.Store.Op.Ensures.{
  Ensures, Ensures-ok, Ensures-when, Ensures-guard, Ensures-bind, Ensures-result, Ensures-skip,
}
use shadow_relay.Store.Rows.Rules.{
  Ensures-get_row, Ensures-list_rows, Ensures-put_row, Ensures-insert_row, Ensures_insert_row_last,
  Ensures_get_row_last,
}
use shadow_relay.Model.Source.{Source, Revision, Normalized, Probe}
use shadow_relay.Model.Database.{Database, sources, revisions, probes, audits}
use shadow_relay.Adapter.Difference.{Reader, difference}
use shadow_relay.Service.Draws.{Draws, audit}
use shadow_relay.Service.Sync.{
  Fetched, old_revision, is_pending, is_functional, keep_sample, checked, goes_live, new_revision,
  take_document, sync_tx,
}

-- The revision that was active, read in full.
abbrev WasActive : Database → Source → Revision → Type 0
WasActive d v old = v.active_revision ≢ "" → get d.revisions v.active_revision ≡ some old

old_revision-WasActive :
    (d t : Database) (v : Source)
    → t.revisions ≡ d.revisions
    → Ensures (λ old s. WasActive d v old × (s.revisions ≡ d.revisions)) (old_revision v t)
unfolding old_revision
old_revision-WasActive d t v same =
    Ensures-when (v.active_revision == "") _ _ t
      (λ e. Ensures-ok _ _ ((λ ne. absurd (ne ((eq_iff v.active_revision "").0 e))), same))
      (λ _. Ensures_get_row_last revisions _ t λ r e. ((λ _. rw (← same) e), same))

-- What a source with that policy and active revision needs for the document `n` to go live at once.
pub record Unreviewed (rd : Reader) (d : Database) (policy active : String) (n : Normalized)
    (p : Option Probe) : Type 0 where
  pub automatic : policy ≡ "auto"
  pub sampled : is_functional p ≡ true
  pub old : Revision
  pub was_active : get d.revisions active ≡ some old
  pub small : (difference rd old.normalized n).requires_review ≡ false

abbrev pub Served : Reader → Database → Source → Normalized → Option Probe → Source → Type 0
Served rd d v n p u =
    (u.active_revision ≡ v.active_revision) ⊎ Unreviewed rd d v.update_policy v.active_revision n p

module _ (rd : Reader) (w : Draws) (id : String) (d : Database) (n : Normalized)
    (p : Option Probe) where
  goes_live-Unreviewed :
      (v : Source) (old : Revision)
      → WasActive d v old
      → goes_live v (difference rd old.normalized n) p ≡ true
      → Unreviewed rd d v.update_policy v.active_revision n p
  unfolding goes_live
  goes_live-Unreviewed v old was live = record {
    automatic = ground (arith, eq_iff v.update_policy "auto");
    sampled = ground arith;
    old = old;
    was_active = was (ground (arith, eq_iff v.active_revision ""));
    small = ground arith;
  }

  new_revision-Served :
      (v : Source) (old : Revision) (hash : String) (t : Database)
      → WasActive d v old
      → Ensures (λ u s. Served rd d v n p u) (new_revision rd w id v old hash n p t)
  unfolding new_revision
  new_revision-Served v old hash t was = Ensures-insert_row revisions _ _ _ t λ _ _.
      elim (Bool-cases (goes_live v (difference rd old.normalized n) p)) [
        | inl live ↦ rw live (Ensures-ok _ _ (inr (goes_live-Unreviewed v old was live)))
        | inr waits ↦ rw waits (Ensures-ok _ _ (inl refl))
      ]

  take_document-Served :
      (v : Source) (hash : String) (t : Database)
      → t.revisions ≡ d.revisions
      → Ensures (λ u s. Served rd d v n p u) (take_document rd w id v hash n p t)
  unfolding take_document
  take_document-Served v hash t same =
      Ensures-bind (old_revision v) _ t (old_revision-WasActive d t v same) λ old s (was, _).
        Ensures-list_rows revisions _ s (
          Ensures-skip (is_pending v hash) _ s λ pending s'.
            Ensures-when _ _ _ s' (λ _. Ensures-ok _ _ (inl refl))
              λ _. new_revision-Served v old hash s' was)

keep_sample-revisions :
    (d : Database) (p : Option Probe) → Ensures (λ _ t. t.revisions ≡ d.revisions) (keep_sample p d)
unfolding keep_sample
keep_sample-revisions d none = Ensures-ok _ _ refl
keep_sample-revisions d (some p) = Ensures_insert_row_last probes _ _ d λ _ _. refl

-- where the transaction of a sync succeeds, the active revision of the source is the one before,
-- or its policy is automatic, a functional sample succeeded, and the difference of the new
-- document from the old active revision asks for no review.
pub sync_tx_reviewed :
    (rd : Reader) (w : Draws) (id : String) (src : Source) (res : Fetched) (hash : String)
    (n : Normalized) (p : Option Probe) (d t : Database) (v : Source)
    → get d.sources id ≡ some v
    → sync_tx rd w id src res hash n p d ≡ ok tt t
    → (u : Source) × (get t.sources id ≡ some u) × Served rd d v n p u
unfolding sync_tx audit checked
sync_tx_reviewed rd w id src res hash n p d t v here done = Ensures-result _ ends done
  where
    ends :
        Ensures
          (λ _ s. (u : Source) × (get s.sources id ≡ some u) × Served rd d v n p u)
          (sync_tx rd w id src res hash n p d)
    ends = Ensures-get_row sources _ _ d λ v' e. Ensures-guard _ _ _ d λ _.
        Ensures-bind (keep_sample p) _ d (keep_sample-revisions d p) λ _ s same.
          Ensures-bind {P = λ u s. Served rd d v' n p u} _ _ s
            (Ensures-when _ _ _ s (λ _. Ensures-ok _ _ (inl refl))
              λ _. take_document-Served rd w id d n p (checked w res v') hash s same)
            λ u s' served. Ensures-put_row sources _ _ _ s' λ _.
              Ensures_insert_row_last audits _ _ _ λ _ _. (
                record u { updated_at = w.now },
                rw get-put (rw eq_refl),
                subst (λ x. Served rd d x n p u) (get_functional d.sources id v' v e here) served,
              )
