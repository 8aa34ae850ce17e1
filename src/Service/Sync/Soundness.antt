-- ===== src/Service/Sync/Soundness.antt =====
-- A sync, and an edit of a local document, leave every source and its revisions in order.
use shadow_relay.Prelude.{String, refl, Option, none, some, Bool-cases, inl, inr}
use shadow_relay.Store.Table.{put}
use shadow_relay.Store.Op.{state, write}
use shadow_relay.Store.Op.Ensures.{
  Ensures, Ensures-ok, Ensures-when, Ensures-guard, Ensures-bind, write-keeps,
}
use shadow_relay.Store.Rows.Rules.{
  Ensures-get_row, Ensures-list_rows, Ensures-put_row, Ensures-insert_row, Ensures_insert_row_last,
  Ensures_get_row_last,
}
use shadow_relay.Model.Source.{Source, Revision, Normalized, Probe}
use shadow_relay.Model.Database.{Database, sources, revisions, probes, audits}
use shadow_relay.Adapter.Difference.{Reader, difference}
use shadow_relay.Service.Draws.{Draws, audit, new_id, new_id-ne}
use shadow_relay.Service.Sound.{
  SourceOk, Sound, IsSound, Sound-add, Sound-put, RefsOk-promote, RefsOk-stage,
}
use shadow_relay.Service.Sync.{
  Fetched, old_revision, is_pending, keep_sample, checked, new_revision, goes_live, take_document,
  sync_tx, stage_tx,
}

module _ {κ} (P : Database → Type κ) (d : Database) (h : P d) where
  -- The steps that only read.
  old_revision_reads : (v : Source) → Ensures (λ _ t. P t) (old_revision v d)
  unfolding old_revision
  old_revision_reads v =
      Ensures-when _ _ _ d (λ _. Ensures-ok _ _ h)
        (λ _. Ensures_get_row_last revisions _ d λ _ _. h)

  is_pending_reads : (v : Source) (hash : String) → Ensures (λ _ t. P t) (is_pending v hash d)
  unfolding is_pending
  is_pending_reads v hash =
      Ensures-when _ _ _ d (λ _. Ensures-ok _ _ h)
        (λ _. Ensures-get_row revisions _ _ d λ _ _. Ensures-ok _ _ h)

-- A source that may take a new document.
abbrev IsReady : String → Source → Database → Type 0
IsReady id v d = IsSound d × (SourceOk d.revisions id v)

keep_sample-IsReady :
    (id : String) (v : Source) (p : Option Probe) (d : Database)
    → IsReady id v d
    → Ensures (λ _ t. IsReady id v t) (keep_sample p d)
unfolding keep_sample
keep_sample-IsReady id v none d h = Ensures-ok _ _ h
keep_sample-IsReady id v (some p) d h = Ensures_insert_row_last probes _ _ d λ _ _. h

module _ (rd : Reader) (w : Draws) (id : String) where
  -- Writing the source back at the end makes the database sound.
  abbrev Settled : Source → Database → Type 0
  Settled u d = Sound (put d.sources id (record u { updated_at = w.now })) d.revisions

  new_revision-Settled :
      (v : Source) (old : Revision) (hash : String) (n : Normalized) (p : Option Probe)
      (d : Database)
      → IsReady id v d
      → Ensures Settled (new_revision rd w id v old hash n p d)
  unfolding new_revision
  new_revision-Settled v old hash n p d (h, mine) = Ensures-insert_row revisions _ _ _ d λ fresh _.
      elim (Bool-cases (goes_live v (difference rd old.normalized n) p)) [
        | inl live ↦ rw live (
            Ensures-ok _ _ (
              Sound-add d.sources d.revisions id _ (new_id w "rev" 0) _ h fresh
                (new_id-ne w "rev" 0) refl
                (RefsOk-promote _ (new_id w "rev" 0) _ mine (new_id-ne w "rev" 0) refl refl)))
        | inr waits ↦ rw waits (
            Ensures-ok _ _ (
              Sound-add d.sources d.revisions id _ (new_id w "rev" 0) _ h fresh
                (new_id-ne w "rev" 0) refl
                (RefsOk-stage _ (new_id w "rev" 0) _ mine fresh refl refl)))
      ]

  take_document-Settled :
      (v : Source) (hash : String) (n : Normalized) (p : Option Probe) (d : Database)
      → IsReady id v d
      → Ensures Settled (take_document rd w id v hash n p d)
  unfolding take_document
  take_document-Settled v hash n p d h =
      Ensures-bind (old_revision v) _ d (old_revision_reads (IsReady id v) d h v) λ old t h.
        Ensures-list_rows revisions _ t (
          Ensures-bind (is_pending v hash) _ t (is_pending_reads (IsReady id v) t h v hash)
            λ pending s (sound, mine).
              Ensures-when _ _ _ s
                (λ _. Ensures-ok _ _ (Sound-put s.sources s.revisions id _ sound mine))
                λ _. new_revision-Settled v old hash n p s (sound, mine))

  -- the transaction of a sync, whether it succeeds or fails, keeps the database sound in the
  -- sense of source_action_tx-IsSound.
  pub sync_tx-IsSound :
      (src : Source) (res : Fetched) (hash : String) (n : Normalized) (p : Option Probe)
      → (d : Database) → IsSound d
      → IsSound (state (write (sync_tx rd w id src res hash n p) d))
  unfolding sync_tx audit checked
  sync_tx-IsSound src res hash n p d start = write-keeps IsSound _ d start λ h.
      Ensures-get_row sources _ _ d λ v e. Ensures-guard _ _ _ d λ _.
        Ensures-bind (keep_sample p) _ d (keep_sample-IsReady id v p d (h, h.each id v e))
          λ _ t ready.
            Ensures-bind _ _ t
              (Ensures-when _ _ _ t
                (λ _. Ensures-ok _ _ (Sound-put t.sources t.revisions id _ ready.0 ready.1))
                (λ _. take_document-Settled (checked w res v) hash n p t ready))
              λ u s settled.
                Ensures-put_row sources _ _ _ s
                  λ _. Ensures_insert_row_last audits _ _ _ λ _ _. settled

  -- the transaction that stages edited content, whether it succeeds or fails, keeps the database
  -- sound in the sense of source_action_tx-IsSound.
  pub stage_tx-IsSound :
      (src : Source) (hash : String) (n : Normalized)
      → (d : Database) → IsSound d
      → IsSound (state (write (stage_tx rd w id src hash n) d))
  unfolding stage_tx audit
  stage_tx-IsSound src hash n d start = write-keeps IsSound _ d start λ h.
      Ensures-get_row sources _ _ d λ v e. Ensures-guard _ _ _ d λ _.
        Ensures-bind (old_revision v) _ d (old_revision_reads (IsReady id v) d (h, h.each id v e) v)
          λ old t ready.
            Ensures-bind (is_pending v hash) _ t (is_pending_reads (IsReady id v) t ready v hash)
              λ again s (sound, mine).
                Ensures-when _ _ _ s (λ _. Ensures_get_row_last revisions _ s λ _ _. sound)
                  λ _. Ensures-guard _ _ _ s λ _. Ensures-insert_row revisions _ _ _ s λ fresh _.
                    Ensures-put_row sources _ _ _ _ λ _. Ensures-insert_row audits _ _ _ _ λ _ _.
                      Ensures-ok _ _ (
                        Sound-add s.sources s.revisions id _ (new_id w "rev" 0) _ sound fresh
                          (new_id-ne w "rev" 0) refl
                          (RefsOk-stage _ (new_id w "rev" 0) _ mine fresh refl refl))
