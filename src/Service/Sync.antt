-- ===== src/Service/Sync.antt =====
-- SyncSource of internal/service/service.go and StageContent of content.go: how a new document of
-- a source becomes a revision, which waits for review or, under the `auto` policy, goes live.
pub mod Soundness
pub mod Review
use shadow_relay.Prelude.{
  ℕ, String, Bool, true, false, not, ◌&&◌, ◌||◌, Option, none, some, List, [], ◌∷◌, ◌==◌, eqb,
  if◌then◌else◌, any,
}
use shadow_relay.Store.Op.{
  Error, conflict, message, Op, pure, fail, guard, when◌run◌or◌, ◌>>=◌, ◌>>◌,
}
use shadow_relay.Store.Rows.{get_row, put_row, insert_row, list_rows}
use shadow_relay.Model.Source.{
  Source, Revision, Normalized, Diff, Probe, staged, approved, is_rejected, is_quarantined,
  empty_normalized,
}
use shadow_relay.Model.Database.{Database, sources, revisions, probes}
use shadow_relay.Adapter.Difference.{Reader, difference}
use shadow_relay.Service.Draws.{Draws, new_id, audit}

-- `fetch.Result`, less the body, which has been read.
pub record Fetched : Type 0 where
  pub status : ℕ
  pub etag : String
  pub last_modified : String

-- The old revision of the comparisons: `model.Revision{}` where none is active.
abbrev empty_diff : Diff
empty_diff = record {
  added = 0;
  removed = 0;
  changed = 0;
  domain_changes = [];
  requires_review = false;
}

abbrev no_revision : Revision
no_revision = record {
  id = "";
  source_id = "";
  hash = "";
  normalized = empty_normalized;
  status = staged;
  diff = empty_diff;
  created_at = "";
}

unfoldable pub old_revision : Source → Op Database Revision
old_revision v =
    when v.active_revision == "" run pure no_revision or get_row revisions v.active_revision

-- The fields that every completed sync sets; an answer 304 keeps the validators it does not give.
unfoldable pub checked : Draws → Fetched → Source → Source
checked w res v = record v {
  last_checked = w.now;
  next_sync = w.later v.interval_minutes;
  etag = if not (eqb res.status 304) || not (res.etag == "") then res.etag else v.etag;
  last_modified =
      if not (eqb res.status 304) || not (res.last_modified == "")
      then res.last_modified
      else v.last_modified;
}

-- `sample != nil && sample.Success && sample.Level == "functional"`
unfoldable pub is_functional : Option Probe → Bool
is_functional none = false
is_functional (some p) = p.success && p.level == "functional"

-- May the new revision go live without a review?
unfoldable pub goes_live : Source → Diff → Option Probe → Bool
unfolding is_functional
goes_live v diff sample =
    v.update_policy == "auto"
    && not diff.requires_review
    && not (v.active_revision == "")
    && not (is_quarantined v.health)
    && is_functional sample

-- Was this document rejected before?
abbrev pub rejected_before : String → String → Revision → Bool
rejected_before id hash r = r.source_id == id && r.hash == hash && is_rejected r.status

unfoldable pub is_pending : Source → String → Op Database Bool
is_pending v hash =
    when v.staged_revision == ""
    run pure false
    or (do p ← get_row revisions v.staged_revision; pure (p.hash == hash))

unfoldable pub keep_sample : Option Probe → Op Database Unit
keep_sample none = pure tt
keep_sample (some p) = insert_row probes p.id p

module _ (rd : Reader) (w : Draws) (id : String) where
  -- The branch for a document that is not known yet.
  unfoldable pub new_revision :
      Source → Revision → String → Normalized → Option Probe → Op Database Source
  new_revision v old hash n sample = do
    let diff = difference rd old.normalized n
    let live = goes_live v diff sample
    let r : Revision = record {
      id = new_id w "rev" 0;
      source_id = id;
      hash = hash;
      normalized = n;
      status = if live then approved else staged;
      diff = diff;
      created_at = w.now;
    }
    insert_row revisions r.id r
    pure (
        if live
        then record v { active_revision = r.id; staged_revision = "" }
        else record v { staged_revision = r.id })

  -- `if hash != "" { … }`
  unfoldable pub take_document : Source → String → Normalized → Option Probe → Op Database Source
  take_document v hash n sample = do
    old ← old_revision v
    known ← list_rows revisions
    pending ← is_pending v hash
    when old.hash == hash || any (rejected_before id hash) known || pending
        run pure v
        or new_revision v old hash n sample

  -- The transaction at the end of SyncSource: `src` is the source as it was before the fetch, and
  -- `hash` is "" where the answer was 304.
  unfoldable pub sync_tx : Source → Fetched → String → Normalized → Option Probe → Op Database Unit
  sync_tx src res hash n sample = do
    v ← get_row sources id
    guard (v.updated_at == src.updated_at) conflict
    keep_sample sample
    u ← when hash == "" run pure (checked w res v) or take_document (checked w res v) hash n sample
    put_row sources id (record u { updated_at = w.now })
    audit w 1 "source.sync" id

  -- The transaction of StageContent: an edited local document always waits for review.
  unfoldable pub stage_tx : Source → String → Normalized → Op Database Revision
  stage_tx src hash n = do
    current ← get_row sources id
    guard (current.updated_at == src.updated_at) conflict
    old ← old_revision current
    again ← is_pending current hash
    when again run get_row revisions current.staged_revision or (do
      guard (not (old.hash == hash)) (message "content is identical to the active revision")
      let r : Revision = record {
        id = new_id w "rev" 0;
        source_id = id;
        hash = hash;
        normalized = n;
        status = staged;
        diff = difference rd old.normalized n;
        created_at = w.now;
      }
      insert_row revisions r.id r
      put_row sources id (record current { staged_revision = r.id; updated_at = w.now })
      audit w 1 "source.content.stage" id
      pure r)
