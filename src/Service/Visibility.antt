-- ===== src/Service/Visibility.antt =====
-- What follows a change of a source: syncAggregateAfterVisibility and ensureAggregatePublished of
-- internal/service/aggregate.go, and with them the whole of SourceAction and DeleteSource
-- (service.go) and SoftDeleteSource (steward.go).
pub mod Soundness
use shadow_relay.Prelude.{
  ℕ, suc, String, Bool, true, false, not, ◌&&◌, ◌||◌, List, [], ◌∷◌, ◌==◌, if◌then◌else◌, keep,
}
use shadow_relay.Store.Op.{
  Error, not_found, conflict, constraint, message, publication, Op, pure, fail, write, rescue,
  when◌run◌or◌, ◌>>=◌, ◌>>◌,
}
use shadow_relay.Store.Rows.{get_row, list_rows, put_row}
use shadow_relay.Model.Source.{Source}
use shadow_relay.Model.Publication.{SourceSet, Publication}
use shadow_relay.Model.Database.{Database, sources, source_sets}
use shadow_relay.Service.Draws.{Draws, audit}
use shadow_relay.Service.Platform.{Platform}
use shadow_relay.Service.Buckets.{
  Bucket, aggregate_buckets, is_aggregate_set_id, bucket_by_type, aggregate_type_for,
}
use shadow_relay.Service.Selection.{is_empty}
use shadow_relay.Service.Publishing.{Encoding, prepare_publication}
use shadow_relay.Service.Jobs.{enqueue_job}
use shadow_relay.Service.Aggregates.{upsert_aggregate_member}
use shadow_relay.Service.Leaving.{remove_from_aggregates, withdraw_aggregate}
use shadow_relay.Service.Lifecycle.{source_action_tx}
use shadow_relay.Service.Removal.{delete_source_tx, soft_delete_tx}

-- Each transaction of an operation draws from its own clock and random source; `draws n` is what
-- the n-th one draws.
pub record Relay : Type 0 where
  pub encoding : Encoding
  pub platform : Platform
  pub to_lower : String → String
  -- `time.Now().AddDate(100, 0, 0)`
  pub century : String
  pub draws : ℕ → Draws

-- Is it a PublicationError? It leaves the current publication in place; others are tried again.
abbrev pub is_publication_error : Error → Bool
is_publication_error (publication m ex) = true
is_publication_error _ = false

abbrev pub is_not_found : Error → Bool
is_not_found not_found = true
is_not_found _ = false

module _ (relay : Relay) where
  -- A set that is gone cannot be queued, which is no error of its own; `errors.Join` is the first.
  unfoldable pub retry_later : ℕ → String → Error → Op Database Unit
  retry_later n id e =
      when is_publication_error e
      run pure tt
      or do j ← rescue (enqueue_job (relay.draws n) "set.publish" id) λ x. fail e; fail e

  unfoldable pub publish_members : ℕ → String → Op Database Unit
  publish_members n id =
      rescue (do p ← prepare_publication relay.encoding (relay.draws n) id false false; pure tt)
        (retry_later (suc n) id)

  -- ensureAggregatePublished, from the n-th transaction on.
  unfoldable pub ensure_aggregate_published : ℕ → String → Op Database Unit
  ensure_aggregate_published n type = do
    let id = (bucket_by_type type).slug
    empty ←
        rescue
          (do
            s ← get_row source_sets id
            pure (if is_empty s.members then "withdraw" else "publish"))
          λ e. when is_not_found e run pure "" or fail e
    when empty == "withdraw"
        run withdraw_aggregate relay.encoding (relay.draws n) id
        or when empty == "publish"
        run publish_members n id
        or pure tt

  abbrev type_of : Source → String
  type_of v = aggregate_type_for relay.to_lower v.protocol v.media_types

  -- syncAggregateAfterVisibility
  unfoldable pub sync_aggregate_after_visibility : ℕ → Source → String → Op Database Unit
  sync_aggregate_after_visibility n v action =
      when action == "enable"
      run (do
        upsert_aggregate_member relay.to_lower relay.platform (relay.draws n) relay.century v
        ensure_aggregate_published (suc n) (type_of v))
      or when action == "disable"
      run (do
        set ← remove_from_aggregates (relay.draws n) v.id
        when set == ""
            run pure tt
            or ensure_aggregate_published (suc n) (bucket_by_type (type_of v)).kind)
      or pure tt

  -- SourceAction
  unfoldable pub source_action : String → String → String → Op Database Unit
  source_action id action revision = do
    (v, done) ← write (source_action_tx (relay.draws 0) id action revision)
    sync_aggregate_after_visibility 1 v done

  -- DeleteSource
  unfoldable pub delete_source : String → Op Database Unit
  delete_source id = do
    v ← write (delete_source_tx (relay.draws 0) id)
    ensure_aggregate_published 1 (type_of v)

  -- SoftDeleteSource
  unfoldable pub soft_delete_source : String → Op Database Unit
  soft_delete_source id = do
    v ← write (soft_delete_tx (relay.draws 0) id)
    ensure_aggregate_published 1 (type_of v)
