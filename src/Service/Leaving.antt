-- ===== src/Service/Leaving.antt =====
-- How sources leave the aggregates, and how an empty aggregate is withdrawn: removeFromAggregates
-- and withdrawAggregatePublication of internal/service/aggregate.go.
pub mod Pointed
use shadow_relay.Prelude.{ℕ, suc, String, Bool, true, false, not, ◌&&◌, List, [], ◌∷◌, ◌==◌}
use shadow_relay.Store.Op.{Op, pure, write, when◌run◌or◌, ◌>>=◌, ◌>>◌}
use shadow_relay.Store.Rows.{get_row, put_row, insert_row, list_rows}
use shadow_relay.Model.Publication.{SourceSet, Publication}
use shadow_relay.Model.Database.{Database, source_sets, publications}
use shadow_relay.Service.Draws.{Draws, audit}
use shadow_relay.Service.Buckets.{is_aggregate_set_id}
use shadow_relay.Service.Selection.{is_empty}
use shadow_relay.Service.Publishing.{Encoding, empty_publication, advance}
use shadow_relay.Service.Aggregates.{is_member, stripped}

-- The loop over the sets, with the number of audits so far and the last set that was changed.
unfoldable pub remove_sets : Draws → String → ℕ → String → List SourceSet → Op Database String
remove_sets w sid n touched [] = pure touched
remove_sets w sid n touched (s ∷ ss) =
    when is_aggregate_set_id s.id && is_member sid s.members
    run (do
      put_row source_sets s.id (stripped w sid s)
      audit w n "aggregate.member.remove" sid
      remove_sets w sid (suc n) s.id ss)
    or remove_sets w sid n touched ss

unfoldable pub remove_from_aggregates_tx : Draws → String → Op Database String
remove_from_aggregates_tx w sid = do sets ← list_rows source_sets; remove_sets w sid 0 "" sets

unfoldable pub remove_from_aggregates : Draws → String → Op Database String
remove_from_aggregates w sid = write (remove_from_aggregates_tx w sid)

unfoldable pub withdraw_aggregate_tx : Encoding → Draws → String → Op Database Unit
withdraw_aggregate_tx enc w set_id = do
  set ← get_row source_sets set_id
  when not (is_empty set.members)
      run pure tt
      or when set.publish_signature == "empty-aggregate" && not (set.current_publication == "")
      run pure tt
      or do
        let p : Publication = empty_publication enc w (record set { id = set_id }) []
        insert_row publications p.id p
        put_row source_sets set.id (advance enc w p.id "empty-aggregate" set)
        audit w 1 "aggregate.withdraw" set_id

unfoldable pub withdraw_aggregate : Encoding → Draws → String → Op Database Unit
withdraw_aggregate enc w set_id = write (withdraw_aggregate_tx enc w set_id)
