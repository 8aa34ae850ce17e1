-- ===== src/Service/Aggregates.antt =====
-- The memberships of the aggregates: upsertAggregateMember, stripAggregateMembershipTx,
-- ensureAggregateSetTx and ensureAggregateBindingTx of internal/service/aggregate.go.
pub mod Membership
pub mod Joining
use shadow_relay.Prelude.{
  ℕ, String, Bool, true, false, not, ◌&&◌, ◌||◌, none, some, List, [], ◌∷◌, ◌++◌, ◌==◌, ◌<>◌, any,
  keep,
}
use shadow_relay.Prelude.Int.{pos}
use shadow_relay.Store.Table.{get, has}
use shadow_relay.Store.Op.{Op, ok, pure, write, when◌run◌or◌, ◌>>=◌, ◌>>◌}
use shadow_relay.Store.Rows.{put_row, insert_row, list_rows}
use shadow_relay.Model.Source.{Source}
use shadow_relay.Model.Publication.{Member, SourceSet, Binding}
use shadow_relay.Model.Database.{Database, source_sets, bindings, secrets}
use shadow_relay.Service.Draws.{Draws, new_id, audit}
use shadow_relay.Service.Platform.{Platform}
use shadow_relay.Service.Bindings.{formats}
use shadow_relay.Service.Buckets.{
  Bucket, is_aggregate_set_id, aggregate_binding_id, aggregate_token_owner, bucket_by_type,
  aggregate_type_for,
}

unfoldable pub is_member : String → List Member → Bool
is_member sid ms = any (λ m. m.source_id == sid) ms

unfoldable pub without_member : String → List Member → List Member
without_member sid ms = keep (λ m. not (m.source_id == sid)) ms

-- The set after the source has left it.
unfoldable pub stripped : Draws → String → SourceSet → SourceSet
stripped w sid s = record s {
  members = without_member sid s.members;
  updated_at = w.now;
  publish_signature = "";
}

-- The loop over all sets; only aggregates with the source are written.
unfoldable pub strip_sets : Draws → String → List SourceSet → Op Database Unit
strip_sets w sid [] = pure tt
strip_sets w sid (s ∷ ss) = do
  when is_aggregate_set_id s.id && is_member sid s.members
      run put_row source_sets s.id (stripped w sid s)
      or pure tt
  strip_sets w sid ss

unfoldable pub strip_membership : Draws → String → Op Database Unit
strip_membership w sid = do sets ← list_rows source_sets; strip_sets w sid sets

abbrev new_set : Draws → Bucket → SourceSet
new_set w def = record {
  next_publish = "";
  channel_rules = [];
  auto_publish = true;
  min_available = pos 1;
  max_excluded_percent = pos 100;
  publish_signature = "";
  id = def.slug;
  name = def.name;
  description =
      "System aggregate by content type (" <> def.kind
      <> "). Clients subscribe here; do not use for manual SourceSets.";
  members = [];
  current_publication = "";
  previous_publication = "";
  updated_at = w.now;
}

unfoldable pub create_set : Draws → Bucket → Op Database SourceSet
create_set w def = do
  put_row source_sets def.slug (new_set w def)
  audit w 0 "aggregate.set.ensure" def.slug
  pure (new_set w def)

unfoldable pub ensure_set : Draws → Bucket → Op Database SourceSet
ensure_set w def d = elim (get d.source_sets def.slug) [
  | none ↦ create_set w def d
  | some s ↦ ok s d
]

-- `century` is the time in a hundred years.
unfoldable pub ensure_binding : Platform → Draws → String → String → Op Database Unit
ensure_binding pf w century set_id d =
    (when has d.bindings (aggregate_binding_id set_id) run pure tt or do
      insert_row bindings (aggregate_binding_id set_id) (record {
        id = aggregate_binding_id set_id;
        name = "system:" <> set_id;
        set_id = set_id;
        hash = pf.hash w.token;
        formats = formats;
        expires_at = century;
        revoked = false;
        generation = 1;
        created_at = w.now;
      })
      let owner : String = aggregate_token_owner set_id
      put_row secrets owner (record {
        id = owner;
        owner_id = owner;
        ciphertext = pf.seal owner w.token;
        updated_at = w.now;
      })
      audit w 2 "aggregate.binding.ensure" (aggregate_binding_id set_id))
      d

abbrev pub aggregate_member : String → Member
aggregate_member sid = record {
  source_id = sid;
  priority = pos 100;
  weight = pos 1;
  role = "primary";
  min_score = pos 0;
  media_types = [];
  languages = [];
  regions = [];
  devices = [];
  networks = [];
  timeout_ms = pos 15000;
  max_concurrency = pos 2;
}

unfoldable pub upsert_tx : Platform → Draws → String → Bucket → String → Op Database Unit
upsert_tx pf w century def sid = do
  strip_membership w sid
  set ← ensure_set w def
  let joined : SourceSet = record set {
    members = set.members ++ aggregate_member sid ∷ [];
    updated_at = w.now;
    publish_signature = "";
  }
  put_row source_sets set.id joined
  audit w 1 "aggregate.member.add" sid
  ensure_binding pf w century def.slug

unfoldable pub upsert_aggregate_member :
    (String → String) → Platform → Draws → String → Source → Op Database Unit
upsert_aggregate_member to_lower pf w century src = write (
    upsert_tx pf w century
      (bucket_by_type (aggregate_type_for to_lower src.protocol src.media_types)) src.id)
