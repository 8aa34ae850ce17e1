-- ===== src/Tests/Aggregates.antt =====
-- The theorems on aggregates at the inputs of Tests/Fixtures.
use shadow_relay.Prelude.{String, ◌≡◌, refl, [], trim_space, ◌∷◌}
use shadow_relay.Store.Table.{get, put, replace, place, rows, cons_cases, nil_cases}
use shadow_relay.Store.Op.{state, write, ok, ◌>>=◌, when◌run◌or◌}
use shadow_relay.Store.Rows.{put_row, insert_row, list_rows}
use shadow_relay.Model.Database.{Database, is_hash_free}
use shadow_relay.Service.Draws.{audit}
use shadow_relay.Service.Buckets.{
  is_aggregate_set_id, bucket_by_type, aggregate_type_for, find_bucket, type_of_protocol,
}
use shadow_relay.Service.Aggregates.{
  strip_sets, strip_membership, create_set, ensure_set, ensure_binding, upsert_tx,
  upsert_aggregate_member,
}
use shadow_relay.Service.Aggregates.Membership.{Named}
use shadow_relay.Service.Aggregates.Joining.{JoinedOnce, upsert_aggregate_member-JoinedOnce}
use shadow_relay.Service.Subscriptions.{
  Addresses, aggregate_subscribe, known_formats, default_formats_for, prefix_of, trim_slashes,
  add_addresses, add_address, has_client, formats_of,
}
use shadow_relay.Tests.Fixtures.{draws, platform, source, set, database}

abbrev century : String
century = "2126-01-01T00:00:00Z"

abbrev joined_database : Database
joined_database = state (upsert_aggregate_member (λ s. s) platform draws century source database)

joining_succeeds :
    upsert_aggregate_member (λ s. s) platform draws century source database ≡ ok tt joined_database
unfolding upsert_aggregate_member upsert_tx strip_membership strip_sets ensure_set create_set
    ensure_binding is_aggregate_set_id bucket_by_type find_bucket aggregate_type_for
    type_of_protocol trim_space get put replace place rows put_row insert_row list_rows audit
    is_hash_free ◌>>=◌ when◌run◌or◌ write
joining_succeeds = refl

sets-Named : Named database.source_sets
sets-Named = record { each = cons_cases (λ k s. s.id ≡ k) "set" set [] refl (nil_cases _) }

upsert_aggregate_member-JoinedOnce_example :
    JoinedOnce "src"
      (bucket_by_type (aggregate_type_for (λ s. s) source.protocol source.media_types)).slug
      joined_database.source_sets
upsert_aggregate_member-JoinedOnce_example =
    upsert_aggregate_member-JoinedOnce (λ s. s) platform draws century source database
      joined_database sets-Named joining_succeeds

-- The address of the playlist comes before that of the document.
television_addresses :
    (aggregate_subscribe "https://relay.example/" "tok" "iptv" []).urls
    ≡ "https://relay.example/p/tok/iptv/live.m3u" ∷ "https://relay.example/p/tok/shadow.json" ∷ []
unfolding aggregate_subscribe known_formats default_formats_for prefix_of trim_slashes add_addresses
    add_address has_client formats_of
television_addresses = refl

abbrev addressed : Addresses
addressed = aggregate_subscribe "https://relay.example/" "tok" "iptv" []

abbrev address_prefix : String
address_prefix = prefix_of "https://relay.example/" "tok"

abbrev token : String
token = "tok"
