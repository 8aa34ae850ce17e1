-- ===== src/Tests/Tokens.antt =====
-- The theorems on the tokens of bindings at the inputs of Tests/Fixtures.
use shadow_relay.Prelude.{◌≢◌, some, refl, ◌≡◌, [], eq_iff, arith}
use shadow_relay.Store.Table.{get, put, replace, place, remove, cons_cases, nil_cases, IsDistinct}
use shadow_relay.Store.Op.{state, write, not_found, ok, err, ◌>>=◌, guard, when◌run◌or◌}
use shadow_relay.Store.Rows.{get_row, put_row, insert_row, discard_row}
use shadow_relay.Model.Database.{Database, is_hash_free}
use shadow_relay.Service.Draws.{audit}
use shadow_relay.Service.Buckets.{is_aggregate_set_id}
use shadow_relay.Service.Bindings.{
  find_by_hash, find_binding, find_artifact, open_artifact, is_path_allowed, is_future,
  wanted_publication, resolve, binding_action, binding_action_tx, revoke, rotate,
}
use shadow_relay.Service.Bindings.Access.{IsHashUnique, revoked_token_dead, rotated_token_dead}
use shadow_relay.Service.Bindings.Grants.{Grant, resolve_granted}
use shadow_relay.Tests.Fixtures.{draws, platform, old_token, binding, artifact, database}

binding_row : get database.bindings "bind" ≡ some binding
unfolding get
binding_row = refl

pub bindings-IsDistinct : IsDistinct database.bindings
unfolding get
bindings-IsDistinct = (refl, tt)

bindings-IsHashUnique : IsHashUnique database.bindings
bindings-IsHashUnique j k b c f g same =
    let j_here = cons_cases (λ x _. x ≡ "bind") "bind" binding [] refl (nil_cases _) j b f in
    let k_here = cons_cases (λ x _. x ≡ "bind") "bind" binding [] refl (nil_cases _) k c g in cc

abbrev after_revoke : Database
after_revoke = state (binding_action platform draws "bind" "revoke" database)

revoking_succeeds : binding_action platform draws "bind" "revoke" database ≡ ok "" after_revoke
unfolding get put replace place remove write ◌>>=◌ guard when◌run◌or◌ get_row put_row insert_row
    discard_row audit is_hash_free is_aggregate_set_id binding_action binding_action_tx revoke
revoking_succeeds = refl

revoked_token_dead_example :
    resolve platform draws old_token "" "shadow.json" after_revoke ≡ err not_found after_revoke
revoked_token_dead_example =
    revoked_token_dead platform draws draws "bind" "" old_token "" "shadow.json" database
      after_revoke binding bindings-IsDistinct bindings-IsHashUnique binding_row refl
      revoking_succeeds

abbrev after_rotate : Database
after_rotate = state (binding_action platform draws "bind" "rotate" database)

rotating_succeeds :
    binding_action platform draws "bind" "rotate" database ≡ ok draws.token after_rotate
unfolding get put replace place remove write ◌>>=◌ guard when◌run◌or◌ get_row put_row insert_row
    discard_row audit is_hash_free is_aggregate_set_id binding_action binding_action_tx rotate
    is_future
rotating_succeeds = refl

new_hash-ne : platform.hash draws.token ≢ platform.hash old_token
new_hash-ne e = ground (
  arith,
  e,
  eq_iff "#1234567890123456789012345678901234567890123"
      "#abcdefghijabcdefghijabcdefghijabcdefghijabc",
)

rotated_token_dead_example :
    resolve platform draws old_token "" "shadow.json" after_rotate ≡ err not_found after_rotate
rotated_token_dead_example =
    rotated_token_dead platform draws draws "bind" draws.token old_token "" "shadow.json" database
      after_rotate binding bindings-IsDistinct bindings-IsHashUnique binding_row refl new_hash-ne
      rotating_succeeds

resolving_succeeds :
    resolve platform draws old_token "" "shadow.json" database ≡ ok artifact database
unfolding get ◌>>=◌ guard when◌run◌or◌ get_row resolve find_by_hash find_binding is_future
    is_path_allowed wanted_publication open_artifact find_artifact
resolving_succeeds = refl

resolve_granted_example :
    (database ≡ database) × Grant platform draws database old_token "" "shadow.json" artifact
resolve_granted_example =
    resolve_granted platform draws old_token "" "shadow.json" database database artifact
      bindings-IsDistinct resolving_succeeds
