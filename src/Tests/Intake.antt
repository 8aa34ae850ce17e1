-- ===== src/Tests/Intake.antt =====
-- The theorems on the intake, the edits and the removal of sources at concrete inputs.
use shadow_relay.Prelude.{
  ◌≡◌, ◌≢◌, refl, none, some, true, false, [], ◌∷◌, trim_space, trim_left, trim_right, contains_any,
  arith, eq_iff,
}
use shadow_relay.Prelude.Int.{pos}
use shadow_relay.Store.Op.{state, write, ok, ◌>>=◌, guard, when◌run◌or◌}
use shadow_relay.Store.Op.Succeeds.{Succeeds}
use shadow_relay.Store.Table.{get, put, replace, place, remove, remove_where, rows, nil_cases}
use shadow_relay.Store.Rows.{get_row, put_row, insert_row, list_rows, delete_row, discard_row}
use shadow_relay.Security.{Url, is_safe_url, is_plain_url}
use shadow_relay.Security.Headers.{
  validate_headers, header_error, is_token, is_token_char, is_bad_header,
}
use shadow_relay.Fetch.Proxy.{validate_proxy}
use shadow_relay.Adapter.Registry.{base, find_description}
use shadow_relay.Adapter.Difference.{
  difference, entries, hosts, missing, altered, new_hosts, add_host,
}
use shadow_relay.Model.Source.{Source}
use shadow_relay.Model.Database.{Database, cascade_source}
use shadow_relay.Service.Draws.{Draws, audit, new_id}
use shadow_relay.Service.Connectors.{is_connector, connector, find_connector}
use shadow_relay.Service.Aggregates.{strip_membership, strip_sets}
use shadow_relay.Service.Aggregates.Membership.{Named}
use shadow_relay.Service.Intake.{
  Site, SourceInput, filled, is_proxy_mode, check_input, defaults, is_compiled_rule, default_mode,
  new_source, needs_runtime, check_runtime, validate_runtime, save_secret, auto_enable_import,
  put_endpoint, import_tx,
}
use shadow_relay.Service.Intake.Ranges.{InRange, defaults-InRange}
use shadow_relay.Service.Intake.Live.{import_source, import_goes_live}
use shadow_relay.Service.Lifecycle.Enabling.{Enabled, approve_enable-Succeeds}
use shadow_relay.Service.Lifecycle.{source_action_tx}
use shadow_relay.Service.Preview.{World}
use shadow_relay.Service.Editing.{edited, unproven, edit_source_tx, edit_source}
use shadow_relay.Service.Editing.Kept.{Kept, edit_source_keeps}
use shadow_relay.Service.Removal.{
  is_used, is_used_by_hand, delete_source_tx, soft_delete_tx, undo_delete_tx,
}
use shadow_relay.Service.Removal.Gone.{Gone, delete_source_tx-Gone}
use shadow_relay.Service.Removal.Undo.{Archived, Restored, undo-soft_delete}
use shadow_relay.Service.Sound.{IsSound}
use shadow_relay.Service.Steps.{
  acting, importing, editing, soft_deleting, undoing, source_steps, source_steps-IsSound,
}
use shadow_relay.Service.Visibility.{Relay}
use shadow_relay.Tests.Fixtures.{
  encoding, platform, draws, reader, source, document, database, database-IsSound,
}

abbrev address : Url
address = record {
  scheme = "https";
  host = "host";
  has_user = false;
  fragment = "";
  query = some [];
}

abbrev pub site : Site
site = record {
  urls = record { parse = λ s. some address; to_lower = λ s. s };
  profiles = [];
  seal_headers = λ h owner. owner;
}

abbrev pub world : World
world = record {
  fetch_body = λ url p h. some "body";
  parse = λ body protocol url. some document;
  service_text = λ protocol url. url;
  snapshot = λ body. some "h9";
}

-- A request with no more than a name, and what defaults makes of it.
abbrev pub request : SourceInput
request = record {
  proxy_id = none;
  hub_proxy_mode = none;
  probe_interval_minutes = pos 0;
  smoke_keyword = "";
  hub_plugin_id = "";
  name = " a source ";
  url = "https://host/list";
  content = "";
  protocol = "m3u";
  network = "";
  trust = "";
  mode = "";
  runtime_id = "";
  media_types = [];
  update_policy = "";
  interval_minutes = pos 0;
  headers = some (("X-Key", "v") ∷ []);
}

abbrev complete : SourceInput
complete = record request {
  name = "a source";
  network = "internet";
  trust = "reviewed";
  update_policy = "review";
  interval_minutes = pos 360;
}

defaults_succeed : defaults {S = Database} site.urls request database ≡ ok complete database
unfolding defaults filled check_input trim_space trim_left trim_right is_safe_url is_plain_url
    contains_any is_proxy_mode validate_headers header_error is_token is_token_char is_bad_header
    guard ◌>>=◌
defaults_succeed = refl

defaults-InRange_example : (database ≡ database) × InRange site.urls complete
defaults-InRange_example =
    defaults-InRange site.urls request complete database database defaults_succeed

-- The imported source, before and after it goes live.
abbrev imported : Source
imported = record (new_source draws complete document) { staged_revision = "rev_b" }

abbrev import_database : Database
import_database = state (import_tx site reader draws complete "h9" document database)

import_succeeds :
    write (import_tx site reader draws complete "h9" document) database
    ≡ ok imported import_database
unfolding import_tx new_source default_mode is_connector connector find_connector is_compiled_rule
    validate_runtime validate_proxy check_runtime needs_runtime base find_description save_secret
    validate_headers header_error is_token is_token_char is_bad_header contains_any put_endpoint
    difference entries hosts missing altered new_hosts add_host get put replace place rows get_row
    put_row insert_row audit ◌>>=◌ guard when◌run◌or◌ write
import_succeeds = refl

audit_ids_differ : new_id draws "audit" 0 ≢ new_id draws "audit" 1
audit_ids_differ e = ground (arith, eq_iff "audit_a" "audit_b", e)

no_audit :
    (get import_database.audits "audit_a" ≡ none) × (get import_database.audits "audit_b" ≡ none)
unfolding import_tx new_source default_mode is_connector connector find_connector is_compiled_rule
    validate_runtime validate_proxy check_runtime needs_runtime base find_description save_secret
    validate_headers header_error is_token is_token_char is_bad_header contains_any put_endpoint
    difference entries hosts missing altered new_hosts add_host get put replace place rows get_row
    put_row insert_row audit ◌>>=◌ guard when◌run◌or◌ write
no_audit = (refl, refl)

goes_live_at_once : auto_enable_import imported ≡ true
unfolding auto_enable_import new_source
goes_live_at_once = refl

import_goes_live_example :
    Succeeds
      (Enabled imported.id (new_id draws "rev" 1))
      (import_source site reader draws draws complete "h9" document database)
import_goes_live_example =
    import_goes_live site reader draws draws complete "h9" document database import_database
      imported database-IsSound import_succeeds goes_live_at_once no_audit audit_ids_differ

source_row : get database.sources "src" ≡ some source
unfolding get
source_row = refl

waits : source.staged_revision ≢ ""
waits e = ground (arith, eq_iff "rev_2" "", e)

no_audits : (get database.audits "audit_a" ≡ none) × (get database.audits "audit_b" ≡ none)
unfolding get
no_audits = (refl, refl)

approve_enable-Succeeds_example :
    Succeeds
      (λ x t. Enabled "src" "rev_2" x.0 t)
      (write (source_action_tx draws "src" "approve-enable" "rev_2") database)
approve_enable-Succeeds_example =
    approve_enable-Succeeds draws "src" source database database-IsSound source_row waits refl
      no_audits audit_ids_differ

abbrev relay : Relay
relay = record {
  encoding = encoding;
  platform = platform;
  to_lower = λ s. s;
  century = "2126-01-01T00:00:00Z";
  draws = λ n. draws;
}

source_steps-IsSound_example : IsSound (
    source_steps
      (importing site world reader draws draws request
        ∷ editing site draws "src" request
        ∷ soft_deleting relay "src"
        ∷ undoing draws "src"
        ∷ acting relay "src" "approve-enable" "rev_2"
        ∷ [])
      database)
source_steps-IsSound_example =
    source_steps-IsSound
      (importing site world reader draws draws request
        ∷ editing site draws "src" request
        ∷ soft_deleting relay "src"
        ∷ undoing draws "src"
        ∷ acting relay "src" "approve-enable" "rev_2"
        ∷ [])
      database database-IsSound

abbrev edited_source : Source
edited_source = unproven draws (edited complete source)

abbrev edited_database : Database
edited_database = state (edit_source site draws "src" request database)

edit_succeeds : edit_source site draws "src" request database ≡ ok edited_source edited_database
unfolding edit_source edit_source_tx defaults filled check_input trim_space trim_left trim_right
    is_safe_url is_plain_url contains_any is_proxy_mode validate_headers header_error is_token
    is_token_char is_bad_header edited unproven validate_runtime validate_proxy check_runtime
    is_connector connector find_connector is_compiled_rule needs_runtime base find_description
    save_secret get put replace place get_row put_row insert_row audit ◌>>=◌ guard when◌run◌or◌
    write
edit_succeeds = refl

edit_source_keeps_example : Kept "src" database edited_source edited_database
edit_source_keeps_example =
    edit_source_keeps site draws "src" request database edited_database edited_source edit_succeeds

-- The database without the set, so that nothing uses the source.
abbrev unused_database : Database
unused_database = record database { source_sets = []; publications = []; bindings = [] }

abbrev deleted_database : Database
deleted_database = state (delete_source_tx draws "src" unused_database)

delete_succeeds : write (delete_source_tx draws "src") unused_database ≡ ok source deleted_database
unfolding delete_source_tx strip_membership strip_sets is_used get put replace place remove
    remove_where rows cascade_source get_row put_row insert_row list_rows delete_row discard_row
    audit ◌>>=◌ guard when◌run◌or◌ write
delete_succeeds = refl

delete_source_tx-Gone_example : Gone "src" deleted_database
delete_source_tx-Gone_example =
    delete_source_tx-Gone draws "src" unused_database deleted_database source delete_succeeds

abbrev archived_database : Database
archived_database = state (soft_delete_tx draws "src" unused_database)

soft_delete_succeeds :
    write (soft_delete_tx draws "src") unused_database ≡ ok source archived_database
unfolding soft_delete_tx strip_membership strip_sets is_used_by_hand get put replace place rows
    get_row put_row insert_row list_rows audit ◌>>=◌ guard when◌run◌or◌ write
soft_delete_succeeds = refl

no_sets-Named : Named unused_database.source_sets
no_sets-Named = record { each = nil_cases _ }

-- The draws of the undo.
abbrev later_draws : Draws
later_draws = record draws { random = λ n. "d" }

undo_audit : get archived_database.audits "audit_d" ≡ none
unfolding soft_delete_tx strip_membership strip_sets is_used_by_hand get put replace place rows
    get_row put_row insert_row list_rows audit ◌>>=◌ guard when◌run◌or◌ write
undo_audit = refl

undo-soft_delete_example :
    Archived "src" unused_database source archived_database
    × Succeeds
        (Restored "src" unused_database source)
        (write (undo_delete_tx later_draws "src") archived_database)
undo-soft_delete_example =
    undo-soft_delete draws later_draws "src" unused_database archived_database source no_sets-Named
      soft_delete_succeeds undo_audit
