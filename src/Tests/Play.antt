-- ===== src/Tests/Play.antt =====
-- The theorems on playback, preferences, rules and feedback at concrete inputs.
use shadow_relay.Prelude.{
  ℕ, ◌≡◌, refl, none, some, true, false, [], ◌∷◌, ◌++◌, keep, trim_space, trim_left, trim_right,
  contains_any, List,
}
use shadow_relay.Store.Op.{state, write, ok, ◌>>=◌, guard, when◌run◌or◌}
use shadow_relay.Store.Table.{get, put, replace, place}
use shadow_relay.Store.Rows.{get_row, put_row}
use shadow_relay.Security.{is_safe_play_url, is_plain_url}
use shadow_relay.Fetch.Addresses.{is_allowed, is_reserved, is_special, is_local, is_trusted}
use shadow_relay.Model.Source.{Item}
use shadow_relay.Model.Publication.{Preference, ChannelRule, Feedback}
use shadow_relay.Model.Database.{Database}
use shadow_relay.Service.Play.{
  PlayWorld, PlayInput, Resource, resolve_play, resolve_protocol, resolve_compiled_item,
  find_play_item, find_first, is_named, is_play_target, headers_of, filter_play_headers,
  first_non_empty, base_resource,
}
use shadow_relay.Service.Play.Direct.{Played, resolve_play-Played}
use shadow_relay.Service.Preferences.{Keys, apply_preferences}
use shadow_relay.Service.Preferences.Order.{shown_pinned, shown_others, apply_preferences_eq}
use shadow_relay.Service.Overrides.{
  is_rule_for, apply_rules, last_text, last_hide, apply_rules-last,
}
use shadow_relay.Service.Feedback.{
  Reports, is_published, reported_source, require_source, report_feedback,
}
use shadow_relay.Service.Feedback.Hints.{Reported, report_feedback-Reported}
use shadow_relay.Service.Bindings.{
  resolve, find_by_hash, find_binding, is_future, is_path_allowed, wanted_publication,
  open_artifact, find_artifact,
}
use shadow_relay.Tests.Fixtures.{draws, platform, old_token, source, item, database}
use shadow_relay.Tests.Gates.{net}
use shadow_relay.Tests.Intake.{site}
use shadow_relay.Tests.Tokens.{bindings-IsDistinct}

abbrev play_world : PlayWorld ℕ
play_world = record {
  urls = site.urls;
  net = net;
  lookup = λ host. some (20 ∷ []);
  trusted = [];
  open_headers = λ c owner. none;
  escape = λ s. s;
  config_text = λ config key. "";
  fetch = λ url p h. none;
  read_answer = λ body. none;
}

-- A source of the open internet, whose document has an item "one".
abbrev playing : Database
playing = record database { sources = ("src", record source { network = "internet" }) ∷ [] }

abbrev play_input : PlayInput
play_input = record { item_id = "one"; query = ""; url = "" }

abbrev played : Resource
played = record (base_resource play_world source) {
  item_id = "host";
  title = "one";
  url = "host";
  allow_direct = true;
  note = "compiled playlist URL; client fetches media directly (Relay does not proxy bytes)";
}

playing_succeeds : resolve_play play_world "src" play_input playing ≡ ok played playing
unfolding resolve_play resolve_protocol resolve_compiled_item find_play_item find_first is_named
    is_play_target headers_of filter_play_headers first_non_empty is_safe_play_url is_plain_url
    is_allowed is_reserved is_special is_local is_trusted trim_space trim_left trim_right
    contains_any get get_row ◌>>=◌ guard when◌run◌or◌
playing_succeeds = refl

resolve_play-Played_example : Played play_world "src" playing played playing
resolve_play-Played_example =
    resolve_play-Played play_world "src" play_input playing playing played playing_succeeds

abbrev keys : Keys
keys = record { to_lower = λ s. s; short_hash = λ s. s }

abbrev preference : Preference
preference = record {
  id = "pref_1";
  set_id = "set";
  source_id = "";
  item_key = "m3u|host||";
  name = "the one";
  group = "";
  logo = "";
  tvg_id = "";
  pinned = true;
  hidden = false;
  paused = false;
  updated_at = "";
}

abbrev two_items : List Item
two_items = record (item "other") { url = "elsewhere" } ∷ item "one" ∷ []

apply_preferences_eq_example :
    apply_preferences keys two_items (preference ∷ []) "m3u"
    ≡ shown_pinned keys (preference ∷ []) "m3u" two_items
      ++ shown_others keys (preference ∷ []) "m3u" two_items
apply_preferences_eq_example = apply_preferences_eq keys (preference ∷ []) "m3u" two_items

abbrev rule : ChannelRule
rule = record {
  source_id = "";
  match = "host";
  name = "renamed";
  group = "";
  logo = "";
  tvg_id = "tv1";
  hide = true;
}

apply_rules-last_example :
    let mine = keep (is_rule_for "src" (item "one")) (rule ∷ []) in
    let y = apply_rules "src" (item "one") (rule ∷ []) false (item "one") in
    (y.0 ≡ last_hide mine false)
    × (y.1.name ≡ last_text (λ r. r.name) mine "one")
    × (y.1.group ≡ last_text (λ r. r.group) mine "")
    × (y.1.logo ≡ last_text (λ r. r.logo) mine "")
    × (y.1.id ≡ last_text (λ r. r.tvg_id) mine "")
    × (y.1.url ≡ "host")
apply_rules-last_example = apply_rules-last "src" (item "one") (rule ∷ []) false (item "one")

abbrev reports : Reports
reports = record { cut = λ s. none; minute_hash = λ s. s }

abbrev report : Feedback
report = record {
  id = "";
  binding_id = "";
  publication_id = "";
  source_id = "src";
  code = "timeout";
  created_at = "";
}

abbrev reported : Database
reported = state (report_feedback platform reports draws old_token report database)

reporting_succeeds :
    report_feedback platform reports draws old_token report database ≡ ok tt reported
unfolding report_feedback reported_source require_source is_published resolve find_by_hash
    find_binding is_future is_path_allowed wanted_publication open_artifact find_artifact get put
    replace place get_row put_row ◌>>=◌ guard when◌run◌or◌ write
reporting_succeeds = refl

report_feedback-Reported_example :
    Reported platform reports draws database old_token report reported
report_feedback-Reported_example =
    report_feedback-Reported platform reports draws old_token report database reported
      bindings-IsDistinct reporting_succeeds
