-- ===== src/Tests/Fixtures.antt =====
-- The inputs of the tests: one source with an approved revision and a newer one that waits, one
-- set with that source, one publication and one binding.
use shadow_relay.Prelude.{
  String, Bool, true, false, none, some, [], ◌∷◌, refl, ◌==◌, ◌<>◌, eqb, if◌then◌else◌, arith,
  eq_iff, inr,
}
use shadow_relay.Prelude.Int.{pos}
use shadow_relay.Store.Table.{get, cons_cases, nil_cases}
use shadow_relay.Model.Source.{
  Source, Revision, Normalized, Item, Diff, Probe, healthy, staged, approved, empty_normalized,
}
use shadow_relay.Model.Publication.{Member, SourceSet, Artifact, Publication, Binding}
use shadow_relay.Model.Database.{Database, empty_database}
use shadow_relay.Adapter.Difference.{Reader}
use shadow_relay.Service.Draws.{Draws}
use shadow_relay.Service.Platform.{Platform}
use shadow_relay.Service.Publishing.{Encoding}
use shadow_relay.Service.Sync.{Fetched}
use shadow_relay.Service.Sound.{IsSound, SourceOk}
use shadow_relay.Service.Publishing.Pointers.{IsPointed, SetOk}

abbrev pub draws : Draws
draws = record {
  now = "2026-01-02T00:00:00Z";
  clock = 100;
  later = λ n. "2026-01-03T00:00:00Z";
  random = λ n. if eqb n 0 then "a" else if eqb n 1 then "b" else "c";
  token = "1234567890123456789012345678901234567890123";
}

abbrev pub platform : Platform
platform = record {
  hash = λ s. "#" <> s;
  parse_time = λ s. if s == "2027-01-01T00:00:00Z" then some 1000 else none;
  seal = λ owner s. owner <> s;
}

abbrev pub reader : Reader
reader = record { host = λ s. s; raw = λ x. x.name }

abbrev pub encoding : Encoding
encoding = record {
  hash = λ s. "#" <> s;
  inputs_text = λ name description ms rules items ex. name;
  bundle_text = λ set name id revision now. set <> revision;
  render =
      λ set items id now. inr (record { revision = "r"; artifacts = []; format_warnings = [] });
}

abbrev pub item : String → Item
item name = record {
  rel = "";
  mime = "";
  id = "";
  name = name;
  url = "host";
  group = "";
  logo = "";
  language = "";
  region = "";
  payload = "";
}

abbrev pub document : Normalized
document = record empty_normalized { items = item "one" ∷ item "two" ∷ [] }

abbrev pub next_document : Normalized
next_document = record empty_normalized { items = item "one" ∷ item "two" ∷ item "three" ∷ [] }

abbrev no_diff : Diff
no_diff = record {
  added = 0;
  removed = 0;
  changed = 0;
  domain_changes = [];
  requires_review = false;
}

abbrev pub active_revision : Revision
active_revision = record {
  id = "rev_1";
  source_id = "src";
  hash = "h1";
  normalized = document;
  status = approved;
  diff = no_diff;
  created_at = "t0";
}

abbrev pub staged_revision : Revision
staged_revision = record active_revision { id = "rev_2"; hash = "h2"; status = staged }

abbrev pub source : Source
source = record {
  proxy_id = "";
  hub_proxy_mode = "";
  probe_interval_minutes = pos 0;
  next_probe = "";
  smoke_keyword = "";
  hub_plugin_id = "";
  id = "src";
  name = "a source";
  protocol = "m3u";
  media_types = "video.live" ∷ [];
  mode = "compiled";
  capabilities = [];
  trust = "";
  network = "";
  update_policy = "auto";
  interval_minutes = pos 60;
  url = "https://host/list";
  runtime_id = "";
  catalog_id = "";
  enabled = true;
  health = healthy;
  score = 100;
  failures = 0;
  active_revision = "rev_1";
  staged_revision = "rev_2";
  etag = "";
  last_modified = "";
  last_checked = "";
  next_sync = "";
  created_at = "t0";
  updated_at = "t1";
}

abbrev pub member : Member
member = record {
  source_id = "src";
  priority = pos 1;
  weight = pos 1;
  role = "primary";
  min_score = pos 50;
  media_types = [];
  languages = [];
  regions = [];
  devices = [];
  networks = [];
  timeout_ms = pos 15000;
  max_concurrency = pos 2;
}

abbrev pub set : SourceSet
set = record {
  next_publish = "";
  channel_rules = [];
  auto_publish = true;
  min_available = pos 1;
  max_excluded_percent = pos 50;
  publish_signature = "";
  id = "set";
  name = "a set";
  description = "";
  members = member ∷ [];
  current_publication = "pub_1";
  previous_publication = "";
  updated_at = "t1";
}

abbrev pub artifact : Artifact
artifact = record { content_type = "application/json"; body = "{}"; hash = "#{}" }

abbrev pub publication : Publication
publication = record {
  format_warnings = [];
  id = "pub_1";
  set_id = "set";
  revision = "r";
  artifacts = ("shadow.json", artifact) ∷ [];
  source_revisions = ("src", "rev_1") ∷ [];
  exclusions = [];
  created_at = "t0";
}

abbrev pub old_token : String
old_token = "abcdefghijabcdefghijabcdefghijabcdefghijabc"

abbrev pub binding : Binding
binding = record {
  id = "bind";
  name = "a client";
  set_id = "set";
  hash = "#" <> old_token;
  formats = "shadow.json" ∷ [];
  expires_at = "2027-01-01T00:00:00Z";
  revoked = false;
  generation = 1;
  created_at = "t0";
}

abbrev pub database : Database
database = record empty_database {
  sources = ("src", source) ∷ [];
  revisions = ("rev_1", active_revision) ∷ ("rev_2", staged_revision) ∷ [];
  source_sets = ("set", set) ∷ [];
  publications = ("pub_1", publication) ∷ [];
  bindings = ("bind", binding) ∷ [];
}

abbrev pub probe : Bool → Probe
probe success = record {
  id = "probe_1";
  source_id = "src";
  level = "functional";
  success = success;
  latency_ms = 5;
  code = "";
  checks = [];
  created_at = "t0";
}

abbrev pub fetched : Fetched
fetched = record { status = 200; etag = "e"; last_modified = "m" }

pub database-IsSound : IsSound database
unfolding get
database-IsSound = record {
  keyed = (
    refl,
    (λ e. ground (arith, eq_iff "rev_1" "", e)),
    (refl, (λ e. ground (arith, eq_iff "rev_2" "", e)), tt),
  );
  each =
      cons_cases (SourceOk database.revisions) "src" source []
        (record {
          named = refl;
          active = λ _. (active_revision, refl, refl, refl);
          staged = λ _. (staged_revision, refl, refl, refl);
          live = λ _ e. ground (arith, eq_iff "rev_1" "", e);
        })
        (nil_cases _);
}

pub database-IsPointed : IsPointed database
unfolding get
database-IsPointed = record {
  each =
      cons_cases (SetOk database.publications) "set" set []
        (record {
          named = refl;
          now = λ _. (publication, refl, refl);
          before = λ n. absurd (n refl);
        })
        (nil_cases _);
}
