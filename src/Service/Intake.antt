-- ===== src/Service/Intake.antt =====
-- The intake of sources, internal/service/service.go: the request (Input, defaults), the source
-- that is made of it (newSource), what its mode asks for (validateRuntime), the transaction of
-- Import, and the credentials (saveSecret).
pub mod Reads
pub mod Ranges
pub mod Live
pub mod Soundness
use shadow_relay.Prelude.{
  String, Bool, true, false, not, ◌&&◌, ◌||◌, Option, none, some, List, [], ◌∷◌, ◌==◌, ltb,
  if◌then◌else◌, contains, contains_any, all, byte_len, trim_space, starts_with, ◌<>◌,
}
use shadow_relay.Prelude.Int.{ℤ, pos, ltz, eqz}
use shadow_relay.Store.Op.{when◌run◌or◌, Op, message, pure, fail, guard, ◌>>=◌, ◌>>◌}
use shadow_relay.Store.Rows.{get_row, put_row, insert_row}
use shadow_relay.Security.{Urls, is_safe_url}
use shadow_relay.Security.Headers.{Headers, validate_headers}
use shadow_relay.Fetch.Proxy.{validate_proxy}
use shadow_relay.Adapter.Registry.{base}
use shadow_relay.Adapter.Difference.{Reader, difference}
use shadow_relay.Model.Source.{Source, Revision, Normalized, unknown, staged, empty_normalized}
use shadow_relay.Model.Database.{Database, sources, revisions, endpoints, secrets, runtimes}
use shadow_relay.Service.Draws.{Draws, new_id, audit}
use shadow_relay.Service.Connectors.{is_connector, supports}
use shadow_relay.Service.SourceSets.{media_types}

-- What the intake takes from the configuration and from packages outside the repository: the
-- reading of URLs, the names of the proxy profiles, and `Vault.Seal` of the JSON of some headers
-- for an owner.
pub record Site : Type 0 where
  pub urls : Urls
  pub profiles : List String
  pub seal_headers : Headers → String → String

-- `Input`; a pointer that may be nil is an Option, and so is a map that may be nil.
pub record SourceInput : Type 0 where
  pub proxy_id : Option String
  pub hub_proxy_mode : Option String
  pub probe_interval_minutes : ℤ
  pub smoke_keyword : String
  pub hub_plugin_id : String
  pub name : String
  pub url : String
  pub content : String
  pub protocol : String
  pub network : String
  pub trust : String
  pub mode : String
  pub runtime_id : String
  pub media_types : List String
  pub update_policy : String
  pub interval_minutes : ℤ
  pub headers : Option Headers

-- `value`
abbrev pub value : Option String → String
value none = ""
value (some s) = s

-- A text, or what stands for the empty one.
abbrev pub or_else : String → String → String
or_else s t = if s == "" then t else s

abbrev pub or_minutes : ℤ → ℤ → ℤ
or_minutes n m = if eqz n (pos 0) then m else n

-- The fields that `defaults` fills in.
unfoldable pub filled : SourceInput → SourceInput
filled i = record i {
  name = trim_space i.name;
  network = or_else i.network "internet";
  trust = or_else i.trust "reviewed";
  update_policy = or_else i.update_policy "review";
  interval_minutes = or_minutes i.interval_minutes (pos 360);
}

abbrev pub networks : List String
networks = "internet" ∷ "trusted-lan" ∷ []

abbrev pub trusts : List String
trusts = "untrusted" ∷ "reviewed" ∷ "trusted" ∷ []

abbrev pub update_policies : List String
update_policies = "auto" ∷ "review" ∷ "pinned" ∷ "manual" ∷ []

-- Ends with the error, where there is one.
abbrev pub refuse : {S : Type 0} → Option String → Op S Unit
refuse none = pure tt
refuse (some m) = fail (message m)

unfoldable pub is_proxy_mode : Option String → Bool
is_proxy_mode none = true
is_proxy_mode (some m) = contains ("never" ∷ "always" ∷ []) m

module _ {S : Type 0} (urls : Urls) where
  -- The tests of `defaults`, on the fields as they are filled in.
  unfoldable pub check_input : SourceInput → Op S Unit
  check_input i = do
    guard (not (i.name == "" || ltb 160 (byte_len i.name)))
        (message "name must contain 1–160 characters")
    guard (contains networks i.network && contains trusts i.trust)
        (message "invalid network or trust")
    guard (not (i.network == "trusted-lan" && not (i.trust == "trusted")))
        (message "trusted-lan requires trusted source")
    guard
        (contains update_policies i.update_policy
          && not (ltz i.interval_minutes (pos 5) || ltz (pos 43200) i.interval_minutes))
        (message "invalid update policy or interval")
    -- The messages of SafeURL are not told apart.
    guard (i.url == "" || is_safe_url urls i.url) (message "unsafe URL")
    guard
        (not (
          ltz i.probe_interval_minutes (pos 0)
          || ltz (pos 43200) i.probe_interval_minutes
          || (ltz (pos 0) i.probe_interval_minutes && ltz i.probe_interval_minutes (pos 15))))
        (message "probe interval must be zero or 15–43200 minutes")
    guard
        (not (
          ltb 120 (byte_len i.smoke_keyword)
          || ltb 96 (byte_len i.hub_plugin_id)
          || contains_any i.hub_plugin_id "/?# "))
        (message "invalid smoke keyword or Hub plugin ID")
    guard (is_proxy_mode i.hub_proxy_mode) (message "hubProxyMode must be never or always")
    refuse (elim i.headers [ none ↦ none | some h ↦ validate_headers urls h ])

  unfoldable pub defaults : SourceInput → Op S SourceInput
  defaults i = do check_input (filled i); pure (filled i)

-- Protocols with executable rules that Relay itself compiles.
unfoldable pub is_compiled_rule : String → Bool
is_compiled_rule protocol =
    starts_with protocol "legado-"
    || contains ("so-novel" ∷ "relay-book" ∷ "mihon-repo" ∷ []) protocol

-- The mode of a new source for which none is asked.
unfoldable pub default_mode : SourceInput → Normalized → String
default_mode i n =
    if not (i.runtime_id == "")
    then "runtime-backed"
    else if n.requires_runtime && not (is_compiled_rule n.protocol)
    then "catalog-only"
    else if is_connector n.protocol
    then "direct-client"
    else "compiled"

abbrev pub is_nothing : List String → Bool
is_nothing [] = true
is_nothing (x ∷ xs) = false

-- `newSource`; the first id of the operation is the source's.
unfoldable pub new_source : Draws → SourceInput → Normalized → Source
new_source w i n = record {
  proxy_id = value i.proxy_id;
  hub_proxy_mode = value i.hub_proxy_mode;
  probe_interval_minutes = i.probe_interval_minutes;
  next_probe = "";
  smoke_keyword = i.smoke_keyword;
  hub_plugin_id = i.hub_plugin_id;
  id = new_id w "src" 0;
  name = i.name;
  protocol = n.protocol;
  media_types = if is_nothing i.media_types then n.media_types else i.media_types;
  mode = if i.mode == "" then default_mode i n else i.mode;
  capabilities = n.capabilities;
  trust = i.trust;
  network = i.network;
  update_policy = i.update_policy;
  interval_minutes = i.interval_minutes;
  url = i.url;
  runtime_id = i.runtime_id;
  catalog_id = "";
  enabled = false;
  health = unknown;
  score = 0;
  failures = 0;
  active_revision = "";
  staged_revision = "";
  etag = "";
  last_modified = "";
  last_checked = "";
  next_sync = "";
  created_at = w.now;
  updated_at = w.now;
}

abbrev pub modes : List String
modes = "catalog-only" ∷ "compiled" ∷ "runtime-backed" ∷ "direct-client" ∷ []

abbrev pub relay_books : List String
relay_books = "legado-book" ∷ "so-novel" ∷ "relay-book" ∷ []

-- Does the protocol need a runtime for its executable rules?
unfoldable pub needs_runtime : String → Bool
needs_runtime protocol = elim (base protocol) [ none ↦ false | some b ↦ b.requires_runtime ]

-- `if src.RuntimeID != "" { … } else if … { … }`
unfoldable pub check_runtime : Source → Op Database Unit
check_runtime v =
    when not (v.runtime_id == "")
    run (do
      rt ← get_row runtimes v.runtime_id
      guard (v.mode == "runtime-backed") (message "runtime mapping requires runtime-backed mode")
      guard (supports rt.driver v.protocol)
          (message "runtime does not support this source protocol"))
    or guard (not (v.mode == "runtime-backed")) (message "runtime-backed source requires a runtime")

unfoldable pub validate_runtime : Site → Source → Op Database Unit
validate_runtime site v = do
  refuse (
      validate_proxy site.profiles
        (record { network = v.network; trust = ""; proxy_id = v.proxy_id }))
  guard
      (not (
        v.hub_proxy_mode == "always"
        && (not (contains relay_books v.protocol) || not (v.hub_plugin_id == ""))))
      (message
        "Hub proxy mode requires a Relay-generated book plugin; configure manual plugins in Hub")
  guard (contains modes v.mode) (message "unsupported execution mode")
  guard (not (is_connector v.protocol && v.mode == "compiled"))
      (message "media services use direct-client or runtime-backed mode")
  guard (not (v.mode == "direct-client" && v.url == ""))
      (message "direct-client source requires a URL")
  guard (all (contains media_types) v.media_types) (message "unsupported media type")
  check_runtime v
  guard
      (not (
        needs_runtime v.protocol
        && not (v.mode == "runtime-backed")
        && not (v.mode == "catalog-only")
        && not (is_compiled_rule v.protocol && v.mode == "compiled")))
      (message "executable rules require an isolated runtime")

-- `saveSecret`: nil headers leave the credentials as they are.
unfoldable pub save_secret : Site → Draws → String → Option Headers → Op Database Unit
save_secret site w owner none = pure tt
save_secret site w owner (some h) = do
  refuse (validate_headers site.urls h)
  put_row secrets owner (record {
    id = owner;
    owner_id = owner;
    ciphertext = site.seal_headers h owner;
    updated_at = w.now;
  })

-- `autoEnableImport`
unfoldable pub auto_enable_import : Source → Bool
auto_enable_import v =
    v.catalog_id == ""
    && not (v.staged_revision == "")
    && (v.trust == "reviewed" || v.trust == "trusted")

-- The first revision of a source, from its first document.
abbrev pub first_revision : Reader → Draws → String → String → Normalized → Revision
first_revision rd w source hash n = record {
  id = new_id w "rev" 1;
  source_id = source;
  hash = hash;
  normalized = n;
  status = staged;
  diff = difference rd empty_normalized n;
  created_at = w.now;
}

-- `if src.URL != "" { … }`
unfoldable pub put_endpoint : Source → Op Database Unit
put_endpoint v =
    when v.url == ""
    run pure tt
    or put_row endpoints (v.id <> "_primary")
        (record { id = v.id <> "_primary"; source_id = v.id; role = "primary"; url = v.url })

-- The transaction of Import.
unfoldable pub import_tx :
    Site → Reader → Draws → SourceInput → String → Normalized → Op Database Source
import_tx site rd w i hash n = do
  let rev = first_revision rd w (new_id w "src" 0) hash n
  let v : Source = record (new_source w i n) { staged_revision = rev.id }
  validate_runtime site v
  insert_row sources v.id v
  insert_row revisions rev.id rev
  save_secret site w v.id i.headers
  put_endpoint v
  audit w 2 "source.import" v.id
  pure v
