-- ===== src/Service/Play.antt =====
-- internal/service/play.go and internal/fetch/play.go: where a client is sent to play an item. Relay
-- names a URL, and never carries the media.
pub mod Direct
use Prim.Native.Char.{Char, code}
use shadow_relay.Prelude.{
  eqb, ℕ, zero, suc, String, Bool, true, false, not, ◌&&◌, ◌||◌, Option, none, some, List, [], ◌∷◌,
  ◌==◌, if◌then◌else◌, contains, keep, trim_space, starts_with, ◌<>◌, all,
}
use shadow_relay.Store.Table.{get}
use shadow_relay.Store.Op.{message, when◌run◌or◌, Op, pure, fail, guard, ◌>>=◌, ◌>>◌}
use shadow_relay.Store.Rows.{get_row}
use shadow_relay.Security.{Urls, Url, is_safe_url, is_safe_play_url}
use shadow_relay.Security.Headers.{Headers, validate_headers}
use shadow_relay.Fetch.{Policy}
use shadow_relay.Fetch.Addresses.{Addresses, is_allowed}
use shadow_relay.Model.Source.{Source, Revision, Item}
use shadow_relay.Model.Database.{Database, sources, revisions, secrets}
use shadow_relay.Service.Intake.{refuse}

-- `PlayResolveInput`
pub record PlayInput : Type 0 where
  pub item_id : String
  pub query : String
  pub url : String

-- `model.PlaybackResource`
pub record Resource : Type 0 where
  pub source_id : String
  pub protocol : String
  pub item_id : String
  pub title : String
  pub url : String
  pub headers : Headers
  pub expires_at : String
  pub refresh_path : String
  pub allow_direct : Bool
  pub must_use_runtime : Bool
  pub status : String
  pub note : String

-- The answer of an upstream resolver, as JSON reads it: the texts under a key, trimmed, and the
-- headers that are texts.
pub record ResolveAnswer : Type 0 where
  pub text : String → String
  pub headers : Headers

-- What playing takes from outside: the reading of URLs, the addresses of a host (none where the
-- lookup fails) and their classes, the networks that the operator trusts, the opening of the vault,
-- the escaping of a query, the trimmed texts of a configuration, the fetch, with the body and its content
-- type, and the reading of JSON.
pub record PlayWorld (Address : Type 0) : Type 0 where
  pub urls : Urls
  pub net : Addresses Address
  pub lookup : String → Option (List Address)
  pub trusted : List String
  pub open_headers : String → String → Option Headers
  pub escape : String → String
  pub config_text : String → String → String
  pub fetch : String → Policy → Headers → Option (String × String)
  pub read_answer : String → Option ResolveAnswer

-- `strings.Contains(s, t)`
unfoldable pub has_substring : String → String → Bool
has_substring String.[] t = "" == t
has_substring (String.◌∷◌ c s) t = starts_with (String.◌∷◌ c s) t || has_substring s t

abbrev pub or_first : String → String → String
or_first s t = if trim_space s == "" then t else s

-- A text, or another one where it is empty.
abbrev pub or_text : String → String → String
or_text s t = if s == "" then t else s

-- `strings.Split(s, "\n")[0]`
unfoldable pub first_line : String → String
first_line String.[] = ""
first_line (String.◌∷◌ c s) =
    let rest = first_line s in if eqb (code c) 10 then "" else String.◌∷◌ c rest

-- `firstNonEmpty`
unfoldable pub first_non_empty : List String → String
first_non_empty [] = ""
first_non_empty (s ∷ ss) = let rest = first_non_empty ss in or_first s rest

-- Is the item the one that the id or the URL names?
unfoldable pub is_named : String → String → Item → Bool
is_named id url item =
    (not (id == "") && (item.id == id || item.url == id || item.name == id))
    || (not (url == "") && item.url == url)

unfoldable pub find_first : (Item → Bool) → List Item → Option Item
find_first p [] = none
find_first p (x ∷ xs) = let rest = find_first p xs in if p x then some x else rest

-- `findPlayItem`
unfoldable pub find_play_item : (String → String) → List Item → PlayInput → Option Item
find_play_item to_lower items i =
    let q = trim_space i.query in
    elim (find_first (is_named (trim_space i.item_id) (trim_space i.url)) items) [
      | some x ↦ some x
      | none ↦
          if q == ""
          then none
          else find_first (λ x. has_substring (to_lower x.name) (to_lower q)) items
    ]

abbrev play_headers : List String
play_headers = "referer" ∷ "user-agent" ∷ "origin" ∷ "authorization" ∷ "cookie" ∷ []

-- `filterPlayHeaders`; nil and the empty map are not told apart.
unfoldable pub filter_play_headers : (String → String) → Headers → Headers
filter_play_headers to_lower h =
    keep (λ (k, v). contains play_headers (to_lower k) || starts_with (to_lower k) "x-") h

abbrev pub is_none : Headers → Bool
is_none [] = true
is_none (x ∷ xs) = false

-- One pass of `strings.NewReplacer` over a text, with the characters that a match still covers.
unfoldable pub replace_from : ℕ → String → String → String → String → String
replace_from n id query url String.[] = ""
replace_from (suc n) id query url (String.◌∷◌ c s) = replace_from n id query url s
replace_from zero id query url (String.◌∷◌ c s) =
    let at = String.◌∷◌ c s in
    elim (starts_with at "{id}") [
      | true ↦ id <> replace_from 3 id query url s
      | false ↦ elim (starts_with at "{query}") [
        | true ↦ query <> replace_from 6 id query url s
        | false ↦ elim (starts_with at "{url}") [
          | true ↦ url <> replace_from 4 id query url s
          | false ↦ String.◌∷◌ c (replace_from 0 id query url s)
        ]
      ]
    ]

module _ {A : Type 0} (world : PlayWorld A) where
  unfoldable pub expand_resolve_template : String → String → String → String → Op Database String
  expand_resolve_template template id query hint = do
    let out = replace_from 0 (world.escape id) (world.escape query) (world.escape hint) template
    guard (not (has_substring out "{" && has_substring out "}"))
        (message "resolve template has unresolved placeholders")
    pure out

  -- `ValidatePlayURL`: a numeric host has itself as its address.
  unfoldable pub is_play_target : String → Policy → Bool
  is_play_target raw p = is_safe_play_url world.urls raw && elim (world.urls.parse raw) [
    | none ↦ false
    | some u ↦ elim (world.lookup u.host) [
      | none ↦ false
      | some [] ↦ false
      | some (ip ∷ ips) ↦ all (λ a. is_allowed world.net world.trusted a p) (ip ∷ ips)
    ]
  ]

  abbrev pub play_policy : Source → Policy
  play_policy src = record { network = src.network; trust = src.trust; proxy_id = src.proxy_id }

  -- `headers, _ := s.Headers(…)`
  unfoldable pub headers_of : String → Database → Headers
  headers_of id d = elim (get d.secrets id) [
    | none ↦ []
    | some s ↦ elim (world.open_headers s.ciphertext id) [ none ↦ [] | some h ↦ h ]
  ]

  unfoldable pub resolve_compiled_item :
      Source → Revision → PlayInput → Resource → Op Database Resource
  resolve_compiled_item src rev i out d =
      elim (find_play_item world.urls.to_lower rev.normalized.items i) [
        | none ↦ fail (message "play item not found") d
        | some x ↦
            (do
              guard (is_play_target x.url (play_policy src)) (message "play target")
              let h = filter_play_headers world.urls.to_lower (headers_of src.id d)
              pure (record out {
                item_id = first_non_empty (x.id ∷ x.url ∷ []);
                title = x.name;
                url = x.url;
                headers = h;
                allow_direct = is_none h;
                must_use_runtime = false;
                status = "ok";
                note =
                    "compiled playlist URL; client fetches media directly (Relay does not proxy bytes)";
              }))
              d
      ]

  unfoldable pub resolve_tvbox_play :
      Source → Revision → PlayInput → Resource → Op Database Resource
  resolve_tvbox_play src rev i out =
      elim (find_play_item world.urls.to_lower rev.normalized.items i) [
        | none ↦ fail (message "play item not found")
        | some x ↦
            when x.group == "site"
            run pure (record out {
              must_use_runtime = true;
              allow_direct = false;
              status = "runtime-backed";
              item_id = first_non_empty (x.id ∷ x.name ∷ []);
              title = x.name;
              note =
                  "TVBox HTTP CMS site requires client/runtime play parse; Relay does not reverse-proxy media";
            })
            or resolve_compiled_item src rev i out
      ]

  -- `parseResolveBody`: the URL, the headers and the time when it expires.
  unfoldable pub parse_resolve_body : String → String → Op Database (String × Headers × String)
  parse_resolve_body body content_type = do
    let trim = trim_space body
    guard (not (trim == "")) (message "empty resolve response")
    when has_substring (world.urls.to_lower content_type) "json"
          || starts_with trim "{"
          || starts_with trim "["
        run elim (world.read_answer body) [
          | none ↦ fail (message "resolve response is not valid JSON")
          | some a ↦ do
            let url =
                first_non_empty
                  (a.text "url" ∷ a.text "playUrl" ∷ a.text "play_url" ∷ a.text "location" ∷ [])
            guard (not (url == "")) (message "resolve JSON missing url/playUrl")
            pure (
              url,
              a.headers,
              first_non_empty (a.text "expiresAt" ∷ a.text "expires_at" ∷ a.text "expires" ∷ []),
            )
        ]
        or do
          guard (starts_with trim "http://" || starts_with trim "https://")
              (message "unsupported resolve response")
          pure (trim_space (first_line trim), [], "")

  -- The steps of resolveDirectLink from the expanded template on.
  unfoldable pub ask_upstream : Source → String → String → String → Resource → Op Database Resource
  ask_upstream src id title resolve_url out d =
      (do
        guard (is_safe_url world.urls resolve_url) (message "resolve template URL")
        elim (world.fetch resolve_url (play_policy src) (headers_of src.id d)) [
          | none ↦ fail (message "upstream resolve failed")
          | some (body, content_type) ↦ do
            (url, headers, expires) ← parse_resolve_body body content_type
            guard (is_play_target url (play_policy src)) (message "play target")
            refuse (if is_none headers then none else validate_headers world.urls headers)
            pure (record out {
              item_id = id;
              title = title;
              url = url;
              headers = headers;
              expires_at = expires;
              allow_direct = is_none headers;
              must_use_runtime = false;
              status = "ok";
              note = "resolved upstream play URL; client must fetch media directly";
            })
        ])
        d

  -- Without a template: the item's own URL.
  unfoldable pub resolve_without_template :
      Source → Revision → PlayInput → Option Item → Resource → Op Database Resource
  resolve_without_template src rev i none out = fail (message "play item not found")
  resolve_without_template src rev i (some x) out =
      when not (trim_space x.url == "")
      run resolve_compiled_item src rev
          (record i { item_id = if i.item_id == "" then x.id else i.item_id }) out
      or when not (x.url == "")
      run resolve_compiled_item src rev i out
      or fail (message "play item not found")

  unfoldable pub resolve_direct_link :
      Source → Revision → PlayInput → Resource → Op Database Resource
  resolve_direct_link src rev i out =
      let found = find_play_item world.urls.to_lower rev.normalized.items i in
      let of_item : (Item → String) → String = λ f. elim found [ none ↦ "" | some x ↦ f x ] in
      let config = world.config_text rev.normalized.config in
      let template = or_text (config "resolveTemplate") (config "resolveUrl") in
      when template == "" run resolve_without_template src rev i found out or do
        let id = or_text (trim_space i.item_id) (of_item (λ x. x.id))
        let hint = or_text (trim_space i.url) (of_item (λ x. x.url))
        url ← expand_resolve_template template id (trim_space i.query) hint
        ask_upstream src id (or_text (of_item (λ x. x.name)) out.title) url out

  abbrev pub base_resource : Source → Resource
  base_resource src = record {
    source_id = src.id;
    protocol = src.protocol;
    item_id = "";
    title = "";
    url = "";
    headers = [];
    expires_at = "";
    refresh_path = "/api/v1/sources/" <> src.id <> "/play/resolve";
    allow_direct = false;
    must_use_runtime = false;
    status = "ok";
    note = "";
  }

  -- `switch src.Protocol`
  unfoldable pub resolve_protocol : Source → Revision → PlayInput → Op Database Resource
  resolve_protocol src rev i =
      let out = base_resource src in
      when src.protocol == "music-playlist" || src.protocol == "m3u"
      run resolve_compiled_item src rev i out
      or when src.protocol == "lx-music"
      run pure (record out {
        must_use_runtime = true;
        allow_direct = false;
        status = "client-resolve-required";
        note =
            "LX Music scripts run in a compatible client; Relay does not execute them or proxy audio bytes";
        item_id = trim_space i.item_id;
      })
      or when src.protocol == "direct-link"
      run resolve_direct_link src rev i out
      or when src.protocol == "tvbox"
      run resolve_tvbox_play src rev i out
      or fail (message "play resolve not implemented for protocol")

  unfoldable pub resolve_play : String → PlayInput → Op Database Resource
  resolve_play source_id i = do
    src ← get_row sources source_id
    guard (not (not src.enabled || src.active_revision == "")) (message "source is not live")
    guard (not (contains ("emby" ∷ "jellyfin" ∷ []) src.protocol))
        (message "protocol does not support play resolve; Emby/Jellyfin stay direct-client")
    rev ← get_row revisions src.active_revision
    resolve_protocol src rev i

  -- `CanRedirect(p) == nil`
  unfoldable pub can_redirect : Resource → Bool
  can_redirect p =
      not (not (p.status == "ok") || not p.allow_direct || p.must_use_runtime || p.url == "")
      && is_none p.headers
      && is_safe_play_url world.urls p.url
