-- ===== src/Service/Subscriptions.antt =====
-- The addresses of an aggregate for its clients: defaultFormatsFor and aggregateSubscribe of
-- internal/service/aggregate.go. A set of formats is the list of its paths, a map of addresses the
-- list of its pairs, the latest first.
pub mod Offered
pub mod Served
use Prim.Native.Char.{code}
use shadow_relay.Prelude.{
  String, Bool, true, false, not, ◌&&◌, List, [], ◌∷◌, ◌++◌, ◌==◌, ◌<>◌, eqb, if◌then◌else◌,
  contains,
}
use shadow_relay.Service.Selection.{is_empty}

unfoldable pub default_formats_for : String → List String
default_formats_for type =
    "shadow.json"
    ∷ (if type == "novel"
        then "legado/books.json" ∷ "hub/plugins.json" ∷ []
        else if type == "tvbox"
        then "tvbox/store.json" ∷ []
        else if type == "iptv"
        then "iptv/live.m3u" ∷ []
        else if type == "music"
        then "lx-music/sources.json" ∷ "music/playlist.m3u" ∷ []
        else if type == "audiobook"
        then "legado/tts.json" ∷ []
        else if type == "manga"
        then "mihon/repos.json" ∷ []
        else if type == "rss"
        then "legado/rss.json" ∷ "feeds.opml" ∷ []
        else [])

-- `strings.TrimRight(base, "/")`
unfoldable pub trim_slashes : String → String
trim_slashes String.[] = ""
trim_slashes (String.◌∷◌ c s) =
    let rest = trim_slashes s in if eqb (code c) 47 && rest == "" then "" else String.◌∷◌ c rest

pub record Addresses : Type 0 where
  pub urls : List String
  pub by_client : List (String × String)

unfoldable pub has_client : String → List (String × String) → Bool
has_client client [] = false
has_client client ((c, u) ∷ m) =
    let rest = has_client client m in if c == client then true else rest

-- What `add` is called with, in order.
unfoldable pub formats_of : String → List (String × String)
formats_of type =
    (if type == "novel"
      then ("legado", "legado/books.json") ∷ ("hub", "hub/plugins.json") ∷ []
      else if type == "tvbox"
      then ("tvbox", "tvbox/store.json") ∷ []
      else if type == "iptv"
      then ("iptv", "iptv/live.m3u") ∷ []
      else if type == "music"
      then ("lxMusic", "lx-music/sources.json") ∷ ("playlist", "music/playlist.m3u") ∷ []
      else if type == "audiobook"
      then ("legado", "legado/tts.json") ∷ []
      else if type == "manga"
      then ("mihon", "mihon/repos.json") ∷ []
      else if type == "rss"
      then ("legado", "legado/rss.json") ∷ ("opml", "feeds.opml") ∷ []
      else [])
    ++ ("shadowMedia", "shadow.json") ∷ []

module _ (prefix : String) (available : List String) where
  -- `add`
  unfoldable pub add_address : Addresses → String → String → Addresses
  add_address a client path =
      let u = prefix <> path in
      let m = (if has_client client a.by_client then a.by_client else (client, u) ∷ a.by_client) in
      if not (contains available path)
      then a
      else if contains a.urls u
      then record a { by_client = m }
      else record { urls = a.urls ++ u ∷ []; by_client = m }

  unfoldable pub add_addresses : Addresses → List (String × String) → Addresses
  add_addresses a [] = a
  add_addresses a ((client, path) ∷ rest) = add_addresses (add_address a client path) rest

unfoldable pub prefix_of : String → String → String
prefix_of base token =
    let path = "/p/" <> token <> "/" in if base == "" then path else trim_slashes base <> path

unfoldable pub known_formats : String → List String → List String
known_formats type available = if is_empty available then default_formats_for type else available

-- aggregateSubscribe
unfoldable pub aggregate_subscribe : String → String → String → List String → Addresses
aggregate_subscribe base token type available =
    let known = known_formats type available in
    let prefix = prefix_of base token in
    let none_yet : Addresses = record { urls = []; by_client = [] } in
    let a = add_addresses prefix known none_yet (formats_of type) in
    if token == ""
    then none_yet
    else if is_empty a.urls && contains known "shadow.json"
    then add_address prefix known a "shadowMedia" "shadow.json"
    else a
