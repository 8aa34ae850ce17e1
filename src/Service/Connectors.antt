-- ===== src/Service/Connectors.antt =====
-- Connectors of internal/service/runtime.go: the media services that a runtime can be.
use shadow_relay.Prelude.{
  String, Bool, true, false, Option, none, some, List, [], ◌∷◌, ◌==◌, if◌then◌else◌, contains,
}

pub record Connector : Type 0 where
  pub name : String
  pub status_path : String
  pub state_path : String
  pub required_key : String
  pub protocols : List String
  pub media_types : List String
  pub capabilities : List String
  pub probe_level : String

abbrev pub connectors : List (String × Connector)
connectors =
    (
      "emby",
      record {
        name = "Emby";
        status_path = "/System/Info/Public";
        state_path = "/Library/VirtualFolders";
        required_key = "Version";
        protocols = "emby" ∷ [];
        media_types = "video.movie" ∷ "video.series" ∷ "audio.music" ∷ [];
        capabilities = "browse" ∷ "search" ∷ "stream" ∷ "progress" ∷ [];
        probe_level = "service";
      },
    )
    ∷ (
      "jellyfin",
      record {
        name = "Jellyfin";
        status_path = "/System/Info/Public";
        state_path = "/Library/VirtualFolders";
        required_key = "Version";
        protocols = "jellyfin" ∷ [];
        media_types = "video.movie" ∷ "video.series" ∷ "audio.music" ∷ [];
        capabilities = "browse" ∷ "search" ∷ "stream" ∷ "progress" ∷ [];
        probe_level = "service";
      },
    )
    ∷ (
      "dispatcharr",
      record {
        name = "Dispatcharr";
        status_path = "/api/core/version/";
        state_path = "/api/channels/channels/";
        required_key = "version";
        protocols = "dispatcharr" ∷ "m3u" ∷ "xmltv" ∷ [];
        media_types = "video.live" ∷ "support.epg" ∷ [];
        capabilities = "live" ∷ "epg" ∷ "catchup" ∷ [];
        probe_level = "service";
      },
    )
    ∷ (
      "legado-hub",
      record {
        name = "LegadoHub";
        status_path = "/api/auth/entrypoint";
        state_path = "/api/auth/entrypoint";
        required_key = "entrypoint";
        protocols = "legado-hub" ∷ "legado-book" ∷ "so-novel" ∷ "relay-book" ∷ [];
        media_types = "text.novel" ∷ [];
        capabilities = "search" ∷ "detail" ∷ "chapter" ∷ "progress" ∷ [];
        probe_level = "service";
      },
    )
    ∷ (
      "suwayomi",
      record {
        name = "Suwayomi";
        status_path = "/api/v1/settings/about";
        state_path = "/api/v1/source/list";
        required_key = "name";
        protocols = "suwayomi" ∷ "mihon-repo" ∷ [];
        media_types = "image.comic" ∷ [];
        capabilities = "browse" ∷ "search" ∷ "page" ∷ "download" ∷ "progress" ∷ [];
        probe_level = "service";
      },
    )
    ∷ (
      "audiobookshelf",
      record {
        name = "Audiobookshelf";
        status_path = "/api/libraries";
        state_path = "/api/libraries";
        required_key = "libraries";
        protocols = "audiobookshelf" ∷ [];
        media_types = "audio.audiobook" ∷ "audio.podcast" ∷ [];
        capabilities = "browse" ∷ "search" ∷ "stream" ∷ "progress" ∷ [];
        probe_level = "authenticated-state";
      },
    )
    ∷ (
      "miniflux",
      record {
        name = "Miniflux";
        status_path = "/v1/me";
        state_path = "/v1/feeds";
        required_key = "id";
        protocols = "miniflux" ∷ "rss" ∷ "atom" ∷ "json-feed" ∷ "opml" ∷ [];
        media_types = "text.article" ∷ [];
        capabilities = "browse" ∷ "favorite" ∷ "progress" ∷ [];
        probe_level = "authenticated-state";
      },
    )
    ∷ []

unfoldable pub find_connector : List (String × Connector) → String → Option Connector
find_connector [] key = none
find_connector ((k, c) ∷ cs) key =
    let rest = find_connector cs key in if k == key then some c else rest

-- `Connectors[key]`
unfoldable pub connector : String → Option Connector
unfolding find_connector
connector key = find_connector connectors key

-- `_, ok := Connectors[key]`
unfoldable pub is_connector : String → Bool
unfolding connector
is_connector key = elim (connector key) [ none ↦ false | some c ↦ true ]

-- `slices.Contains(Connectors[driver].Protocols, protocol)`: no driver, no protocols.
unfoldable pub supports : String → String → Bool
unfolding connector
supports driver protocol = elim (connector driver) [
  | none ↦ false
  | some c ↦ contains c.protocols protocol
]
