-- ===== src/Adapter/Registry.antt =====
-- The protocols of internal/adapter/adapter.go: `registry`, and `Base`.
use shadow_relay.Prelude.{
  String, Bool, true, false, Option, none, some, List, [], ◌∷◌, ◌==◌, if◌then◌else◌,
}
use shadow_relay.Model.Source.{Normalized, empty_normalized}

pub record Description : Type 0 where
  pub protocol : String
  pub media_types : List String
  pub capabilities : List String
  pub runtime : Bool

abbrev described : String → List String → List String → Bool → Description
described p m c r = record { protocol = p; media_types = m; capabilities = c; runtime = r }

abbrev pub registry : List Description
registry =
    described "legado-replace" ("text.novel" ∷ []) ("cleanup" ∷ []) true
    ∷ described "so-novel" ("text.novel" ∷ []) ("search" ∷ "detail" ∷ "toc" ∷ "chapter" ∷ []) true
    ∷ described "relay-book" ("text.novel" ∷ []) ("search" ∷ "detail" ∷ "toc" ∷ "chapter" ∷ []) true
    ∷ described "podcast" ("audio.podcast" ∷ []) ("browse" ∷ "stream" ∷ []) false
    ∷ described "lx-music" ("audio.music" ∷ []) ("browse" ∷ "search" ∷ "stream" ∷ []) false
    ∷ described "music-playlist" ("audio.music" ∷ []) ("browse" ∷ "stream" ∷ []) false
    ∷ described "direct-link" ("video.movie" ∷ "video.series" ∷ "audio.music" ∷ [])
        ("browse" ∷ "stream" ∷ []) false
    ∷ described "m3u" ("video.live" ∷ []) ("live" ∷ "stream" ∷ []) false
    ∷ described "xmltv" ("support.epg" ∷ []) ("epg" ∷ []) false
    ∷ described "tvbox" ("video.movie" ∷ "video.series" ∷ []) ("browse" ∷ "search" ∷ "stream" ∷ [])
        false
    ∷ described "legado-book" ("text.novel" ∷ []) ("search" ∷ "detail" ∷ "chapter" ∷ []) true
    ∷ described "legado-rss" ("text.article" ∷ []) ("browse" ∷ []) true
    ∷ described "legado-tts" ("speech.tts" ∷ []) ("tts" ∷ []) true
    ∷ described "rss" ("text.article" ∷ "audio.podcast" ∷ []) ("browse" ∷ []) false
    ∷ described "atom" ("text.article" ∷ []) ("browse" ∷ []) false
    ∷ described "json-feed" ("text.article" ∷ "audio.podcast" ∷ []) ("browse" ∷ []) false
    ∷ described "opml" ("text.article" ∷ []) ("browse" ∷ []) false
    ∷ described "opds1" ("text.ebook" ∷ []) ("browse" ∷ "download" ∷ []) false
    ∷ described "opds2" ("text.ebook" ∷ []) ("browse" ∷ "download" ∷ []) false
    ∷ described "shadow-bundle" ([]) ([]) false
    ∷ described "mihon-repo" ("image.comic" ∷ []) ("search" ∷ "page" ∷ []) true
    ∷ described "catalog" ([]) ([]) false
    ∷ []

unfoldable pub find_description : List Description → String → Option Description
find_description [] protocol = none
find_description (d ∷ ds) protocol =
    let rest = find_description ds protocol in if d.protocol == protocol then some d else rest

-- none where the code answers "unsupported protocol"
unfoldable pub base : String → Option Normalized
base protocol = elim (find_description registry protocol) [
  | none ↦ none
  | some d ↦ some (record empty_normalized {
    protocol = protocol;
    media_types = d.media_types;
    capabilities = d.capabilities;
    requires_runtime = d.runtime;
  })
]
