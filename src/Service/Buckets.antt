-- ===== src/Service/Buckets.antt =====
-- The aggregate buckets of internal/service/aggregate.go.
use shadow_relay.Prelude.{
  String, Bool, ◌&&◌, ◌||◌, List, [], ◌∷◌, ◌==◌, ◌<>◌, if◌then◌else◌, contains, any, trim_space,
}

pub record Bucket : Type 0 where
  pub kind : String
  pub slug : String
  pub name : String

abbrev pub aggregate_buckets : List Bucket
aggregate_buckets =
    record { kind = "tvbox"; slug = "aggregate-tvbox"; name = "聚合·TVBox" }
    ∷ record { kind = "iptv"; slug = "aggregate-iptv"; name = "聚合·IPTV" }
    ∷ record { kind = "novel"; slug = "aggregate-novel"; name = "聚合·小说" }
    ∷ record { kind = "manga"; slug = "aggregate-manga"; name = "聚合·漫画" }
    ∷ record { kind = "audiobook"; slug = "aggregate-audiobook"; name = "聚合·有声书" }
    ∷ record { kind = "music"; slug = "aggregate-music"; name = "聚合·音乐" }
    ∷ record { kind = "rss"; slug = "aggregate-rss"; name = "聚合·RSS" }
    ∷ record { kind = "other"; slug = "aggregate-other"; name = "聚合·其他" }
    ∷ []

abbrev other_bucket : Bucket
other_bucket = record { kind = "other"; slug = "aggregate-other"; name = "聚合·其他" }

abbrev pub legacy_aggregate_slugs : List String
legacy_aggregate_slugs = "aggregate-legado" ∷ []

unfoldable pub is_aggregate_set_id : String → Bool
is_aggregate_set_id id =
    any (λ b. b.slug == id) aggregate_buckets || contains legacy_aggregate_slugs id

-- The last bucket serves every unknown type.
unfoldable pub find_bucket : String → List Bucket → Bucket
find_bucket t [] = other_bucket
find_bucket t (b ∷ bs) = if b.kind == t then b else find_bucket t bs

unfoldable pub bucket_by_type : String → Bucket
unfolding find_bucket
bucket_by_type t = find_bucket t aggregate_buckets

abbrev pub aggregate_binding_id : String → String
aggregate_binding_id set_id = "binding_" <> set_id

abbrev pub aggregate_token_owner : String → String
aggregate_token_owner set_id = "aggregate_token_" <> set_id

abbrev is_feed : String → Bool
is_feed p = p == "rss" || p == "atom" || p == "json-feed" || p == "opml" || p == ""

-- The loop over the media types.
unfoldable pub type_of_media : String → List String → String
type_of_media p [] = "other"
type_of_media p (m ∷ ms) =
    if contains ("video.live" ∷ "support.epg" ∷ "audio.radio" ∷ []) m
    then "iptv"
    else if contains ("text.novel" ∷ "text.ebook" ∷ []) m
    then "novel"
    else if m == "image.comic"
    then "manga"
    else if contains ("speech.tts" ∷ "audio.audiobook" ∷ []) m
    then "audiobook"
    else if m == "audio.music"
    then "music"
    else if contains ("text.article" ∷ "audio.podcast" ∷ []) m
    then "rss"
    else if contains ("video.movie" ∷ "video.series" ∷ "video.short" ∷ []) m && p == ""
    then "tvbox"
    else type_of_media p ms

-- `p` is the protocol after TrimSpace and ToLower.
unfoldable pub type_of_protocol : String → List String → String
type_of_protocol p media =
    if contains media "audio.music" && is_feed p
    then "music"
    else if p == "tvbox"
    then "tvbox"
    else if contains ("m3u" ∷ "xmltv" ∷ "dispatcharr" ∷ []) p
    then "iptv"
    else if contains
        ("legado-book" ∷ "so-novel" ∷ "relay-book" ∷ "opds1" ∷ "opds2" ∷ "legado-replace"
          ∷ "legado-hub" ∷ [])
        p
    then "novel"
    else if p == "mihon-repo"
    then "manga"
    else if contains ("legado-tts" ∷ "podcast" ∷ []) p
    then "audiobook"
    else if contains ("lx-music" ∷ "music-playlist" ∷ []) p
    then "music"
    else if p == "direct-link"
    then "other"
    else if contains ("rss" ∷ "atom" ∷ "json-feed" ∷ "opml" ∷ "legado-rss" ∷ []) p
    then "rss"
    else type_of_media p media

-- AggregateTypeFor, for a function that lowers the case of a text.
unfoldable pub aggregate_type_for : (String → String) → String → List String → String
aggregate_type_for to_lower protocol media = type_of_protocol (to_lower (trim_space protocol)) media
