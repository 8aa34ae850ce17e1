-- ===== src/Service/SourceSets.antt =====
-- SaveSet of internal/service/publisher.go, and validateChannelRules of exports.go.
pub mod Members
pub mod Pointed
use shadow_relay.Prelude.{
  String, Bool, true, false, not, ◌&&◌, ◌||◌, ◌+◌, List, [], ◌∷◌, ◌==◌, ◌<>◌, if◌then◌else◌, ltb,
  leb, length, all, contains, contains_any, byte_len,
}
use shadow_relay.Prelude.Int.{ℤ, pos, ltz, eqz}
use shadow_relay.Store.Op.{conflict, message, Op, pure, guard, write, when◌run◌or◌, ◌>>=◌, ◌>>◌}
use shadow_relay.Store.Rows.{get_row, put_row}
use shadow_relay.Model.Publication.{Member, ChannelRule, SourceSet}
use shadow_relay.Model.Database.{Database, sources, source_sets}
use shadow_relay.Security.{Urls, is_safe_url}
use shadow_relay.Service.Draws.{Draws, new_id, audit}
use shadow_relay.Service.Bindings.{is_name}

-- var mediaTypes
abbrev pub media_types : List String
media_types =
    "video.movie" ∷ "video.series" ∷ "video.short" ∷ "video.live" ∷ "text.novel" ∷ "text.ebook"
    ∷ "text.article" ∷ "image.comic" ∷ "audio.audiobook" ∷ "audio.podcast" ∷ "audio.music"
    ∷ "audio.radio" ∷ "speech.tts" ∷ "support.metadata" ∷ "support.subtitle" ∷ "support.danmaku"
    ∷ "support.epg" ∷ "support.lyric" ∷ []

abbrev rule_key : ChannelRule → String
rule_key r = r.source_id <> "|" <> r.match

-- The loop of validateChannelRules, with the keys seen so far.
unfoldable pub check_rules : Urls → List String → List ChannelRule → Op Database Unit
check_rules urls seen [] = pure tt
check_rules urls seen (r ∷ rs) = do
  let text : String = r.name <> r.group <> r.tvg_id
  guard (not (r.match == "" || ltb 1000 (byte_len text) || contains_any text "\r\n\0"))
      (message "invalid channel override")
  guard (not (contains seen (rule_key r))) (message "duplicate channel override")
  guard (r.logo == "" || is_safe_url urls r.logo) (message "unsafe logo URL")
  check_rules urls (rule_key r ∷ seen) rs

unfoldable pub validate_channel_rules : Urls → List ChannelRule → Op Database Unit
validate_channel_rules urls rules = do
  guard (leb (length rules) 2000) (message "maximum 2000 channel overrides")
  check_rules urls [] rules

abbrev or_default : ℤ → ℤ → ℤ
or_default z n = if eqz n (pos 0) then z else n

-- Is `n` from `a` to `b`?
abbrev pub within : ℤ → ℤ → ℤ → Bool
within a b n = not (ltz n a) && not (ltz b n)

unfoldable pub is_member_ok : Member → Bool
is_member_ok m =
    contains ("primary" ∷ "backup" ∷ "auxiliary" ∷ []) m.role
    && within (pos 0) (pos 100) m.min_score
    && within (pos 0) (pos 10000) m.priority
    && within (pos 0) (pos 10000) m.weight

unfoldable pub are_limits_ok : Member → Bool
are_limits_ok m =
    within (pos 100) (pos 120000) m.timeout_ms && within (pos 1) (pos 32) m.max_concurrency

abbrev pub with_role : Member → Member
with_role m = record m { role = if m.role == "" then "primary" else m.role }

abbrev pub with_limits : Member → Member
with_limits m = record m {
  weight = or_default (pos 1) m.weight;
  timeout_ms = or_default (pos 15000) m.timeout_ms;
  max_concurrency = or_default (pos 2) m.max_concurrency;
}

-- The loop over the members, with the sources seen so far: their defaults and their checks.
unfoldable pub check_members : List String → List Member → Op Database (List Member)
check_members seen [] = pure []
check_members seen (m ∷ ms) = do
  guard (not (contains seen m.source_id)) (message "duplicate source in set")
  get_row sources m.source_id
  guard (is_member_ok (with_role m)) (message "invalid member role, priority, weight or score")
  guard (are_limits_ok (with_limits (with_role m)))
      (message "invalid member timeout or concurrency")
  guard (all (contains media_types) m.media_types) (message "invalid media filter")
  rest ← check_members (m.source_id ∷ seen) ms
  pure (with_limits (with_role m) ∷ rest)

-- An existing set keeps its pointers and its signature; a new one has none.
unfoldable pub with_history : String → String → SourceSet → Op Database SourceSet
with_history id expected set = when id == "" run pure set or do
  old ← get_row source_sets id
  guard (expected == "" || expected == old.updated_at) conflict
  pure (record set {
    current_publication = old.current_publication;
    previous_publication = old.previous_publication;
    publish_signature = old.publish_signature;
  })

module _ (urls : Urls) (w : Draws) where
  unfoldable pub save_set_tx : String → String → SourceSet → Op Database SourceSet
  save_set_tx id expected set = do
    based ← with_history id expected set
    members ← check_members [] set.members
    let saved : SourceSet = record based { members = members }
    put_row source_sets saved.id saved
    audit w 1 "source_set.save" saved.id
    pure saved

  -- The set as the request gives it, before the transaction.
  abbrev pub requested : String → SourceSet → SourceSet
  requested id set = record set {
    min_available = or_default (pos 1) set.min_available;
    publish_signature = "";
    id = if id == "" then new_id w "set" 0 else id;
    current_publication = "";
    previous_publication = "";
    updated_at = w.now;
  }

  unfoldable pub save_set : String → SourceSet → Op Database SourceSet
  save_set id set = do
    guard (is_name set.name) (message "name must contain 1–160 characters")
    guard (not (ltb 2000 (byte_len set.description) || ltb 500 (length set.members)))
        (message "source set exceeds limit")
    validate_channel_rules urls set.channel_rules
    guard
        (not (ltz (or_default (pos 1) set.min_available) (pos 1))
          && within (pos 0) (pos 100) set.max_excluded_percent)
        (message "invalid automatic publication safety limits")
    write (save_set_tx id set.updated_at (requested id set))
