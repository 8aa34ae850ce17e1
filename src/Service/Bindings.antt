-- ===== src/Service/Bindings.antt =====
-- Client bindings: CreateBinding, BindingAction and Resolve of internal/service/publisher.go.
pub mod Access
pub mod Grants
use shadow_relay.Prelude.{
  ℕ, suc, String, Bool, true, false, not, ◌&&◌, ◌||◌, Option, none, some, List, [], ◌∷◌, ◌==◌,
  starts_with, ◌<>◌, byte_len, has_suffix, trim_space, contains, all, ltb, leb, eqb, if◌then◌else◌,
}
use shadow_relay.Store.Table.{Table}
use shadow_relay.Store.Op.{
  not_found, message, Op, ok, err, pure, fail, guard, write, when◌run◌or◌, ◌>>=◌, ◌>>◌,
}
use shadow_relay.Store.Rows.{get_row, put_row, insert_row, discard_row}
use shadow_relay.Model.Source.{Secret}
use shadow_relay.Model.Publication.{Artifact, Publication, Binding}
use shadow_relay.Model.Database.{Database, source_sets, publications, bindings, secrets}
use shadow_relay.Service.Draws.{Draws, new_id, audit}
use shadow_relay.Service.Platform.{Platform}
use shadow_relay.Service.Buckets.{is_aggregate_set_id, aggregate_token_owner}

-- `requireName`
unfoldable pub is_name : String → Bool
is_name name = not (trim_space name == "" || ltb 160 (byte_len name))

-- var Formats
abbrev pub formats : List String
formats =
    "shadow.json" ∷ "podcasts/feed.xml" ∷ "tvbox/store.json" ∷ "iptv/live.m3u" ∷ "iptv/epg.xml"
    ∷ "legado/books.json" ∷ "legado/replace.json" ∷ "hub/plugins.json" ∷ "mihon/repos.json"
    ∷ "iptv/live.txt" ∷ "legado/rss.json" ∷ "legado/tts.json" ∷ "feeds.opml" ∷ "opds/"
    ∷ "lx-music/sources.json" ∷ "music/playlist.m3u" ∷ []

abbrev default_formats : List String → List String
default_formats [] = formats
default_formats (f ∷ fs) = f ∷ fs

-- `SELECT id FROM bindings WHERE token_hash=$1`
unfoldable pub find_by_hash : Table Binding → String → Option String
find_by_hash [] h = none
find_by_hash ((k, b) ∷ t) h = if b.hash == h then some k else find_by_hash t h

unfoldable pub find_binding : String → Op Database String
find_binding h d = elim (find_by_hash d.bindings h) [ none ↦ err not_found d | some k ↦ ok k d ]

unfoldable pub find_artifact : List (String × Artifact) → String → Option Artifact
find_artifact [] path = none
find_artifact ((k, a) ∷ m) path = if k == path then some a else find_artifact m path

unfoldable pub open_artifact : Publication → String → Op Database Artifact
open_artifact p path d = elim (find_artifact p.artifacts path) [
  | none ↦ err not_found d
  | some a ↦ ok a d
]

-- The formats of a binding open their own paths, and some open a family of paths.
unfoldable pub is_path_allowed : List String → String → Bool
is_path_allowed granted path =
    contains granted path
    || (starts_with path "tvbox/" && contains granted "tvbox/store.json")
    || (starts_with path "sources/" && contains granted "shadow.json")
    || (starts_with path "sources/"
        && has_suffix path "/podcast.xml"
        && contains granted "feeds.opml")

module _ (pf : Platform) (w : Draws) where
  -- `e == nil && expiry.After(time.Now())`
  unfoldable pub is_future : String → Bool
  is_future text = elim (pf.parse_time text) [ none ↦ false | some t ↦ ltb w.clock t ]

  unfoldable pub create_binding : Binding → Op Database (Binding × String)
  create_binding b0 = do
    guard (is_name b0.name) (message "name must contain 1–160 characters")
    let b : Binding = record b0 { formats = default_formats b0.formats }
    guard (all (contains formats) b.formats) (message "unsupported binding format")
    guard (is_future b.expires_at) (message "binding expiry must be a future RFC3339 timestamp")
    let c : Binding = record b {
      id = new_id w "binding" 0;
      hash = pf.hash w.token;
      created_at = w.now;
      generation = 1;
      revoked = false;
    }
    write (do
      get_row source_sets c.set_id
      insert_row bindings c.id c
      audit w 1 "binding.create" c.id)
    pure (record c { hash = "" }, w.token)

  -- case "revoke": the stored token of an aggregate goes too.
  unfoldable pub revoke : Binding → Op Database Binding
  revoke b = do
    when is_aggregate_set_id b.set_id
        run discard_row secrets (aggregate_token_owner b.set_id)
        or pure tt
    pure (record b { revoked = true })

  unfoldable pub rotate : Binding → Op Database Binding
  rotate b = do
    guard (is_future b.expires_at) (message "expired binding cannot rotate; create a new binding")
    let owner = aggregate_token_owner b.set_id
    when is_aggregate_set_id b.set_id
        run put_row secrets owner (record {
          id = owner;
          owner_id = owner;
          ciphertext = pf.seal owner w.token;
          updated_at = w.now;
        })
        or pure tt
    pure (record b { hash = pf.hash w.token; generation = suc b.generation; revoked = false })

  unfoldable pub binding_action_tx : String → String → Op Database String
  binding_action_tx id action = do
    b ← get_row bindings id
    c ←
        when action == "revoke"
        run revoke b
        or when action == "rotate"
        run rotate b
        or fail (message "unknown binding action")
    put_row bindings id c
    audit w 0 ("binding." <> action) id
    pure (if action == "rotate" then w.token else "")

  unfoldable pub binding_action : String → String → Op Database String
  binding_action id action = write (binding_action_tx id action)

  -- The publication that a request names, or the current one of the set.
  unfoldable pub wanted_publication : String → Binding → Op Database String
  wanted_publication publication b =
      when publication == ""
      run (do set ← get_row source_sets b.set_id; pure set.current_publication)
      or pure publication

  unfoldable pub resolve : String → String → String → Op Database Artifact
  resolve token publication path = do
    guard (eqb (byte_len token) 43) not_found
    id ← find_binding (pf.hash token)
    b ← get_row bindings id
    guard (is_future b.expires_at && not b.revoked) not_found
    guard (is_path_allowed b.formats path) not_found
    wanted ← wanted_publication publication b
    p ← get_row publications wanted
    guard (p.set_id == b.set_id) not_found
    open_artifact p path
