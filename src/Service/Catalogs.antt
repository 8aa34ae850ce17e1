-- ===== src/Service/Catalogs.antt =====
-- SaveCatalog, SyncCatalog and CandidateAction of internal/service/catalog.go: catalogs of sources,
-- and what the operator makes of their entries.
pub mod Unique
pub mod Accepted
use shadow_relay.Prelude.{
  ℕ, suc, String, Bool, true, false, not, ◌&&◌, ◌||◌, Option, none, some, List, [], ◌∷◌, ◌==◌, eqb,
  if◌then◌else◌, contains, any, map, ◌<>◌,
}
use shadow_relay.Prelude.Int.{ℤ, pos}
use shadow_relay.Store.Op.{
  when◌run◌or◌, Op, message, conflict, pure, fail, guard, write, ◌>>=◌, ◌>>◌,
}
use shadow_relay.Store.Rows.{get_row, put_row, insert_row, list_rows}
use shadow_relay.Adapter.Difference.{Reader}
use shadow_relay.Model.Source.{Source, Item, Normalized}
use shadow_relay.Model.Catalog.{
  Catalog, Candidate, CandidateStatus, pending, accepted, ignored, blocked,
}
use shadow_relay.Model.Database.{Database, catalogs, candidates, sources, revisions, endpoints}
use shadow_relay.Service.Draws.{Draws, new_id, audit}
use shadow_relay.Service.Intake.{Site, SourceInput, defaults, new_source, first_revision}
use shadow_relay.Service.Preview.{World, require, preview}
use shadow_relay.Service.Sync.{Fetched}

-- A request with nothing but a name, a URL, a network and a trust.
abbrev pub plain_input : String → String → String → String → SourceInput
plain_input name url network trust = record {
  proxy_id = none;
  hub_proxy_mode = none;
  probe_interval_minutes = pos 0;
  smoke_keyword = "";
  hub_plugin_id = "";
  name = name;
  url = url;
  content = "";
  protocol = "";
  network = network;
  trust = trust;
  mode = "";
  runtime_id = "";
  media_types = [];
  update_policy = "";
  interval_minutes = pos 0;
  headers = none;
}

-- Has another catalog the URL?
unfoldable pub is_subscribed : String → String → List Catalog → Bool
is_subscribed id url cs = any (λ c. not (c.id == id) && c.url == url) cs

unfoldable pub save_catalog_tx : Draws → String → Catalog → Op Database Catalog
save_catalog_tx w id c = do
  when id == "" run pure tt or (do old ← get_row catalogs id; pure tt)
  cs ← list_rows catalogs
  guard (not (is_subscribed c.id c.url cs)) (message "this catalog URL is already subscribed")
  put_row catalogs c.id c
  audit w (if id == "" then 1 else 0) "catalog.save" c.id
  pure c

unfoldable pub save_catalog : Site → Draws → String → Catalog → Op Database Catalog
save_catalog site w id c = do
  i ← defaults site.urls (record (plain_input c.name c.url c.network c.trust) {
    interval_minutes = c.interval_minutes;
  })
  guard (not (i.url == "")) (message "catalog URL required")
  write (
      save_catalog_tx w id (record {
        id = if id == "" then new_id w "catalog" 0 else id;
        name = i.name;
        url = i.url;
        network = i.network;
        trust = i.trust;
        enabled = c.enabled;
        interval_minutes = i.interval_minutes;
        next_sync = "";
        last_sync = "";
        etag = "";
        last_modified = "";
      }))

-- What a sync takes from outside: the hash of a URL, and the protocol that the data of an entry
-- names ("" where they are no such JSON).
pub record CatalogReader : Type 0 where
  pub hash : String → String
  pub meta_protocol : String → String

-- The fingerprints of the candidates that the catalog has.
unfoldable pub known_of : String → List Candidate → List String
known_of id [] = []
known_of id (c ∷ cs) =
    let rest = known_of id cs in if c.catalog_id == id then c.fingerprint ∷ rest else rest

module _ (rd : CatalogReader) (w : Draws) (id : String) where
  -- The protocol of an entry, where the document or its data say one.
  unfoldable pub entry_protocol : Bool → Item → String
  entry_protocol tvbox item =
      let named = rd.meta_protocol item.payload in
      if named == "" then (if tvbox then "tvbox" else "") else named

  abbrev pub candidate_of : ℕ → Bool → Item → Candidate
  candidate_of n tvbox item = record {
    id = new_id w "candidate" n;
    catalog_id = id;
    name = item.name;
    url = item.url;
    protocol = entry_protocol tvbox item;
    fingerprint = rd.hash item.url;
    status = pending;
    source_id = "";
    discovered_at = w.now;
  }

  -- The loop over the entries, with the number of ids drawn and the fingerprints seen so far.
  unfoldable pub add_candidates : Bool → ℕ → List String → List Item → Op Database ℕ
  add_candidates tvbox n known [] = pure n
  add_candidates tvbox n known (item ∷ items) =
      when (tvbox && not (item.group == "store")) || contains known (rd.hash item.url)
      run add_candidates tvbox n known items
      or do
        insert_row candidates (new_id w "candidate" n) (candidate_of n tvbox item)
        add_candidates tvbox (suc n) (rd.hash item.url ∷ known) items

  unfoldable pub synced_catalog : Fetched → Catalog → Catalog
  synced_catalog res c = record c {
    last_sync = w.now;
    next_sync = w.later c.interval_minutes;
    etag = if not (eqb res.status 304) || not (res.etag == "") then res.etag else c.etag;
    last_modified =
        if not (eqb res.status 304) || not (res.last_modified == "")
        then res.last_modified
        else c.last_modified;
  }

  -- The transaction at the end of SyncCatalog: `cat` is the catalog before the fetch, and `n` has
  -- no items where the answer was 304.
  unfoldable pub sync_catalog_tx : Catalog → Fetched → Normalized → Op Database Unit
  sync_catalog_tx cat res n = do
    current ← get_row catalogs id
    guard (current.url == cat.url) conflict
    entries ← list_rows candidates
    drawn ← add_candidates (n.protocol == "tvbox") 0 (known_of id entries) n.items
    put_row catalogs id (synced_catalog res current)
    audit w drawn "catalog.sync" id

abbrev pub is_accepted : CandidateStatus → Bool
is_accepted accepted = true
is_accepted _ = false

abbrev pub is_blocked : CandidateStatus → Bool
is_blocked blocked = true
is_blocked _ = false

abbrev pub is_same_status : CandidateStatus → CandidateStatus → Bool
is_same_status pending pending = true
is_same_status accepted accepted = true
is_same_status ignored ignored = true
is_same_status blocked blocked = true
is_same_status _ _ = false

-- `map[string]string{"ignore": "ignored", "block": "blocked", "reset": "pending"}[action]`
abbrev pub action_status : String → CandidateStatus
action_status action =
    if action == "ignore" then ignored else if action == "block" then blocked else pending

-- The transaction of the actions other than "accept".
unfoldable pub mark_candidate_tx : Draws → String → String → Op Database Unit
mark_candidate_tx w id action = do
  v ← get_row candidates id
  guard (not (is_accepted v.status)) (message "accepted candidate is immutable")
  put_row candidates id (record v { status = action_status action })
  audit w 0 ("candidate." <> action) id

-- The transaction of "accept": `c` and `cat` were read before the fetch.
unfoldable pub accept_candidate_tx :
    Reader
    → Draws
    → String
    → Candidate
    → Catalog
    → SourceInput
    → String
    → Normalized
    → Op Database Unit
accept_candidate_tx rd w id c cat i hash n = do
  let rev = first_revision rd w (new_id w "src" 0) hash n
  let src : Source = record (new_source w i n) { catalog_id = cat.id; staged_revision = rev.id }
  v ← get_row candidates id
  guard (is_same_status v.status c.status) conflict
  insert_row sources src.id src
  insert_row revisions rev.id rev
  insert_row endpoints (src.id <> "_primary")
      (record { id = src.id <> "_primary"; source_id = src.id; role = "primary"; url = src.url })
  put_row candidates id (record v { status = accepted; source_id = src.id })
  audit w 2 "candidate.accept" id

unfoldable pub candidate_action : Site → World → Reader → Draws → String → String → Op Database Unit
candidate_action site world rd w id action = do
  c ← get_row candidates id
  when action == "accept"
      run (do
        guard (not (is_blocked c.status || is_accepted c.status))
            (message "candidate cannot be accepted in current state")
        cat ← get_row catalogs c.catalog_id
        i ←
            defaults site.urls
              (record (plain_input c.name c.url cat.network cat.trust) { protocol = c.protocol })
        (n, body) ← preview world site i
        hash ← require (world.snapshot body)
        write (accept_candidate_tx rd w id c cat i hash n))
      or do
        guard (contains ("ignore" ∷ "block" ∷ "reset" ∷ []) action)
            (message "unknown candidate action")
        write (mark_candidate_tx w id action)
