-- ===== src/Service/Selection.antt =====
-- The choice of what a publication contains: the ordering of the members, the exclusions and the
-- filters of preparePublication in internal/service/publisher.go, and publicationInputs of exports.go.
pub mod Eligibility
pub mod Gathering
pub mod Order
use shadow_relay.Prelude.{
  ℕ, String, Bool, true, false, not, ◌&&◌, ◌||◌, List, [], ◌∷◌, ◌++◌, ◌==◌, keep, any, map,
  contains, ltb, if◌then◌else◌,
}
use shadow_relay.Prelude.Int.{pos, ltz, eqz}
use shadow_relay.Store.Table.{Table, put, text_lt}
use shadow_relay.Store.Op.{Op, message, pure, guard, when◌run◌or◌, ◌>>=◌, ◌>>◌}
use shadow_relay.Store.Rows.{get_row}
use shadow_relay.Model.Source.{
  Health, unknown, healthy, degraded, failing, avoid, quarantined, disabled, Source, Item, Revision,
  is_approved, is_healthy,
}
use shadow_relay.Model.Publication.{Member}
use shadow_relay.Model.Database.{Database, sources, revisions, runtimes}

-- type selected
pub record Selected : Type 0 where
  pub source : Source
  pub revision : Revision
  pub member : Member
  pub endpoint : String
  pub driver : String

unfoldable pub role_order : String → ℕ
role_order r = if r == "primary" then 0 else if r == "backup" then 1 else 2

-- The order of the members: by priority downwards, then by role, then by source.
unfoldable pub precedes : Member → Member → Bool
precedes m n =
    if not (eqz m.priority n.priority)
    then ltz n.priority m.priority
    else if not (m.role == n.role)
    then ltb (role_order m.role) (role_order n.role)
    else text_lt m.source_id n.source_id

-- `sort.SliceStable`, as an insertion that leaves equal members in their order.
unfoldable pub insert_member : Member → List Member → List Member
insert_member m [] = m ∷ []
insert_member m (n ∷ ns) = if precedes n m then n ∷ insert_member m ns else m ∷ n ∷ ns

unfoldable pub sort_members : List Member → List Member
sort_members [] = []
sort_members (m ∷ ms) = insert_member m (sort_members ms)

unfoldable pub overlap : List String → List String → Bool
overlap a b = any (contains b) a

abbrev pub is_empty {ℓ} : {A : Type ℓ} → List A → Bool
is_empty [] = true
is_empty (x ∷ xs) = false

unfoldable pub is_item_kept : Member → Item → Bool
is_item_kept m x =
    (is_empty m.languages || contains m.languages x.language)
    && (is_empty m.regions || contains m.regions x.region)

unfoldable pub filtered : List Item → Member → List Item
filtered items m = keep (is_item_kept m) items

abbrev pub health_text : Health → String
health_text unknown = "unknown"
health_text healthy = "healthy"
health_text degraded = "degraded"
health_text failing = "failing"
health_text avoid = "avoid"
health_text quarantined = "quarantined"
health_text disabled = "disabled"

-- The health that keeps a source out of every publication.
unfoldable pub is_unfit : Health → Bool
is_unfit quarantined = true
is_unfit failing = true
is_unfit avoid = true
is_unfit disabled = true
is_unfit _ = false

-- The `switch` that finds the reason to leave a source out; "" where there is none.
unfoldable pub exclusion_reason : Source → Member → String
exclusion_reason src m =
    if not src.enabled
    then "disabled"
    else if src.active_revision == ""
    then "no_approved_revision"
    else if is_unfit src.health
    then health_text src.health
    else if ltz (pos src.score) m.min_score
    then "below_minimum_health"
    else if src.mode == "catalog-only"
    then "catalog_only"
    else if not (is_empty m.media_types) && not (overlap src.media_types m.media_types)
    then "media_filtered"
    else ""

-- One round of the loop over the members: the source is left out, or it is chosen.
pub data Choice : Type 0 where
  left_out : String → String → Choice
  chosen : Selected → Choice

module _ (src : Source) (m : Member) (r : Revision) where
  abbrev is_filter_empty : Bool
  is_filter_empty =
      (not (is_empty m.languages) || not (is_empty m.regions))
      && is_empty (filtered r.normalized.items m)

  unfoldable pub place_source : Op Database Choice
  place_source =
      when src.runtime_id == ""
      run pure (
          chosen (record {
            source = src;
            revision = r;
            member = m;
            endpoint = src.url;
            driver = src.protocol;
          }))
      or do
        rt ← get_row runtimes src.runtime_id
        when is_healthy rt.health
            run pure (
                chosen (record {
                  source = src;
                  revision = r;
                  member = m;
                  endpoint = rt.url;
                  driver = rt.driver;
                }))
            or pure (left_out src.id "runtime_unavailable")

unfoldable pub consider : Source → Member → Op Database Choice
consider src m = do
  r ← get_row revisions src.active_revision
  guard (is_approved r.status) (message "active revision is not approved")
  when is_filter_empty src m r
      run pure (left_out src.id "item_filter_empty")
      or place_source src m r

unfoldable pub choose : Member → Op Database Choice
choose m = do
  src ← get_row sources m.source_id
  when not (exclusion_reason src m == "")
      run pure (left_out src.id (exclusion_reason src m))
      or consider src m

-- The loop, with the sources chosen so far and the reasons of those left out.
unfoldable pub gather :
    List Member → List Selected → Table String → Op Database (List Selected × Table String)
gather [] items excluded = pure (items, excluded)
gather (m ∷ ms) items excluded = do
  c ← choose m
  elim c [
    | left_out id reason ↦ gather ms items (put excluded id reason)
    | chosen s ↦ gather ms (items ++ s ∷ []) excluded
  ]

-- What of a selected source enters the signature of a publication.
pub record Input : Type 0 where
  pub id : String
  pub name : String
  pub revision : String
  pub mode : String
  pub media_types : List String
  pub health : Health
  pub score : ℕ
  pub endpoint : String
  pub driver : String
  pub hub_proxy_mode : String

unfoldable pub publication_inputs : List Selected → List Input
publication_inputs items =
    map
      (λ v. record {
        id = v.source.id;
        name = v.source.name;
        revision = v.revision.id;
        mode = v.source.mode;
        media_types = v.source.media_types;
        health = v.source.health;
        score = v.source.score;
        endpoint = v.endpoint;
        driver = v.driver;
        hub_proxy_mode = v.source.hub_proxy_mode;
      })
      items
