-- ===== src/Service/Publishing.antt =====
-- Publications: preparePublication (with the fields of Compile) and RollbackPublication of
-- internal/service/publisher.go.
pub mod Pointers
pub mod Contents
pub mod Safety
pub mod Answers
use shadow_relay.Prelude.{
  String, Bool, not, ◌&&◌, ◌||◌, ◌*◌, ◌⊎◌, inl, inr, List, [], ◌∷◌, ◌==◌, ◌<>◌, length,
}
use shadow_relay.Prelude.Int.{pos, ltz, scale}
use shadow_relay.Store.Table.{Table, put}
use shadow_relay.Store.Op.{
  Op, message, publication, ok, err, pure, fail, guard, write, when◌run◌or◌, ◌>>=◌, ◌>>◌,
}
use shadow_relay.Store.Rows.{get_row, put_row, insert_row}
use shadow_relay.Model.Publication.{Member, ChannelRule, SourceSet, Artifact, Publication}
use shadow_relay.Model.Database.{Database, source_sets, publications}
use shadow_relay.Service.Draws.{Draws, new_id, audit}
use shadow_relay.Service.Buckets.{is_aggregate_set_id}
use shadow_relay.Service.Selection.{
  Selected, Input, sort_members, is_empty, gather, publication_inputs,
}

-- What Compile renders by encoding/json and encoding/xml.
pub record Rendered : Type 0 where
  pub revision : String
  pub artifacts : List (String × Artifact)
  pub format_warnings : List (String × String)

-- The encoders of the Go library, and the hash of their texts.
pub record Encoding : Type 0 where
  pub hash : String → String
  -- `jsonBytes` of the map under "name", "description", "members", "channelRules", "items", "excluded"
  pub inputs_text :
      String → String → List Member → List ChannelRule → List Input → Table String → String
  -- `jsonBytes` of the empty bundle: set, name, publication, revision, time
  pub bundle_text : String → String → String → String → String → String
  -- the documents of Compile for a set, or the error of a source that cannot be rendered
  pub render : SourceSet → List Selected → String → String → String ⊎ Rendered

-- The loop of Compile over the items writes `SourceRevisions`.
unfoldable pub source_revisions : List Selected → Table String → Table String
source_revisions [] t = t
source_revisions (v ∷ vs) t = source_revisions vs (put t v.source.id v.revision.id)

module _ (enc : Encoding) (w : Draws) where
  unfoldable pub compile : SourceSet → List Selected → Table String → Op Database Publication
  compile set items excluded d = elim (enc.render set items (new_id w "pub" 0) w.now) [
    | inl e ↦ err (message e) d
    | inr x ↦
        ok
          (record {
            format_warnings = x.format_warnings;
            id = new_id w "pub" 0;
            set_id = set.id;
            revision = x.revision;
            artifacts = x.artifacts;
            source_revisions = source_revisions items [];
            exclusions = excluded;
            created_at = w.now;
          })
          d
  ]

  -- The publication of an aggregate without members.
  abbrev pub empty_publication : SourceSet → Table String → Publication
  empty_publication set excluded =
      let id : String = new_id w "pub" 0 in
      let revision : String = "sha256:" <> enc.hash (enc.bundle_text set.id set.name id "" w.now) in
      let body : String = enc.bundle_text set.id set.name id revision w.now in
      record {
        format_warnings = ("shadow.json", "aggregate has no enabled members") ∷ [];
        id = id;
        set_id = set.id;
        revision = revision;
        artifacts =
            (
              "shadow.json",
              record { content_type = "application/json"; body = body; hash = enc.hash body },
            )
            ∷ [];
        source_revisions = [];
        exclusions = excluded;
        created_at = w.now;
      }

  -- The current publication of the set becomes the previous one.
  abbrev pub advance : String → String → SourceSet → SourceSet
  advance id signature set = record set {
    previous_publication = set.current_publication;
    current_publication = id;
    publish_signature = signature;
    updated_at = w.now;
  }

  unfoldable pub withdraw : SourceSet → Table String → Op Database Publication
  withdraw set excluded = do
    let p : Publication = empty_publication set excluded
    insert_row publications p.id p
    put_row source_sets set.id (advance p.id "empty-aggregate" set)
    audit w 1 "aggregate.withdraw" set.id
    pure p

  unfoldable pub nothing_to_publish :
      SourceSet → Table String → Bool → Bool → Op Database Publication
  nothing_to_publish set excluded automatic preview =
      when is_aggregate_set_id set.id && is_empty set.members && not preview
      run withdraw set excluded
      or when automatic && not (set.current_publication == "")
      run get_row publications set.current_publication
      or fail (publication "没有可发布的源；请先批准版本并启用源，再检查健康分、过滤条件和运行时。当前发布保持不变。" excluded)

  -- The availability policy that withholds an automatic publication.
  unfoldable pub is_withheld : SourceSet → List Member → List Selected → Table String → Bool
  is_withheld set members items excluded =
      not set.auto_publish
      || ltz (pos (length items)) set.min_available
      || ltz (scale set.max_excluded_percent (length members)) (pos (length excluded * 100))

  abbrev pub signature_of : SourceSet → List Member → List Selected → Table String → String
  signature_of set members items excluded = enc.hash (
      enc.inputs_text set.name set.description members set.channel_rules (publication_inputs items)
        excluded)

  unfoldable pub release_publication :
      String
      → SourceSet
      → List Member
      → List Selected
      → Table String
      → Bool
      → Op Database Publication
  release_publication id set members items excluded preview = do
    p ← compile set items excluded
    when preview run pure p or do
      insert_row publications p.id p
      put_row source_sets id (advance p.id (signature_of set members items excluded) set)
      audit w 1 "publication.publish" p.id
      pure p

  unfoldable pub publish_items :
      String
      → SourceSet
      → List Member
      → List Selected
      → Table String
      → Bool
      → Bool
      → Op Database Publication
  publish_items id set members items excluded automatic preview =
      when is_empty items run nothing_to_publish set excluded automatic preview or do
        guard (not (automatic && is_withheld set members items excluded))
            (message "automatic publication held by availability policy")
        when automatic
              && signature_of set members items excluded == set.publish_signature
              && not (set.current_publication == "")
            run get_row publications set.current_publication
            or release_publication id set members items excluded preview

  unfoldable pub prepare_publication_tx : String → Bool → Bool → Op Database Publication
  prepare_publication_tx id automatic preview = do
    set ← get_row source_sets id
    let members : List Member = sort_members set.members
    found ← gather members [] []
    publish_items id set members found.0 found.1 automatic preview

  unfoldable pub prepare_publication : String → Bool → Bool → Op Database Publication
  prepare_publication id automatic preview = write (prepare_publication_tx id automatic preview)

unfoldable pub rollback_publication_tx : Draws → String → Op Database Unit
rollback_publication_tx w id = do
  p ← get_row publications id
  set ← get_row source_sets p.set_id
  when set.current_publication == id run pure tt or do
    put_row source_sets set.id (record set {
      previous_publication = set.current_publication;
      current_publication = id;
      updated_at = w.now;
    })
    audit w 0 "publication.rollback" id

unfoldable pub rollback_publication : Draws → String → Op Database Unit
rollback_publication w id = write (rollback_publication_tx w id)
