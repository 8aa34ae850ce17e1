-- ===== src/Model/Publication.antt =====
-- internal/model/model.go and steward.go: source sets, publications and bindings.
use shadow_relay.Prelude.{ℕ, String, Bool, List}
use shadow_relay.Prelude.Int.{ℤ}
use shadow_relay.Model.Source.{Source}

pub record Member : Type 0 where
  pub source_id : String
  pub priority : ℤ
  pub weight : ℤ
  pub role : String
  pub min_score : ℤ
  pub media_types : List String
  pub languages : List String
  pub regions : List String
  pub devices : List String
  pub networks : List String
  pub timeout_ms : ℤ
  pub max_concurrency : ℤ

pub record ChannelRule : Type 0 where
  pub source_id : String
  pub match : String
  pub name : String
  pub group : String
  pub logo : String
  pub tvg_id : String
  pub hide : Bool

pub record SourceSet : Type 0 where
  pub next_publish : String
  pub channel_rules : List ChannelRule
  pub auto_publish : Bool
  pub min_available : ℤ
  pub max_excluded_percent : ℤ
  pub publish_signature : String
  pub id : String
  pub name : String
  pub description : String
  pub members : List Member
  pub current_publication : String
  pub previous_publication : String
  pub updated_at : String

pub record Artifact : Type 0 where
  pub content_type : String
  pub body : String
  pub hash : String

-- A Go map is a list of its pairs; the keys are distinct.
pub record Publication : Type 0 where
  pub format_warnings : List (String × String)
  pub id : String
  pub set_id : String
  pub revision : String
  pub artifacts : List (String × Artifact)
  pub source_revisions : List (String × String)
  pub exclusions : List (String × String)
  pub created_at : String

pub record Binding : Type 0 where
  pub id : String
  pub name : String
  pub set_id : String
  pub hash : String
  pub formats : List String
  pub expires_at : String
  pub revoked : Bool
  pub generation : ℕ
  pub created_at : String

pub record Feedback : Type 0 where
  pub id : String
  pub binding_id : String
  pub publication_id : String
  pub source_id : String
  pub code : String
  pub created_at : String

-- A soft-deleted source, kept for undo.
pub record DeletedSource : Type 0 where
  pub id : String
  pub source : Source
  pub deleted_at : String

-- internal/model/steward.go: what a client's owner prefers for one item of a set.
pub record Preference : Type 0 where
  pub id : String
  pub set_id : String
  pub source_id : String
  pub item_key : String
  pub name : String
  pub group : String
  pub logo : String
  pub tvg_id : String
  pub pinned : Bool
  pub hidden : Bool
  pub paused : Bool
  pub updated_at : String
