-- ===== src/Model/Catalog.antt =====
-- internal/model/model.go: catalogs, candidates, runtimes and audits.
use shadow_relay.Prelude.{String, Bool, List}
use shadow_relay.Prelude.Int.{ℤ}
use shadow_relay.Model.Source.{Health}

pub record Catalog : Type 0 where
  pub id : String
  pub name : String
  pub url : String
  pub network : String
  pub trust : String
  pub enabled : Bool
  pub interval_minutes : ℤ
  pub next_sync : String
  pub last_sync : String
  pub etag : String
  pub last_modified : String

pub data CandidateStatus : Type 0 where
  pending accepted ignored blocked : CandidateStatus

pub record Candidate : Type 0 where
  pub id : String
  pub catalog_id : String
  pub name : String
  pub url : String
  pub protocol : String
  pub fingerprint : String
  pub status : CandidateStatus
  pub source_id : String
  pub discovered_at : String

pub record Runtime : Type 0 where
  pub updated_at : String
  pub id : String
  pub name : String
  pub driver : String
  pub url : String
  pub network : String
  pub trust : String
  pub capabilities : List String
  pub health : Health
  pub version : String
  pub last_checked : String
  pub last_sync : String
  pub state : String

pub record Audit : Type 0 where
  pub id : String
  pub action : String
  pub target_id : String
  pub created_at : String
