-- ===== src/Model/Source.antt =====
-- internal/model/model.go: sources, their revisions and probes. A JSON document that the code only
-- passes on is its text.
use shadow_relay.Prelude.{ℕ, String, Bool, true, false, List, []}
use shadow_relay.Prelude.Int.{ℤ}

-- The values that the code stores in `Source.Health` and `Runtime.Health`.
pub data Health : Type 0 where
  unknown healthy degraded failing avoid quarantined disabled : Health

-- `Failures` and `Score` are only ever counted up from 0, or set to a value between 0 and 100.
pub record Source : Type 0 where
  pub proxy_id : String
  pub hub_proxy_mode : String
  pub probe_interval_minutes : ℤ
  pub next_probe : String
  pub smoke_keyword : String
  pub hub_plugin_id : String
  pub id : String
  pub name : String
  pub protocol : String
  pub media_types : List String
  pub mode : String
  pub capabilities : List String
  pub trust : String
  pub network : String
  pub update_policy : String
  pub interval_minutes : ℤ
  pub url : String
  pub runtime_id : String
  pub catalog_id : String
  pub enabled : Bool
  pub health : Health
  pub score : ℕ
  pub failures : ℕ
  pub active_revision : String
  pub staged_revision : String
  pub etag : String
  pub last_modified : String
  pub last_checked : String
  pub next_sync : String
  pub created_at : String
  pub updated_at : String

pub record Endpoint : Type 0 where
  pub id : String
  pub source_id : String
  pub role : String
  pub url : String

pub record Secret : Type 0 where
  pub id : String
  pub owner_id : String
  pub ciphertext : String
  pub updated_at : String

pub record Item : Type 0 where
  pub rel : String
  pub mime : String
  pub id : String
  pub name : String
  pub url : String
  pub group : String
  pub logo : String
  pub language : String
  pub region : String
  pub payload : String

pub record Normalized : Type 0 where
  pub protocol : String
  pub media_types : List String
  pub capabilities : List String
  pub items : List Item
  pub config : String
  pub warnings : List String
  pub requires_runtime : Bool

pub record Diff : Type 0 where
  pub added : ℕ
  pub removed : ℕ
  pub changed : ℕ
  pub domain_changes : List String
  pub requires_review : Bool

pub data RevisionStatus : Type 0 where
  staged approved rejected invalid : RevisionStatus

pub record Revision : Type 0 where
  pub id : String
  pub source_id : String
  pub hash : String
  pub normalized : Normalized
  pub status : RevisionStatus
  pub diff : Diff
  pub created_at : String

pub record Probe : Type 0 where
  pub id : String
  pub source_id : String
  pub level : String
  pub success : Bool
  pub latency_ms : ℕ
  pub code : String
  pub checks : List String
  pub created_at : String

abbrev pub empty_normalized : Normalized
empty_normalized = record {
  protocol = "";
  media_types = [];
  capabilities = [];
  items = [];
  config = "";
  warnings = [];
  requires_runtime = false;
}

abbrev pub is_healthy : Health → Bool
is_healthy healthy = true
is_healthy _ = false

abbrev pub is_avoid : Health → Bool
is_avoid avoid = true
is_avoid _ = false

abbrev pub is_disabled : Health → Bool
is_disabled disabled = true
is_disabled _ = false

abbrev pub is_quarantined : Health → Bool
is_quarantined quarantined = true
is_quarantined _ = false

-- `v.Health != "quarantined" && v.Health != "disabled"`
abbrev pub is_held : Health → Bool
is_held quarantined = true
is_held disabled = true
is_held _ = false

abbrev pub is_staged : RevisionStatus → Bool
is_staged staged = true
is_staged _ = false

abbrev pub is_approved : RevisionStatus → Bool
is_approved approved = true
is_approved _ = false

abbrev pub is_rejected : RevisionStatus → Bool
is_rejected rejected = true
is_rejected _ = false

abbrev pub is_invalid : RevisionStatus → Bool
is_invalid invalid = true
is_invalid _ = false
