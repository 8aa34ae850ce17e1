-- ===== src/Model/Queue.antt =====
-- The table `jobs` of migrations/001_initial.sql, and model.Job of internal/model/model.go. Times
-- are seconds.
use shadow_relay.Prelude.{ℕ, String, Bool, true, false, Option}

pub data JobStatus : Type 0 where
  queued running succeeded failed : JobStatus

pub record Job : Type 0 where
  pub id : String
  pub kind : String
  pub target_id : String
  pub status : JobStatus
  pub attempts : ℕ
  pub available_at : ℕ
  pub lease_until : Option ℕ
  pub lease_token : Option String
  pub error : String
  pub created_at : ℕ
  pub finished_at : Option ℕ

-- `status IN ('queued','running')`
abbrev pub is_active : JobStatus → Bool
is_active queued = true
is_active running = true
is_active succeeded = false
is_active failed = false

abbrev pub is_queued : JobStatus → Bool
is_queued queued = true
is_queued _ = false

abbrev pub is_running : JobStatus → Bool
is_running running = true
is_running _ = false

abbrev pub is_failed : JobStatus → Bool
is_failed failed = true
is_failed _ = false
