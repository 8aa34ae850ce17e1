-- ===== src/Service/Jobs.antt =====
-- The job queue of internal/service/jobs.go: Enqueue, the lease of a worker, its end, and RetryJob.
-- A worker's transaction and its updates are the steps of the queue; what a job does in between is
-- given by its result.
pub mod Single
pub mod Steps
pub mod Leases
use shadow_relay.Prelude.{
  ℕ, suc, ◌+◌, ◌*◌, String, Bool, true, false, not, ◌&&◌, ◌||◌, Option, none, some, [], ◌∷◌, ◌==◌,
  if◌then◌else◌, ltb, leb, eqb, List,
}
use shadow_relay.Store.Table.{Table, get}
use shadow_relay.Store.Op.{
  Error, not_found, conflict, message, Op, ok, err, pure, fail, guard, write, state, when◌run◌or◌,
  ◌>>=◌, ◌>>◌,
}
use shadow_relay.Store.Rows.{get_row, put_row, insert_row}
use shadow_relay.Model.Queue.{
  Job, JobStatus, queued, running, succeeded, failed, is_active, is_queued, is_running, is_failed,
}
use shadow_relay.Model.Database.{Database, sources, source_sets, catalogs, runtimes, jobs}
use shadow_relay.Service.Draws.{Draws, new_id, audit}

-- The table of a kind has to have the target.
unfoldable pub check_target : String → String → Op Database Unit
check_target kind target =
    when kind == "source.sync" || kind == "source.probe"
    run (do get_row sources target; pure tt)
    or when kind == "set.publish"
    run (do get_row source_sets target; pure tt)
    or when kind == "catalog.sync"
    run (do get_row catalogs target; pure tt)
    or when kind == "runtime.test" || kind == "runtime.sync"
    run (do get_row runtimes target; pure tt)
    or fail (message "unsupported job kind")

-- `SELECT id FROM jobs WHERE kind=$1 AND target_id=$2 AND status IN ('queued','running')`
unfoldable pub find_active : Table Job → String → String → Option String
find_active [] kind target = none
find_active ((k, j) ∷ t) kind target =
    if is_active j.status && j.kind == kind && j.target_id == target
    then some k
    else find_active t kind target

unfoldable pub active_job : String → String → Op Database String
active_job kind target d = elim (find_active d.jobs kind target) [
  | none ↦ err not_found d
  | some k ↦ ok k d
]

abbrev pub has_active : Database → String → String → Bool
has_active d kind target = elim (find_active d.jobs kind target) [ none ↦ false | some k ↦ true ]

abbrev new_job : Draws → String → String → String → Job
new_job w id kind target = record {
  id = id;
  kind = kind;
  target_id = target;
  status = queued;
  attempts = 0;
  available_at = w.clock;
  lease_until = none;
  lease_token = none;
  error = "";
  created_at = w.clock;
  finished_at = none;
}

-- `INSERT … ON CONFLICT(kind,target_id) WHERE status IN ('queued','running') DO NOTHING`
unfoldable pub add_job : Draws → String → String → String → Op Database Unit
add_job w id kind target d =
    (when has_active d kind target run pure tt or insert_row jobs id (new_job w id kind target)) d

unfoldable pub enqueue : Draws → String → String → String → Op Database Unit
enqueue w id kind target = do check_target kind target; add_job w id kind target

unfoldable pub enqueue_job : Draws → String → String → Op Database String
enqueue_job w kind target =
    write (do enqueue w (new_id w "job" 0) kind target; active_job kind target)

-- A lease that has run out: the job waits again, or has failed after three attempts.
unfoldable pub is_expired : ℕ → Job → Bool
is_expired clock j =
    is_running j.status && elim j.lease_until [ none ↦ false | some t ↦ ltb t clock ]

unfoldable pub expired : ℕ → Job → Job
unfolding is_expired
expired clock j =
    if is_expired clock j
    then record j {
      status = if leb 3 j.attempts then failed else queued;
      error = "worker_lease_expired";
      lease_token = none;
      lease_until = none;
    }
    else j

-- `UPDATE jobs SET …` on all rows.
unfoldable pub update_all : (Job → Job) → Table Job → Table Job
update_all f [] = []
update_all f ((k, j) ∷ t) = (k, f j) ∷ update_all f t

unfoldable pub expire : Draws → Op Database Unit
expire w d = ok tt (record d { jobs = update_all (expired w.clock) d.jobs })

unfoldable pub is_ready : ℕ → Job → Bool
is_ready clock j = is_queued j.status && leb j.available_at clock

abbrev is_earlier : Job → Job → Bool
is_earlier a b =
    ltb a.available_at b.available_at
    || (eqb a.available_at b.available_at && ltb a.created_at b.created_at)

-- `WHERE status='queued' AND available_at<=now() ORDER BY available_at,created_at LIMIT 1`
unfoldable pub next_job : ℕ → Table Job → Option (String × Job)
next_job clock [] = none
next_job clock ((k, j) ∷ t) =
    let rest = next_job clock t in
    if not (is_ready clock j) then rest else elim rest [
      | none ↦ some (k, j)
      | some b ↦ if is_earlier b.1 j then some b else some (k, j)
    ]

unfoldable pub ready_job : Draws → Op Database (String × Job)
ready_job w d = elim (next_job w.clock d.jobs) [ none ↦ err not_found d | some x ↦ ok x d ]

abbrev lease_seconds : ℕ
lease_seconds = 120

-- The transaction of a worker: it ends the leases that have run out, and takes the next job.
unfoldable pub claim_tx : Draws → String → Op Database Job
claim_tx w lease = do
  expire w
  x ← ready_job w
  let j : Job = record x.1 {
    status = running;
    attempts = suc x.1.attempts;
    lease_until = some (w.clock + lease_seconds);
    lease_token = some lease;
  }
  put_row jobs x.0 j
  pure j

unfoldable pub claim : Draws → String → Op Database Job
claim w lease = write (claim_tx w lease)

abbrev pub holds : String → Job → Bool
holds lease j = elim j.lease_token [ none ↦ false | some t ↦ t == lease ]

-- `UPDATE jobs SET … WHERE id=$1 AND …`: was a row affected?
unfoldable pub update_job : String → (Job → Bool) → (Job → Job) → Op Database Bool
update_job id test f d = elim (get d.jobs id) [
  | none ↦ ok false d
  | some j ↦ (when test j run (do put_row jobs id (f j); pure true) or pure false) d
]

abbrev renewed : Draws → Job → Job
renewed w j = record j { lease_until = some (w.clock + lease_seconds) }

-- The update of the ticker, while the job runs.
unfoldable pub renew : Draws → String → String → Op Database Bool
renew w id lease = update_job id (λ j. holds lease j && is_running j.status) (renewed w)

-- The status, the code and the attempts with which a job ends.
unfoldable pub ending : Option Error → ℕ → JobStatus × String × ℕ
ending none n = (succeeded, "", n)
ending (some not_found) n = (failed, "target_not_found", 3)
ending (some conflict) n = (if leb 3 n then failed else queued, "configuration_changed", n)
ending (some e) n = (if leb 3 n then failed else queued, "upstream_or_validation_failed", n)

abbrev finished : Draws → Option Error → ℕ → Job → Job
finished w result attempts j =
    let (status, code, n) = ending result attempts in
    record j {
      status = status;
      error = code;
      available_at = w.clock + n * n * 15;
      lease_until = none;
      lease_token = none;
      finished_at = if is_queued status then none else some w.clock;
    }

-- The update at the end of a job, under the lease of the worker and its count of attempts.
unfoldable pub finish : Draws → String → String → ℕ → Option Error → Op Database Bool
finish w id lease attempts result = update_job id (holds lease) (finished w result attempts)

abbrev retried : Draws → Job → Job
retried w j = record j {
  status = queued;
  attempts = 0;
  error = "";
  available_at = w.clock;
  finished_at = none;
}

unfoldable pub retry_tx : Draws → String → Op Database Unit
retry_tx w id = do
  affected ← update_job id (λ j. is_failed j.status) (retried w)
  guard affected (message "only failed jobs can be retried")
  audit w 0 "job.retry" id

unfoldable pub retry_job : Draws → String → Op Database Unit
retry_job w id = write (retry_tx w id)

-- What may happen to the queue, in any order: requests, workers and retries.
pub data Step : Type 0 where
  enqueuing : String → String → Step
  claiming : String → Step
  renewing : String → String → Step
  finishing : String → String → ℕ → Option Error → Step
  retrying : String → Step

abbrev pub step : Draws → Step → Database → Database
step w (enqueuing kind target) d = state (enqueue_job w kind target d)
step w (claiming lease) d = state (claim w lease d)
step w (renewing id lease) d = state (renew w id lease d)
step w (finishing id lease n result) d = state (finish w id lease n result d)
step w (retrying id) d = state (retry_job w id d)

unfoldable pub run_steps : List (Draws × Step) → Database → Database
run_steps [] d = d
run_steps ((w, s) ∷ ss) d = run_steps ss (step w s d)
