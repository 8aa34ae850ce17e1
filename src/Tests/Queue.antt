-- ===== src/Tests/Queue.antt =====
-- The theorems on the job queue at concrete queues.
use shadow_relay.Prelude.{
  String, ◌≢◌, ◌≡◌, true, false, none, some, refl, [], ◌∷◌, eq_iff, arith, ℕ, ◌↔◌, ◌⊎◌,
}
use shadow_relay.Store.Table.{get, put, replace, place, nil_cases, rows}
use shadow_relay.Store.Op.{write, not_found, ok, err, ◌>>=◌, when◌run◌or◌, Outcome, state}
use shadow_relay.Store.Rows.{get_row, put_row, insert_row, list_rows}
use shadow_relay.Model.Queue.{Job, running}
use shadow_relay.Model.Database.{Database, is_target_free}
use shadow_relay.Service.Jobs.{
  check_target, find_active, add_job, enqueue, is_expired, expired, update_all, expire, is_ready,
  next_job, ready_job, claim_tx, claim, renew, finish, enqueuing, claiming, finishing, run_steps,
  has_active,
}
use shadow_relay.Service.Jobs.Single.{IsSingle}
use shadow_relay.Service.Jobs.Steps.{run_steps-IsSingle}
use shadow_relay.Service.Jobs.Leases.{late_worker, claim_idle}
use shadow_relay.Service.Schedule.{
  schedule, schedule_tx, schedule_sources, schedule_probe, schedule_sync, schedule_sets,
  schedule_catalogs, is_due, is_probe_due, is_sync_due,
}
use shadow_relay.Store.Table.{rows}
use shadow_relay.Store.Rows.{list_rows}
use shadow_relay.Service.Schedule.Conditions.{IsDue}
use shadow_relay.Service.Schedule.Due.{schedule-Due}
use shadow_relay.Tests.Fixtures.{draws, database, platform}

-- A job of an earlier worker, whose lease ran out at 50.
abbrev job : Job
job = record {
  id = "job_1";
  kind = "source.sync";
  target_id = "src";
  status = running;
  attempts = 1;
  available_at = 10;
  lease_until = some 50;
  lease_token = some "first";
  error = "";
  created_at = 10;
  finished_at = none;
}

abbrev busy : Database
busy = record database { jobs = ("job_1", job) ∷ [] }

-- The same job at its third attempt.
abbrev exhausted : Database
exhausted = record database { jobs = ("job_1", record job { attempts = 3 }) ∷ [] }

database-IsSingle : IsSingle database
database-IsSingle = record { each = nil_cases _ }

run_steps-IsSingle_example : IsSingle (
    run_steps
      ((draws, enqueuing "source.sync" "src")
        ∷ (draws, claiming "first")
        ∷ (draws, enqueuing "source.sync" "src")
        ∷ (draws, finishing "job_a" "first" 1 none)
        ∷ [])
      database)
run_steps-IsSingle_example =
    run_steps-IsSingle
      ((draws, enqueuing "source.sync" "src")
        ∷ (draws, claiming "first")
        ∷ (draws, enqueuing "source.sync" "src")
        ∷ (draws, finishing "job_a" "first" 1 none)
        ∷ [])
      database database-IsSingle

job_row : get busy.jobs "job_1" ≡ some job
unfolding get
job_row = refl

runs_out : is_expired draws.clock job ≡ true
unfolding is_expired
runs_out = refl

first-ne : ◌≢◌ {A = String} "first" "second"
first-ne e = ground (arith, e, eq_iff "first" "second")

abbrev taken : Job
taken = record job {
  attempts = 2;
  lease_until = some 220;
  lease_token = some "second";
  error = "worker_lease_expired";
}

abbrev claimed : Database
claimed = record busy { jobs = ("job_1", taken) ∷ [] }

claiming_succeeds : claim draws "second" busy ≡ ok taken claimed
unfolding claim claim_tx expire expired is_expired update_all ready_job next_job is_ready put_row
    get put replace place ◌>>=◌ write is_target_free
claiming_succeeds = refl

late_worker_example :
    (finish draws "job_1" "first" 1 none claimed ≡ ok false claimed)
    × (renew draws "job_1" "first" claimed ≡ ok false claimed)
late_worker_example =
    late_worker draws draws "job_1" "first" "second" 1 none busy claimed job taken job_row runs_out
      first-ne claiming_succeeds

nothing_ready : next_job draws.clock (update_all (expired draws.clock) exhausted.jobs) ≡ none
unfolding next_job is_ready update_all expired is_expired
nothing_ready = refl

claim_idle_example : claim draws "second" exhausted ≡ err not_found exhausted
claim_idle_example = claim_idle draws "second" exhausted nothing_ready

abbrev scheduled : Outcome Database ℕ
scheduled = schedule platform draws database

abbrev count_of : Outcome Database ℕ → ℕ
count_of (ok n t) = n
count_of (err e t) = 0

scheduling_succeeds : schedule platform draws database ≡ ok (count_of scheduled) (state scheduled)
unfolding schedule schedule_tx schedule_sources schedule_probe schedule_sync schedule_sets
    schedule_catalogs is_due is_probe_due is_sync_due enqueue check_target add_job find_active
    get_row put_row insert_row list_rows rows get put replace place is_target_free write ◌>>=◌
    when◌run◌or◌
scheduling_succeeds = refl

schedule-Due_example : has_active (state scheduled) "source.probe" "src" ≡ true ↔ (
    (has_active database "source.probe" "src" ≡ true)
    ⊎ IsDue platform draws database "source.probe" "src")
schedule-Due_example =
    schedule-Due platform draws database (state scheduled) (count_of scheduled) "source.probe" "src"
      scheduling_succeeds
