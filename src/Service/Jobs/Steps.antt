-- ===== src/Service/Jobs/Steps.antt =====
-- Every step of the queue keeps its active jobs apart.
use mathlib.Core.Path.{subst}
use shadow_relay.Prelude.{
  String, Bool, true, ◌≡◌, refl, sym, inl, inr, ◌⊎◌, some, List, [], ◌∷◌, Bool-cases, Option-cases,
}
use shadow_relay.Store.Table.{get, put}
use shadow_relay.Store.Op.{state, ◌>>=◌, when◌run◌or◌}
use shadow_relay.Store.Rows.{put_row}
use shadow_relay.Store.Op.Ensures.{
  Ensures, Ensures-ok, Ensures-err, Ensures-when, Ensures-guard, Ensures-bind, Ensures-weaken,
  write-keeps,
}
use shadow_relay.Store.Rows.Rules.{Ensures-get_row, Ensures-put_row, Ensures_insert_row_last}
use shadow_relay.Model.Queue.{Job}
use shadow_relay.Model.Database.{Database, jobs, audits, sources, source_sets, catalogs, runtimes}
use shadow_relay.Service.Draws.{Draws, audit}
use shadow_relay.Service.Jobs.{
  find_active, add_job, enqueue, enqueue_job, check_target, active_job, expire, next_job, ready_job,
  claim, claim_tx, update_job, renew, finish, retry_tx, retry_job, Step, enqueuing, claiming,
  renewing, finishing, retrying, step, run_steps,
}
use shadow_relay.Service.Jobs.Single.{IsSingle, Single-put, Single-expire}

add_job-IsSingle :
    (w : Draws) (id kind target : String) (d : Database)
    → IsSingle d
    → Ensures (λ _ t. IsSingle t) (add_job w id kind target d)
unfolding add_job
add_job-IsSingle w id kind target d h =
    Ensures-when _ _ _ d (λ _. Ensures-ok _ _ h)
      (λ _. Ensures_insert_row_last jobs _ _ d λ _ free. Single-put d.jobs id _ h free)

update_job-IsSingle :
    (id : String) (test : Job → Bool) (f : Job → Job) (d : Database)
    → IsSingle d
    → Ensures (λ _ t. IsSingle t) (update_job id test f d)
unfolding update_job
update_job-IsSingle id test f d h = elim (Option-cases (get d.jobs id)) [
  | inl e ↦ rw (e, update_job) (Ensures-ok _ _ h)
  | inr (j, e) ↦
      rw (e, update_job)
        (Ensures-when (test j) _ _ d
          (λ _.
            Ensures-put_row jobs id (f j) _ d
              λ free. Ensures-ok _ _ (Single-put d.jobs id (f j) h free))
          (λ _. Ensures-ok _ _ h))
]

pub check_target-reads :
    (kind target : String) (d : Database) → Ensures (λ _ t. t ≡ d) (check_target kind target d)
unfolding check_target
check_target-reads kind target d =
    Ensures-when _ _ _ d (λ _. Ensures-get_row sources _ _ d λ _ _. Ensures-ok _ _ refl)
      λ _.
        Ensures-when _ _ _ d (λ _. Ensures-get_row source_sets _ _ d λ _ _. Ensures-ok _ _ refl)
          λ _.
            Ensures-when _ _ _ d (λ _. Ensures-get_row catalogs _ _ d λ _ _. Ensures-ok _ _ refl)
              λ _.
                Ensures-when _ _ _ d
                  (λ _. Ensures-get_row runtimes _ _ d λ _ _. Ensures-ok _ _ refl)
                  λ _. Ensures-err _ _

pub active_job-reads :
    (kind target : String) (d : Database)
    → Ensures
        (λ k t. (t ≡ d) × (find_active d.jobs kind target ≡ some k))
        (active_job kind target d)
unfolding active_job
active_job-reads kind target d = elim (Option-cases (find_active d.jobs kind target)) [
  | inl e ↦ rw (e, active_job) (Ensures-err _ _)
  | inr (k, e) ↦ rw (e, active_job) (Ensures-ok k d (refl, refl))
]

pub ready_job-reads :
    (w : Draws) (d : Database)
    → Ensures (λ x t. (t ≡ d) × (next_job w.clock d.jobs ≡ some x)) (ready_job w d)
unfolding ready_job
ready_job-reads w d = elim (Option-cases (next_job w.clock d.jobs)) [
  | inl e ↦ rw (e, ready_job) (Ensures-err _ _)
  | inr (x, e) ↦ rw (e, ready_job) (Ensures-ok x d (refl, refl))
]

pub enqueue-IsSingle :
    (w : Draws) (id kind target : String) (d : Database)
    → IsSingle d
    → Ensures (λ _ t. IsSingle t) (enqueue w id kind target d)
unfolding enqueue
enqueue-IsSingle w id kind target d h =
    Ensures-bind {P = λ _ t. t ≡ d} _ _ d (check_target-reads kind target d)
      λ _ t e. rw e (add_job-IsSingle w id kind target d h)

enqueue_job-IsSingle :
    (w : Draws) (kind target : String) (d : Database)
    → IsSingle d
    → IsSingle (state (enqueue_job w kind target d))
unfolding enqueue_job
enqueue_job-IsSingle w kind target d start = write-keeps IsSingle _ d start λ h.
    Ensures-bind {P = λ _ t. IsSingle t} _ _ d (enqueue-IsSingle w _ kind target d h)
      λ _ t g. Ensures-weaken (active_job-reads kind target t) λ k s q. subst IsSingle (sym q.0) g

claim-IsSingle :
    (w : Draws) (lease : String) (d : Database) → IsSingle d → IsSingle (state (claim w lease d))
unfolding claim claim_tx expire
claim-IsSingle w lease d start = write-keeps IsSingle _ d start λ h.
    Ensures-bind {P = λ _ t. IsSingle t} _ _ d (Ensures-ok _ _ (Single-expire w.clock d.jobs h))
      λ _ t g.
        Ensures-bind {P = λ _ s. IsSingle s} _ _ t
          (Ensures-weaken (ready_job-reads w t) λ x s q. subst IsSingle (sym q.0) g)
          λ x s g'.
            Ensures-put_row jobs _ _ _ s λ free. Ensures-ok _ _ (Single-put s.jobs x.0 _ g' free)

-- An update of one row leaves the queue, or writes the row that it found.
pub update_job_cases :
    (id : String) (test : Job → Bool) (f : Job → Job) (d : Database)
    → (state (update_job id test f d) ≡ d)
      ⊎ ((j : Job) × (get d.jobs id ≡ some j)
          × (test j ≡ true)
          × (jobs.admits d id (f j) ≡ true)
          × (state (update_job id test f d) ≡ record d { jobs = put d.jobs id (f j) }))
unfolding update_job ◌>>=◌ put_row when◌run◌or◌
update_job_cases id test f d = elim (Option-cases (get d.jobs id)) [
  | inl e ↦ inl (rw (e, update_job) refl)
  | inr (j, e) ↦ elim (Bool-cases (test j)) [
    | inr n ↦ inl (rw (e, n, update_job, when◌run◌or◌) refl)
    | inl y ↦ elim (Bool-cases (jobs.admits d id (f j))) [
      | inr n ↦ inl (rw (e, y, n, update_job, when◌run◌or◌, ◌>>=◌, put_row) refl)
      | inl a ↦ inr (j, e, y, a, rw (e, y, a, update_job, when◌run◌or◌, ◌>>=◌, put_row) refl)
    ]
  ]
]

update_job-keeps :
    (id : String) (test : Job → Bool) (f : Job → Job) (d : Database)
    → IsSingle d
    → IsSingle (state (update_job id test f d))
update_job-keeps id test f d h = elim (update_job_cases id test f d) [
  | inl e ↦ subst IsSingle (sym e) h
  | inr (j, _, _, free, e) ↦ subst IsSingle (sym e) (Single-put d.jobs id (f j) h free)
]

retry_job-IsSingle :
    (w : Draws) (id : String) (d : Database) → IsSingle d → IsSingle (state (retry_job w id d))
unfolding retry_job retry_tx audit
retry_job-IsSingle w id d start = write-keeps IsSingle _ d start λ h.
    Ensures-bind {P = λ _ t. IsSingle t} _ _ d (update_job-IsSingle id _ _ d h)
      λ n t g. Ensures-guard _ _ _ t λ _. Ensures_insert_row_last audits _ _ _ λ _ _. g

-- whatever requests, workers and retries do to the queue, in any order and at any times, if no
-- two jobs of one kind and target waited or ran before, none do after.
pub run_steps-IsSingle :
    (ss : List (Draws × Step)) (d : Database) → IsSingle d → IsSingle (run_steps ss d)
unfolding run_steps renew finish
run_steps-IsSingle [] d h = h
run_steps-IsSingle ((w, s) ∷ ss) d h = run_steps-IsSingle ss _ (one s)
  where
    one : (s : Step) → IsSingle (step w s d)
    one (enqueuing kind target) = enqueue_job-IsSingle w kind target d h
    one (claiming lease) = claim-IsSingle w lease d h
    one (renewing id lease) = update_job-keeps id _ _ d h
    one (finishing id lease n result) = update_job-keeps id _ _ d h
    one (retrying id) = retry_job-IsSingle w id d h
