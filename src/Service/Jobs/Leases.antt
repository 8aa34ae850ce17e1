-- ===== src/Service/Jobs/Leases.antt =====
-- The leases of the workers, and what a request for a job that is there already does.
use mathlib.Core.Path.{subst}
use shadow_relay.Prelude.{
  ℕ, String, Bool, true, false, ◌≡◌, ◌≢◌, refl, inl, inr, Option, none, some, arith, eq_iff,
  Option-cases,
}
use shadow_relay.Store.Table.{get, put_cases, get_functional}
use shadow_relay.Store.Op.{Error, not_found, write, ok, err, ◌>>=◌, when◌run◌or◌}
use shadow_relay.Store.Op.Ensures.{
  Ensures, Ensures-ok, Ensures-bind, Ensures-weaken, Ensures-result, write-eq-ok,
}
use shadow_relay.Store.Rows.Rules.{Ensures-put_row}
use shadow_relay.Model.Queue.{Job}
use shadow_relay.Model.Database.{Database, jobs}
use shadow_relay.Service.Draws.{Draws}
use shadow_relay.Service.Jobs.{
  holds, expired, is_expired, update_all, expire, next_job, ready_job, claim, claim_tx, update_job,
  renew, finish,
}
use shadow_relay.Service.Jobs.Single.{get-update_all}
use shadow_relay.Service.Jobs.Steps.{ready_job-reads}

-- The lease does not hold the job, if there is one.
abbrev IsLost : String → String → Database → Type 0
IsLost id lease d = (b : Job) → get d.jobs id ≡ some b → holds lease b ≡ false

update_job-lost :
    (id : String) (test : Job → Bool) (f : Job → Job) (d : Database)
    → ((b : Job) → get d.jobs id ≡ some b → test b ≡ false)
    → update_job id test f d ≡ ok false d
unfolding update_job when◌run◌or◌
update_job-lost id test f d lost = elim (Option-cases (get d.jobs id)) [
  | inl e ↦ rw (e, update_job) refl
  | inr (j, e) ↦ rw (e, update_job, lost j e, when◌run◌or◌) refl
]

expired-lost :
    (clock : ℕ) (lease : String) (j : Job)
    → is_expired clock j ≡ true
    → holds lease (expired clock j) ≡ false
unfolding expired
expired-lost clock lease j e = ground arith

claim_tx-IsLost :
    (w : Draws) (id lease other : String) (d : Database) (j : Job)
    → get d.jobs id ≡ some j
    → is_expired w.clock j ≡ true
    → lease ≢ other
    → Ensures (λ _ t. IsLost id lease t) (claim_tx w other d)
unfolding claim_tx expire
claim_tx-IsLost w id lease other d j here out ne =
    Ensures-bind {P = λ _ t. t ≡ record d { jobs = update_all (expired w.clock) d.jobs }} _ _ d
      (Ensures-ok _ _ refl)
      λ _ t e. rw e (
        Ensures-bind {P = λ _ s. s ≡ record d { jobs = update_all (expired w.clock) d.jobs }} _ _ _
          (Ensures-weaken (ready_job-reads w _) λ x s q. q.0)
          λ x s e'. rw e' (
            Ensures-put_row jobs x.0 _ _ _ λ _. Ensures-ok _ _ (λ b f.
              put_cases (λ k b. k ≡ id → holds lease b ≡ false)
                (update_all (expired w.clock) d.jobs) x.0 _
                (λ _. ground (arith, eq_iff other lease, ne))
                (λ k u _ g same.
                  let (a, ga, sa) = get-update_all (expired w.clock) d.jobs k u g in
                  let mine =
                    get_functional d.jobs id j a here
                      (subst (λ z. get d.jobs z ≡ some a) same ga) in
                  rw (sa, ← mine) (expired-lost w.clock lease j out))
                id b f refl)))

-- once the lease of a worker on a job has run out and a worker with another lease has taken a
-- job, neither the end nor the renewal that the first worker still reports for that job affects a
-- row.
pub late_worker :
    (w w' : Draws) (id lease other : String) (n : ℕ) (result : Option Error) (d t : Database)
    (j x : Job)
    → get d.jobs id ≡ some j
    → is_expired w.clock j ≡ true
    → lease ≢ other
    → claim w other d ≡ ok x t
    → (finish w' id lease n result t ≡ ok false t) × (renew w' id lease t ≡ ok false t)
unfolding claim finish renew
late_worker w w' id lease other n result d t j x here out ne e =
    let lost =
      Ensures-result {Q = λ _ t. IsLost id lease t} _
        (claim_tx-IsLost w id lease other d j here out ne) (write-eq-ok _ d e) in
    (
      update_job-lost id _ _ t lost,
      update_job-lost id _ _ t λ b f. let no_ = lost b f in ground (arith, no_),
    )

-- where no job is ready once the leases that have run out are ended, the transaction of a worker
-- fails and leaves the database as it was, so that those leases are not ended.
pub claim_idle :
    (w : Draws) (lease : String) (d : Database)
    → next_job w.clock (update_all (expired w.clock) d.jobs) ≡ none
    → claim w lease d ≡ err not_found d
unfolding claim claim_tx expire ready_job ◌>>=◌ write
claim_idle w lease d e = rw (e, claim, claim_tx, expire, ready_job, ◌>>=◌, write) refl
