-- ===== src/Controller/Names.antt =====
-- The records that `finish` writes: what each write leaves, and that each stands under its name.
use leo_runners.Base.{
  ◌≡◌, refl, sym, ap, ◌∙◌, String, some, Bool, Bool-cases, inl, inr, true, Result, ok, err, Context,
  live, arith,
}
use leo_runners.Base.Int.{ℤ}
use leo_runners.Base.Time.{Time}
use leo_runners.Base.Dict.{get, get-put_self}
use leo_runners.State.Types
use leo_runners.State.Types.{Job, Runner, Lease, JobState, RunnerState, LeaseState, job_is}
use leo_runners.State.Table
use leo_runners.State.Memory.{
  MemoryRepository, get_job, save_job, save_runner, save_lease, job_entity, runner_entity,
  lease_entity,
}
use leo_runners.State.Concurrency.{save-Saved}
use leo_runners.State.Naming.{IsKeyed, save-IsKeyed, save-next}
use leo_runners.Lifecycle.Transitions.{transition, move_saved, moved_to, valid_transition}
use leo_runners.Controller.Deployment.{now}

-- Every job, runner and lease stands under its identifier.
pub record Named (r : MemoryRepository) : Type 0 where
  pub jobs : IsKeyed job_entity r.jobs
  pub runners : IsKeyed runner_entity r.runners
  pub leases : IsKeyed lease_entity r.leases

pub saved_runner :
    (now : Time) (ctx : Context) (v old u : Runner) (expected : ℤ) (r r' : MemoryRepository)
    → get v.id r.runners ≡ some old
    → save_runner now ctx v expected r ≡ (r', ok u)
    → (get v.id r'.runners ≡ some u)
      × (u.state ≡ v.state)
      × (r'.jobs ≡ r.jobs)
      × (r'.leases ≡ r.leases)
unfolding save_runner Table.next_version
saved_runner now ctx v old u expected r r' there h =
    let h' = ap (λ x. (x.0.runners, x.1)) h in
    let kept = save-Saved runner_entity now ctx v u expected r.runners r'.runners h' in
    let next = save-next runner_entity now ctx old v u expected r.runners r'.runners there h' in
    (
      ap (get v.id) kept.written ∙ get-put_self v.id u r.runners,
      ap (λ x. x.state) next,
      sym (ap (λ x. x.0.jobs) h),
      sym (ap (λ x. x.0.leases) h),
    )

pub saved_lease :
    (now : Time) (ctx : Context) (v old u : Lease) (expected : ℤ) (r r' : MemoryRepository)
    → get v.id r.leases ≡ some old
    → save_lease now ctx v expected r ≡ (r', ok u)
    → (get v.id r'.leases ≡ some u)
      × (u.state ≡ v.state)
      × (u.runner_id ≡ v.runner_id)
      × (r'.jobs ≡ r.jobs)
      × (r'.runners ≡ r.runners)
unfolding save_lease Table.next_version
saved_lease now ctx v old u expected r r' there h =
    let h' = ap (λ x. (x.0.leases, x.1)) h in
    let kept = save-Saved lease_entity now ctx v u expected r.leases r'.leases h' in
    let next = save-next lease_entity now ctx old v u expected r.leases r'.leases there h' in
    (
      ap (get v.id) kept.written ∙ get-put_self v.id u r.leases,
      ap (λ x. x.state) next,
      ap (λ x. x.runner_id) next,
      sym (ap (λ x. x.0.jobs) h),
      sym (ap (λ x. x.0.runners) h),
    )

pub saved_rest :
    (now : Time) (ctx : Context) (v : Runner) (expected : ℤ) (r : MemoryRepository)
    → ((save_runner now ctx v expected r).0.jobs ≡ r.jobs)
      × ((save_runner now ctx v expected r).0.leases ≡ r.leases)
unfolding save_runner
saved_rest now ctx v expected r = (refl, refl)

pub stored_job :
    (k : String) (v : Job) (r : MemoryRepository) → get_job live k r ≡ ok v → get k r.jobs ≡ some v
unfolding get_job
stored_job k v r found = Table.read_entry job_entity live k v r.jobs found

pub move_saved-store :
    (answer : MemoryRepository × Result Types.Error Job) (sink : Bool) (at : Time) (job : Job)
    (to : JobState)
    → (move_saved answer sink at job to).store ≡ answer.0
unfolding move_saved
move_saved-store (r, err e) sink at job to = refl
move_saved-store (r, ok v) sink at job to = refl

pub save_job-Named :
    (now : Time) (ctx : Context) (v : Job) (expected : ℤ) (r : MemoryRepository)
    → Named r
    → Named (save_job now ctx v expected r).0
unfolding save_job
save_job-Named now ctx v expected r names = record {
  jobs = save-IsKeyed job_entity now ctx v expected r.jobs names.jobs;
  runners = names.runners;
  leases = names.leases;
}

pub transition-Named :
    (sink : Bool) (clock : Time × Time) (ctx : Context) (job : Job) (to : JobState)
    (r : MemoryRepository)
    → Named r
    → Named (transition sink clock ctx (some job) to r).store
unfolding transition
transition-Named sink clock ctx job to r names = elim (Bool-cases (valid_transition job.state to)) [
  | inl valid ↦
      rw (transition, valid, move_saved-store)
        (save_job-Named clock.0 ctx (moved_to job to) job.revision r names)
  | inr invalid ↦ rw (transition, invalid) names
]

pub job_is_eq : (a b : JobState) → job_is a b ≡ true → a ≡ b
job_is_eq a b same = ground arith
