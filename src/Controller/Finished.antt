-- ===== src/Controller/Finished.antt =====
-- What `finish` leaves when it answers without an error.
use leo_runners.Base.{
  ◌≡◌, refl, sym, ap, subst, ◌∙◌, String, Option, none, some, Bool-cases, inl, inr, Result, ok, err,
  suc, arith,
}
use leo_runners.Base.Dict.{get}
use leo_runners.State.Types
use leo_runners.State.Types.{Job, Runner, Lease, JobState, RunnerState, LeaseState, job_is}
use leo_runners.State.Table
use leo_runners.State.Memory.{
  MemoryRepository, get_job, get_lease, get_runner, job_entity, runner_entity, lease_entity,
}
use leo_runners.Lifecycle.System.{instance_of}
use leo_runners.Lifecycle.Transitions.{TransitionError, invalid_transition}
use leo_runners.Lifecycle.Moving.{transition_outcome}
use leo_runners.Controller.Deployment.{
  Deployment, Settings, World, Done, now, context_of, store, with_store, transition_now, move_ended,
  move_job,
}
use leo_runners.Controller.Finishing.{
  provider_named, stop_with, runner_found, lease_found, job_final, job_found, finish,
}
use leo_runners.Controller.Stopping.{
  Serves, Untouched, untouched, provider_named-Serves, move_job-Untouched,
}
use leo_runners.Controller.Closing
use leo_runners.Controller.Closing.{Finished, machine_stopped-Finished}
use leo_runners.Controller.Names.{Named, stored_job, transition-Named, job_is_eq}

module _ (d : Deployment) (id : String) (final : JobState) (c : Settings d) (before : World d) where
  open d use {floats, cloud, around}

  abbrev lease_id : String
  lease_id = Closing.lease_id d id final c before

  abbrev JobIs : MemoryRepository → Type 0
  JobIs = Closing.JobIs d id final c before

  abbrev Ends : Done d → Type 0
  Ends = Closing.Ends d id final c before

  -- A read leaves everything as it is.
  reread : (w : World d) → Untouched d before w → Untouched d before (with_store d w (store d w))
  reread w since = record {
    runners = since.runners;
    leases = since.leases;
    machines = since.machines;
  }

  stop_with-Finished :
      (o : Option cloud.Handle) (lease : Lease) (v : Runner) (w : World d)
      → Untouched d before w
      → get lease_id (store d w).leases ≡ some lease
      → lease.id ≡ lease_id
      → JobIs (store d w)
      → get lease.runner_id (store d w).runners ≡ some v
      → v.id ≡ lease.runner_id
      → ((h : cloud.Handle) → o ≡ some h → Serves d c v h)
      → Ends (stop_with d o c lease v w)
  unfolding stop_with
  stop_with-Finished none lease v w since leased named job there same serves = tt
  stop_with-Finished (some h) lease v w since leased named job there same serves =
      let ctx = context_of d w in
      let i = instance_of v in
      let answer = cloud.terminate h w.site.state ctx i in
      machine_stopped-Finished d id final c before answer lease v w leased named job there same
        (λ stopped. (
          lease,
          v,
          ap (get lease_id) (sym since.leases) ∙ leased,
          refl,
          ap (get lease.runner_id) (sym since.runners) ∙ there,
          (
            h,
            ctx,
            i,
            serves h refl,
            refl,
            refl,
            refl,
            ap (λ s. cloud.terminate h s ctx i) (sym since.machines)
                ∙ ap (λ y. (answer.0, y)) stopped,
          ),
        ))

  runner_found-Finished :
      (answer : Result Types.Error Runner) (lease : Lease) (w : World d)
      → Untouched d before w
      → Named (store d w)
      → get lease_id (store d w).leases ≡ some lease
      → JobIs (store d w)
      → ((v : Runner) → answer ≡ ok v → get lease.runner_id (store d w).runners ≡ some v)
      → Ends (runner_found d answer c lease w)
  unfolding runner_found
  runner_found-Finished (err e) lease w since names leased job there = tt
  runner_found-Finished (ok v) lease w since names leased job there =
      stop_with-Finished (provider_named d c.providers c.provider v.provider) lease v w since leased
        (names.leases lease_id lease leased) job (there v refl)
        (names.runners lease.runner_id v (there v refl)) (provider_named-Serves d c v)

  lease_found-Finished :
      (answer : Result Types.Error Lease) (w : World d)
      → Untouched d before w
      → Named (store d w)
      → JobIs (store d w)
      → ((v : Lease) → answer ≡ ok v → get lease_id (store d w).leases ≡ some v)
      → Ends (lease_found d answer c w)
  unfolding lease_found get_runner
  lease_found-Finished (err e) w since names job there = tt
  lease_found-Finished (ok lease) w since names job there =
      runner_found-Finished (get_runner (context_of d w) lease.runner_id (store d w)) lease
        (with_store d w (store d w)) (reread w since) names (there lease refl) job
        (λ v found.
          Table.read_entry runner_entity (context_of d w) lease.runner_id v (store d w).runners
            found)

  job_final-Finished :
      (answer : Done d)
      → Untouched d before answer.0
      → (answer.1 ≡ none → Named (store d answer.0) × JobIs (store d answer.0))
      → Ends (job_final d answer c id)
  unfolding job_final get_lease
  job_final-Finished (w, some e) since ready = tt
  job_final-Finished (w, none) since ready =
      let (names, job) = ready refl in
      lease_found-Finished (get_lease (context_of d w) lease_id (store d w))
        (with_store d w (store d w)) (reread w since) names job
        (λ v found.
          Table.read_entry lease_entity (context_of d w) lease_id v (store d w).leases found)

  move_ended_keeps :
      (o : Option TransitionError) (w : World d)
      → ((move_ended d o w).0 ≡ w) × ((move_ended d o w).1 ≡ none → o ≡ none)
  unfolding move_ended
  move_ended_keeps none w = (refl, λ h. refl)
  move_ended_keeps (some e) w = (refl, λ h. absurd (ground arith))

  -- A move of a job keeps the names of the records.
  move_job-Named :
      (job : Job) (w : World d)
      → Named (store d w)
      → job.id ≡ id
      → (move_job d c job final w).1 ≡ none
      → Named (store d (move_job d c job final w).0) × JobIs (store d (move_job d c job final w).0)
  unfolding move_job transition_now
  move_job-Named job w names named good =
      let m = transition_now d c job final w in
      let (there, unmoved) = move_ended_keeps m.error (with_store d w m.store) in
      let moved =
        (transition_outcome c.has_sink (now d w, around.clock (suc w.step)) (context_of d w) job
            final (store d w) invalid_transition).0
          (unmoved good) in
      (
        subst (λ u. Named (store d u)) (sym there)
            (transition-Named c.has_sink _ _ job final (store d w) names),
        subst (λ u. JobIs (store d u)) (sym there)
            (
              moved.updated,
              ap (λ k. get k m.store.jobs) (sym named)
                  ∙ stored_job job.id moved.updated m.store moved.stored,
              moved.state,
            ),
      )

  moved_since :
      (job : Job) (w : World d)
      → Untouched d before w
      → Untouched d before (move_job d c job final w).0
  moved_since job w since =
      let moved = move_job-Untouched d c job final w in
      record {
        runners = moved.runners ∙ since.runners;
        leases = moved.leases ∙ since.leases;
        machines = moved.machines ∙ since.machines;
      }

  job_found-Finished :
      (answer : Result Types.Error Job) (w : World d)
      → Untouched d before w
      → Named (store d w)
      → ((v : Job) → answer ≡ ok v → get id (store d w).jobs ≡ some v)
      → Ends (job_found d answer c id final w)
  unfolding job_found
  job_found-Finished (err e) w since names there = tt
  job_found-Finished (ok job) w since names there = elim (Bool-cases (job_is job.state final)) [
    | inl same ↦
        rw (job_found, same)
          (job_final-Finished (w, none) since
            (λ good. (names, (job, there job refl, job_is_eq job.state final same))))
    | inr differs ↦
        rw (job_found, differs)
          (job_final-Finished (move_job d c job final w) (moved_since job w since)
            (move_job-Named job w names (names.jobs id job (there job refl))))
  ]

-- When `finish` answers without an error: the job is in its final state, its lease and the lease's
-- runner are terminated in the repository, and so is the machine of that runner, which the job's
-- lease named at the start. For that, the provider that serves the runner (the only one, or the one
-- that the runner names) was called, on the machines as they were at the start, with the runner's
-- identifier, instance identifier and provider name, and confirmed it; and the machines are as that
-- call left them. The records stand under their identifiers at the start.
pub finish-Finished :
    (d : Deployment) (id : String) (final : JobState) (c : Settings d) (w w' : World d)
    → Named (store d w)
    → finish d c id final w ≡ (w', none)
    → Finished d id final c w w'
unfolding finish get_job
finish-Finished d id final c w w' names h = subst (Closing.Ends d id final c w) h (
    job_found-Finished d id final c w (get_job (context_of d w) id (store d w))
      (with_store d w (store d w)) (reread d id final c w w (untouched d w)) names
      (λ v found. Table.read_entry job_entity (context_of d w) id v (store d w).jobs found))
