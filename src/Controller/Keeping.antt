-- ===== src/Controller/Keeping.antt =====
-- What the branches of `HandleWorkflowJob` leave of the lifecycle events: every event that is there.
use leo_runners.Base.{
  refl, ap, ◌∙◌, arith, Context, String, Option, none, some, Bool, Bool-cases, inl, inr, Result, ok,
  err, ◌≡◌,
}
use leo_runners.Base.Time.{Time}
use leo_runners.Base.Dict.{get}
use leo_runners.State.Types
use leo_runners.State.Types.{Job, Runner, Lease, LifecycleEvent, JobState, job_is}
use leo_runners.State.Memory.{
  MemoryRepository, get_job, save_job, get_runner, save_runner, save_lease,
}
use leo_runners.Lifecycle.Provider.{ProviderError}
use leo_runners.Lifecycle.Transitions.{TransitionError, transition, move_saved, valid_transition}
use leo_runners.Scheduler.Scheduling
use leo_runners.Scheduler.Scheduling.{
  ScheduleError, Site, with_state, schedule, schedule_plain, reserve,
}
use leo_runners.Controller.Deployment.{
  Deployment, Settings, World, Done, now, context_of, store, with_store, with_site, transition_now,
  move_ended, move_job,
}
use leo_runners.Controller.Finishing.{
  lease_closed, runner_closed, release_now, machine_stopped, provider_named, stop_with,
  runner_found, lease_found, job_final, job_found, finish,
}

move_saved_events :
    (answer : MemoryRepository × Result Types.Error Job) (sink : Bool) (at : Time) (job : Job)
    (to : JobState)
    → (move_saved answer sink at job to).store.events ≡ answer.0.events
unfolding move_saved
move_saved_events (r, err e) sink at job to = refl
move_saved_events (r, ok v) sink at job to = refl

transition_events :
    (sink : Bool) (clock : Time × Time) (ctx : Context) (job : Job) (to : JobState)
    (r : MemoryRepository)
    → (transition sink clock ctx (some job) to r).store.events ≡ r.events
unfolding transition save_job
transition_events sink clock ctx job to r = elim (Bool-cases (valid_transition job.state to)) [
  | inl valid ↦ rw (transition, valid) (move_saved_events _ sink clock.1 job to)
  | inr invalid ↦ rw (transition, invalid) refl
]

module _ (d : Deployment) (k : String) (x : LifecycleEvent) where
  open d use {floats, cloud, service, around}

  -- The repository has the event.
  abbrev pub Has : MemoryRepository → Type 0
  Has r = get k r.events ≡ some x

  abbrev pub Kept : Done d → Type 0
  Kept (w, e) = Has (store d w)

  move_ended-Kept :
      (o : Option TransitionError) (w : World d) → Has (store d w) → Kept (move_ended d o w)
  unfolding move_ended
  move_ended-Kept none w p = p
  move_ended-Kept (some e) w p = p

  pub Has-transition :
      (c : Settings d) (job : Job) (to : JobState) (w : World d)
      → Has (store d w)
      → Has (transition_now d c job to w).store
  unfolding transition_now
  Has-transition c job to w p = ap (get k) (transition_events c.has_sink _ _ job to (store d w)) ∙ p

  pub move_job-Kept :
      (c : Settings d) (job : Job) (to : JobState) (w : World d)
      → Has (store d w)
      → Kept (move_job d c job to w)
  unfolding move_job
  move_job-Kept c job to w p =
      move_ended-Kept _ (with_store d w (transition_now d c job to w).store)
        (Has-transition c job to w p)

  lease_closed-Kept :
      (answer : MemoryRepository × Result Types.Error Lease) (w : World d)
      → Has answer.0
      → Kept (lease_closed d answer w)
  unfolding lease_closed
  lease_closed-Kept (r, err e) w p = p
  lease_closed-Kept (r, ok v) w p = p

  runner_closed-Kept :
      (answer : MemoryRepository × Result Types.Error Runner) (lease : Lease) (w : World d)
      → Has answer.0
      → Kept (runner_closed d answer lease w)
  unfolding runner_closed save_lease
  runner_closed-Kept (r, err e) lease w p = p
  runner_closed-Kept (r, ok v) lease w p = lease_closed-Kept _ (with_store d w r) p

  release_now-Has :
      (c : Settings d) (v : Runner) (w : World d)
      → Has (store d w)
      → Has (store d (release_now d c v w))
  unfolding release_now Scheduling.release
  release_now-Has c v w p = ground arith

  machine_stopped-Kept :
      (answer : cloud.State × Option ProviderError) (c : Settings d) (lease : Lease) (v : Runner)
      (w : World d)
      → Has (store d w)
      → Kept (machine_stopped d answer c lease v w)
  unfolding machine_stopped save_runner
  machine_stopped-Kept (t, some e) c lease v w p = p
  machine_stopped-Kept (t, none) c lease v w p =
      let w' = release_now d c v (with_site d w (with_state floats cloud w.site t)) in
      runner_closed-Kept
        (save_runner (now d w') (context_of d w')
          (record v { state = Types.RunnerState.terminated }) v.revision (store d w'))
        lease w' (release_now-Has c v (with_site d w (with_state floats cloud w.site t)) p)

  stop_with-Kept :
      (o : Option cloud.Handle) (c : Settings d) (lease : Lease) (v : Runner) (w : World d)
      → Has (store d w)
      → Kept (stop_with d o c lease v w)
  unfolding stop_with
  stop_with-Kept none c lease v w p = p
  stop_with-Kept (some h) c lease v w p = machine_stopped-Kept _ c lease v w p

  runner_found-Kept :
      (answer : Result Types.Error Runner) (c : Settings d) (lease : Lease) (w : World d)
      → Has (store d w)
      → Kept (runner_found d answer c lease w)
  unfolding runner_found
  runner_found-Kept (err e) c lease w p = p
  runner_found-Kept (ok v) c lease w p =
      stop_with-Kept (provider_named d c.providers c.provider v.provider) c lease v w p

  lease_found-Kept :
      (answer : Result Types.Error Lease) (c : Settings d) (w : World d)
      → Has (store d w)
      → Kept (lease_found d answer c w)
  unfolding lease_found
  lease_found-Kept (err e) c w p = p
  lease_found-Kept (ok lease) c w p =
      runner_found-Kept (get_runner (context_of d w) lease.runner_id (store d w)) c lease
        (with_store d w (store d w)) p

  job_final-Kept :
      (answer : Done d) (c : Settings d) (id : String)
      → Kept answer
      → Kept (job_final d answer c id)
  unfolding job_final
  job_final-Kept (w, some e) c id p = p
  job_final-Kept (w, none) c id p = lease_found-Kept _ c (with_store d w (store d w)) p

  job_found-Kept :
      (answer : Result Types.Error Job) (c : Settings d) (id : String) (final : JobState)
      (w : World d)
      → Has (store d w)
      → Kept (job_found d answer c id final w)
  unfolding job_found
  job_found-Kept (err e) c id final w p = p
  job_found-Kept (ok job) c id final w p = elim (Bool-cases (job_is job.state final)) [
    | inl same ↦ rw (job_found, same) (job_final-Kept (w, none) c id p)
    | inr differs ↦
        rw (job_found, differs)
          (job_final-Kept (move_job d c job final w) c id (move_job-Kept c job final w p))
  ]

  pub finish-Kept :
      (c : Settings d) (id : String) (final : JobState) (w : World d)
      → Has (store d w)
      → Kept (finish d c id final w)
  unfolding finish
  finish-Kept c id final w p =
      job_found-Kept (get_job (context_of d w) id (store d w)) c id final
        (with_store d w (store d w)) p
