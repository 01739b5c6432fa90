-- ===== src/Controller/Closing.antt =====
-- What `finish` leaves after the provider has answered, when it answers without an error.
use leo_runners.Base.{
  ◌≡◌, refl, sym, ap, subst, ◌∙◌, String, Option, none, some, Result, ok, err, arith, str_append,
}
use leo_runners.Base.Dict.{get}
use leo_runners.State.Types
use leo_runners.State.Types.{Job, Runner, Lease, JobState, RunnerState, LeaseState, job_is}
use leo_runners.State.Memory.{MemoryRepository, save_runner, save_lease}
use leo_runners.Lifecycle.Provider.{ProviderError}
use leo_runners.Scheduler.Scheduling
use leo_runners.Scheduler.Scheduling.{Site, with_state}
use leo_runners.Controller.Deployment.{
  Deployment, Settings, World, Done, now, context_of, store, with_store, with_site,
}
use leo_runners.Controller.Finishing.{lease_closed, runner_closed, release_now, machine_stopped}
use leo_runners.Controller.Stopping.{Terminated}
use leo_runners.Controller.Names.{saved_runner, saved_lease, saved_rest}

module _ (d : Deployment) (id : String) (final : JobState) (c : Settings d) (before : World d) where
  open d use {floats, cloud, around}

  abbrev pub lease_id : String
  lease_id = str_append "lease-" id

  abbrev pub JobIs : MemoryRepository → Type 0
  JobIs r = (v : Job) × (get id r.jobs ≡ some v) × (v.state ≡ final)

  abbrev pub RunnerIs : String → MemoryRepository → Type 0
  RunnerIs k r = (v : Runner) × (get k r.runners ≡ some v) × (v.state ≡ RunnerState.terminated)

  -- The machine of the runner `k`, which the job's lease named before and which stood in the
  -- repository then: the provider that serves that runner has confirmed that it terminated it, and
  -- the machines are as that call left them.
  abbrev pub Stopped : String → cloud.State → Type 0
  Stopped k t =
      (old : Lease) × (v : Runner) × (get lease_id (store d before).leases ≡ some old)
      × (old.runner_id ≡ k)
      × (get k (store d before).runners ≡ some v)
      × Terminated d c v before.site.state t

  -- The job is in its final state, its lease and the lease's runner are terminated, and so is the
  -- machine of that runner.
  pub record Finished (w : World d) : Type 0 where
    pub job : JobIs (store d w)
    pub lease : Lease
    pub leased : get lease_id (store d w).leases ≡ some lease
    pub lease_over : lease.state ≡ LeaseState.terminated
    pub runner : RunnerIs lease.runner_id (store d w)
    pub machine : Stopped lease.runner_id w.site.state

  abbrev pub Ends : Done d → Type 0
  Ends (w, none) = Finished w
  Ends (w, some e) = Unit

  lease_closed-Finished :
      (answer : MemoryRepository × Result Types.Error Lease) (w : World d)
      → ((u : Lease) → answer.1 ≡ ok u → Finished (with_store d w answer.0))
      → Ends (lease_closed d answer w)
  unfolding lease_closed
  lease_closed-Finished (r, err e) w h = tt
  lease_closed-Finished (r, ok u) w h = h u refl

  runner_closed-Finished :
      (answer : MemoryRepository × Result Types.Error Runner) (lease : Lease) (w : World d)
      → get lease_id answer.0.leases ≡ some lease
      → lease.id ≡ lease_id
      → JobIs answer.0
      → ((u : Runner) → answer.1 ≡ ok u → RunnerIs lease.runner_id answer.0)
      → Stopped lease.runner_id w.site.state
      → Ends (runner_closed d answer lease w)
  unfolding runner_closed
  runner_closed-Finished (r, err e) lease w leased named (job, there, is_final) runner stopped = tt
  runner_closed-Finished (r, ok v) lease w leased named (job, there, is_final) runner stopped =
      let w' = with_store d w r in
      let lease' : Lease = record lease { state = LeaseState.terminated } in
      let answer = save_lease (now d w') (context_of d w') lease' lease.revision r in
      let (x, found, over) = runner v refl in
      lease_closed-Finished answer w' (λ u h.
        let (stands, is_over, same, jobs, runners) =
          saved_lease (now d w') (context_of d w') lease' lease u lease.revision r answer.0
            (ap (λ k. get k r.leases) named ∙ leased) (ap (λ y. (answer.0, y)) h) in
        record {
          job = (job, ap (get id) jobs ∙ there, is_final);
          lease = u;
          leased = ap (λ k. get k answer.0.leases) (sym named) ∙ stands;
          lease_over = is_over;
          runner = (x, ap (get u.runner_id) runners ∙ ap (λ k. get k r.runners) same ∙ found, over);
          machine = subst (λ k. Stopped k w.site.state) (sym same) stopped;
        })

  release_now_keeps :
      (v : Runner) (w : World d)
      → (store d (release_now d c v w) ≡ store d w)
        × ((release_now d c v w).site.state ≡ w.site.state)
  unfolding release_now Scheduling.release
  release_now_keeps v w = (ground arith, ground arith)

  pub machine_stopped-Finished :
      (answer : cloud.State × Option ProviderError) (lease : Lease) (v : Runner) (w : World d)
      → get lease_id (store d w).leases ≡ some lease
      → lease.id ≡ lease_id
      → JobIs (store d w)
      → get lease.runner_id (store d w).runners ≡ some v
      → v.id ≡ lease.runner_id
      → (answer.1 ≡ none → Stopped lease.runner_id answer.0)
      → Ends (machine_stopped d answer c lease v w)
  unfolding machine_stopped
  machine_stopped-Finished (t, some e) lease v w leased named job there same stopped = tt
  machine_stopped-Finished (t, none) lease v w leased named (job, has, is_final) there same
        stopped =
      let w1 = with_site d w (with_state floats cloud w.site t) in
      let w' = release_now d c v w1 in
      let (kept, halted) = release_now_keeps v w1 in
      let v' : Runner = record v { state = RunnerState.terminated } in
      let answer = save_runner (now d w') (context_of d w') v' v.revision (store d w') in
      let here =
        ap (λ k. get k (store d w').runners) same
        ∙ ap (λ r. get lease.runner_id r.runners) kept
        ∙ there in
      let (jobs, leases) = saved_rest (now d w') (context_of d w') v' v.revision (store d w') in
      runner_closed-Finished answer lease w'
        (ap (get lease_id) (leases ∙ ap (λ r. r.leases) kept) ∙ leased) named
        (job, ap (get id) (jobs ∙ ap (λ r. r.jobs) kept) ∙ has, is_final)
        (λ u h.
          let (stands, over, jobs', leases') =
            saved_runner (now d w') (context_of d w') v' v u v.revision (store d w') answer.0 here
              (ap (λ y. (answer.0, y)) h) in
          (u, ap (λ k. get k answer.0.runners) (sym same) ∙ stands, over))
        (subst (Stopped lease.runner_id) (sym halted) (stopped refl))
