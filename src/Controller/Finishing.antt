-- ===== src/Controller/Finishing.antt =====
-- `Service.finish` of controller/internal/controller/controller.go, one function for each call that
-- it makes, by the call's answer.
use leo_runners.Base.{String, Option, none, some, if◌then◌else◌, Result, ok, err, str_append}
use leo_runners.Base.Dict.{Dict, get}
use leo_runners.State.Types
use leo_runners.State.Types.{Job, Runner, Lease, JobState, job_is}
use leo_runners.State.Memory.{
  MemoryRepository, get_job, get_lease, get_runner, save_runner, save_lease,
}
use leo_runners.Lifecycle.Provider.{ProviderError}
use leo_runners.Lifecycle.System.{instance_of}
use leo_runners.Scheduler.Scheduling
use leo_runners.Scheduler.Scheduling.{Site, with_state}
use leo_runners.Controller.Deployment.{
  Deployment, Settings, World, Done, repository, provider, no_provider, now, context_of, store,
  with_store, with_site, move_job,
}

module _ (d : Deployment) where
  open d use {floats, cloud}

  unfoldable pub lease_closed : MemoryRepository × Result Types.Error Lease → World d → Done d
  lease_closed (r, err e) w = (with_store d w r, some (repository e))
  lease_closed (r, ok v) w = (with_store d w r, none)

  unfoldable pub runner_closed :
      MemoryRepository × Result Types.Error Runner → Lease → World d → Done d
  unfolding lease_closed
  runner_closed (r, err e) lease w = (with_store d w r, some (repository e))
  runner_closed (r, ok v) lease w =
      let w' = with_store d w r in
      lease_closed
        (save_lease (now d w') (context_of d w')
          (record lease { state = Types.LeaseState.terminated }) lease.revision r)
        w'

  -- `s.Scheduler.Release`, whose error is left out of account.
  unfoldable pub release_now : Settings d → Runner → World d → World d
  release_now c v w =
      if c.has_registry then with_site d w (Scheduling.release floats cloud v w.site).0 else w

  unfoldable pub machine_stopped :
      cloud.State × Option ProviderError → Settings d → Lease → Runner → World d → Done d
  unfolding runner_closed release_now
  machine_stopped (t, some e) c lease v w =
      (with_site d w (with_state floats cloud w.site t), some (provider e))
  machine_stopped (t, none) c lease v w =
      let w' = release_now c v (with_site d w (with_state floats cloud w.site t)) in
      runner_closed
        (save_runner (now d w') (context_of d w')
          (record v { state = Types.RunnerState.terminated }) v.revision (store d w'))
        lease w'

  -- The provider of a runner: the deployment's one, or the one that the map names.
  abbrev pub provider_named :
      Option (Dict cloud.Handle) → cloud.Handle → String → Option cloud.Handle
  provider_named none h name = some h
  provider_named (some m) h name = get name m

  unfoldable pub stop_with : Option cloud.Handle → Settings d → Lease → Runner → World d → Done d
  unfolding machine_stopped
  stop_with none c lease v w = (w, some (no_provider v.provider))
  stop_with (some h) c lease v w =
      machine_stopped (cloud.terminate h w.site.state (context_of d w) (instance_of v)) c lease v w

  unfoldable pub runner_found : Result Types.Error Runner → Settings d → Lease → World d → Done d
  unfolding stop_with
  runner_found (err e) c lease w = (w, some (repository e))
  runner_found (ok v) c lease w =
      stop_with (provider_named c.providers c.provider v.provider) c lease v w

  unfoldable pub lease_found : Result Types.Error Lease → Settings d → World d → Done d
  unfolding runner_found
  lease_found (err e) c w = (w, some (repository e))
  lease_found (ok lease) c w =
      runner_found (get_runner (context_of d w) lease.runner_id (store d w)) c lease
        (with_store d w (store d w))

  unfoldable pub job_final : Done d → Settings d → String → Done d
  unfolding lease_found
  job_final (w, some e) c id = (w, some e)
  job_final (w, none) c id =
      lease_found (get_lease (context_of d w) (str_append "lease-" id) (store d w)) c
        (with_store d w (store d w))

  unfoldable pub job_found :
      Result Types.Error Job → Settings d → String → JobState → World d → Done d
  unfolding job_final
  job_found (err e) c id final w = (w, some (repository e))
  job_found (ok job) c id final w =
      job_final (if job_is job.state final then (w, none) else move_job d c job final w) c id

  -- `Service.finish`
  unfoldable pub finish : Settings d → String → JobState → World d → Done d
  unfolding job_found
  finish c id final w =
      job_found (get_job (context_of d w) id (store d w)) c id final (with_store d w (store d w))
