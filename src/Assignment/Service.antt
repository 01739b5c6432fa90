-- ===== src/Assignment/Service.antt =====
-- `Service.Assign` of controller/internal/runners/runners.go, one function for each call that it
-- makes, by the call's answer. `State`, `JIT` and `Registration` are not nil.
use leo_runners.Base.{String, Option, none, some, Bool, ◌||◌, if◌then◌else◌, Result, ok, err}
use leo_runners.Base.Int.{pos}
use leo_runners.Base.Time.{is_zero}
use leo_runners.Base.Text.{is_empty}
use leo_runners.Base.Dict.{get, put, remove}
use leo_runners.State.Types
use leo_runners.State.Types.{Runner, LifecycleEvent}
use leo_runners.State.Memory.{MemoryRepository, create_runner, get_runner, save_runner}
use leo_runners.State.Events.{insert_lifecycle_event}
use leo_runners.Lifecycle.Provider.{ProviderError, RunnerInstance}
use leo_runners.Lifecycle.System.{Surroundings}
use leo_runners.Scheduler.Cloud.{Cloud}
use leo_runners.Scheduler.Scheduling.{bool_int}
use leo_runners.Assignment.Registrar.{Registrar}
use leo_runners.Assignment.Request.{
  JitConfig, GithubRunner, Registration, RegistrationState, AssignmentRequest, AssignError,
  not_ready, not_persisted, not_reloaded, not_pending, not_saved, not_recorded, registration_failed,
  not_configured, invalid_request, in_progress, invalid_jit_config, jit_failed, not_provisioned,
}
use leo_runners.Assignment.Cleanup.{
  World, Work, Outcome, now, context_of, with_repository, with_machines, with_github,
  registration_request, cleanup,
}
use leo_runners.Assignment.Bootstrap.{
  error_of, registration_event, bootstrap, bad_config, other_runner, Settings, request_of,
  chosen_provider, admitted,
}

module _ (cloud : Cloud) (registrar : Registrar) (around : Surroundings) where
  open cloud use {Handle, provision, wait_ready}
  open registrar use {generate, wait_for_registration}

  abbrev pub runner_of : Work cloud registrar around → Runner
  runner_of k = record {
    id = k.machine.id;
    job_id = k.request.job.id;
    lease_id = "";
    provider = k.machine.provider;
    provider_instance_id = k.machine.provider_id;
    capacity_pool_id = k.request.capacity_pool_id;
    cpu = k.request.spec.cpu;
    memory_gb = k.request.spec.memory_gb;
    gpu = bool_int k.request.spec.gpu;
    region = "";
    labels = k.request.job.labels;
    state = Types.RunnerState.provisioning;
    controller_owner = k.request.job.controller_owner;
    created_at = k.machine.created_at;
    updated_at = pos 0;
    expires_at = k.request.job.expires_at;
    revision = pos 0;
  }

  abbrev pub pending_of : Work cloud registrar around → Runner → Registration
  pending_of k v = record {
    runner_id = v.id;
    job_id = v.job_id;
    github_runner_id = k.jit.runner_id;
    github_runner_name = k.jit.runner_name;
    state = RegistrationState.pending;
  }

  abbrev pub in_phase : Registration → RegistrationState → Registration
  in_phase g phase = record g { state = phase }

  -- `persistRegistration` at the time that `now` reads.
  unfoldable pub persist_registration :
      Registration
      → World cloud registrar around
      → World cloud registrar around × Option Types.Error
  persist_registration g w =
      let (r, answer) =
        insert_lifecycle_event (context_of cloud registrar around w)
          (registration_event g (now cloud registrar around w)) w.repository in
      (with_repository cloud registrar around w r, error_of answer)

  unfoldable pub recorded :
      World cloud registrar around × Option Types.Error
      → Work cloud registrar around
      → Runner
      → Registration
      → Outcome cloud registrar around
  recorded (w, some e) k v g = cleanup cloud registrar around (some v.id) k (not_recorded e) w
  recorded (w, none) k v g = (w, ok (record { runner = v; registration = g }))

  -- The ready runner has been saved; `v` is the runner as it was given to `SaveRunner`.
  unfoldable pub saved :
      MemoryRepository × Result Types.Error Runner
      → Work cloud registrar around
      → Runner
      → Registration
      → World cloud registrar around
      → Outcome cloud registrar around
  unfolding recorded
  saved (r, err e) k v g w =
      cleanup cloud registrar around (some v.id) k (not_saved e)
        (with_repository cloud registrar around w r)
  saved (r, ok u) k v g w =
      recorded
        (persist_registration (in_phase g RegistrationState.ready)
          (with_repository cloud registrar around w r))
        k v (in_phase g RegistrationState.ready)

  -- The registration did not come, or another runner registered.
  unfoldable pub unregistered :
      Work cloud registrar around
      → Runner
      → Registration
      → World cloud registrar around
      → Outcome cloud registrar around
  unregistered k v g w =
      cleanup cloud registrar around (some v.id) k registration_failed
        (persist_registration (in_phase g RegistrationState.failed) w).0

  unfoldable pub registered :
      registrar.State × Result String GithubRunner
      → Work cloud registrar around
      → Runner
      → Registration
      → World cloud registrar around
      → Outcome cloud registrar around
  unfolding unregistered saved
  registered (t, err e) k v g w = unregistered k v g (with_github cloud registrar around w t)
  registered (t, ok who) k v g w =
      let w' = with_github cloud registrar around w t in
      let v' = record v { state = Types.RunnerState.ready } in
      if other_runner who k.jit
      then unregistered k v g w'
      else saved
          (save_runner (now cloud registrar around w') (context_of cloud registrar around w') v'
            v.revision w'.repository)
          k v' g w'

  unfoldable pub noted :
      World cloud registrar around × Option Types.Error
      → Work cloud registrar around
      → Runner
      → Registration
      → Outcome cloud registrar around
  unfolding registered
  noted (w, some e) k v g = cleanup cloud registrar around (some v.id) k (not_pending e) w
  noted (w, none) k v g =
      registered
        (wait_for_registration w.github (context_of cloud registrar around w)
          (registration_request cloud registrar around k))
        k v g w

  -- `runner` is the zero value after a `GetRunner` that fails, and its identifier is empty.
  unfoldable pub reloaded :
      Result Types.Error Runner
      → Work cloud registrar around
      → World cloud registrar around
      → Outcome cloud registrar around
  unfolding noted
  reloaded (err e) k w = cleanup cloud registrar around (some "") k (not_reloaded e) w
  reloaded (ok v) k w = noted (persist_registration (pending_of k v) w) k v (pending_of k v)

  unfoldable pub created :
      MemoryRepository × Result Types.Error (Unit {0})
      → Work cloud registrar around
      → World cloud registrar around
      → Outcome cloud registrar around
  unfolding reloaded
  created (r, err e) k w =
      cleanup cloud registrar around none k (not_persisted e)
        (with_repository cloud registrar around w r)
  created (r, ok u) k w =
      let w' = with_repository cloud registrar around w r in
      reloaded (get_runner (context_of cloud registrar around w') k.machine.id r) k
        (with_repository cloud registrar around w' r)

  unfoldable pub awaited :
      cloud.State × Option ProviderError
      → Work cloud registrar around
      → World cloud registrar around
      → Outcome cloud registrar around
  unfolding created
  awaited (t, some e) k w =
      cleanup cloud registrar around none k (not_ready e) (with_machines cloud registrar around w t)
  awaited (t, none) k w =
      let w' = with_machines cloud registrar around w t in
      created
        (create_runner (now cloud registrar around w') (context_of cloud registrar around w')
          (runner_of k) w'.repository)
        k w'

  unfoldable pub provisioned :
      cloud.State × Result ProviderError RunnerInstance
      → Handle
      → AssignmentRequest Handle
      → JitConfig
      → World cloud registrar around
      → Outcome cloud registrar around
  unfolding awaited
  provisioned (t, err e) h q jit w =
      (with_machines cloud registrar around w t, err (not_provisioned e))
  provisioned (t, ok i) h q jit w =
      let w' = with_machines cloud registrar around w t in
      awaited (wait_ready h t (context_of cloud registrar around w') i)
        (record { provider = h; request = q; jit = jit; machine = i }) w'

  unfoldable pub generated :
      registrar.State × Result String JitConfig
      → Handle
      → AssignmentRequest Handle
      → World cloud registrar around
      → Outcome cloud registrar around
  unfolding provisioned bootstrap
  generated (t, err e) h q w = (with_github cloud registrar around w t, err (jit_failed e))
  generated (t, ok jit) h q w =
      let w' = with_github cloud registrar around w t in
      if bad_config jit
      then (w', err invalid_jit_config)
      else provisioned
          (provision h w'.machines (context_of cloud registrar around w')
            (bootstrap q.spec jit q.job.repository))
          h q jit w'

  -- `endAssignment`
  unfoldable pub end_assignment :
      String → Outcome cloud registrar around → Outcome cloud registrar around
  end_assignment id (w, a) = (record w { inflight = remove id w.inflight }, a)

  -- `beginAssignment` and what comes after it; no entry stands for the job that is free.
  unfoldable pub begin_assignment :
      Option (Unit {0})
      → Settings Handle
      → Handle
      → AssignmentRequest Handle
      → World cloud registrar around
      → Outcome cloud registrar around
  unfolding generated end_assignment
  begin_assignment (some u) c h q w = (w, err in_progress)
  begin_assignment none c h q w =
      let w' = record w { inflight = put q.job.id tt w.inflight } in
      end_assignment q.job.id (
        generated (generate w'.github (context_of cloud registrar around w') (request_of c q)) h q
          w')

  unfoldable pub accepted :
      Option AssignError
      → Settings Handle
      → Handle
      → AssignmentRequest Handle
      → World cloud registrar around
      → Outcome cloud registrar around
  unfolding begin_assignment
  accepted (some e) c h q w = (w, err e)
  accepted none c h q w = begin_assignment (get q.job.id w.inflight) c h q w

  unfoldable pub assign_with :
      Option Handle
      → (String → String → Bool)
      → Settings Handle
      → AssignmentRequest Handle
      → World cloud registrar around
      → Outcome cloud registrar around
  unfolding accepted
  assign_with none equal_fold c q w = (w, err not_configured)
  assign_with (some h) equal_fold c q w =
      if is_empty q.job.id || is_empty q.job.repository || is_zero q.spec.expires_at
      then (w, err invalid_request)
      else accepted (admitted equal_fold c q) c h q w

  -- `Service.Assign`
  unfoldable pub assign :
      (String → String → Bool)
      → Settings Handle
      → AssignmentRequest Handle
      → World cloud registrar around
      → Outcome cloud registrar around
  unfolding assign_with
  assign equal_fold c q w = assign_with (chosen_provider q.provider c.provider) equal_fold c q w
