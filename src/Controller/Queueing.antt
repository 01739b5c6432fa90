-- ===== src/Controller/Queueing.antt =====
-- The queued branch of `HandleWorkflowJob` of controller/internal/controller/controller.go, one
-- function for each call that it makes, by the call's answer. `rfc3339` is
-- `Time.Format(time.RFC3339)`.
use leo_runners.Base.{
  suc, String, [], ◌∷◌, Option, none, some, Bool, true, false, if◌then◌else◌, Result, ok, err,
  str_append,
}
use leo_runners.Base.Int.{pos}
use leo_runners.Base.Time.{Time, Duration, add}
use leo_runners.Base.Text.{is_empty}
use leo_runners.Base.Decimal.{format_int}
use leo_runners.State.Types
use leo_runners.State.Types.{Job, Runner, Lease, JobState, LeaseState, already_exists}
use leo_runners.State.Memory.{MemoryRepository, create_job, get_job, save_job, create_lease}
use leo_runners.Capacity.Registry
use leo_runners.Lifecycle.Provider.{RunnerSpec}
use leo_runners.Lifecycle.System.{instance_of}
use leo_runners.Lifecycle.Transitions.{Moved, TransitionError}
use leo_runners.Scheduler.Scheduling.{
  ScheduleError, Moment, Site, with_registry, with_state, bool_int, schedule, schedule_plain,
  reserve,
}
use leo_runners.Assignment.Request.{Assignment, AssignError, AssignmentRequest}
use leo_runners.Github.Events.{WorkflowJobEvent}
use leo_runners.Controller.Deployment.{
  Deployment, Settings, World, Done, ControllerError, repository, moving, scheduling, assigning,
  now, context_of, store, with_store, with_site, transition_now, move_job,
}

-- The job of an event that is received at a time.
abbrev pub job_of : WorkflowJobEvent → Time → Duration → Job
job_of e at ttl = record {
  id = e.job_key;
  repository = e.job.repository.full_name;
  workflow = e.job.workflow_name;
  run_id = e.job.run_id;
  job_id = e.job.id;
  attempt = e.job.run_attempt;
  labels = e.job.labels;
  state = JobState.queued;
  controller_owner = "";
  created_at = at;
  updated_at = pos 0;
  expires_at = add at ttl;
  revision = pos 0;
}

-- `fmt.Sprintf("%s-%d-%d", prefix, job.JobID, job.Attempt)`
unfoldable pub runner_name : String → Job → String
runner_name prefix job =
    str_append (if is_empty prefix then "leo-runner" else prefix) (
      str_append "-" (str_append (format_int job.job_id) (str_append "-" (format_int job.attempt))))

abbrev pub lease_of : Job → Runner → Lease
lease_of job v = record {
  id = str_append "lease-" job.id;
  job_id = job.id;
  runner_id = v.id;
  state = LeaseState.active;
  controller_owner = "";
  created_at = pos 0;
  updated_at = pos 0;
  expires_at = job.expires_at;
  revision = pos 0;
}

module _ (rfc3339 : Time → String) where
  unfoldable pub spec_of : String → String → Job → RunnerSpec
  unfolding runner_name
  spec_of prefix key job = record {
    cpu = pos 0;
    memory_gb = pos 0;
    architecture = "x86_64";
    os = "linux";
    disk_gb = pos 0;
    gpu = false;
    image = "";
    labels = job.labels;
    docker_required = false;
    node_version = "";
    security_profile = "";
    metadata =
        ("job_id", format_int job.job_id)
        ∷ ("repository", job.repository)
        ∷ ("workflow", job.workflow)
        ∷ ("run_id", format_int job.run_id)
        ∷ ("owner", job.repository)
        ∷ ("created_at", rfc3339 job.created_at)
        ∷ ("expires_at", rfc3339 job.expires_at)
        ∷ ("github_runner_name", runner_name prefix job)
        ∷ ("provider_attempt_key", key)
        ∷ [];
    expires_at = job.expires_at;
  }

  module _ (d : Deployment) where
    open d use {floats, cloud, service, around}

    unfoldable pub lease_created :
        MemoryRepository × Result Types.Error (Unit {0})
        → Settings d
        → Job
        → Runner
        → World d
        → Done d
    lease_created (r, err e) c job v w =
        let w' = with_store d w r in
        (
          with_site d w' (
              with_state floats cloud w'.site
                (cloud.terminate c.provider w'.site.state (context_of d w') (instance_of v)).0),
          some (repository e),
        )
    lease_created (r, ok u) c job v w = move_job d c job JobState.assigned (with_store d w r)

    unfoldable pub lease_out : Settings d → Job → Runner → World d → Done d
    unfolding lease_created
    lease_out c job v w =
        lease_created (create_lease (now d w) (context_of d w) (lease_of job v) (store d w)) c job v
          w

    -- `job.State = state.JobFailed; _, _ = s.State.SaveJob(ctx, job, job.Revision)`
    unfoldable pub fail_job : Job → ControllerError → World d → Done d
    fail_job job e w = (
      with_store d w
          (save_job (now d w) (context_of d w) (record job { state = JobState.failed }) job.revision
            (store d w)).0,
      some e,
    )

    unfoldable pub scheduled :
        Site floats cloud × Result ScheduleError Runner → Settings d → Job → World d → Done d
    unfolding lease_out fail_job
    scheduled (s, err e) c job w = fail_job job (scheduling e) (with_site d w s)
    scheduled (s, ok v) c job w = lease_out c job v (with_site d w s)

    -- `s.Scheduler.PoolRegistry.Release(poolID, ...)`, unless there is no pool.
    unfoldable pub give_back : String → RunnerSpec → World d → World d
    give_back id spec w =
        if is_empty id
        then w
        else with_site d w (
            with_registry floats cloud w.site
              (Registry.release id spec.cpu spec.memory_gb (bool_int spec.gpu) w.site.registry).0)

    abbrev pub after_service : World d → MemoryRepository → cloud.State → service.Own → World d
    after_service w r t o = record w {
      site = record w.site { repository = r; state = t };
      own = o;
      step = suc w.step;
    }

    unfoldable pub assigned :
        (MemoryRepository × cloud.State × service.Own) × Result AssignError Assignment
        → Settings d
        → String
        → Job
        → RunnerSpec
        → World d
        → Done d
    unfolding give_back fail_job lease_out
    assigned ((r, t, o), err e) c id job spec w =
        fail_job job (assigning e) (give_back id spec (after_service w r t o))
    assigned ((r, t, o), ok a) c id job spec w = lease_out c job a.runner (after_service w r t o)

    abbrev pub request_for :
        cloud.Handle → String → WorkflowJobEvent → Job → RunnerSpec → AssignmentRequest cloud.Handle
    request_for h id e job spec = record {
      job = job;
      spec = spec;
      provider = some h;
      capacity_pool_id = id;
      is_fork = e.job.repository.is_fork;
    }

    unfoldable pub assign_with :
        cloud.Handle → String → WorkflowJobEvent → Settings d → Job → RunnerSpec → World d → Done d
    unfolding assigned
    assign_with h id e c job spec w =
        assigned (service.assign (request_for h id e job spec) (store d w, w.site.state, w.own)) c
          id job spec w

    unfoldable pub reserved :
        Site floats cloud × Result ScheduleError (cloud.Handle × String)
        → WorkflowJobEvent
        → Settings d
        → Job
        → RunnerSpec
        → World d
        → Done d
    unfolding assign_with fail_job
    reserved (s, err x) e c job spec w = fail_job job (scheduling x) (with_site d w s)
    reserved (s, ok (h, id)) e c job spec w = assign_with h id e c job spec (with_site d w s)

    -- The contexts that the scheduler's calls find, and the clock at its write.
    abbrev pub moment_of : World d → Moment
    moment_of w = record {
      at_provision = context_of d w;
      at_wait = around.contexts (suc w.step);
      at_create = around.contexts (suc (suc w.step));
      clock = around.clock (suc (suc w.step));
    }

    unfoldable pub place :
        Bool → Bool → WorkflowJobEvent → Settings d → Job → RunnerSpec → World d → Done d
    unfolding reserved assign_with scheduled
    place true true e c job spec w =
        reserved (reserve floats cloud c.scheduler spec w.site) e c job spec w
    place true false e c job spec w = assign_with c.provider "" e c job spec w
    place false true e c job spec w =
        scheduled (schedule floats cloud c.scheduler (moment_of w) job spec w.site) c job
          (record w { step = suc (suc w.step) })
    place false false e c job spec w =
        scheduled (schedule_plain floats cloud c.scheduler (moment_of w) job spec w.site) c job
          (record w { step = suc (suc w.step) })

    -- After the transition to provisioning, which updates the handler's job.
    abbrev pub job_after : Option Job → Job → Job
    job_after (some v) job = v
    job_after none job = job

    unfoldable pub provisioned :
        Option TransitionError → WorkflowJobEvent → Settings d → Job → World d → Done d
    unfolding place spec_of
    provisioned (some x) e c job w = (w, some (moving x))
    provisioned none e c job w =
        place c.has_assignment c.has_registry e c job (spec_of c.runner_name_prefix e.dedup_key job)
          w

    unfoldable pub start_job : Moved → WorkflowJobEvent → Settings d → Job → World d → Done d
    unfolding provisioned
    start_job m e c job w = provisioned m.error e c (job_after m.job job) (with_store d w m.store)

    unfoldable pub job_loaded :
        Result Types.Error Job → WorkflowJobEvent → Settings d → World d → Done d
    unfolding start_job
    job_loaded (err x) e c w = (w, some (repository x))
    job_loaded (ok job) e c w = start_job (transition_now d c job JobState.provisioning w) e c job w

    unfoldable pub job_created :
        MemoryRepository × Result Types.Error (Unit {0})
        → WorkflowJobEvent
        → Settings d
        → String
        → World d
        → Done d
    unfolding job_loaded
    job_created (r, err already_exists) e c id w = (with_store d w r, none)
    job_created (r, err x) e c id w = (with_store d w r, some (repository x))
    job_created (r, ok u) e c id w =
        let w' = with_store d w r in
        job_loaded (get_job (context_of d w') id r) e c (with_store d w' r)

    unfoldable pub queue_job : WorkflowJobEvent → Settings d → Job → World d → Done d
    unfolding job_created
    queue_job e c job w =
        job_created (create_job (now d w) (context_of d w) job (store d w)) e c job.id w
