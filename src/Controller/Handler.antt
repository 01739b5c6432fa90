-- ===== src/Controller/Handler.antt =====
-- `HandleWorkflowJob` of controller/internal/controller/controller.go.
use leo_runners.Base.{
  String, [], Option, none, some, Bool, true, false, if◌then◌else◌, ◌||◌, Result, ok, err, live,
  str_eq,
}
use leo_runners.Base.Int.{pos, leb_ℤ}
use leo_runners.Base.Time.{Time, Duration}
use leo_runners.State.Types
use leo_runners.State.Types.{Job, JobState, LifecycleEvent}
use leo_runners.State.Memory.{MemoryRepository, get_job}
use leo_runners.State.Events.{insert_lifecycle_event, delete_lifecycle_event}
use leo_runners.Github.Events.{
  WorkflowJobEvent, Action, action_text, queued, in_progress, cancelled, completed, other,
}
use leo_runners.Github.Scope.{ScopePolicy, ScopeError, validate_event}
use leo_runners.Controller.Deployment.{
  Deployment, Settings, World, Done, repository, scope, now, context_of, store, with_store,
  move_job,
}
use leo_runners.Controller.Queueing.{queue_job, job_of}
use leo_runners.Controller.Finishing.{finish}

-- The lifecycle event that names a delivery.
abbrev pub delivery_of : WorkflowJobEvent → LifecycleEvent
delivery_of e = record {
  id = e.event_id;
  idempotency_key = e.dedup_key;
  kind = action_text e.action;
  job_id = e.job_key;
  lease_id = "";
  runner_id = "";
  provider = "";
  occurred_at = e.received_at;
  payload = [];
}

-- The state of a job that completed with a conclusion.
abbrev pub conclusion_of : String → JobState
conclusion_of s =
    if str_eq s "cancelled" || str_eq s "skipped"
    then JobState.cancelled
    else if str_eq s "success"
    then JobState.completed
    else JobState.failed

-- Two hours, unless a time is configured.
abbrev pub ttl_of : Duration → Duration
ttl_of ttl = if leb_ℤ ttl (pos 0) then pos 7200000000000 else ttl

module _ (rfc3339 : Time → String) (to_lower : String → String)
    (equal_fold : String → String → Bool) (d : Deployment) where
  unfoldable pub run_job : Result Types.Error Job → Settings d → World d → Done d
  run_job (err x) c w = (w, some (repository x))
  run_job (ok job) c w = move_job d c job JobState.running w

  unfoldable pub act : Action → WorkflowJobEvent → Settings d → World d → Done d
  unfolding run_job
  act queued e c w = queue_job rfc3339 d e c (job_of e (now d w) (ttl_of c.job_ttl)) w
  act in_progress e c w =
      run_job (get_job (context_of d w) e.job_key (store d w)) c (with_store d w (store d w))
  act cancelled e c w = finish d c e.job_key JobState.cancelled w
  act completed e c w = finish d c e.job_key (conclusion_of e.job.conclusion) w
  act (other s) e c w = (w, none)

  -- The deferred function: after an error the delivery is forgotten.
  unfoldable pub settle : WorkflowJobEvent → Done d → Done d
  settle e (w, none) = (w, none)
  settle e (w, some x) =
      (with_store d w (delete_lifecycle_event live e.dedup_key (store d w)).0, some x)

  unfoldable pub inserted :
      MemoryRepository × Result Types.Error Bool → WorkflowJobEvent → Settings d → World d → Done d
  unfolding settle act
  inserted (r, err x) e c w = (with_store d w r, some (repository x))
  inserted (r, ok false) e c w = (with_store d w r, none)
  inserted (r, ok true) e c w = settle e (act e.action e c (with_store d w r))

  unfoldable pub admitted : Option ScopePolicy → WorkflowJobEvent → Option ScopeError
  admitted none e = none
  admitted (some p) e = validate_event to_lower equal_fold p e

  unfoldable pub received : Option ScopeError → WorkflowJobEvent → Settings d → World d → Done d
  unfolding inserted
  received (some x) e c w = (w, some (scope x))
  received none e c w =
      inserted (insert_lifecycle_event (context_of d w) (delivery_of e) (store d w)) e c w

  -- `Service.HandleWorkflowJob`
  unfoldable pub handle_workflow_job : WorkflowJobEvent → Settings d → World d → Done d
  unfolding received admitted
  handle_workflow_job e c w = received (admitted c.scope_policy e) e c w
