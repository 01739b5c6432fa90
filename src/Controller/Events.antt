-- ===== src/Controller/Events.antt =====
-- What the queued branch of `HandleWorkflowJob`, and the choice of a branch, leave of the lifecycle
-- events: every event that is there.
use leo_runners.Base.{
  arith, Context, String, Option, none, some, Bool, true, false, Result, ok, err, ◌≡◌,
}
use leo_runners.Base.Time.{Time}
use leo_runners.Base.Dict.{get}
use leo_runners.State.Types
use leo_runners.State.Types.{Job, Runner, Lease, LifecycleEvent, JobState, job_is, already_exists}
use leo_runners.State.Memory.{MemoryRepository, create_job, save_job, create_lease, create_runner}
use leo_runners.Lifecycle.Provider.{RunnerSpec}
use leo_runners.Lifecycle.Transitions.{TransitionError}
use leo_runners.Scheduler.Scheduling.{ScheduleError, Site}
use leo_runners.Scheduler.Keeping.{schedule_keeps, schedule_plain_keeps, reserve_keeps}
use leo_runners.Assignment.Request.{Assignment, AssignError, AssignmentRequest}
use leo_runners.Github.Events.{
  WorkflowJobEvent, Action, queued, in_progress, cancelled, completed, other,
}
use leo_runners.Controller.Deployment.{
  Deployment, Settings, World, ControllerError, assigning, scheduling, now, context_of, store,
  with_store, with_site, transition_now,
}
use leo_runners.Controller.Queueing.{
  lease_of, lease_created, lease_out, fail_job, scheduled, give_back, assigned, assign_with,
  reserved, moment_of, place, job_after, provisioned, start_job, job_loaded, job_created, queue_job,
  job_of, spec_of, request_for, after_service,
}
use leo_runners.Controller.Handler.{run_job, act, ttl_of, conclusion_of}
use leo_runners.Controller.Keeping.{Has, Kept, Has-transition, move_job-Kept, finish-Kept}

-- What a runner service leaves of the lifecycle events: every event that is there.
abbrev pub KeepsEvents : Deployment → Type 0
KeepsEvents d =
    (k : String) (x : LifecycleEvent) (q : AssignmentRequest d.cloud.Handle)
    (t : MemoryRepository × d.cloud.State × d.service.Own)
    → get k t.0.events ≡ some x
    → get k (d.service.assign q t).0.0.events ≡ some x

module _ (d : Deployment) (keeps : KeepsEvents d) (k : String) (x : LifecycleEvent) where
  open d use {floats, cloud, service, around}

  module _ (rfc3339 : Time → String) where
    lease_created-Kept :
        (answer : MemoryRepository × Result Types.Error (Unit {0})) (c : Settings d) (job : Job)
        (v : Runner) (w : World d)
        → Has d k x answer.0
        → Kept d k x (lease_created rfc3339 d answer c job v w)
    unfolding lease_created
    lease_created-Kept (r, err e) c job v w p = p
    lease_created-Kept (r, ok u) c job v w p =
        move_job-Kept d k x c job JobState.assigned (with_store d w r) p

    lease_out-Kept :
        (c : Settings d) (job : Job) (v : Runner) (w : World d)
        → Has d k x (store d w)
        → Kept d k x (lease_out rfc3339 d c job v w)
    unfolding lease_out create_lease
    lease_out-Kept c job v w p =
        lease_created-Kept (create_lease (now d w) (context_of d w) (lease_of job v) (store d w)) c
          job v w p

    fail_job-Kept :
        (job : Job) (e : ControllerError) (w : World d)
        → Has d k x (store d w)
        → Kept d k x (fail_job rfc3339 d job e w)
    unfolding fail_job save_job
    fail_job-Kept job e w p = p

    scheduled-Kept :
        (answer : Site floats cloud × Result ScheduleError Runner) (c : Settings d) (job : Job)
        (w : World d)
        → Has d k x answer.0.repository
        → Kept d k x (scheduled rfc3339 d answer c job w)
    unfolding scheduled
    scheduled-Kept (s, err e) c job w p = fail_job-Kept job (scheduling e) (with_site d w s) p
    scheduled-Kept (s, ok v) c job w p = lease_out-Kept c job v (with_site d w s) p

    give_back-Has :
        (id : String) (spec : RunnerSpec) (w : World d)
        → Has d k x (store d w)
        → Has d k x (store d (give_back rfc3339 d id spec w))
    unfolding give_back
    give_back-Has id spec w p = ground arith

    assigned-Kept :
        (answer : (MemoryRepository × cloud.State × service.Own) × Result AssignError Assignment)
        (c : Settings d) (id : String) (job : Job) (spec : RunnerSpec) (w : World d)
        → Has d k x answer.0.0
        → Kept d k x (assigned rfc3339 d answer c id job spec w)
    unfolding assigned
    assigned-Kept ((r, t, o), err e) c id job spec w p =
        fail_job-Kept job (assigning e)
          (give_back rfc3339 d id spec (after_service rfc3339 d w r t o))
          (give_back-Has id spec (after_service rfc3339 d w r t o) p)
    assigned-Kept ((r, t, o), ok a) c id job spec w p =
        lease_out-Kept c job a.runner (after_service rfc3339 d w r t o) p

    assign_with-Kept :
        (h : cloud.Handle) (id : String) (e : WorkflowJobEvent) (c : Settings d) (job : Job)
        (spec : RunnerSpec) (w : World d)
        → Has d k x (store d w)
        → Kept d k x (assign_with rfc3339 d h id e c job spec w)
    unfolding assign_with
    assign_with-Kept h id e c job spec w p =
        let answer =
          service.assign (request_for rfc3339 d h id e job spec) (store d w, w.site.state, w.own) in
        assigned-Kept answer c id job spec w
          (keeps k x (request_for rfc3339 d h id e job spec) (store d w, w.site.state, w.own) p)

    reserved-Kept :
        (answer : Site floats cloud × Result ScheduleError (cloud.Handle × String))
        (e : WorkflowJobEvent) (c : Settings d) (job : Job) (spec : RunnerSpec) (w : World d)
        → Has d k x answer.0.repository
        → Kept d k x (reserved rfc3339 d answer e c job spec w)
    unfolding reserved
    reserved-Kept (s, err y) e c job spec w p = fail_job-Kept job (scheduling y) (with_site d w s) p
    reserved-Kept (s, ok (h, id)) e c job spec w p =
        assign_with-Kept h id e c job spec (with_site d w s) p

    runner_created :
        (now : Time) (ctx : Context) (v : Runner) (r : MemoryRepository)
        → Has d k x r
        → Has d k x (create_runner now ctx v r).0
    unfolding create_runner
    runner_created now ctx v r p = p

    place-Kept :
        (has_assignment has_registry : Bool) (e : WorkflowJobEvent) (c : Settings d) (job : Job)
        (spec : RunnerSpec) (w : World d)
        → Has d k x (store d w)
        → Kept d k x (place rfc3339 d has_assignment has_registry e c job spec w)
    unfolding place
    place-Kept true true e c job spec w p =
        reserved-Kept _ e c job spec w
          (reserve_keeps floats cloud (Has d k x) runner_created c.scheduler spec w.site p)
    place-Kept true false e c job spec w p = assign_with-Kept c.provider "" e c job spec w p
    place-Kept false true e c job spec w p = scheduled-Kept _ c job _ (
        schedule_keeps floats cloud (Has d k x) runner_created c.scheduler (moment_of rfc3339 d w)
          job spec w.site p)
    place-Kept false false e c job spec w p = scheduled-Kept _ c job _ (
        schedule_plain_keeps floats cloud (Has d k x) runner_created c.scheduler
          (moment_of rfc3339 d w) job spec w.site p)

    provisioned-Kept :
        (o : Option TransitionError) (e : WorkflowJobEvent) (c : Settings d) (job : Job)
        (w : World d)
        → Has d k x (store d w)
        → Kept d k x (provisioned rfc3339 d o e c job w)
    unfolding provisioned
    provisioned-Kept (some y) e c job w p = p
    provisioned-Kept none e c job w p =
        place-Kept c.has_assignment c.has_registry e c job
          (spec_of rfc3339 c.runner_name_prefix e.dedup_key job) w p

    job_loaded-Kept :
        (answer : Result Types.Error Job) (e : WorkflowJobEvent) (c : Settings d) (w : World d)
        → Has d k x (store d w)
        → Kept d k x (job_loaded rfc3339 d answer e c w)
    unfolding job_loaded start_job
    job_loaded-Kept (err y) e c w p = p
    job_loaded-Kept (ok job) e c w p =
        let m = transition_now d c job JobState.provisioning w in
        provisioned-Kept m.error e c (job_after rfc3339 d m.job job) (with_store d w m.store)
          (Has-transition d k x c job JobState.provisioning w p)

    job_created-Kept :
        (answer : MemoryRepository × Result Types.Error (Unit {0})) (e : WorkflowJobEvent)
        (c : Settings d) (id : String) (w : World d)
        → Has d k x answer.0
        → Kept d k x (job_created rfc3339 d answer e c id w)
    unfolding job_created
    job_created-Kept (r, err already_exists) e c id w p = p
    job_created-Kept (r, err y) e c id w p = p
    job_created-Kept (r, ok u) e c id w p =
        job_loaded-Kept _ e c (with_store d (with_store d w r) r) p

    queue_job-Kept :
        (e : WorkflowJobEvent) (c : Settings d) (job : Job) (w : World d)
        → Has d k x (store d w)
        → Kept d k x (queue_job rfc3339 d e c job w)
    unfolding queue_job create_job
    queue_job-Kept e c job w p =
        job_created-Kept (create_job (now d w) (context_of d w) job (store d w)) e c job.id w p

  module _ (rfc3339 : Time → String) (to_lower : String → String)
      (equal_fold : String → String → Bool) where
    run_job-Kept :
        (answer : Result Types.Error Job) (c : Settings d) (w : World d)
        → Has d k x (store d w)
        → Kept d k x (run_job rfc3339 to_lower equal_fold d answer c w)
    unfolding run_job
    run_job-Kept (err y) c w p = p
    run_job-Kept (ok job) c w p = move_job-Kept d k x c job JobState.running w p

    -- Whatever a delivery does, the events that are there stay.
    pub act-Kept :
        (a : Action) (e : WorkflowJobEvent) (c : Settings d) (w : World d)
        → Has d k x (store d w)
        → Kept d k x (act rfc3339 to_lower equal_fold d a e c w)
    unfolding act
    act-Kept queued e c w p = queue_job-Kept rfc3339 e c (job_of e (now d w) (ttl_of c.job_ttl)) w p
    act-Kept in_progress e c w p = run_job-Kept _ c (with_store d w (store d w)) p
    act-Kept cancelled e c w p = finish-Kept d k x c e.job_key JobState.cancelled w p
    act-Kept completed e c w p = finish-Kept d k x c e.job_key (conclusion_of e.job.conclusion) w p
    act-Kept (other s) e c w p = p
