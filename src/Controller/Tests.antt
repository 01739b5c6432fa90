-- ===== src/Controller/Tests.antt =====
-- Deliveries about the sample job, on the sample registry with the fake provider.
use leo_runners.Base.{
  ◌≡◌, ◌≢◌, refl, suc, String, [], ◌∷◌, none, some, true, false, str_eq, err, live, arith, eq_iff,
}
use leo_runners.Base.Int.{pos, add64}
use leo_runners.Base.Time.{Time}
use leo_runners.Base.Dict.{get, put}
use leo_runners.State.Types.{Runner, Lease, JobState, RunnerState, LeaseState, event_conflict}
use leo_runners.State.Table
use leo_runners.State.Memory.{
  get_job, save_job, get_lease, get_runner, save_runner, save_lease, job_entity, runner_entity,
  lease_entity,
}
use leo_runners.State.Events.{insert_lifecycle_event, key_of, stored}
use leo_runners.State.Naming.{IsKeyed}
use leo_runners.Capacity.Samples.{whole}
use leo_runners.Lifecycle.Provider.{RunnerInstance, ready}
use leo_runners.Lifecycle.Fake.{terminate}
use leo_runners.Lifecycle.System.{Surroundings}
use leo_runners.Lifecycle.Transitions.{transition}
use leo_runners.Scheduler.Scheduling
use leo_runners.Scheduler.Scheduling.{Site}
use leo_runners.Scheduler.Samples.{one_fake, job, spec, settings, site}
use leo_runners.Assignment.Request.{in_progress}
use leo_runners.Github.Events.{WorkflowJobEvent, Action}
use leo_runners.Controller.Deployment.{
  AssignmentService, Deployment, Settings, World, Done, repository, with_store, store,
  transition_now, move_job,
}
use leo_runners.Controller.Handler.{handle_workflow_job}
use leo_runners.Controller.Finishing.{finish}
use leo_runners.Controller.Events.{KeepsEvents}
use leo_runners.Controller.Deliveries.{delivered_once}
use leo_runners.Controller.Closing.{Finished}
use leo_runners.Controller.Finished.{finish-Finished}

-- A runner service that is always busy.
abbrev busy : AssignmentService one_fake
busy = record { Own = Unit {0}; assign = λ q t. (t, err in_progress) }

abbrev around : Surroundings
around = record { clock = λ n. pos (suc n); contexts = λ n. live }

abbrev deployment : Deployment
deployment = record { floats = whole; cloud = one_fake; service = busy; around = around }

abbrev controller : Settings deployment
controller = record {
  scheduler = settings;
  has_registry = true;
  has_assignment = false;
  provider = tt;
  providers = none;
  has_sink = false;
  job_ttl = pos 0;
  runner_name_prefix = "";
  scope_policy = none;
}

abbrev started : WorkflowJobEvent
started = record {
  event_name = "workflow_job";
  event_id = "e-1";
  delivery_id = "e-1";
  action = Action.in_progress;
  received_at = pos 5;
  dedup_key = "e-1";
  job_key = "job-1";
  run_key = "r/run/1/attempt/1";
  job = record {
    id = pos 1;
    run_id = pos 1;
    run_attempt = pos 1;
    name = "";
    workflow_name = "w";
    head_branch = "";
    head_sha = "";
    status = "";
    conclusion = "";
    labels = [];
    runner_name = "";
    runner_id = pos 0;
    repository = record { id = pos 1; full_name = "acme/app"; name = "app"; is_fork = false };
  };
}

abbrev no_format : Time → String
no_format t = ""

abbrev same_text : String → String
same_text s = s

abbrev runner : Runner
runner = record {
  id = "m-1";
  job_id = "job-1";
  lease_id = "";
  provider = "fake";
  provider_instance_id = "m-1";
  capacity_pool_id = "";
  cpu = pos 0;
  memory_gb = pos 0;
  gpu = pos 0;
  region = "";
  labels = [];
  state = RunnerState.busy;
  controller_owner = "";
  created_at = pos 1;
  updated_at = pos 1;
  expires_at = pos 0;
  revision = pos 1;
}

abbrev lease : Lease
lease = record {
  id = "lease-job-1";
  job_id = "job-1";
  runner_id = "m-1";
  state = LeaseState.active;
  controller_owner = "";
  created_at = pos 1;
  updated_at = pos 1;
  expires_at = pos 0;
  revision = pos 1;
}

abbrev machine : RunnerInstance
machine = record {
  id = "m-1";
  provider_id = "m-1";
  provider = "fake";
  status = ready;
  created_at = pos 1;
  expires_at = pos 0;
  spec = spec;
}

-- A world with the job in a state, and its runner.
abbrev with_job : JobState → World deployment
with_job state = record {
  site = record site {
    repository = record {
      jobs = ("job-1", record job { state = state }) ∷ [];
      runners = ("m-1", runner) ∷ [];
      leases = ("lease-job-1", lease) ∷ [];
      events = [];
    };
    state = record site.state { instances = ("m-1", machine) ∷ [] };
  };
  own = tt;
  step = 0;
}

abbrev handle : World deployment → Done deployment
handle w = handle_workflow_job no_format same_text str_eq deployment started controller w

abbrev after_start : World deployment
after_start = (handle (with_job JobState.assigned)).0

started_lem : handle (with_job JobState.assigned) ≡ (after_start, none)
unfolding handle_workflow_job insert_lifecycle_event key_of stored get put get_job Table.read
    transition_now move_job transition save_job Table.save Table.next_version add64
started_lem = refl

calm_keeps : KeepsEvents deployment
calm_keeps k x q t has = has

delivered_once_example :
    (handle after_start ≡ (with_store deployment after_start (store deployment after_start), none))
    × ((t : Time)
        → t ≢ pos 5
        → handle_workflow_job no_format same_text str_eq deployment
            (record started { received_at = t })
            controller
            after_start
          ≡ (
            with_store deployment after_start (store deployment after_start),
            some (repository event_conflict),
          ))
delivered_once_example =
    delivered_once no_format same_text str_eq deployment calm_keeps started controller
      (with_job JobState.assigned) after_start refl refl started_lem refl

abbrev no_job : World deployment
no_job = record (with_job JobState.assigned) {
  site = record (with_job JobState.assigned).site {
    repository = record (with_job JobState.assigned).site.repository { jobs = [] };
  };
}

abbrev after_failure : World deployment
after_failure = (handle no_job).0

one_job_IsKeyed : (state : JobState) → IsKeyed job_entity (with_job state).site.repository.jobs
unfolding get
one_job_IsKeyed state k v there = ground (arith, eq_iff "job-1" k)

one_runner_IsKeyed :
    (state : JobState) → IsKeyed runner_entity (with_job state).site.repository.runners
unfolding get
one_runner_IsKeyed state k v there = ground (arith, eq_iff "m-1" k)

one_lease_IsKeyed :
    (state : JobState) → IsKeyed lease_entity (with_job state).site.repository.leases
unfolding get
one_lease_IsKeyed state k v there = ground (arith, eq_iff "lease-job-1" k)

abbrev after_finish : World deployment
after_finish =
    (finish deployment controller "job-1" JobState.completed (with_job JobState.running)).0

finish_lem :
    finish deployment controller "job-1" JobState.completed (with_job JobState.running)
    ≡ (after_finish, none)
unfolding finish get_job get_lease get_runner save_runner save_lease Table.read transition_now
    move_job transition save_job Table.save Table.next_version add64 get put terminate
    Scheduling.release
finish_lem = refl

finish-Finished_example :
    Finished deployment "job-1" JobState.completed controller
      (with_job JobState.running)
      after_finish
finish-Finished_example =
    finish-Finished deployment "job-1" JobState.completed controller (with_job JobState.running)
      after_finish
      (record {
        jobs = one_job_IsKeyed JobState.running;
        runners = one_runner_IsKeyed JobState.running;
        leases = one_lease_IsKeyed JobState.running;
      })
      finish_lem
