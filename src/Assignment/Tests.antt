-- ===== src/Assignment/Tests.antt =====
-- Assignments with one machine at most, a GitHub that registers what it is asked for, and contexts
-- that stay live but for one.
use leo_runners.Base.{
  ◌≡◌, refl, suc, String, [], ◌∷◌, Option, none, some, ℕ, str_append, Bool, true, ◌⊎◌, false,
  str_eq, ◌==◌, if◌then◌else◌, Result, ok, err, live, done, deadline_exceeded, arith,
}
use leo_runners.Base.Int.{pos, add64}
use leo_runners.Base.Text.{trim_space, trim_left, trim_right, is_space, is_blank}
use leo_runners.Base.Dict.{get, put, remove}
use leo_runners.Base.Decimal.{format_int}
use leo_runners.State.Types
use leo_runners.State.Types.{Job, Runner, RunnerState, queued, revision_conflict}
use leo_runners.State.Table
use leo_runners.State.Memory.{save_runner, get_runner, create_runner}
use leo_runners.State.Events.{insert_lifecycle_event, text_at, key_of, stored}
use leo_runners.Lifecycle.Provider.{
  RunnerSpec, RunnerInstance, ProviderError, ready, capacity, instance_not_found,
}
use leo_runners.Lifecycle.System.{Surroundings}
use leo_runners.Lifecycle.Fake.{Fake}
use leo_runners.Scheduler.Fakes.{two_fakes, two_fakes_laws}
use leo_runners.Lifecycle.Solitude.{Idle}
use leo_runners.Scheduler.Cloud.{Cloud}
use leo_runners.Assignment.Registrar.{Registrar}
use leo_runners.Assignment.Request.{AssignmentRequest, Assignment, RegistrationState}
use leo_runners.Assignment.Policy.{validate, bad_label, before_slash}
use leo_runners.Assignment.Cleanup.{World, Work}
use leo_runners.Assignment.Bootstrap.{Settings, admitted, bootstrap, registration_event, error_of}
use leo_runners.Assignment.Service.{assign, created, persist_registration}
use leo_runners.Assignment.Cleaning.{Settled}
use leo_runners.Assignment.Settlement.{assign-Settled}
use leo_runners.Assignment.Leak.{Abandoned, failed_reload_leaks_machine, returned_runner_is_stale}

abbrev machine : RunnerSpec → RunnerInstance
machine spec = record {
  id = "m-1";
  provider_id = "vm-1";
  provider = "small";
  status = ready;
  created_at = pos 1;
  expires_at = spec.expires_at;
  spec = spec;
}

-- The identifier of the machine that runs, if one does.
abbrev provide : Option String → RunnerSpec → Option String × Result ProviderError RunnerInstance
provide none spec = (some "m-1", ok (machine spec))
provide (some id) spec = (some id, err capacity)

abbrev stop : Option String → RunnerInstance → Option String × Option ProviderError
stop none i = (none, some instance_not_found)
stop (some id) i = if str_eq id i.id then (none, none) else (some id, some instance_not_found)

abbrev small : Cloud
small = record {
  Handle = Unit {0};
  State = Option String;
  provision = λ h s ctx spec. provide s spec;
  wait_ready = λ h s ctx i. (s, none);
  terminate = λ h s ctx i. stop s i;
}

abbrev github : Registrar
github = record {
  State = Unit {0};
  generate = λ s ctx q.
      (s, ok (record { encoded_config = "secret"; runner_id = pos 42; runner_name = "r-1" }));
  wait_for_registration = λ s ctx q. (s, ok (record { id = q.runner_id; name = q.runner_name }));
  remove_runner = none;
}

abbrev calm : Surroundings
calm = record { clock = λ n. pos (suc n); contexts = λ n. live }

-- The fifth operation, which is the reload, finds its context done.
abbrev hasty : Surroundings
hasty = record {
  clock = λ n. pos (suc n);
  contexts = λ n. if n == 4 then done deadline_exceeded else live;
}

abbrev request : AssignmentRequest (Unit {0})
request = record {
  job = record {
    id = "job-1";
    repository = "acme/app";
    workflow = "ci";
    run_id = pos 1;
    job_id = pos 1;
    attempt = pos 1;
    labels = "linux" ∷ [];
    state = queued;
    controller_owner = "c";
    created_at = pos 1;
    updated_at = pos 1;
    expires_at = pos 90;
    revision = pos 1;
  };
  spec = record {
    cpu = pos 4;
    memory_gb = pos 8;
    architecture = "";
    os = "";
    disk_gb = pos 0;
    gpu = false;
    image = "";
    labels = "linux" ∷ [];
    docker_required = false;
    node_version = "";
    security_profile = "";
    metadata = ("github_runner_name", "r-1") ∷ [];
    expires_at = pos 90;
  };
  provider = none;
  capacity_pool_id = "p";
  is_fork = false;
}

abbrev service : Settings (Unit {0})
service = record {
  provider = some tt;
  runner_group_id = some (pos 7);
  policy = record {
    organizations = "acme" ∷ [];
    repositories = [];
    allowed_labels = "linux" ∷ [];
    runner_group_id = pos 7;
    allow_forks = false;
  };
}

abbrev at_rest : (around : Surroundings) → World small github around
at_rest around = record {
  repository = record { jobs = []; runners = []; leases = []; events = [] };
  machines = none;
  github = tt;
  inflight = [];
  step = 0;
}

-- Two fake providers at rest. The request asks for the first, the service has the second.
abbrev named : ℕ → String
named n = str_append "fake-runner-" (format_int (pos n))

abbrev idle_fake : Fake
idle_fake = record {
  capacity = pos 1;
  ready_after = pos 0;
  failures = record {
    provision = pos 0;
    wait_ready = pos 0;
    status = pos 0;
    terminate = pos 0;
    error = none;
  };
  instances = [];
  sequence = 0;
}

abbrev request_first : AssignmentRequest Bool
request_first = record {
  job = request.job;
  spec = request.spec;
  provider = some true;
  capacity_pool_id = "p";
  is_fork = false;
}

abbrev service_second : Settings Bool
service_second = record {
  provider = some false;
  runner_group_id = some (pos 7);
  policy = service.policy;
}

abbrev two_at_rest : World (two_fakes named (pos 1)) github calm
two_at_rest = record {
  repository = record { jobs = []; runners = []; leases = []; events = [] };
  machines = (idle_fake, idle_fake);
  github = tt;
  inflight = [];
  step = 0;
}

idle_fake-Idle : Idle idle_fake
unfolding get
idle_fake-Idle k v there = absurd (ground arith)

assign-Settled_example :
    Settled
      (two_fakes named (pos 1))
      (two_fakes_laws named (pos 1))
      github
      calm
      (λ h. (some true ≡ some h) ⊎ ((some true ≡ none) × (some false ≡ some h)))
      "job-1"
      (assign (two_fakes named (pos 1)) github calm str_eq service_second request_first two_at_rest)
assign-Settled_example =
    assign-Settled (two_fakes named (pos 1)) (two_fakes_laws named (pos 1)) github calm str_eq
      service_second request_first two_at_rest (idle_fake-Idle, idle_fake-Idle)

abbrev assigned : Assignment
assigned = record {
  runner = record {
    id = "m-1";
    job_id = "job-1";
    lease_id = "";
    provider = "small";
    provider_instance_id = "vm-1";
    capacity_pool_id = "p";
    cpu = pos 4;
    memory_gb = pos 8;
    gpu = pos 0;
    region = "";
    labels = "linux" ∷ [];
    state = RunnerState.ready;
    controller_owner = "c";
    created_at = pos 1;
    updated_at = pos 1;
    expires_at = pos 90;
    revision = pos 1;
  };
  registration = record {
    runner_id = "m-1";
    job_id = "job-1";
    github_runner_id = pos 42;
    github_runner_name = "r-1";
    state = RegistrationState.ready;
  };
}

-- The store and the contents of the registration events.
abbrev after : World small github calm
after = (assign small github calm str_eq service request (at_rest calm)).0

assigned_lem : assign small github calm str_eq service request (at_rest calm) ≡ (after, ok assigned)
unfolding assign admitted validate bad_label before_slash bootstrap registration_event
    persist_registration error_of insert_lifecycle_event key_of stored text_at get put remove
    create_runner save_runner get_runner Table.create Table.fresh Table.read Table.save
    Table.next_version add64 trim_space trim_left trim_right is_space is_blank format_int
assigned_lem = refl

returned_runner_is_stale_example :
    save_runner
      (pos 50)
      live
      (record assigned.runner { state = RunnerState.busy })
      (pos 1)
      after.repository
    ≡ (after.repository, err revision_conflict)
returned_runner_is_stale_example =
    returned_runner_is_stale small github calm str_eq service request (at_rest calm) after assigned
      (pos 50) RunnerState.busy assigned_lem

abbrev work : Work small github hasty
work = record {
  provider = tt;
  request = request;
  jit = record { encoded_config = "secret"; runner_id = pos 42; runner_name = "r-1" };
  machine = machine request.spec;
}

abbrev provisioned_only : World small github hasty
provisioned_only = record (at_rest hasty) { machines = some "m-1"; step = 3 }

abbrev recorded_runner : Runner
recorded_runner = record assigned.runner { state = RunnerState.provisioning }

failed_reload_leaks_machine_example :
    Abandoned small github hasty
      (some "m-1")
      (record (at_rest hasty).repository { runners = ("m-1", recorded_runner) ∷ [] })
      (created small github hasty
        (record (at_rest hasty).repository { runners = ("m-1", recorded_runner) ∷ [] }, ok tt)
        work
        provisioned_only)
unfolding get get_runner Table.read
failed_reload_leaks_machine_example =
    failed_reload_leaks_machine small github hasty
      (record (at_rest hasty).repository { runners = ("m-1", recorded_runner) ∷ [] }) work
      provisioned_only (Types.context deadline_exceeded) refl refl
