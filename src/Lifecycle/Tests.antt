-- ===== src/Lifecycle/Tests.antt =====
-- Runs of the lifecycle manager, the reaper and the fake provider at concrete inputs.
use leo_runners.Base.{
  ℕ, ◌≡◌, ◌≤◌, refl, String, [], ◌∷◌, none, some, true, false, ok, live, done, canceled, arith,
  eq_iff,
}
use leo_runners.Base.Int.{pos, incr_u64}
use leo_runners.Base.Dict.{get, put}
use leo_runners.State.Types.{Job, Runner, queued, provisioning, assigned, running, ready, context}
use leo_runners.State.Memory.{MemoryRepository, save_job}
use leo_runners.State.Table.{save, save_over, next_version}
use leo_runners.Lifecycle.Transitions.{
  valid_transition, transition, moved_to, Moves, moves, stays, job_settles, repository,
}
use leo_runners.Lifecycle.Moving.{HasMoved, transition_outcome, refused_move_stays_with_caller}
use leo_runners.Lifecycle.Provider.{RunnerSpec, RunnerInstance}
use leo_runners.Lifecycle.System.{Surroundings, System}
use leo_runners.Lifecycle.Reaper.{reap, terminate_runner}
use leo_runners.Lifecycle.Confirmation.{IsConfirmed}
use leo_runners.Lifecycle.Records.{passes_record_truth}
use leo_runners.Lifecycle.Reconciler.{reconcile}
use leo_runners.Lifecycle.Fake.{Fake, fake_provider, provision, failure_locked, provisioned}
use leo_runners.Lifecycle.FakeLaws.{
  fake_confirms, provision_loses_metadata, capacity_is_kept, IsBounded,
}

abbrev job_1 : Job
job_1 = record {
  id = "job-1";
  repository = "r";
  workflow = "w";
  run_id = pos 1;
  job_id = pos 1;
  attempt = pos 1;
  labels = [];
  state = queued;
  controller_owner = "";
  created_at = pos 1;
  updated_at = pos 1;
  expires_at = pos 0;
  revision = pos 3;
}

abbrev runner_1 : Runner
runner_1 = record {
  id = "fake-runner-1";
  job_id = "job-1";
  lease_id = "";
  provider = "fake";
  provider_instance_id = "fake-runner-1";
  capacity_pool_id = "p";
  cpu = pos 1;
  memory_gb = pos 1;
  gpu = pos 0;
  region = "";
  labels = [];
  state = ready;
  controller_owner = "";
  created_at = pos 1;
  updated_at = pos 1;
  expires_at = pos 5;
  revision = pos 1;
}

abbrev store : MemoryRepository
store = record {
  jobs = ("job-1", job_1) ∷ [];
  runners = ("fake-runner-1", runner_1) ∷ [];
  leases = [];
  events = [];
}

-- From queued to running in three moves.
to_running : Moves queued 3 running
unfolding valid_transition
to_running =
    moves _ provisioning _ _ refl refl
      (moves _ assigned _ _ refl refl (moves _ running _ _ refl refl (stays running)))

job_settles_example : ◌≤◌ 3 4
job_settles_example = (job_settles queued running 3 to_running).0

transition_outcome_example :
    HasMoved job_1 provisioning store
      (transition true (pos 9, pos 9) live (some job_1) provisioning store)
transition_outcome_example =
    (transition_outcome true (pos 9, pos 9) live job_1 provisioning store
        (repository (context canceled))).0
      (unfold transition save_job save save_over next_version get in refl)

refused_move_stays_with_caller_example :
    (transition true (pos 9, pos 9) (done canceled) (some job_1) provisioning store).job
    ≡ some (moved_to job_1 provisioning)
unfolding valid_transition
refused_move_stays_with_caller_example =
    (refused_move_stays_with_caller true (pos 9, pos 9) (done canceled) job_1 provisioning store
      (repository (context canceled)) refl (unfold transition save_job save in refl)).1

abbrev spec_1 : RunnerSpec
spec_1 = record {
  cpu = pos 1;
  memory_gb = pos 1;
  architecture = "";
  os = "";
  disk_gb = pos 0;
  gpu = false;
  image = "";
  labels = [];
  docker_required = false;
  node_version = "";
  security_profile = "";
  metadata = ("team", "a") ∷ [];
  expires_at = pos 5;
}

abbrev fake : Fake
fake = record {
  capacity = pos 1;
  ready_after = pos 0;
  failures = record {
    provision = pos 0;
    wait_ready = pos 0;
    status = pos 0;
    terminate = pos 0;
    error = none;
  };
  instances = [];
  sequence = 0;
}

abbrev named : ℕ → String
named n = "fake-runner-1"

abbrev instance_1 : RunnerInstance
instance_1 = provisioned named (pos 1) spec_1 1

abbrev fake_1 : Fake
fake_1 = record fake { instances = ("fake-runner-1", instance_1) ∷ []; sequence = 1 }

provision_1 : provision named (pos 1) live spec_1 fake ≡ (fake_1, ok instance_1)
unfolding provision failure_locked put incr_u64
provision_1 = refl

provision_loses_metadata_example : get "fake-runner-1" fake_1.instances ≡ some instance_1
provision_loses_metadata_example =
    (provision_loses_metadata named (pos 1) live spec_1 fake fake_1 instance_1 provision_1).0

fake_1-IsBounded : IsBounded fake_1
fake_1-IsBounded h = omega arith

capacity_is_kept_example : IsBounded (provision named (pos 2) live spec_1 fake_1).0
capacity_is_kept_example =
    (capacity_is_kept named (pos 2) live spec_1 instance_1 fake_1 fake_1-IsBounded).0

abbrev calm : Surroundings
calm = record { clock = λ n. pos 9; contexts = λ n. live }

abbrev system : System fake_provider
system = record { repository = store; state = fake_1; step = 0 }

system-IsConfirmed : IsConfirmed fake_provider fake_confirms calm system
unfolding get
system-IsConfirmed k v there h = absurd (ground (arith, eq_iff "fake-runner-1" k))

passes_record_truth_example :
    IsConfirmed fake_provider fake_confirms calm (reconcile fake_provider calm 0 (pos 9) system).0
    × IsConfirmed fake_provider fake_confirms calm (reap fake_provider calm 0 (pos 9) system).0
    × IsConfirmed fake_provider fake_confirms calm
        (terminate_runner fake_provider calm runner_1 system).0
passes_record_truth_example =
    passes_record_truth fake_provider fake_confirms calm 0 (pos 9) runner_1 system
      system-IsConfirmed
