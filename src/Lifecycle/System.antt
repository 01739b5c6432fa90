-- ===== src/Lifecycle/System.antt =====
-- What a pass of controller/internal/lifecycle/reconciler.go works on: the repository, the
-- provider, and a clock and contexts that each operation reads anew. `operationContext` gives
-- every operation a deadline of its own, so that any of them may find its context done.
use leo_runners.Base.{ℕ, suc, [], Option, Result, Context, false}
use leo_runners.Base.Int.{pos}
use leo_runners.Base.Time.{Time, zero_time}
use leo_runners.State.Types
use leo_runners.State.Types.{Runner, Job, Lease}
use leo_runners.State.Memory.{MemoryRepository, save_runner, save_job, save_lease}
use leo_runners.Lifecycle.Provider.{Provider, ProviderError, RunnerInstance, RunnerStatus, unknown}

-- The clock's reading and the context of each operation, by the operation's number.
pub record Surroundings : Type 0 where
  pub clock : ℕ → Time
  pub contexts : ℕ → Context

-- `providers.RunnerInstance{ID: ..., ProviderID: ..., Provider: ...}`
abbrev pub instance_of : Runner → RunnerInstance
instance_of v = record {
  id = v.id;
  provider_id = v.provider_instance_id;
  provider = v.provider;
  status = unknown;
  created_at = zero_time;
  expires_at = zero_time;
  spec = record {
    cpu = pos 0;
    memory_gb = pos 0;
    architecture = "";
    os = "";
    disk_gb = pos 0;
    gpu = false;
    image = "";
    labels = [];
    docker_required = false;
    node_version = "";
    security_profile = "";
    metadata = [];
    expires_at = zero_time;
  };
}

module _ (provider : Provider) where
  pub record System : Type 0 where
    pub repository : MemoryRepository
    pub state : provider.State
    pub step : ℕ

  module _ (around : Surroundings) where
    -- `Reconciler.saveRunner`
    unfoldable pub save_now : Runner → System → System × Result Types.Error Runner
    save_now v sys =
        let (r, saved) =
          save_runner (around.clock sys.step) (around.contexts sys.step) v v.revision
            sys.repository in
        (record { repository = r; state = sys.state; step = suc sys.step }, saved)

    -- `Reconciler.terminate`
    unfoldable pub terminate_now : Runner → System → System × Option ProviderError
    terminate_now v sys =
        let (s, answer) = provider.terminate sys.state (around.contexts sys.step) (instance_of v) in
        (record { repository = sys.repository; state = s; step = suc sys.step }, answer)

    -- `Reconciler.providerStatus`
    unfoldable pub status_now : Runner → System → System × Result ProviderError RunnerStatus
    status_now v sys =
        let (s, answer) = provider.status sys.state (around.contexts sys.step) (instance_of v) in
        (record { repository = sys.repository; state = s; step = suc sys.step }, answer)

    -- `Reconciler.saveJob` and `Reconciler.saveLease`
    unfoldable pub save_job_now : Job → System → System × Result Types.Error Job
    save_job_now v sys =
        let (r, saved) =
          save_job (around.clock sys.step) (around.contexts sys.step) v v.revision sys.repository in
        (record { repository = r; state = sys.state; step = suc sys.step }, saved)

    unfoldable pub save_lease_now : Lease → System → System × Result Types.Error Lease
    save_lease_now v sys =
        let (r, saved) =
          save_lease (around.clock sys.step) (around.contexts sys.step) v v.revision
            sys.repository in
        (record { repository = r; state = sys.state; step = suc sys.step }, saved)
