-- ===== src/Assignment/Request.antt =====
-- The requests and answers of controller/internal/runners/runners.go.
use leo_runners.Base.{String, List, Option, Bool}
use leo_runners.Base.Int.{ℤ}
use leo_runners.State.Types
use leo_runners.State.Types.{Job, Runner}
use leo_runners.Lifecycle.Provider.{ProviderError, RunnerSpec}

pub record JitRequest : Type 0 where
  pub repository : String
  pub name : String
  pub labels : List String
  pub runner_group_id : Option ℤ

pub record JitConfig : Type 0 where
  pub encoded_config : String
  pub runner_id : ℤ
  pub runner_name : String

pub record GithubRunner : Type 0 where
  pub id : ℤ
  pub name : String

pub record RegistrationRequest : Type 0 where
  pub repository : String
  pub runner_id : ℤ
  pub runner_name : String

pub data RegistrationState : Type 0 where
  pending ready failed cleaned : RegistrationState

abbrev pub state_text : RegistrationState → String
state_text pending = "pending"
state_text ready = "ready"
state_text failed = "failed"
state_text cleaned = "cleaned"

pub record Registration : Type 0 where
  pub runner_id : String
  pub job_id : String
  pub github_runner_id : ℤ
  pub github_runner_name : String
  pub state : RegistrationState

-- `AssignmentRequest`; `provider` is the one that the request brings, if it brings one.
pub record AssignmentRequest (Handle : Type 0) : Type 0 where
  pub job : Job
  pub spec : RunnerSpec
  pub provider : Option Handle
  pub capacity_pool_id : String
  pub is_fork : Bool

pub record Assignment : Type 0 where
  pub runner : Runner
  pub registration : Registration

-- Why an assignment was given up after its machine had been provisioned.
pub data Cause : Type 0 where
  not_ready : ProviderError → Cause
  not_persisted not_reloaded not_pending not_saved not_recorded : Types.Error → Cause
  registration_failed : Cause

-- Which step of the cleanup failed.
pub data CleanupError : Type 0 where
  not_loaded not_marked not_closed : Types.Error → CleanupError
  not_terminated : ProviderError → CleanupError
  not_removed : String → CleanupError

pub data AssignError : Type 0 where
  not_configured invalid_request fork_not_allowed in_progress invalid_jit_config : AssignError
  jit_failed : String → AssignError
  not_provisioned : ProviderError → AssignError
  given_up : Cause → Option CleanupError → AssignError
