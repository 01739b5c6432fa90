-- ===== src/State/Types.antt =====
-- controller/internal/state/types.go and the errors of repository.go. A state that is none of the
-- declared constants has no counterpart here.
use leo_runners.Base.{String, List, ContextError, Bool, ℕ, ◌==◌}
use leo_runners.Base.Int.{ℤ}
use leo_runners.Base.Time.{Time}
use leo_runners.Base.Dict.{Dict}

pub data JobState : Type 0 where
  queued provisioning assigned running completed cancelled failed : JobState

pub data RunnerState : Type 0 where
  provisioning ready busy terminating terminated failed unknown : RunnerState

pub data LeaseState : Type 0 where
  pending active completed cancelled failed terminating terminated : LeaseState

pub record Job : Type 0 where
  pub id : String
  pub repository : String
  pub workflow : String
  pub run_id : ℤ
  pub job_id : ℤ
  pub attempt : ℤ
  pub labels : List String
  pub state : JobState
  pub controller_owner : String
  pub created_at : Time
  pub updated_at : Time
  pub expires_at : Time
  pub revision : ℤ

pub record Runner : Type 0 where
  pub id : String
  pub job_id : String
  pub lease_id : String
  pub provider : String
  pub provider_instance_id : String
  pub capacity_pool_id : String
  pub cpu : ℤ
  pub memory_gb : ℤ
  pub gpu : ℤ
  pub region : String
  pub labels : List String
  pub state : RunnerState
  pub controller_owner : String
  pub created_at : Time
  pub updated_at : Time
  pub expires_at : Time
  pub revision : ℤ

pub record Lease : Type 0 where
  pub id : String
  pub job_id : String
  pub runner_id : String
  pub state : LeaseState
  pub controller_owner : String
  pub created_at : Time
  pub updated_at : Time
  pub expires_at : Time
  pub revision : ℤ

-- `data` is a reserved word: the field Data is `payload`. A nil map is an empty one.
pub record LifecycleEvent : Type 0 where
  pub id : String
  pub idempotency_key : String
  pub kind : String
  pub job_id : String
  pub lease_id : String
  pub runner_id : String
  pub provider : String
  pub occurred_at : Time
  pub payload : Dict String

pub data Error : Type 0 where
  not_found already_exists revision_conflict invalid_record event_conflict : Error
  context : ContextError → Error

-- Numbers that tell the states apart: `==` on the Go strings is `==` on these.
abbrev pub job_code : JobState → ℕ
job_code queued = 0
job_code provisioning = 1
job_code assigned = 2
job_code running = 3
job_code completed = 4
job_code cancelled = 5
job_code failed = 6

abbrev pub runner_code : RunnerState → ℕ
runner_code provisioning = 0
runner_code ready = 1
runner_code busy = 2
runner_code terminating = 3
runner_code terminated = 4
runner_code failed = 5
runner_code unknown = 6

abbrev pub lease_code : LeaseState → ℕ
lease_code pending = 0
lease_code active = 1
lease_code completed = 2
lease_code cancelled = 3
lease_code failed = 4
lease_code terminating = 5
lease_code terminated = 6

abbrev pub job_is : JobState → JobState → Bool
job_is a b = job_code a == job_code b

abbrev pub runner_is : RunnerState → RunnerState → Bool
runner_is a b = runner_code a == runner_code b

abbrev pub lease_is : LeaseState → LeaseState → Bool
lease_is a b = lease_code a == lease_code b
