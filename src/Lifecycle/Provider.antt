-- ===== src/Lifecycle/Provider.antt =====
-- controller/internal/providers/provider.go: the provider that the reaper calls. Of its four
-- methods these are the two that act on a runner that is there.
use leo_runners.Base.{String, List, Option, Result, ok, err, Context, ContextError, Bool, ◌≡◌, none}
use leo_runners.Base.Int.{ℤ}
use leo_runners.Base.Time.{Time}
use leo_runners.Base.Dict.{Dict}

pub data RunnerStatus : Type 0 where
  unknown provisioning ready busy terminating terminated failed : RunnerStatus

pub record RunnerSpec : Type 0 where
  pub cpu : ℤ
  pub memory_gb : ℤ
  pub architecture : String
  pub os : String
  pub disk_gb : ℤ
  pub gpu : Bool
  pub image : String
  pub labels : List String
  pub docker_required : Bool
  pub node_version : String
  pub security_profile : String
  pub metadata : Dict String
  pub expires_at : Time

pub record RunnerInstance : Type 0 where
  pub id : String
  pub provider_id : String
  pub provider : String
  pub status : RunnerStatus
  pub created_at : Time
  pub expires_at : Time
  pub spec : RunnerSpec

pub data ProviderError : Type 0 where
  capacity instance_not_found : ProviderError
  context : ContextError → ProviderError
  failure : String → ProviderError

pub record Provider : Type 1 where
  pub State : Type 0
  pub status : State → Context → RunnerInstance → State × Result ProviderError RunnerStatus
  pub terminate : State → Context → RunnerInstance → State × Option ProviderError

-- What a provider's answer to `Status` says of an instance that is no longer there.
abbrev pub SaysGone : Result ProviderError RunnerStatus → Type 0
SaysGone (ok terminated) = Unit
SaysGone (err instance_not_found) = Unit
SaysGone _ = ⊥

-- What a provider promises of a termination that it confirms, and of an instance that it reports
-- as terminated or does not know.
pub record Confirms (provider : Provider) : Type 1 where
  -- The instance is gone for good.
  pub Gone : provider.State → RunnerInstance → Type 0
  pub terminate-Gone :
      (s : provider.State) (ctx : Context) (i : RunnerInstance)
      → (provider.terminate s ctx i).1 ≡ none
      → Gone (provider.terminate s ctx i).0 i
  pub keeps-Gone :
      (s : provider.State) (ctx : Context) (i j : RunnerInstance)
      → Gone s j
      → Gone (provider.terminate s ctx i).0 j
  pub status-Gone :
      (s : provider.State) (ctx : Context) (i : RunnerInstance)
      → SaysGone (provider.status s ctx i).1
      → Gone (provider.status s ctx i).0 i
  pub keeps_over_status :
      (s : provider.State) (ctx : Context) (i j : RunnerInstance)
      → Gone s j
      → Gone (provider.status s ctx i).0 j
