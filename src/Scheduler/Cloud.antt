-- ===== src/Scheduler/Cloud.antt =====
-- The providers that the scheduler is configured with: `Provider` of
-- controller/internal/providers/provider.go, for every provider of the deployment.
use leo_runners.Base.{Option, Result, Context, ◌≡◌, none, ok, err}
use leo_runners.Lifecycle.Provider.{ProviderError, RunnerInstance, RunnerSpec}

pub record Cloud : Type 1 where
  -- A provider, and what all providers together keep.
  pub Handle : Type 0
  pub State : Type 0
  pub provision :
      Handle → State → Context → RunnerSpec → State × Result ProviderError RunnerInstance
  pub wait_ready : Handle → State → Context → RunnerInstance → State × Option ProviderError
  pub terminate : Handle → State → Context → RunnerInstance → State × Option ProviderError

-- What the providers promise of the machines that they keep for a caller, who asks one of them for
-- one machine, waits for it and terminates it. A provider that confirms a termination promises it
-- only of the machine that it keeps itself: of one that it does not know, it may confirm anything.
pub record CloudLaws (cloud : Cloud) : Type 1 where
  -- There is no machine at any provider, and none but one, which a provider keeps.
  pub Clean : cloud.State → Type 0
  pub Holds : cloud.Handle → RunnerInstance → cloud.State → Type 0
  pub provision-Clean :
      (h : cloud.Handle) (s : cloud.State) (ctx : Context) (spec : RunnerSpec) (e : ProviderError)
      → Clean s
      → (cloud.provision h s ctx spec).1 ≡ err e
      → Clean (cloud.provision h s ctx spec).0
  pub provision-Holds :
      (h : cloud.Handle) (s : cloud.State) (ctx : Context) (spec : RunnerSpec) (i : RunnerInstance)
      → Clean s
      → (cloud.provision h s ctx spec).1 ≡ ok i
      → Holds h i (cloud.provision h s ctx spec).0
  pub wait_ready-Holds :
      (h : cloud.Handle) (s : cloud.State) (ctx : Context) (i : RunnerInstance)
      → Holds h i s
      → Holds h i (cloud.wait_ready h s ctx i).0
  pub terminate-Clean :
      (h : cloud.Handle) (s : cloud.State) (ctx : Context) (i : RunnerInstance)
      → Holds h i s
      → (cloud.terminate h s ctx i).1 ≡ none
      → Clean (cloud.terminate h s ctx i).0
