-- ===== src/Assignment/Registrar.antt =====
-- What the assignment service asks of GitHub: `JITClient`, `RegistrationVerifier` and, where the
-- verifier has it, `RegistrationCleanup` of controller/internal/runners/runners.go.
use leo_runners.Base.{String, Option, Result, Context}
use leo_runners.Assignment.Request.{JitRequest, JitConfig, GithubRunner, RegistrationRequest}

pub record Registrar : Type 1 where
  pub State : Type 0
  pub generate : State → Context → JitRequest → State × Result String JitConfig
  pub wait_for_registration :
      State → Context → RegistrationRequest → State × Result String GithubRunner
  pub remove_runner : Option (State → Context → RegistrationRequest → State × Option String)
