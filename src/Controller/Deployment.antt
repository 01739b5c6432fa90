-- ===== src/Controller/Deployment.antt =====
-- What `Service` of controller/internal/controller/controller.go works on, with its configuration.
-- The repository, the lifecycle manager, the scheduler and the providers are not nil.
use leo_runners.Base.{ℕ, suc, String, Option, none, some, Bool, Result, Context}
use leo_runners.Base.Time.{Time, Duration}
use leo_runners.Base.Dict.{Dict}
use leo_runners.State.Types
use leo_runners.State.Types.{Job, JobState}
use leo_runners.State.Memory.{MemoryRepository}
use leo_runners.Capacity.Pool.{Floats}
use leo_runners.Lifecycle.Provider.{ProviderError}
use leo_runners.Lifecycle.System.{Surroundings}
use leo_runners.Lifecycle.Transitions.{Moved, TransitionError, transition}
use leo_runners.Scheduler.Cloud.{Cloud}
use leo_runners.Scheduler.Scheduling
use leo_runners.Scheduler.Scheduling.{ScheduleError, Site, Moment}
use leo_runners.Assignment.Request.{AssignmentRequest, Assignment, AssignError}
use leo_runners.Github.Scope.{ScopePolicy, ScopeError}

-- `AssignmentService` of controller/internal/runners/runners.go: it works on the repository, the
-- machines, and what it keeps itself.
pub record AssignmentService (cloud : Cloud) : Type 1 where
  pub Own : Type 0
  pub assign :
      AssignmentRequest cloud.Handle
      → MemoryRepository × cloud.State × Own
      → (MemoryRepository × cloud.State × Own) × Result AssignError Assignment

pub data ControllerError : Type 0 where
  scope : ScopeError → ControllerError
  repository : Types.Error → ControllerError
  moving : TransitionError → ControllerError
  scheduling : ScheduleError → ControllerError
  assigning : AssignError → ControllerError
  provider : ProviderError → ControllerError
  no_provider : String → ControllerError

-- What stays the same while a controller runs: the arithmetic of scores, the providers, the runner
-- service, and the clock and the contexts that its operations find.
pub record Deployment : Type 1 where
  pub floats : Floats
  pub cloud : Cloud
  pub service : AssignmentService cloud
  pub around : Surroundings

module _ (d : Deployment) where
  open d use {floats, cloud, service, around}

  pub record Settings : Type 0 where
    pub scheduler : Scheduling.Settings floats cloud
    -- Whether the scheduler has a registry, and whether there is an assignment service.
    pub has_registry : Bool
    pub has_assignment : Bool
    pub provider : cloud.Handle
    pub providers : Option (Dict cloud.Handle)
    pub has_sink : Bool
    pub job_ttl : Duration
    pub runner_name_prefix : String
    pub scope_policy : Option ScopePolicy

  pub record World : Type 0 where
    pub site : Site floats cloud
    pub own : service.Own
    -- How many operations there were.
    pub step : ℕ

  -- What a call leaves, with its error.
  abbrev pub Done : Type 0
  Done = World × Option ControllerError

  abbrev pub now : World → Time
  now w = around.clock w.step

  abbrev pub context_of : World → Context
  context_of w = around.contexts w.step

  abbrev pub store : World → MemoryRepository
  store w = w.site.repository

  -- After an operation on the repository, and after one on the whole site.
  abbrev pub with_store : World → MemoryRepository → World
  with_store w r = record w { site = record w.site { repository = r }; step = suc w.step }

  abbrev pub with_site : World → Site floats cloud → World
  with_site w s = record w { site = s; step = suc w.step }

  -- `Lifecycle.Transition`
  unfoldable pub transition_now : Settings → Job → JobState → World → Moved
  transition_now c job to w =
      transition c.has_sink (now w, around.clock (suc w.step)) (context_of w) (some job) to
        (store w)

  unfoldable pub move_ended : Option TransitionError → World → Done
  move_ended none w = (w, none)
  move_ended (some e) w = (w, some (moving e))

  -- A transition whose error the handler returns.
  unfoldable pub move_job : Settings → Job → JobState → World → Done
  unfolding move_ended transition_now
  move_job c job to w =
      let m = transition_now c job to w in move_ended m.error (with_store w m.store)
