-- ===== src/Assignment/Cleanup.antt =====
-- What an assignment of controller/internal/runners/runners.go works on, and its cleanup. Every
-- operation reads the clock and finds its context anew, as `Surroundings` has it by number.
use leo_runners.Base.{ℕ, suc, String, Option, none, some, Result, ok, err, Context}
use leo_runners.Base.Time.{Time}
use leo_runners.Base.Dict.{Dict}
use leo_runners.State.Types
use leo_runners.State.Types.{Runner, terminating, terminated}
use leo_runners.State.Memory.{MemoryRepository, get_runner, save_runner}
use leo_runners.Lifecycle.Provider.{ProviderError, RunnerInstance}
use leo_runners.Lifecycle.System.{Surroundings}
use leo_runners.Scheduler.Cloud.{Cloud}
use leo_runners.Assignment.Registrar.{Registrar}
use leo_runners.Assignment.Request.{
  AssignmentRequest, Assignment, JitConfig, RegistrationRequest, AssignError, given_up, Cause,
  CleanupError, not_loaded, not_marked, not_closed, not_terminated, not_removed,
}

module _ (cloud : Cloud) (registrar : Registrar) (around : Surroundings) where
  open cloud use {Handle, terminate}

  pub record World : Type 0 where
    pub repository : MemoryRepository
    pub machines : cloud.State
    pub github : registrar.State
    pub inflight : Dict (Unit {0})
    -- How many operations there were.
    pub step : ℕ

  abbrev pub now : World → Time
  now w = around.clock w.step

  abbrev pub context_of : World → Context
  context_of w = around.contexts w.step

  abbrev pub with_repository : World → MemoryRepository → World
  with_repository w r = record w { repository = r; step = suc w.step }

  abbrev pub with_machines : World → cloud.State → World
  with_machines w t = record w { machines = t; step = suc w.step }

  abbrev pub with_github : World → registrar.State → World
  with_github w g = record w { github = g; step = suc w.step }

  -- An assignment whose machine has been provisioned.
  pub record Work : Type 0 where
    pub provider : Handle
    pub request : AssignmentRequest Handle
    pub jit : JitConfig
    pub machine : RunnerInstance

  abbrev pub registration_request : Work → RegistrationRequest
  registration_request k = record {
    repository = k.request.job.repository;
    runner_id = k.jit.runner_id;
    runner_name = k.jit.runner_name;
  }

  abbrev pub Outcome : Type 0
  Outcome = World × Result AssignError Assignment

  abbrev pub fails : World → Cause → Option CleanupError → Outcome
  fails w cause e = (w, err (given_up cause e))

  unfoldable pub closed : MemoryRepository × Result Types.Error Runner → Cause → World → Outcome
  closed (r, err e) cause w = fails (with_repository w r) cause (some (not_closed e))
  closed (r, ok v) cause w = fails (with_repository w r) cause none

  unfoldable pub close : Option Runner → Cause → World → Outcome
  unfolding closed
  close none cause w = fails w cause none
  close (some v) cause w =
      closed
        (save_runner (now w) (context_of w) (record v { state = terminated }) v.revision
          w.repository)
        cause w

  unfoldable pub removed : registrar.State × Option String → Option Runner → Cause → World → Outcome
  unfolding close
  removed (g, some e) v cause w = fails (with_github w g) cause (some (not_removed e))
  removed (g, none) v cause w = close v cause (with_github w g)

  unfoldable pub unregister :
      Option (registrar.State → Context → RegistrationRequest → registrar.State × Option String)
      → Work
      → Option Runner
      → Cause
      → World
      → Outcome
  unfolding removed close
  unregister none k v cause w = close v cause w
  unregister (some remove) k v cause w =
      removed (remove w.github (context_of w) (registration_request k)) v cause w

  unfoldable pub stopped :
      cloud.State × Option ProviderError → Work → Option Runner → Cause → World → Outcome
  unfolding unregister
  stopped (t, some e) k v cause w = fails (with_machines w t) cause (some (not_terminated e))
  stopped (t, none) k v cause w = unregister registrar.remove_runner k v cause (with_machines w t)

  unfoldable pub tear_down : Work → Option Runner → Cause → World → Outcome
  unfolding stopped
  tear_down k v cause w =
      stopped (terminate k.provider w.machines (context_of w) k.machine) k v cause w

  unfoldable pub marked :
      MemoryRepository × Result Types.Error Runner → Work → Cause → World → Outcome
  unfolding tear_down
  marked (r, err e) k cause w = fails (with_repository w r) cause (some (not_marked e))
  marked (r, ok v) k cause w = tear_down k (some v) cause (with_repository w r)

  unfoldable pub loaded : Result Types.Error Runner → Work → Cause → World → Outcome
  unfolding marked
  loaded (err e) k cause w = fails w cause (some (not_loaded e))
  loaded (ok v) k cause w =
      marked
        (save_runner (now w) (context_of w) (record v { state = terminating }) v.revision
          w.repository)
        k cause w

  -- The closure `cleanup`: with the identifier of the runner that has been recorded, if one has.
  unfoldable pub cleanup : Option String → Work → Cause → World → Outcome
  unfolding tear_down loaded
  cleanup none k cause w = tear_down k none cause w
  cleanup (some id) k cause w =
      loaded (get_runner (context_of w) id w.repository) k cause (with_repository w w.repository)
