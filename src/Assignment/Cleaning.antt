-- ===== src/Assignment/Cleaning.antt =====
-- The ends of an assignment, and those that its cleanup reaches.
use leo_runners.Base.{◌≡◌, refl, false, String, Option, none, some, Result, ok, err, Context}
use leo_runners.Base.Int.{pos, add64}
use leo_runners.Base.Dict.{get}
use leo_runners.Base.Text.{is_empty}
use leo_runners.State.Types
use leo_runners.State.Types.{Runner, RunnerState}
use leo_runners.State.Memory.{MemoryRepository}
use leo_runners.Lifecycle.Provider.{ProviderError, RunnerInstance}
use leo_runners.Lifecycle.System.{Surroundings}
use leo_runners.Scheduler.Cloud.{Cloud, CloudLaws}
use leo_runners.Assignment.Registrar.{Registrar}
use leo_runners.Assignment.Request.{RegistrationRequest, RegistrationState, given_up, Cause}
use leo_runners.Assignment.Cleanup.{
  World, Work, Outcome, closed, close, removed, unregister, stopped, tear_down, marked, loaded,
  cleanup, with_repository, with_machines, with_github,
}

-- The runner of an assignment as the repository has it in the end: `stored` is `given` in state
-- ready, with a name, for the job and the machine, but for the times and for the revision, which is the next.
pub record Stands (job : String) (i : RunnerInstance) (given stored : Runner) (r : MemoryRepository)
    : Type 0 where
  pub there : get given.id r.runners ≡ some stored
  pub named : is_empty given.id ≡ false
  pub same_id : given.id ≡ i.id
  pub of_machine : stored.provider_instance_id ≡ i.provider_id
  pub of_job : stored.job_id ≡ job
  pub is_ready : stored.state ≡ RunnerState.ready
  pub next_revision : stored.revision ≡ add64 given.revision (pos 1)

module _ (cloud : Cloud) (laws : CloudLaws cloud) (registrar : Registrar)
    (around : Surroundings) where
  open laws use {Clean, Holds, terminate-Clean}

  -- An assignment has one machine, at a provider that it was to ask, whose runner stands in the
  -- repository and whose registration is ready; one that failed has none at any provider, unless
  -- its cleanup failed as well.
  abbrev pub Settled : (cloud.Handle → Type 0) → String → Outcome cloud registrar around → Type 0
  Settled from job (w, ok a) =
      (h : cloud.Handle) × (i : RunnerInstance) × (stored : Runner) × from h
      × Holds h i w.machines
      × Stands job i a.runner stored w.repository
      × (a.registration.state ≡ RegistrationState.ready)
  Settled from job (w, err (given_up cause (some e))) = Unit
  Settled from job (w, err e) = Clean w.machines

  module _ (from : cloud.Handle → Type 0) (job : String) (cause : Cause) where
    abbrev Ends : Outcome cloud registrar around → Type 0
    Ends = Settled from job

    closed-Settled :
        (saved : MemoryRepository × Result Types.Error Runner) (w : World cloud registrar around)
        → Clean w.machines
        → Ends (closed cloud registrar around saved cause w)
    unfolding closed
    closed-Settled (r, err e) w clean = tt
    closed-Settled (r, ok v) w clean = clean

    close-Settled :
        (o : Option Runner) (w : World cloud registrar around)
        → Clean w.machines
        → Ends (close cloud registrar around o cause w)
    unfolding close
    close-Settled none w clean = clean
    close-Settled (some v) w clean = closed-Settled _ w clean

    removed-Settled :
        (answer : registrar.State × Option String) (o : Option Runner)
        (w : World cloud registrar around)
        → Clean w.machines
        → Ends (removed cloud registrar around answer o cause w)
    unfolding removed
    removed-Settled (g, some e) o w clean = tt
    removed-Settled (g, none) o w clean =
        close-Settled o (with_github cloud registrar around w g) clean

    unregister-Settled :
        (remove : Option
          (registrar.State → Context → RegistrationRequest → registrar.State × Option String))
        (k : Work cloud registrar around) (o : Option Runner) (w : World cloud registrar around)
        → Clean w.machines
        → Ends (unregister cloud registrar around remove k o cause w)
    unfolding unregister
    unregister-Settled none k o w clean = close-Settled o w clean
    unregister-Settled (some remove) k o w clean = removed-Settled _ o w clean

    stopped-Settled :
        (answer : cloud.State × Option ProviderError) (k : Work cloud registrar around)
        (o : Option Runner) (w : World cloud registrar around)
        → (answer.1 ≡ none → Clean answer.0)
        → Ends (stopped cloud registrar around answer k o cause w)
    unfolding stopped
    stopped-Settled (t, some e) k o w clean = tt
    stopped-Settled (t, none) k o w clean =
        unregister-Settled registrar.remove_runner k o (with_machines cloud registrar around w t)
          (clean refl)

    tear_down-Settled :
        (k : Work cloud registrar around) (o : Option Runner) (w : World cloud registrar around)
        → Holds k.provider k.machine w.machines
        → Ends (tear_down cloud registrar around k o cause w)
    unfolding tear_down
    tear_down-Settled k o w held =
        stopped-Settled _ k o w (terminate-Clean k.provider w.machines _ k.machine held)

    marked-Settled :
        (saved : MemoryRepository × Result Types.Error Runner) (k : Work cloud registrar around)
        (w : World cloud registrar around)
        → Holds k.provider k.machine w.machines
        → Ends (marked cloud registrar around saved k cause w)
    unfolding marked
    marked-Settled (r, err e) k w held = tt
    marked-Settled (r, ok v) k w held =
        tear_down-Settled k (some v) (with_repository cloud registrar around w r) held

    loaded-Settled :
        (found : Result Types.Error Runner) (k : Work cloud registrar around)
        (w : World cloud registrar around)
        → Holds k.provider k.machine w.machines
        → Ends (loaded cloud registrar around found k cause w)
    unfolding loaded
    loaded-Settled (err e) k w held = tt
    loaded-Settled (ok v) k w held = marked-Settled _ k w held

    -- A cleanup that succeeds leaves no machine.
    pub cleanup-Settled :
        (o : Option String) (k : Work cloud registrar around) (w : World cloud registrar around)
        → Holds k.provider k.machine w.machines
        → Ends (cleanup cloud registrar around o k cause w)
    unfolding cleanup
    cleanup-Settled none k w held = tear_down-Settled k none w held
    cleanup-Settled (some id) k w held =
        loaded-Settled _ k (with_repository cloud registrar around w w.repository) held
