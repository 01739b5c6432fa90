-- ===== src/Assignment/Leak.antt =====
-- Two ends of `Service.Assign` that its callers have to know.
use leo_runners.Base.{
  ◌≡◌, some_injective, refl, ap, subst, ◌∙◌, String, Option, none, some, Bool, false, Result, ok,
  err, Context, live, arith, suc,
}
use leo_runners.Base.Int.{pos, add64, eqb_ℤ, eqb_ℤ-add64-one}
use leo_runners.Base.Time.{Time}
use leo_runners.Base.Dict.{get}
use leo_runners.State.Types
use leo_runners.State.Types.{Runner, RunnerState, revision_conflict}
use leo_runners.State.Table
use leo_runners.State.Memory.{MemoryRepository, get_runner, save_runner, runner_entity}
use leo_runners.Lifecycle.System.{Surroundings}
use leo_runners.Scheduler.Cloud.{Cloud, CloudLaws}
use leo_runners.Assignment.Registrar.{Registrar}
use leo_runners.Assignment.Request.{
  AssignmentRequest, Assignment, given_up, not_reloaded, not_loaded,
}
use leo_runners.Assignment.Cleanup.{
  World, Work, Outcome, with_repository, context_of, cleanup, loaded,
}
use leo_runners.Assignment.Bootstrap.{Settings}
use leo_runners.Assignment.Service.{created, reloaded, assign}
use leo_runners.Assignment.Cleaning.{Stands, Settled}
use leo_runners.Assignment.Settlement.{Asked, assign-Settled}
use leo_runners.Lifecycle.Provider.{RunnerInstance}

module _ (cloud : Cloud) (registrar : Registrar) (around : Surroundings) where
  -- The end of an assignment that gave up before it terminated its machine: the machines and the
  -- repository are as they were, and the answer says that the runner was not found again.
  abbrev pub Abandoned : cloud.State → MemoryRepository → Outcome cloud registrar around → Type 0
  Abandoned t r (w, a) =
      (w.machines ≡ t)
      × (w.repository ≡ r)
      × (e : Types.Error) × (e' : Types.Error) × (a
          ≡ err (given_up (not_reloaded e) (some (not_loaded e'))))

  missing :
      (ctx : Context) (r : MemoryRepository)
      → get "" r.runners ≡ none
      → (e : Types.Error) × (get_runner ctx "" r ≡ err e)
  unfolding get_runner
  missing ctx r free = Table.read_missing runner_entity ctx "" r.runners free

  reloaded_lem :
      (answer : Result Types.Error Runner) (e : Types.Error) (k : Work cloud registrar around)
      (w : World cloud registrar around)
      → answer ≡ err e
      → get "" w.repository.runners ≡ none
      → Abandoned w.machines w.repository (reloaded cloud registrar around answer k w)
  unfolding reloaded cleanup loaded
  reloaded_lem (ok v) e k w failed free = absurd (ground arith)
  reloaded_lem (err x) e k w failed free =
      let (e', answer) = missing (context_of cloud registrar around w) w.repository free in
      rw (cleanup, answer) (refl, refl, x, e', refl)

  -- When `CreateRunner` has succeeded and the `GetRunner` after it fails, the assignment gives up
  -- and leaves its machine running and its runner in state provisioning: the cleanup looks for a
  -- runner with the empty identifier, which no repository has, and stops there.
  pub failed_reload_leaks_machine :
      (r : MemoryRepository) (k : Work cloud registrar around) (w : World cloud registrar around)
      (e : Types.Error)
      → get_runner (around.contexts (suc w.step)) k.machine.id r ≡ err e
      → get "" r.runners ≡ none
      → Abandoned w.machines r (created cloud registrar around (r, ok tt) k w)
  unfolding created
  failed_reload_leaks_machine r k w e failed free =
      let w' = with_repository cloud registrar around w r in
      reloaded_lem _ e k (with_repository cloud registrar around w' r) failed free

save_over_stale :
    (o : Option Runner) (now : Time) (v x : Runner) (t : Table.Table runner_entity)
    → o ≡ some x
    → x.revision ≡ add64 v.revision (pos 1)
    → Table.save_over runner_entity o now v v.revision t ≡ (t, err revision_conflict)
unfolding Table.save_over
save_over_stale none now v x t there next = absurd (ground arith)
save_over_stale (some y) now v x t there next =
    let newer : eqb_ℤ v.revision y.revision ≡ false =
      ap (λ z. eqb_ℤ v.revision z) (ap (λ z. z.revision) (some_injective there) ∙ next)
      ∙ eqb_ℤ-add64-one v.revision in
    rw newer refl

save_stale :
    (job : String) (i : RunnerInstance) (v x : Runner) (now : Time) (r : MemoryRepository)
    → Stands job i v x r
    → (state : RunnerState)
    → save_runner now live (record v { state = state }) v.revision r ≡ (r, err revision_conflict)
unfolding save_runner Table.save
save_stale job i v x now r s state =
    let v' : Runner = record v { state = state } in
    let refused = save_over_stale (get v.id r.runners) now v' x r.runners s.there s.next_revision in
    rw (s.named, refused) refl

module _ (cloud : Cloud) (registrar : Registrar) (around : Surroundings) where
  -- Promises that every cloud keeps.
  abbrev no_laws : CloudLaws cloud
  no_laws = record {
    Clean = λ s. Unit;
    Holds = λ h i s. Unit;
    provision-Clean = λ h s ctx spec e clean refused. tt;
    provision-Holds = λ h s ctx spec i clean granted. tt;
    wait_ready-Holds = λ h s ctx i held. tt;
    terminate-Clean = λ h s ctx i held confirmed. tt;
  }

  -- The runner that an assignment returns is not the runner as the repository has it: saved with
  -- its own revision, in whatever state and under a live context, it is refused with a revision
  -- conflict, and nothing changes.
  pub returned_runner_is_stale :
      (equal_fold : String → String → Bool) (c : Settings cloud.Handle)
      (q : AssignmentRequest cloud.Handle) (w w' : World cloud registrar around) (a : Assignment)
      (now : Time) (state : RunnerState)
      → assign cloud registrar around equal_fold c q w ≡ (w', ok a)
      → save_runner now live (record a.runner { state = state }) a.runner.revision w'.repository
        ≡ (w'.repository, err revision_conflict)
  returned_runner_is_stale equal_fold c q w w' a now state assigned =
      let settled = assign-Settled cloud no_laws registrar around equal_fold c q w tt in
      let (h, i, x, asked, held, stands, is_ready) =
        subst
          (Settled cloud no_laws registrar around (Asked cloud no_laws registrar around c q)
            q.job.id)
          assigned settled in
      save_stale q.job.id i a.runner x now w'.repository stands state
