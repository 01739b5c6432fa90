-- ===== src/Assignment/Success.antt =====
-- The steps of an assignment after its runner has been recorded.
use leo_runners.Base.{
  ◌≡◌, refl, ap, ◌∙◌, String, Option, none, some, Bool-cases, inl, inr, Result, ok, err,
}
use leo_runners.Base.Dict.{get}
use leo_runners.State.Types
use leo_runners.State.Types.{Runner, LifecycleEvent}
use leo_runners.State.Memory.{MemoryRepository, save_runner}
use leo_runners.Lifecycle.Provider.{RunnerInstance}
use leo_runners.Lifecycle.System.{Surroundings}
use leo_runners.Scheduler.Cloud.{Cloud, CloudLaws}
use leo_runners.Assignment.Registrar.{Registrar}
use leo_runners.Assignment.Request.{
  Registration, RegistrationState, GithubRunner, not_pending, not_saved, not_recorded, not_reloaded,
  registration_failed,
}
use leo_runners.Assignment.Cleanup.{
  World, Work, Outcome, now, context_of, with_repository, with_github,
}
use leo_runners.Assignment.Bootstrap.{other_runner}
use leo_runners.Assignment.Service.{
  persist_registration, recorded, saved, unregistered, registered, noted, reloaded, pending_of,
  in_phase,
}
use leo_runners.Assignment.Cleaning.{Settled, Stands, cleanup-Settled}
use leo_runners.Assignment.Records.{Current, insert_lifecycle_event-runners, saved-Stands}

module _ (cloud : Cloud) (laws : CloudLaws cloud) (registrar : Registrar)
    (around : Surroundings) where
  open laws use {Clean, Holds, provision-Clean, provision-Holds, wait_ready-Holds}

  persist-runners :
      (g : Registration) (w : World cloud registrar around)
      → (persist_registration cloud registrar around g w).0.repository.runners
        ≡ w.repository.runners
  unfolding persist_registration
  persist-runners g w = insert_lifecycle_event-runners _ _ w.repository

  persist-machines :
      (g : Registration) (w : World cloud registrar around)
      → (persist_registration cloud registrar around g w).0.machines ≡ w.machines
  unfolding persist_registration
  persist-machines g w = refl

  module _ (from : cloud.Handle → Type 0) (job : String) where
    abbrev Ends : Outcome cloud registrar around → Type 0
    Ends = Settled cloud laws registrar around from job

    -- The provider that was asked keeps the machine.
    abbrev pub Keeps : Work cloud registrar around → cloud.State → Type 0
    Keeps k t = from k.provider × Holds k.provider k.machine t

    recorded-Settled :
        (answer : World cloud registrar around × Option Types.Error)
        (k : Work cloud registrar around) (v u : Runner) (g : Registration)
        → Keeps k answer.0.machines
        → Stands job k.machine v u answer.0.repository
        → g.state ≡ RegistrationState.ready
        → Ends (recorded cloud registrar around answer k v g)
    unfolding recorded
    recorded-Settled (w, some e) k v u g held stands is_ready =
        cleanup-Settled cloud laws registrar around from job (not_recorded e) (some v.id) k w held.1
    recorded-Settled (w, none) k v u g held stands is_ready =
        (k.provider, k.machine, u, held.0, held.1, stands, is_ready)

    Stands-runners :
        (i : RunnerInstance) (v u : Runner) (r r' : MemoryRepository)
        → r'.runners ≡ r.runners
        → Stands job i v u r
        → Stands job i v u r'
    Stands-runners i v u r r' same s = record {
      there = ap (get v.id) same ∙ s.there;
      named = s.named;
      same_id = s.same_id;
      of_machine = s.of_machine;
      of_job = s.of_job;
      is_ready = s.is_ready;
      next_revision = s.next_revision;
    }

    Current-runners :
        (i : RunnerInstance) (v : Runner) (r r' : MemoryRepository)
        → r'.runners ≡ r.runners
        → Current job i v r
        → Current job i v r'
    Current-runners i v r r' same s = record {
      there = ap (get v.id) same ∙ s.there;
      same_id = s.same_id;
      of_machine = s.of_machine;
      of_job = s.of_job;
    }

    saved-Settled :
        (answer : MemoryRepository × Result Types.Error Runner) (k : Work cloud registrar around)
        (v : Runner) (g : Registration) (w : World cloud registrar around)
        → Keeps k w.machines
        → ((u : Runner) → answer ≡ (answer.0, ok u) → Stands job k.machine v u answer.0)
        → Ends (saved cloud registrar around answer k v g w)
    unfolding saved persist_registration
    saved-Settled (r, err e) k v g w held stands =
        cleanup-Settled cloud laws registrar around from job (not_saved e) (some v.id) k
          (with_repository cloud registrar around w r) held.1
    saved-Settled (r, ok u) k v g w held stands =
        let w' = with_repository cloud registrar around w r in
        let g' = in_phase cloud registrar around g RegistrationState.ready in
        recorded-Settled (persist_registration cloud registrar around g' w') k v u g' held
          (Stands-runners k.machine v u r
            (persist_registration cloud registrar around g' w').0.repository (persist-runners g' w')
            (stands u refl))
          refl

    unregistered-Settled :
        (k : Work cloud registrar around) (v : Runner) (g : Registration)
        (w : World cloud registrar around)
        → Keeps k w.machines
        → Ends (unregistered cloud registrar around k v g w)
    unfolding unregistered persist_registration
    unregistered-Settled k v g w held =
        cleanup-Settled cloud laws registrar around from job registration_failed (some v.id) k
          (persist_registration cloud registrar around
            (in_phase cloud registrar around g RegistrationState.failed) w).0
          held.1

    registered-Settled :
        (answer : registrar.State × Result String GithubRunner) (k : Work cloud registrar around)
        (v : Runner) (g : Registration) (w : World cloud registrar around)
        → Keeps k w.machines
        → Current job k.machine v w.repository
        → Ends (registered cloud registrar around answer k v g w)
    unfolding registered
    registered-Settled (t, err e) k v g w held current =
        unregistered-Settled k v g (with_github cloud registrar around w t) held
    registered-Settled (t, ok who) k v g w held current =
        elim (Bool-cases (other_runner who k.jit)) [
          | inl other ↦
              rw (registered, other)
                (unregistered-Settled k v g (with_github cloud registrar around w t) held)
          | inr same ↦
              let w' = with_github cloud registrar around w t in
              let v' : Runner = record v { state = Types.RunnerState.ready } in
              let answer =
                save_runner (now cloud registrar around w') (context_of cloud registrar around w')
                  v' v.revision w'.repository in
              rw (registered, same)
                (saved-Settled answer k v' g w' held
                  (λ u h. saved-Stands job k.machine _ _ v u w'.repository answer.0 current h))
        ]

    noted-Settled :
        (answer : World cloud registrar around × Option Types.Error)
        (k : Work cloud registrar around) (v : Runner) (g : Registration)
        → Keeps k answer.0.machines
        → Current job k.machine v answer.0.repository
        → Ends (noted cloud registrar around answer k v g)
    unfolding noted
    noted-Settled (w, some e) k v g held current =
        cleanup-Settled cloud laws registrar around from job (not_pending e) (some v.id) k w held.1
    noted-Settled (w, none) k v g held current = registered-Settled _ k v g w held current

    pub reloaded-Settled :
        (answer : Result Types.Error Runner) (k : Work cloud registrar around)
        (w : World cloud registrar around)
        → Keeps k w.machines
        → ((v : Runner) → answer ≡ ok v → Current job k.machine v w.repository)
        → Ends (reloaded cloud registrar around answer k w)
    unfolding reloaded persist_registration
    reloaded-Settled (err e) k w held current =
        cleanup-Settled cloud laws registrar around from job (not_reloaded e) (some "") k w held.1
    reloaded-Settled (ok v) k w held current =
        let g = pending_of cloud registrar around k v in
        noted-Settled (persist_registration cloud registrar around g w) k v g held (
          Current-runners k.machine v w.repository
            (persist_registration cloud registrar around g w).0.repository (persist-runners g w)
            (current v refl))
