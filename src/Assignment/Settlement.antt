-- ===== src/Assignment/Settlement.antt =====
-- What `Service.Assign` leaves: one machine with its record, or none.
use leo_runners.Base.{
  ◌≡◌, refl, subst, ◌⊎◌, String, Option, none, some, Bool, Bool-cases, inl, inr, Result, ok, err,
  Context,
}
use leo_runners.Base.Dict.{get, put}
use leo_runners.State.Types
use leo_runners.State.Types.{Runner, LifecycleEvent}
use leo_runners.State.Memory.{MemoryRepository, get_runner, create_runner}
use leo_runners.Lifecycle.Provider.{ProviderError, RunnerInstance}
use leo_runners.Lifecycle.System.{Surroundings}
use leo_runners.Scheduler.Cloud.{Cloud, CloudLaws}
use leo_runners.Assignment.Registrar.{Registrar}
use leo_runners.Assignment.Request.{
  AssignmentRequest, JitConfig, AssignError, given_up, not_configured, invalid_request,
  fork_not_allowed, in_progress, invalid_jit_config, jit_failed, not_provisioned, not_persisted,
  not_ready,
}
use leo_runners.Assignment.Cleanup.{
  World, Work, Outcome, now, context_of, with_repository, with_machines, with_github,
}
use leo_runners.Assignment.Bootstrap.{Settings, admitted, bad_config, chosen_provider, request_of}
use leo_runners.Assignment.Service.{
  created, awaited, provisioned, generated, end_assignment, begin_assignment, accepted, assign_with,
  assign, runner_of,
}
use leo_runners.Base.{◌||◌}
use leo_runners.Base.Time.{is_zero}
use leo_runners.Base.Text.{is_empty}
use leo_runners.Assignment.Cleaning.{Settled, cleanup-Settled}
use leo_runners.Assignment.Records.{Current, created-Current}
use leo_runners.Assignment.Success.{reloaded-Settled}

module _ (cloud : Cloud) (laws : CloudLaws cloud) (registrar : Registrar)
    (around : Surroundings) where
  open laws use {Clean, Holds, provision-Clean, provision-Holds, wait_ready-Holds}

  module _ (from : cloud.Handle → Type 0) (job : String) where
    abbrev Ends : Outcome cloud registrar around → Type 0
    Ends = Settled cloud laws registrar around from job

    created-Settled :
        (answer : MemoryRepository × Result Types.Error (Unit {0}))
        (k : Work cloud registrar around) (w : World cloud registrar around)
        → from k.provider × Holds k.provider k.machine w.machines
        → ((ctx : Context) (v : Runner)
            → answer ≡ (answer.0, ok tt)
            → get_runner ctx k.machine.id answer.0 ≡ ok v
            → Current job k.machine v answer.0)
        → Ends (created cloud registrar around answer k w)
    unfolding created
    created-Settled (r, err e) k w held current =
        cleanup-Settled cloud laws registrar around from job (not_persisted e) none k
          (with_repository cloud registrar around w r) held.1
    created-Settled (r, ok u) k w held current =
        let w' = with_repository cloud registrar around w r in
        reloaded-Settled cloud laws registrar around from job
          (get_runner (context_of cloud registrar around w') k.machine.id r) k
          (with_repository cloud registrar around w' r) held (λ v found. current _ v refl found)

    awaited-Settled :
        (answer : cloud.State × Option ProviderError) (k : Work cloud registrar around)
        (w : World cloud registrar around)
        → k.request.job.id ≡ job
        → from k.provider × Holds k.provider k.machine answer.0
        → Ends (awaited cloud registrar around answer k w)
    unfolding awaited
    awaited-Settled (t, some e) k w same held =
        cleanup-Settled cloud laws registrar around from job (not_ready e) none k
          (with_machines cloud registrar around w t) held.1
    awaited-Settled (t, none) k w same held =
        let w' = with_machines cloud registrar around w t in
        let v = runner_of cloud registrar around k in
        let answer =
          create_runner (now cloud registrar around w') (context_of cloud registrar around w') v
            w'.repository in
        created-Settled answer k w' held (λ ctx u h found.
          subst (λ j. Current j k.machine u answer.0) same
            (created-Current _ _ ctx v u k.machine w'.repository answer.0 refl refl h found))

    provisioned-Settled :
        (answer : cloud.State × Result ProviderError RunnerInstance) (h : cloud.Handle)
        (q : AssignmentRequest cloud.Handle) (jit : JitConfig) (w : World cloud registrar around)
        → from h
        → q.job.id ≡ job
        → ((e : ProviderError) → answer.1 ≡ err e → Clean answer.0)
        → ((i : RunnerInstance) → answer.1 ≡ ok i → Holds h i answer.0)
        → Ends (provisioned cloud registrar around answer h q jit w)
    unfolding provisioned
    provisioned-Settled (t, err e) h q jit w asked same clean held = clean e refl
    provisioned-Settled (t, ok i) h q jit w asked same clean held =
        let w' = with_machines cloud registrar around w t in
        awaited-Settled _ (record { provider = h; request = q; jit = jit; machine = i }) w' same
          (asked, wait_ready-Holds h t _ i (held i refl))

    generated-Settled :
        (answer : registrar.State × Result String JitConfig) (h : cloud.Handle)
        (q : AssignmentRequest cloud.Handle) (w : World cloud registrar around)
        → from h
        → q.job.id ≡ job
        → Clean w.machines
        → Ends (generated cloud registrar around answer h q w)
    unfolding generated
    generated-Settled (t, err e) h q w asked same clean = clean
    generated-Settled (t, ok jit) h q w asked same clean = elim (Bool-cases (bad_config jit)) [
      | inl bad ↦ rw (generated, bad) clean
      | inr good ↦
          rw (generated, good)
            (provisioned-Settled _ h q jit (with_github cloud registrar around w t) asked same
              (λ e refused. provision-Clean h w.machines _ _ e clean refused)
              (λ i granted. provision-Holds h w.machines _ _ i clean granted))
    ]

    end_assignment-Settled :
        (id : String) (o : Outcome cloud registrar around)
        → Ends o
        → Ends (end_assignment cloud registrar around id o)
    unfolding end_assignment
    end_assignment-Settled id (w, ok a) settled = settled
    end_assignment-Settled id (w, err (given_up cause none)) settled = settled
    end_assignment-Settled id (w, err (given_up cause (some e))) settled = settled
    end_assignment-Settled id (w, err not_configured) settled = settled
    end_assignment-Settled id (w, err invalid_request) settled = settled
    end_assignment-Settled id (w, err fork_not_allowed) settled = settled
    end_assignment-Settled id (w, err in_progress) settled = settled
    end_assignment-Settled id (w, err invalid_jit_config) settled = settled
    end_assignment-Settled id (w, err (jit_failed e)) settled = settled
    end_assignment-Settled id (w, err (not_provisioned e)) settled = settled

    clean-Settled :
        (e : AssignError) (w : World cloud registrar around) → Clean w.machines → Ends (w, err e)
    clean-Settled (given_up cause none) w clean = clean
    clean-Settled (given_up cause (some e)) w clean = tt
    clean-Settled not_configured w clean = clean
    clean-Settled invalid_request w clean = clean
    clean-Settled fork_not_allowed w clean = clean
    clean-Settled in_progress w clean = clean
    clean-Settled invalid_jit_config w clean = clean
    clean-Settled (jit_failed e) w clean = clean
    clean-Settled (not_provisioned e) w clean = clean

    begin_assignment-Settled :
        (taken : Option (Unit {0})) (c : Settings cloud.Handle) (h : cloud.Handle)
        (q : AssignmentRequest cloud.Handle) (w : World cloud registrar around)
        → from h
        → q.job.id ≡ job
        → Clean w.machines
        → Ends (begin_assignment cloud registrar around taken c h q w)
    unfolding begin_assignment
    begin_assignment-Settled (some u) c h q w asked same clean = clean
    begin_assignment-Settled none c h q w asked same clean =
        let w' = record w { inflight = put q.job.id tt w.inflight } in
        let answer =
          registrar.generate w'.github (context_of cloud registrar around w') (request_of c q) in
        end_assignment-Settled q.job.id (generated cloud registrar around answer h q w')
          (generated-Settled answer h q w' asked same clean)

    accepted-Settled :
        (refusal : Option AssignError) (c : Settings cloud.Handle) (h : cloud.Handle)
        (q : AssignmentRequest cloud.Handle) (w : World cloud registrar around)
        → from h
        → q.job.id ≡ job
        → Clean w.machines
        → Ends (accepted cloud registrar around refusal c h q w)
    unfolding accepted
    accepted-Settled (some e) c h q w asked same clean = clean-Settled e w clean
    accepted-Settled none c h q w asked same clean =
        begin_assignment-Settled (get q.job.id w.inflight) c h q w asked same clean

    assign_with-Settled :
        (o : Option cloud.Handle) (equal_fold : String → String → Bool) (c : Settings cloud.Handle)
        (q : AssignmentRequest cloud.Handle) (w : World cloud registrar around)
        → ((h : cloud.Handle) → o ≡ some h → from h)
        → q.job.id ≡ job
        → Clean w.machines
        → Ends (assign_with cloud registrar around o equal_fold c q w)
    unfolding assign_with
    assign_with-Settled none equal_fold c q w asked same clean = clean
    assign_with-Settled (some h) equal_fold c q w asked same clean =
        elim (Bool-cases
          (is_empty q.job.id || is_empty q.job.repository || is_zero q.spec.expires_at)) [
            | inl bad ↦ rw (assign_with, bad) clean
            | inr good ↦
                rw (assign_with, good)
                  (accepted-Settled (admitted equal_fold c q) c h q w (asked h refl) same clean)
          ]

  -- The provider that a request asks for: its own, or the service's if it names none.
  abbrev pub Asked : Settings cloud.Handle → AssignmentRequest cloud.Handle → cloud.Handle → Type 0
  Asked c q h = (q.provider ≡ some h) ⊎ ((q.provider ≡ none) × (c.provider ≡ some h))

  chosen-Asked :
      (o o' : Option cloud.Handle) (h : cloud.Handle)
      → chosen_provider o o' ≡ some h
      → (o ≡ some h) ⊎ ((o ≡ none) × (o' ≡ some h))
  chosen-Asked none o' h chosen = inr (refl, chosen)
  chosen-Asked (some g) o' h chosen = inl chosen

  -- Every assignment is settled. With providers that keep their promises and no machine at any of
  -- them when it starts: an assignment that succeeds ends with one machine, at the request's
  -- provider or, if the request names none, at the service's, whose runner is in the repository in
  -- state ready, for the job and the machine, with the revision after the returned runner's, and
  -- with a registration that is ready; one that fails ends with no machine at any provider, unless
  -- its cleanup failed too, which the error then says.
  pub assign-Settled :
      (equal_fold : String → String → Bool) (c : Settings cloud.Handle)
      (q : AssignmentRequest cloud.Handle) (w : World cloud registrar around)
      → Clean w.machines
      → Settled cloud laws registrar around
          (Asked c q)
          q.job.id
          (assign cloud registrar around equal_fold c q w)
  unfolding assign
  assign-Settled equal_fold c q w clean =
      assign_with-Settled (Asked c q) q.job.id (chosen_provider q.provider c.provider) equal_fold c
        q w (λ h chosen. chosen-Asked q.provider c.provider h chosen) refl clean
