-- ===== src/Lifecycle/Syncs.antt =====
-- The first half of a pass of the reconciler, over runners and leases, records a runner as terminated
-- only when its provider has confirmed, or reported, that it is gone.
use leo_runners.Base.{◌≡◌, String, [], ◌∷◌, Bool-cases, inl, inr, true, Result, ok, err, arith}
use leo_runners.Base.Time.{Time}
use leo_runners.Base.Dict.{Dict}
use leo_runners.State.Types
use leo_runners.State.Types.{
  Job, Runner, Lease, JobState, RunnerState, LeaseState, job_is, runner_is, lease_is,
}
use leo_runners.State.Memory.{save_lease}
use leo_runners.Lifecycle.Provider.{
  Provider, ProviderError, RunnerStatus, instance_not_found, Confirms, SaysGone,
}
use leo_runners.Lifecycle.System.{
  Surroundings, System, instance_of, save_now, save_lease_now, status_now,
}
use leo_runners.Lifecycle.Reaper.{in_state}
use leo_runners.Lifecycle.Repair.{runner_state}
use leo_runners.Lifecycle.Confirmation.{IsConfirmed, save_now-IsConfirmed}
use leo_runners.Lifecycle.Reconciler.{
  View, synced, sync_to, sync_status, sync_runner, sync_runners, lease_saved, lease_to,
  repair_leases,
}

module _ (backend : Provider) (confirms : Confirms backend) (around : Surroundings) where
  open confirms use {Gone, status-Gone, keeps_over_status}

  abbrev pub Truthful : System backend → Type 0
  Truthful = IsConfirmed backend confirms around

  abbrev pub Shows : View backend around → Type 0
  Shows w = Truthful w.system

  synced-Truthful :
      (saved : System backend × Result Types.Error Runner) (id : String) (w : View backend around)
      → Truthful saved.0
      → Shows (synced backend around saved id w)
  unfolding synced
  synced-Truthful (sys, err e) id w t = t
  synced-Truthful (sys, ok updated) id w t = t

  sync_to-Truthful :
      (target : RunnerState) (id : String) (v : Runner) (w : View backend around)
      → Shows w
      → (runner_is target RunnerState.terminated ≡ true → Gone w.system.state (instance_of v))
      → Shows (sync_to backend around target id v w)
  unfolding sync_to
  sync_to-Truthful target id v w t gone = elim (Bool-cases (runner_is target v.state)) [
    | inl same ↦ rw same t
    | inr other ↦ rw other (
        synced-Truthful (save_now backend around (in_state v target) w.system) id w
          (save_now-IsConfirmed backend confirms around (in_state v target) w.system t gone))
  ]

  -- What an answer of the provider tells of a runner.
  abbrev Told : Runner → System backend × Result ProviderError RunnerStatus → Type 0
  Told v answer = Truthful answer.0 × (SaysGone answer.1 → Gone answer.0.state (instance_of v))

  status_now-Told :
      (v : Runner) (sys : System backend) → Truthful sys → Told v (status_now backend around v sys)
  unfolding status_now
  status_now-Told v sys t = (
    λ k x there ended.
        keeps_over_status sys.state (around.contexts sys.step) (instance_of v) (instance_of x)
          (t k x there ended),
    λ says. status-Gone sys.state (around.contexts sys.step) (instance_of v) says,
  )

  says_gone :
      (status : RunnerStatus)
      → runner_is (runner_state status) RunnerState.terminated ≡ true
      → SaysGone (ok status)
  says_gone RunnerStatus.terminated h = tt
  says_gone RunnerStatus.unknown h = ground arith
  says_gone RunnerStatus.provisioning h = ground arith
  says_gone RunnerStatus.ready h = ground arith
  says_gone RunnerStatus.busy h = ground arith
  says_gone RunnerStatus.terminating h = ground arith
  says_gone RunnerStatus.failed h = ground arith

  sync_status-Truthful :
      (answer : System backend × Result ProviderError RunnerStatus) (id : String) (v : Runner)
      (w : View backend around)
      → Told v answer
      → Shows (sync_status backend around answer id v w)
  unfolding sync_status
  sync_status-Truthful (sys, ok status) id v w told =
      sync_to-Truthful (runner_state status) id v (record w { system = sys }) told.0
        (λ h. told.1 (says_gone status h))
  sync_status-Truthful (sys, err instance_not_found) id v w told =
      sync_to-Truthful RunnerState.terminated id v (record w { system = sys }) told.0
        (λ h. told.1 tt)
  sync_status-Truthful (sys, err e) id v w told = told.0

  pub sync_runners-Truthful :
      (runners : Dict Runner) (w : View backend around)
      → Shows w
      → Shows (sync_runners backend around runners w)
  unfolding sync_runners sync_runner
  sync_runners-Truthful [] w t = t
  sync_runners-Truthful ((id, v) ∷ rest) w t =
      sync_runners-Truthful rest (sync_runner backend around id v w)
        (elim (Bool-cases (runner_is v.state RunnerState.terminated)) [
          | inl ended ↦ rw (sync_runner, ended) t
          | inr other ↦
              rw (sync_runner, other)
                (sync_status-Truthful (status_now backend around v w.system) id v w
                  (status_now-Told v w.system t))
        ])

  lease_saved-Truthful :
      (saved : System backend × Result Types.Error Lease) (id : String) (w : View backend around)
      → Truthful saved.0
      → Shows (lease_saved backend around saved id w)
  unfolding lease_saved
  lease_saved-Truthful (sys, err e) id w t = t
  lease_saved-Truthful (sys, ok updated) id w t = t

  lease_to-Truthful :
      (target : LeaseState) (id : String) (v : Lease) (w : View backend around)
      → Shows w
      → Shows (lease_to backend around target id v w)
  unfolding lease_to save_lease_now save_lease
  lease_to-Truthful target id v w t = elim (Bool-cases (lease_is target v.state)) [
    | inl same ↦ rw (lease_to, same) t
    | inr other ↦
        rw (lease_to, other)
          (lease_saved-Truthful
            (save_lease_now backend around (record v { state = target }) w.system) id w t)
  ]

  pub repair_leases-Truthful :
      (now : Time) (leases : Dict Lease) (w : View backend around)
      → Shows w
      → Shows (repair_leases backend around now leases w)
  unfolding repair_leases
  repair_leases-Truthful now [] w t = t
  repair_leases-Truthful now ((id, v) ∷ rest) w t =
      repair_leases-Truthful now rest _ (lease_to-Truthful _ id v w t)
