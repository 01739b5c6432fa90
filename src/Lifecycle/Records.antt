-- ===== src/Lifecycle/Records.antt =====
-- A whole pass of the reconciler records a runner as terminated only when its provider has
-- confirmed, or reported, that it is gone.
use leo_runners.Base.{
  ℕ, String, List, [], ◌∷◌, Option, none, some, Bool-cases, inl, inr, Result, ok, err, Context,
  live, done,
}
use leo_runners.Base.Time.{Time}
use leo_runners.Base.Dict.{Dict, get}
use leo_runners.Base.Sort.{sort}
use leo_runners.State.Types
use leo_runners.State.Types.{
  Job, Runner, Lease, JobState, RunnerState, LeaseState, job_is, runner_is, lease_is,
}
use leo_runners.State.Memory.{save_job}
use leo_runners.Lifecycle.Provider.{Provider, Confirms}
use leo_runners.Lifecycle.System.{Surroundings, System, save_job_now}
use leo_runners.Lifecycle.Reaper.{Failure, terminate_runner, tick, reap}
use leo_runners.Lifecycle.Repair.{is_terminal_job, expiry_target, job_target}
use leo_runners.Lifecycle.Confirmation.{
  IsConfirmed, terminate_runner-IsConfirmed, reap_expired-IsConfirmed, reaper_records_truth,
}
use leo_runners.Lifecycle.Reconciler.{
  View, sync_runners, repair_leases, cleaned, clean_up, job_saved, job_to, settle_job, job_expired,
  repair_job, repair_jobs, is_orphan, clean_orphan, clean_orphans, reconcile_view, read_view,
  with_jobs, with_runners, with_leases, reconcile_in, reconcile, by_key, runner_to_clean,
  leased_runner,
}
use leo_runners.Lifecycle.Syncs.{sync_runners-Truthful, repair_leases-Truthful}

module _ (backend : Provider) (confirms : Confirms backend) (around : Surroundings) where
  open confirms use {Gone, status-Gone, keeps_over_status}

  abbrev Truthful : System backend → Type 0
  Truthful = IsConfirmed backend confirms around

  abbrev Shows : View backend around → Type 0
  Shows w = Truthful w.system

  cleaned-Truthful :
      (answer : System backend × Result Failure Runner) (id : String) (w : View backend around)
      → Truthful answer.0
      → Shows (cleaned backend around answer id w)
  unfolding cleaned
  cleaned-Truthful (sys, err e) id w t = t
  cleaned-Truthful (sys, ok v) id w t = t

  clean_up-Truthful :
      (o : Option Runner) (w : View backend around) → Shows w → Shows (clean_up backend around o w)
  unfolding clean_up
  clean_up-Truthful none w t = t
  clean_up-Truthful (some v) w t = elim (Bool-cases (runner_is v.state RunnerState.terminated)) [
    | inl ended ↦ rw ended t
    | inr other ↦ rw other (
        cleaned-Truthful (terminate_runner backend around v w.system) v.id w
          (terminate_runner-IsConfirmed backend confirms around v w.system t))
  ]

  job_saved-Truthful :
      (saved : System backend × Result Types.Error Job) (id : String) (w : View backend around)
      → Truthful saved.0
      → Shows (job_saved backend around saved id w)
  unfolding job_saved
  job_saved-Truthful (sys, err e) id w t = t
  job_saved-Truthful (sys, ok updated) id w t = t

  save_job_now-Truthful :
      (v : Job) (sys : System backend)
      → Truthful sys
      → Truthful (save_job_now backend around v sys).0
  unfolding save_job_now save_job
  save_job_now-Truthful v sys t = t

  job_to-Truthful :
      (target : JobState) (id : String) (v : Job) (w : View backend around)
      → Shows w
      → Shows (job_to backend around target id v w)
  unfolding job_to
  job_to-Truthful target id v w t = elim (Bool-cases (job_is target v.state)) [
    | inl same ↦ rw (job_to, same) t
    | inr other ↦
        rw (job_to, other)
          (job_saved-Truthful (save_job_now backend around (record v { state = target }) w.system)
            id w (save_job_now-Truthful (record v { state = target }) w.system t))
  ]

  settle_job-Truthful :
      (id : String) (v : Job) (w : View backend around)
      → Shows w
      → Shows (settle_job backend around id v w)
  unfolding settle_job
  settle_job-Truthful id v w t = elim (Bool-cases (is_terminal_job v.state)) [
    | inl final ↦
        rw (settle_job, final)
          (clean_up-Truthful (runner_to_clean backend around id (get id w.leases) w.runners) w t)
    | inr other ↦
        rw (settle_job, other)
          (job_to-Truthful
            (job_target (get id w.leases) (leased_runner backend around (get id w.leases) w.runners)
              v.state)
            id v w t)
  ]

  job_expired-Truthful :
      (saved : System backend × Result Types.Error Job) (id : String) (w : View backend around)
      → Truthful saved.0
      → Shows (job_expired backend around saved id w)
  unfolding job_expired
  job_expired-Truthful (sys, err e) id w t = t
  job_expired-Truthful (sys, ok updated) id w t = settle_job-Truthful id updated _ t

  repair_job-Truthful :
      (now : Time) (id : String) (v : Job) (w : View backend around)
      → Shows w
      → Shows (repair_job backend around now id v w)
  unfolding repair_job
  repair_job-Truthful now id v w t = elim (Bool-cases (job_is (expiry_target now v) v.state)) [
    | inl same ↦ rw (repair_job, same) (settle_job-Truthful id v w t)
    | inr other ↦
        rw (repair_job, other)
          (job_expired-Truthful
            (save_job_now backend around (record v { state = expiry_target now v }) w.system) id w
            (save_job_now-Truthful (record v { state = expiry_target now v }) w.system t))
  ]

  repair_jobs-Truthful :
      (now : Time) (jobs : Dict Job) (w : View backend around)
      → Shows w
      → Shows (repair_jobs backend around now jobs w)
  unfolding repair_jobs
  repair_jobs-Truthful now [] w t = t
  repair_jobs-Truthful now ((id, v) ∷ rest) w t =
      repair_jobs-Truthful now rest _ (repair_job-Truthful now id v w t)

  clean_orphan-Truthful :
      (id : String) (v : Runner) (w : View backend around)
      → Shows w
      → Shows (clean_orphan backend around id v w)
  unfolding clean_orphan
  clean_orphan-Truthful id v w t = elim (Bool-cases (is_orphan backend around v w.jobs)) [
    | inl orphan ↦
        rw (clean_orphan, orphan)
          (cleaned-Truthful (terminate_runner backend around v w.system) id w
            (terminate_runner-IsConfirmed backend confirms around v w.system t))
    | inr other ↦ rw (clean_orphan, other) t
  ]

  clean_orphans-Truthful :
      (runners : Dict Runner) (w : View backend around)
      → Shows w
      → Shows (clean_orphans backend around runners w)
  unfolding clean_orphans
  clean_orphans-Truthful [] w t = t
  clean_orphans-Truthful ((id, v) ∷ rest) w t =
      clean_orphans-Truthful rest _ (clean_orphan-Truthful id v w t)

  reconcile_view-Truthful :
      (now : Time) (w : View backend around)
      → Shows w
      → Truthful (reconcile_view backend around now w).0
  unfolding reconcile_view
  reconcile_view-Truthful now w t =
      let sorted = sort (by_key backend around) w.runners in
      let w1 = sync_runners backend around sorted w in
      let w2 = repair_leases backend around now w1.leases w1 in
      let w3 = repair_jobs backend around now w2.jobs w2 in
      let w4 = clean_orphans backend around w3.runners w3 in
      let t2 =
        repair_leases-Truthful backend confirms around now w1.leases w1
          (sync_runners-Truthful backend confirms around sorted w t) in
      let t4 = clean_orphans-Truthful w3.runners w3 (repair_jobs-Truthful now w2.jobs w2 t2) in
      reap_expired-IsConfirmed backend confirms around now w4.runners
        (w4.system, w4.report, w4.runners) t4

  with_leases-Truthful :
      (listed : Result Types.Error (List Lease)) (max : ℕ) (now : Time) (jobs : List Job)
      (runners : List Runner) (sys : System backend)
      → Truthful sys
      → Truthful (with_leases backend around listed max now jobs runners sys).0
  unfolding with_leases read_view
  with_leases-Truthful (err e) max now jobs runners sys t = t
  with_leases-Truthful (ok leases) max now jobs runners sys t = reconcile_view-Truthful now _ t

  with_runners-Truthful :
      (listed : Result Types.Error (List Runner)) (max : ℕ) (now : Time) (jobs : List Job)
      (sys : System backend)
      → Truthful sys
      → Truthful (with_runners backend around listed max now jobs sys).0
  unfolding with_runners
  with_runners-Truthful (err e) max now jobs sys t = t
  with_runners-Truthful (ok runners) max now jobs sys t =
      with_leases-Truthful _ max now jobs runners (tick backend around sys) t

  with_jobs-Truthful :
      (listed : Result Types.Error (List Job)) (max : ℕ) (now : Time) (sys : System backend)
      → Truthful sys
      → Truthful (with_jobs backend around listed max now sys).0
  unfolding with_jobs
  with_jobs-Truthful (err e) max now sys t = t
  with_jobs-Truthful (ok jobs) max now sys t =
      with_runners-Truthful _ max now jobs (tick backend around sys) t

  reconcile_in-Truthful :
      (ctx : Context) (max : ℕ) (given : Time) (sys : System backend)
      → Truthful sys
      → Truthful (reconcile_in backend around ctx max given sys).0
  unfolding reconcile_in
  reconcile_in-Truthful (done e) max given sys t = t
  reconcile_in-Truthful live max given sys t =
      with_jobs-Truthful _ max _ (tick backend around (tick backend around sys)) t

  -- With a provider whose confirmed terminations are final, and which reports an instance as
  -- terminated or unknown only when it is gone, none of `Reconcile`, `ReapExpired` and
  -- `terminateRunner` records a runner as terminated while its instance is there, whichever
  -- operations fail: if every recorded termination was true before the call, every recorded
  -- termination is true after it.
  pub passes_record_truth :
      (max : ℕ) (now : Time) (v : Runner) (sys : System backend)
      → Truthful sys
      → Truthful (reconcile backend around max now sys).0
        × Truthful (reap backend around max now sys).0
        × Truthful (terminate_runner backend around v sys).0
  unfolding reconcile
  passes_record_truth max now v sys t =
      let (reaped, terminated) = reaper_records_truth backend confirms around max now v sys t in
      (reconcile_in-Truthful (around.contexts sys.step) max now sys t, reaped, terminated)
