-- ===== src/Lifecycle/Reconciler.antt =====
-- `Reconcile` of controller/internal/lifecycle/reconciler.go: one pass over all records, as four
-- loops and the reaper. Its maps are association lists, and a `range` visits the entries as they
-- stand when the loop starts: each loop changes its own map at the key it visits only.
use leo_runners.Base.{
  ℕ, suc, ◌+◌, String, List, [], ◌∷◌, ◌++◌, Option, none, some, Bool, true, false, not, ◌||◌,
  str_eq, if◌then◌else◌, Result, ok, err, Context, live, done, ContextError, length,
}
use leo_runners.Base.Time.{Time, is_zero}
use leo_runners.Base.Text.{is_empty}
use leo_runners.Base.Text.Order.{str_lt}
use leo_runners.Base.Sort.{sort}
use leo_runners.Base.Dict.{Dict, get, put}
use leo_runners.State.Types
use leo_runners.State.Types.{
  Job, Runner, Lease, JobState, RunnerState, LeaseState, job_is, runner_is, lease_is,
}
use leo_runners.State.Memory.{list_jobs, list_runners, list_leases}
use leo_runners.Lifecycle.Provider.{Provider, ProviderError, RunnerStatus, instance_not_found}
use leo_runners.Lifecycle.System.{
  Surroundings, System, save_now, save_job_now, save_lease_now, status_now,
}
use leo_runners.Lifecycle.Reaper.{
  Report, Failure, no_report, failed_save, failed_call, in_state, limited, by_id, terminate_runner,
  reap_expired, tick,
}
use leo_runners.Lifecycle.Repair.{
  runner_state, is_terminal_job, lease_target, expiry_target, job_target,
}

-- The maps that a pass begins with.
unfoldable pub jobs_by_id : List Job → Dict Job → Dict Job
jobs_by_id [] m = m
jobs_by_id (v ∷ vs) m = jobs_by_id vs (put v.id v m)

unfoldable pub leases_by_job : List Lease → Dict Lease → Dict Lease
leases_by_job [] m = m
leases_by_job (v ∷ vs) m = leases_by_job vs (put v.job_id v m)

-- `failed_call` of a failed cleanup, under the runner that it was to clean up.
abbrev pub count_failure : Failure → Report → Report
count_failure f p = record p {
  provider_errors = p.provider_errors + 1;
  errors = p.errors ++ f ∷ [];
}

module _ (backend : Provider) (around : Surroundings) where
  -- The system, the report and the maps of a pass.
  pub record View : Type 0 where
    pub system : System backend
    pub report : Report
    pub jobs : Dict Job
    pub runners : Dict Runner
    pub leases : Dict Lease

  abbrev pub unsaved : View → System backend → String → Types.Error → View
  unsaved w sys id e = record w { system = sys; report = failed_save id e w.report }

  -- The provider's truth about a runner.
  unfoldable pub synced : System backend × Result Types.Error Runner → String → View → View
  synced (sys, err e) id w = unsaved w sys id e
  synced (sys, ok updated) id w = record w {
    system = sys;
    report = record w.report { runners_repaired = w.report.runners_repaired + 1 };
    runners = put id updated w.runners;
  }

  unfoldable pub sync_to : RunnerState → String → Runner → View → View
  unfolding synced
  sync_to target id v w =
      if runner_is target v.state
      then w
      else synced (save_now backend around (in_state v target) w.system) id w

  unfoldable pub sync_status :
      System backend × Result ProviderError RunnerStatus → String → Runner → View → View
  unfolding sync_to
  sync_status (sys, ok status) id v w =
      sync_to (runner_state status) id v (record w { system = sys })
  sync_status (sys, err instance_not_found) id v w =
      sync_to (runner_state RunnerStatus.terminated) id v (record w { system = sys })
  sync_status (sys, err e) id v w = record w { system = sys; report = failed_call id e w.report }

  unfoldable pub sync_runner : String → Runner → View → View
  unfolding sync_status
  sync_runner id v w =
      if runner_is v.state RunnerState.terminated
      then w
      else sync_status (status_now backend around v w.system) id v w

  unfoldable pub sync_runners : Dict Runner → View → View
  unfolding sync_runner
  sync_runners [] w = w
  sync_runners ((id, v) ∷ rest) w = sync_runners rest (sync_runner id v w)

  -- A lease, from its job and its runner.
  unfoldable pub lease_saved : System backend × Result Types.Error Lease → String → View → View
  lease_saved (sys, err e) id w = unsaved w sys id e
  lease_saved (sys, ok updated) id w = record w {
    system = sys;
    report = record w.report { leases_repaired = w.report.leases_repaired + 1 };
    leases = put id updated w.leases;
  }

  unfoldable pub lease_to : LeaseState → String → Lease → View → View
  unfolding lease_saved
  lease_to target id v w =
      if lease_is target v.state
      then w
      else lease_saved (save_lease_now backend around (record v { state = target }) w.system) id w

  unfoldable pub repair_leases : Time → Dict Lease → View → View
  unfolding lease_to lease_target
  repair_leases now [] w = w
  repair_leases now ((id, v) ∷ rest) w =
      repair_leases now rest
        (lease_to (lease_target now (get v.job_id w.jobs) (get v.runner_id w.runners) v) id v w)

  -- A termination that was asked for, and the runner as it is afterwards.
  unfoldable pub cleaned : System backend × Result Failure Runner → String → View → View
  cleaned (sys, err e) id w = record w { system = sys; report = count_failure e w.report }
  cleaned (sys, ok v) id w = record w { system = sys; runners = put id v w.runners }

  unfoldable pub clean_up : Option Runner → View → View
  unfolding cleaned
  clean_up none w = w
  clean_up (some v) w =
      if not (runner_is v.state RunnerState.terminated)
      then cleaned (terminate_runner backend around v w.system) v.id w
      else w

  -- The first runner of a job.
  unfoldable pub runner_of : String → Dict Runner → Option Runner
  runner_of job [] = none
  runner_of job ((id, v) ∷ rest) =
      let later = runner_of job rest in if str_eq v.job_id job then some v else later

  -- The runner of a terminal job.
  abbrev pub runner_to_clean : String → Option Lease → Dict Runner → Option Runner
  runner_to_clean id none runners = runner_of id runners
  runner_to_clean id (some lease) runners = get lease.runner_id runners

  abbrev pub leased_runner : Option Lease → Dict Runner → Option Runner
  leased_runner none runners = none
  leased_runner (some lease) runners = get lease.runner_id runners

  unfoldable pub job_saved : System backend × Result Types.Error Job → String → View → View
  job_saved (sys, err e) id w = unsaved w sys id e
  job_saved (sys, ok updated) id w = record w {
    system = sys;
    report = record w.report { jobs_repaired = w.report.jobs_repaired + 1 };
    jobs = put id updated w.jobs;
  }

  unfoldable pub job_to : JobState → String → Job → View → View
  unfolding job_saved
  job_to target id v w =
      if job_is target v.state
      then w
      else job_saved (save_job_now backend around (record v { state = target }) w.system) id w

  -- The loop's body from the test for a terminal job on.
  unfoldable pub settle_job : String → Job → View → View
  unfolding clean_up job_to runner_of job_target
  settle_job id v w =
      if is_terminal_job v.state
      then clean_up (runner_to_clean id (get id w.leases) w.runners) w
      else job_to (job_target (get id w.leases) (leased_runner (get id w.leases) w.runners) v.state)
          id v w

  unfoldable pub job_expired : System backend × Result Types.Error Job → String → View → View
  unfolding settle_job
  job_expired (sys, err e) id w = unsaved w sys id e
  job_expired (sys, ok updated) id w = settle_job id updated (record w {
    system = sys;
    report = record w.report { jobs_repaired = w.report.jobs_repaired + 1 };
    jobs = put id updated w.jobs;
  })

  unfoldable pub repair_job : Time → String → Job → View → View
  unfolding settle_job job_expired
  repair_job now id v w =
      if job_is (expiry_target now v) v.state
      then settle_job id v w
      else job_expired
          (save_job_now backend around (record v { state = expiry_target now v }) w.system) id w

  unfoldable pub repair_jobs : Time → Dict Job → View → View
  unfolding repair_job
  repair_jobs now [] w = w
  repair_jobs now ((id, v) ∷ rest) w = repair_jobs now rest (repair_job now id v w)

  -- A runner whose job is none of the pass's jobs.
  unfoldable pub is_orphan : Runner → Dict Job → Bool
  is_orphan v jobs =
      if is_empty v.job_id || runner_is v.state RunnerState.terminated
      then false
      else elim (get v.job_id jobs) [ none ↦ true | some job ↦ false ]

  unfoldable pub clean_orphan : String → Runner → View → View
  unfolding cleaned is_orphan
  clean_orphan id v w =
      if is_orphan v w.jobs then cleaned (terminate_runner backend around v w.system) id w else w

  unfoldable pub clean_orphans : Dict Runner → View → View
  unfolding clean_orphan
  clean_orphans [] w = w
  clean_orphans ((id, v) ∷ rest) w = clean_orphans rest (clean_orphan id v w)

  -- The pass over records that have been read: the loops, and the reaper over the runners.
  abbrev pub by_key : String × Runner → String × Runner → Bool
  by_key a b = str_lt a.0 b.0

  unfoldable pub reconcile_view : Time → View → System backend × Report
  unfolding sync_runners repair_leases repair_jobs clean_orphans
  reconcile_view now w0 =
      let w1 = sync_runners (sort by_key w0.runners) w0 in
      let w2 = repair_leases now w1.leases w1 in
      let w3 = repair_jobs now w2.jobs w2 in
      let w4 = clean_orphans w3.runners w3 in
      let (sys, p, runners) =
        reap_expired backend around now w4.runners (w4.system, w4.report, w4.runners) in
      (sys, p)

  unfoldable pub read_view : ℕ → List Job → List Runner → List Lease → System backend → View
  read_view max jobs runners leases sys = record {
    system = sys;
    report = record no_report {
      jobs_scanned = length (limited max jobs);
      runners_scanned = length (limited max runners);
      leases_scanned = length (limited max leases);
    };
    jobs = jobs_by_id (limited max jobs) [];
    runners = by_id (limited max runners) [];
    leases = leases_by_job (limited max leases) [];
  }

  -- Why a pass has not started.
  pub data Unread : Type 0 where
    context_done : ContextError → Unread
    unlisted : Types.Error → Unread

  unfoldable pub with_leases :
      Result Types.Error (List Lease)
      → ℕ
      → Time
      → List Job
      → List Runner
      → System backend
      → System backend × Result Unread Report
  unfolding reconcile_view read_view
  with_leases (err e) max now jobs runners sys = (sys, err (unlisted e))
  with_leases (ok leases) max now jobs runners sys =
      let (sys', p) = reconcile_view now (read_view max jobs runners leases sys) in (sys', ok p)

  unfoldable pub with_runners :
      Result Types.Error (List Runner)
      → ℕ
      → Time
      → List Job
      → System backend
      → System backend × Result Unread Report
  unfolding with_leases
  with_runners (err e) max now jobs sys = (sys, err (unlisted e))
  with_runners (ok runners) max now jobs sys =
      with_leases (list_leases (around.contexts sys.step) [] sys.repository) max now jobs runners
        (tick backend around sys)

  unfoldable pub with_jobs :
      Result Types.Error (List Job)
      → ℕ
      → Time
      → System backend
      → System backend × Result Unread Report
  unfolding with_runners
  with_jobs (err e) max now sys = (sys, err (unlisted e))
  with_jobs (ok jobs) max now sys =
      with_runners (list_runners (around.contexts sys.step) [] sys.repository) max now jobs
        (tick backend around sys)

  -- `Reconcile`: the context is checked, the clock read if no time is given, and the records listed.
  unfoldable pub reconcile_in :
      Context → ℕ → Time → System backend → System backend × Result Unread Report
  unfolding with_jobs
  reconcile_in (done e) max given sys = (tick backend around sys, err (context_done e))
  reconcile_in live max given sys =
      with_jobs (list_jobs (around.contexts (suc sys.step)) [] sys.repository) max
        (if is_zero given then around.clock sys.step else given)
        (tick backend around (tick backend around sys))

  unfoldable pub reconcile : ℕ → Time → System backend → System backend × Result Unread Report
  unfolding reconcile_in
  reconcile max given sys = reconcile_in (around.contexts sys.step) max given sys
