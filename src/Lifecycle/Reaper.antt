-- ===== src/Lifecycle/Reaper.antt =====
-- `terminateRunner`, `reapExpired` and `ReapExpired` of controller/internal/lifecycle/reconciler.go.
-- The dependencies are configured.
use leo_runners.Base.{
  ℕ, suc, ◌+◌, String, List, [], ◌∷◌, ◌++◌, Option, none, some, Bool, not, ◌||◌, ◌&&◌,
  if◌then◌else◌, Result, ok, err, Context, live, done, length, take, ltb,
}
use leo_runners.Base.Time.{Time, is_zero, after}
use leo_runners.Base.Dict.{Dict, put}
use leo_runners.State.Types
use leo_runners.State.Types.{Runner, RunnerState, runner_is, terminating, terminated}
use leo_runners.State.Memory.{list_expired_runners}
use leo_runners.Lifecycle.Provider.{Provider, ProviderError}
use leo_runners.Lifecycle.System.{Surroundings, System, save_now, terminate_now}

-- What failed, and at which runner.
pub data Failure : Type 0 where
  persistence : String → Types.Error → Failure
  provider : String → ProviderError → Failure

pub record Report : Type 0 where
  pub jobs_scanned : ℕ
  pub runners_scanned : ℕ
  pub leases_scanned : ℕ
  pub runners_repaired : ℕ
  pub jobs_repaired : ℕ
  pub leases_repaired : ℕ
  pub runners_reaped : ℕ
  pub provider_errors : ℕ
  pub persistence_errors : ℕ
  pub errors : List Failure

abbrev pub no_report : Report
no_report = record {
  jobs_scanned = 0;
  runners_scanned = 0;
  leases_scanned = 0;
  runners_repaired = 0;
  jobs_repaired = 0;
  leases_repaired = 0;
  runners_reaped = 0;
  provider_errors = 0;
  persistence_errors = 0;
  errors = [];
}

abbrev pub failed_save : String → Types.Error → Report → Report
failed_save id e p = record p {
  persistence_errors = p.persistence_errors + 1;
  errors = p.errors ++ persistence id e ∷ [];
}

abbrev pub failed_call : String → ProviderError → Report → Report
failed_call id e p = record p {
  provider_errors = p.provider_errors + 1;
  errors = p.errors ++ provider id e ∷ [];
}

abbrev pub in_state : Runner → RunnerState → Runner
in_state v s = record v { state = s }

-- `runner.ExpiresAt.IsZero() || runner.ExpiresAt.After(now) || runner.State == RunnerTerminated`
abbrev pub not_due : Time → Runner → Bool
not_due now v = is_zero v.expires_at || after v.expires_at now || runner_is v.state terminated

-- `limitJobs`, `limitRunners` and `limitLeases`
abbrev pub limited {ℓ} : {A : Type ℓ} → ℕ → List A → List A
limited n v = if ltb 0 n && ltb n (length v) then take n v else v

-- `byID[runner.ID] = runner`
pub by_id : List Runner → Dict Runner → Dict Runner
by_id [] m = m
by_id (v ∷ vs) m = by_id vs (put v.id v m)

-- What follows a check of the context, and what is left where it is done.
abbrev pub if_live {ℓ} : {A : Type ℓ} → Context → A → A → A
if_live live x y = x
if_live (done e) x y = y

module _ (backend : Provider) (around : Surroundings) where
  -- The system, the report and the reaper's view of the runners.
  abbrev pub Pass : Type 0
  Pass = System backend × Report × Dict Runner

  -- `runner.State = RunnerTerminating`, saved unless it is there already.
  unfoldable pub mark_terminating :
      Runner → System backend → System backend × Result Types.Error Runner
  mark_terminating v sys =
      if not (runner_is v.state terminating)
      then save_now backend around (in_state v terminating) sys
      else (sys, ok v)

  unfoldable pub terminate_saved :
      System backend × Result Types.Error Runner → String → System backend × Result Failure Runner
  terminate_saved (sys, err e) id = (sys, err (persistence id e))
  terminate_saved (sys, ok updated) id = (sys, ok updated)

  unfoldable pub terminate_confirmed :
      System backend × Option ProviderError → Runner → System backend × Result Failure Runner
  unfolding terminate_saved
  terminate_confirmed (sys, some e) v = (sys, err (provider v.id e))
  terminate_confirmed (sys, none) v =
      terminate_saved (save_now backend around (in_state v terminated) sys) v.id

  unfoldable pub terminate_marked :
      System backend × Result Types.Error Runner → String → System backend × Result Failure Runner
  unfolding terminate_confirmed
  terminate_marked (sys, err e) id = (sys, err (persistence id e))
  terminate_marked (sys, ok v) id = terminate_confirmed (terminate_now backend around v sys) v

  -- `terminateRunner`: the runner is marked, terminated by the provider, and saved as terminated.
  unfoldable pub terminate_runner : Runner → System backend → System backend × Result Failure Runner
  unfolding terminate_marked mark_terminating
  terminate_runner v sys = terminate_marked (mark_terminating v sys) v.id

  unfoldable pub reap_saved :
      System backend × Result Types.Error Runner → String → Report → Dict Runner → Pass
  reap_saved (sys, err e) id p view = (sys, failed_save id e p, view)
  reap_saved (sys, ok updated) id p view =
      (sys, record p { runners_reaped = p.runners_reaped + 1 }, put id updated view)

  unfoldable pub reap_confirmed :
      System backend × Option ProviderError → String → Runner → Report → Dict Runner → Pass
  unfolding reap_saved
  reap_confirmed (sys, some e) id v p view = (sys, failed_call id e p, view)
  reap_confirmed (sys, none) id v p view =
      reap_saved (save_now backend around (in_state v terminated) sys) id p view

  unfoldable pub reap_marked :
      System backend × Result Types.Error Runner → String → Bool → Report → Dict Runner → Pass
  unfolding reap_confirmed
  reap_marked (sys, err e) id marks p view = (sys, failed_save id e p, view)
  reap_marked (sys, ok v) id marks p view =
      let p' = if marks then record p { runners_repaired = p.runners_repaired + 1 } else p in
      let view' = if marks then put id v view else view in
      reap_confirmed (terminate_now backend around v sys) id v p' view'

  -- The loop's body for a runner.
  unfoldable pub reap_one : Time → String → Runner → Pass → Pass
  unfolding reap_marked mark_terminating
  reap_one now id v (sys, p, view) =
      if not_due now v
      then (sys, p, view)
      else reap_marked (mark_terminating v sys) id (not (runner_is v.state terminating)) p view

  abbrev pub tick : System backend → System backend
  tick sys = record sys { step = suc sys.step }

  -- `reapExpired`: the loop over the runners, which ends when the pass's context is done.
  unfoldable pub reap_expired : Time → Dict Runner → Pass → Pass
  unfolding reap_one
  reap_expired now [] pass = pass
  reap_expired now ((id, v) ∷ rest) (sys, p, view) =
      let reaped = reap_expired now rest (reap_one now id v (tick sys, p, view)) in
      if_live (around.contexts sys.step) reaped (tick sys, p, view)

  unfoldable pub reap_listed :
      Result Types.Error (List Runner)
      → ℕ
      → Time
      → System backend
      → System backend × Result Types.Error Report
  unfolding reap_expired
  reap_listed (err e) max now sys = (sys, err e)
  reap_listed (ok listed) max now sys =
      let scanned = limited max listed in
      let view = by_id scanned [] in
      let (sys', p, view') =
        reap_expired now view (sys, record no_report { runners_scanned = length scanned }, view) in
      (sys', ok p)

  -- `Reconciler.ReapExpired`, with the bound `MaxRecords`.
  unfoldable pub reap : ℕ → Time → System backend → System backend × Result Types.Error Report
  unfolding reap_listed
  reap max now sys =
      reap_listed (list_expired_runners (around.contexts sys.step) now sys.repository) max now
        (tick sys)
