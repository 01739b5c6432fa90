-- ===== src/Lifecycle/Transitions.antt =====
-- controller/internal/lifecycle/lifecycle.go: the moves of a job.
use leo_runners.Base.{
  ℕ, suc, ◌+◌, ◌≤◌, ◌≡◌, String, Option, none, some, Bool, true, false, not, ◌||◌, if◌then◌else◌,
  Result, ok, err, Context, arith,
}
use leo_runners.Base.Int.{ℤ}
use leo_runners.Base.Time.{Time}
use leo_runners.State.Types
use leo_runners.State.Types.{
  Job, JobState, job_is, queued, provisioning, assigned, running, completed, failed, cancelled,
}
use leo_runners.State.Memory.{MemoryRepository, save_job}

unfoldable pub valid_transition : JobState → JobState → Bool
valid_transition a b = if job_is a b then true else elim a [
  | queued ↦ job_is b provisioning || job_is b cancelled || job_is b completed || job_is b failed
  | provisioning ↦ job_is b assigned || job_is b failed || job_is b cancelled || job_is b completed
  | assigned ↦ job_is b running || job_is b failed || job_is b cancelled || job_is b completed
  | running ↦ job_is b completed || job_is b failed || job_is b cancelled
  | _ ↦ false
]

pub data TransitionError : Type 0 where
  invalid_transition : TransitionError
  repository : Types.Error → TransitionError

-- What the telemetry sink gets: the event's identifier is made of the job's and its revision.
pub record Emitted : Type 0 where
  pub job_id : String
  pub revision : ℤ
  pub kind : JobState
  pub at : Time

-- What a call leaves: the store, the caller's job, the event emitted, and the error.
pub record Moved : Type 0 where
  pub store : MemoryRepository
  pub job : Option Job
  pub emitted : Option Emitted
  pub error : Option TransitionError

abbrev pub emit : Bool → Time → Job → JobState → Option Emitted
emit sink at job to =
    if sink
    then some (record { job_id = job.id; revision = job.revision; kind = to; at = at })
    else none

abbrev pub moved_to : Job → JobState → Job
moved_to job to = record job { state = to }

unfoldable pub move_saved :
    MemoryRepository × Result Types.Error Job → Bool → Time → Job → JobState → Moved
move_saved (r, err e) sink at job to = record {
  store = r;
  job = some (moved_to job to);
  emitted = none;
  error = some (repository e);
}
move_saved (r, ok updated) sink at job to = record {
  store = r;
  job = some updated;
  emitted = emit sink at updated to;
  error = none;
}

-- `Manager.Transition`. The two times are the readings of the clock by the store and for the event.
unfoldable pub transition :
    Bool → Time × Time → Context → Option Job → JobState → MemoryRepository → Moved
unfolding move_saved valid_transition
transition sink clock ctx none to r = record {
  store = r;
  job = none;
  emitted = none;
  error = some invalid_transition;
}
transition sink clock ctx (some job) to r =
    if not (valid_transition job.state to)
    then record { store = r; job = some job; emitted = none; error = some invalid_transition }
    else move_saved (save_job clock.0 ctx (moved_to job to) job.revision r) sink clock.1 job to

-- A sequence of valid moves, each to another state.
pub data Moves : JobState → ℕ → JobState → Type 0 where
  stays : (s : JobState) → Moves s 0 s
  moves :
      (s t u : JobState) (n : ℕ)
      → valid_transition s t ≡ true
      → job_is s t ≡ false
      → Moves t n u
      → Moves s (suc n) u

abbrev rank : JobState → ℕ
rank queued = 0
rank provisioning = 1
rank assigned = 2
rank running = 3
rank completed = 4
rank cancelled = 4
rank failed = 4

valid_transition-rank :
    (s t : JobState) → valid_transition s t ≡ true → job_is s t ≡ false → rank s + 1 ≤ rank t
unfolding valid_transition
valid_transition-rank s t valid other = ground arith

Moves-rank : (s u : JobState) (n : ℕ) → Moves s n u → rank s + n ≤ rank u
Moves-rank s _ _ (stays _) = omega arith
Moves-rank s u _ (moves _ t _ n valid other rest) =
    omega (arith, valid_transition-rank s t valid other, Moves-rank t u n rest)

rank_bound : (s : JobState) → rank s ≤ 4
rank_bound s = ground arith

-- A job changes its state at most four times, and never again after it is completed, failed or
-- cancelled.
pub job_settles :
    (s u : JobState) (n : ℕ)
    → Moves s n u
    → (n ≤ 4) × ((job_is s completed || job_is s failed || job_is s cancelled) ≡ true → n ≡ 0)
job_settles s u n m = (
  omega (arith, Moves-rank s u n m, rank_bound u),
  λ final. ground (arith, Moves-rank s u n m, rank_bound u),
)
