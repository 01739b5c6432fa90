-- ===== src/Lifecycle/Moving.antt =====
-- What a call of `Manager.Transition` leaves.
use leo_runners.Base.{
  ◌≡◌, refl, sym, ap, ◌∙◌, inl, inr, Option, none, some, Bool, Bool-cases, true, Result, ok, err,
  Context, live, arith,
}
use leo_runners.Base.Int.{ℤ, pos, add64}
use leo_runners.Base.Time.{Time}
use leo_runners.Base.Dict.{get}
use leo_runners.State.Types
use leo_runners.State.Types.{Job, JobState}
use leo_runners.State.Table
use leo_runners.State.Table.{save, save_over, next_version, first_version, read}
use leo_runners.State.Memory.{MemoryRepository, save_job, get_job, job_entity}
use leo_runners.State.Concurrency.{save_then_found}
use leo_runners.Lifecycle.Transitions.{
  valid_transition, transition, move_saved, Moved, moved_to, TransitionError,
}

saved_over-state :
    (o : Option Job) (now : Time) (v v' : Job) (expected : ℤ) (t t' : Table.Table job_entity)
    → save_over job_entity o now v expected t ≡ (t', ok v')
    → v'.state ≡ v.state
unfolding save_over next_version first_version
saved_over-state none now v v' expected t t' h = ground arith
saved_over-state (some old) now v v' expected t t' h = ground arith

saved-state :
    (now : Time) (ctx : Context) (v v' : Job) (expected : ℤ) (t t' : Table.Table job_entity)
    → save job_entity now ctx v expected t ≡ (t', ok v')
    → v'.state ≡ v.state
unfolding save
saved-state now ctx v v' expected t t' h =
    saved_over-state (get v.id t) now v v' expected t t' (ground arith)

-- What a move that is answered without an error has done.
pub record HasMoved (job : Job) (to : JobState) (store : MemoryRepository) (m : Moved)
    : Type 0 where
  pub valid : valid_transition job.state to ≡ true
  pub updated : Job
  pub returned : m.job ≡ some updated
  pub stored : get_job live job.id m.store ≡ ok updated
  pub state : updated.state ≡ to
  pub revision : updated.revision ≡ add64 job.revision (pos 1)

move_saved-HasMoved :
    (saved : MemoryRepository × Result Types.Error Job) (sink : Bool) (clock : Time × Time)
    (ctx : Context) (job : Job) (to : JobState) (r : MemoryRepository)
    → save_job clock.0 ctx (moved_to job to) job.revision r ≡ saved
    → valid_transition job.state to ≡ true
    → (move_saved saved sink clock.1 job to).error ≡ none
    → HasMoved job to r (move_saved saved sink clock.1 job to)
unfolding move_saved get_job
move_saved-HasMoved (r', err e) sink clock ctx job to r done valid good = absurd (ground arith)
move_saved-HasMoved (r', ok updated) sink clock ctx job to r done valid good =
    let written : save job_entity clock.0 ctx (moved_to job to) job.revision r.jobs
        ≡ (r'.jobs, ok updated) =
      unfold save_job in ap (λ x. (x.0.jobs, x.1)) done in
    let (found, next, others) =
      save_then_found job_entity clock.0 ctx ctx (moved_to job to) updated job.revision r.jobs
        r'.jobs job.id written in
    record {
      valid = valid;
      updated = updated;
      returned = refl;
      stored = found;
      state = saved-state clock.0 ctx (moved_to job to) updated job.revision r.jobs r'.jobs written;
      revision = next;
    }

failed_over :
    (o : Option Job) (now : Time) (v : Job) (expected : ℤ) (t t' : Table.Table job_entity)
    (e : Types.Error)
    → save_over job_entity o now v expected t ≡ (t', err e)
    → t' ≡ t
unfolding save_over
failed_over none now v expected t t' e h = ground arith
failed_over (some old) now v expected t t' e h = ground arith

failed_save :
    (now : Time) (ctx : Context) (v : Job) (expected : ℤ) (t t' : Table.Table job_entity)
    (e : Types.Error)
    → save job_entity now ctx v expected t ≡ (t', err e)
    → t' ≡ t
unfolding save
failed_save now ctx v expected t t' e h =
    ground (arith, failed_over (get v.id t) now v expected t t' e)

failed_save_job :
    (now : Time) (ctx : Context) (v : Job) (expected : ℤ) (r r' : MemoryRepository)
    (e : Types.Error)
    → save_job now ctx v expected r ≡ (r', err e)
    → r' ≡ r
unfolding save_job
failed_save_job now ctx v expected r r' e h =
    let kept = failed_save now ctx v expected r.jobs r'.jobs e (ap (λ x. (x.0.jobs, x.1)) h) in
    sym (ap (λ x. x.0) h) ∙ ap (λ t. record r { jobs = t }) (ap (λ x. x.0.jobs) h ∙ kept)

-- What a move that is answered with an error leaves: the store as it was, and no event.
pub record HasNotMoved (store : MemoryRepository) (m : Moved) : Type 0 where
  pub kept : m.store ≡ store
  pub silent : m.emitted ≡ none

move_saved-HasNotMoved :
    (saved : MemoryRepository × Result Types.Error Job) (sink : Bool) (clock : Time × Time)
    (ctx : Context) (job : Job) (to : JobState) (r : MemoryRepository) (e : TransitionError)
    → save_job clock.0 ctx (moved_to job to) job.revision r ≡ saved
    → (move_saved saved sink clock.1 job to).error ≡ some e
    → HasNotMoved r (move_saved saved sink clock.1 job to)
      × ((move_saved saved sink clock.1 job to).job ≡ some (moved_to job to))
unfolding move_saved
move_saved-HasNotMoved (r', err x) sink clock ctx job to r e done bad = (
  record {
    kept = failed_save_job clock.0 ctx (moved_to job to) job.revision r r' x done;
    silent = refl;
  },
  refl,
)
move_saved-HasNotMoved (r', ok updated) sink clock ctx job to r e done bad = absurd (ground arith)

-- `Manager.Transition` answered without an error: the move is a valid one, the store holds the job
-- in its new state under the revision after the caller's, and the caller has that job. Answered
-- with an error: the store is as it was, and no event was emitted.
pub transition_outcome :
    (sink : Bool) (clock : Time × Time) (ctx : Context) (job : Job) (to : JobState)
    (r : MemoryRepository) (e : TransitionError)
    → ((transition sink clock ctx (some job) to r).error ≡ none
        → HasMoved job to r (transition sink clock ctx (some job) to r))
      × ((transition sink clock ctx (some job) to r).error ≡ some e
          → HasNotMoved r (transition sink clock ctx (some job) to r))
unfolding transition
transition_outcome sink clock ctx job to r e = elim (Bool-cases (valid_transition job.state to)) [
  | inl valid ↦
      rw (transition, valid)
        (
          λ good. move_saved-HasMoved _ sink clock ctx job to r refl valid good,
          λ bad. (move_saved-HasNotMoved _ sink clock ctx job to r e refl bad).0,
        )
  | inr invalid ↦
      rw (transition, invalid)
        (λ good. absurd (ground arith), λ bad. record { kept = refl; silent = refl })
]

-- When the store refuses a valid move, it keeps the job as it was, but the caller's job is in the
-- new state all the same.
pub refused_move_stays_with_caller :
    (sink : Bool) (clock : Time × Time) (ctx : Context) (job : Job) (to : JobState)
    (r : MemoryRepository) (e : TransitionError)
    → valid_transition job.state to ≡ true
    → (transition sink clock ctx (some job) to r).error ≡ some e
    → ((transition sink clock ctx (some job) to r).store ≡ r)
      × ((transition sink clock ctx (some job) to r).job ≡ some (moved_to job to))
unfolding transition
refused_move_stays_with_caller sink clock ctx job to r e valid =
    rw (transition, valid)
      (λ bad.
        let (left, caller) = move_saved-HasNotMoved _ sink clock ctx job to r e refl bad in
        (left.kept, caller))
