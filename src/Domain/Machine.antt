-- ===== src/Domain/Machine.antt =====
-- controller/internal/domain/domain.go. A state that is none of the declared constants has no
-- counterpart here.
use leo_runners.Base.{
  ℕ, suc, ◌≡◌, refl, ap, ◌∙◌, ◌+◌, ◌^◌, ◌<◌, ◌≤◌, String, Option, none, some, Bool, true, false,
  not, ◌||◌, if◌then◌else◌, ◌==◌, arith,
}
use leo_runners.Base.Int.{incr_u64}
use leo_runners.Base.Time.{Time}

pub data JobState : Type 0 where
  queued provisioning ready running completed failed cancelled terminating terminated : JobState

abbrev pub code : JobState → ℕ
code queued = 0
code provisioning = 1
code ready = 2
code running = 3
code completed = 4
code failed = 5
code cancelled = 6
code terminating = 7
code terminated = 8

abbrev pub is : JobState → JobState → Bool
is a b = code a == code b

pub record Job : Type 0 where
  pub id : String
  pub repository : String
  pub workflow : String
  pub run_id : String
  pub attempt_id : String
  pub state : JobState
  pub created_at : Time
  pub updated_at : Time
  pub expires_at : Time
  pub revision : ℕ

pub data Error : Type 0 where
  invalid_transition : Error

unfoldable pub can_transition : JobState → JobState → Bool
can_transition a b = if is a b then true else elim a [
  | queued ↦ is b provisioning || is b cancelled
  | provisioning ↦ is b ready || is b failed || is b cancelled || is b terminating
  | ready ↦ is b running || is b failed || is b cancelled || is b terminating
  | running ↦ is b completed || is b failed || is b cancelled || is b terminating
  | completed ↦ is b terminating
  | failed ↦ is b terminating
  | cancelled ↦ is b terminating
  | terminating ↦ is b terminated || is b failed
  | terminated ↦ false
]

unfoldable pub transition : Job → JobState → Time → Job × Option Error
unfolding can_transition incr_u64
transition job to now =
    if not (can_transition job.state to)
    then (job, some invalid_transition)
    else (record job { state = to; updated_at = now; revision = incr_u64 job.revision }, none)

-- The jobs that calls of `Transition` make of a job, with the number of calls that were not refused.
pub data Reaches (start : Job) : ℕ → Job → Type 0 where
  here : Reaches start 0 start
  step :
      (n : ℕ) (job job' : Job) (to : JobState) (now : Time)
      → Reaches start n job
      → transition job to now ≡ (job', none)
      → Reaches start (suc n) job'

-- A job after a transition.
abbrev pub moved : Job → JobState → Time → Job
moved job to now = record job { state = to; updated_at = now; revision = incr_u64 job.revision }

transition-moved :
    (job job' : Job) (to : JobState) (now : Time)
    → transition job to now ≡ (job', none)
    → (can_transition job.state to ≡ true) × (job' ≡ moved job to now)
unfolding transition
transition-moved job job' to now done = (ground arith, ground arith)

only_itself : (a b : JobState) → a ≡ terminated → can_transition a b ≡ true → b ≡ terminated
unfolding can_transition
only_itself a b end valid = ground arith

next_revision : (r n : ℕ) → r + suc n < 2 ^ 64 → incr_u64 (r + n) ≡ r + suc n
unfolding incr_u64
next_revision r n room = ground arith

-- What a number of transitions of a job has done: its revision counts them, its identifier,
-- repository, workflow, run, attempt, creation time and expiry stand, and if it was terminated it
-- still is.
pub record History (start job : Job) (n : ℕ) : Type 0 where
  pub counted : job.revision ≡ start.revision + n
  pub same_id : job.id ≡ start.id
  pub same_repository : job.repository ≡ start.repository
  pub same_workflow : job.workflow ≡ start.workflow
  pub same_run : job.run_id ≡ start.run_id
  pub same_attempt : job.attempt_id ≡ start.attempt_id
  pub same_creation : job.created_at ≡ start.created_at
  pub same_expiry : job.expires_at ≡ start.expires_at
  pub final : start.state ≡ terminated → job.state ≡ terminated

extend :
    (start job job' : Job) (n : ℕ) (to : JobState) (now : Time)
    → start.revision + suc n < 2 ^ 64
    → History start job n
    → can_transition job.state to ≡ true
    → job' ≡ moved job to now
    → History start job' (suc n)
extend start job job' n to now room h valid e = record {
  counted = ap (λ x. x.revision) e ∙ ap incr_u64 h.counted ∙ next_revision start.revision n room;
  same_id = ap (λ x. x.id) e ∙ h.same_id;
  same_repository = ap (λ x. x.repository) e ∙ h.same_repository;
  same_workflow = ap (λ x. x.workflow) e ∙ h.same_workflow;
  same_run = ap (λ x. x.run_id) e ∙ h.same_run;
  same_attempt = ap (λ x. x.attempt_id) e ∙ h.same_attempt;
  same_creation = ap (λ x. x.created_at) e ∙ h.same_creation;
  same_expiry = ap (λ x. x.expires_at) e ∙ h.same_expiry;
  final = λ end. ap (λ x. x.state) e ∙ only_itself job.state to (h.final end) valid;
}

-- Transitions of a job that are not refused count its revision up by one each, keep its identifier,
-- repository, workflow, run, attempt, creation time and expiry, and lead nowhere from the state
-- terminated, as long as the revision does not wrap.
pub Reaches-History :
    (start job : Job) (n : ℕ)
    → start.revision + n < 2 ^ 64
    → Reaches start n job
    → History start job n
Reaches-History start _ _ room here = record {
  counted = omega arith;
  same_id = refl;
  same_repository = refl;
  same_workflow = refl;
  same_run = refl;
  same_attempt = refl;
  same_creation = refl;
  same_expiry = refl;
  final = λ end. end;
}
Reaches-History start _ _ room (step n job job' to now before done) =
    let (valid, e) = transition-moved job job' to now done in
    let shorter : start.revision + n < 2 ^ 64 = omega arith in
    extend start job job' n to now room (Reaches-History start job n shorter before) valid e

go_to :
    (start job : Job) (n : ℕ) (to : JobState) (now : Time)
    → Reaches start n job
    → can_transition job.state to ≡ true
    → Reaches start (suc n) (moved job to now)
unfolding transition
go_to start job n to now before valid = step n job (moved job to now) to now before (rw valid refl)

-- The states on the way to the end.
abbrev Ends : Job → Type 0
Ends start = (n : ℕ) × (job : Job) × Reaches start n job × (job.state ≡ terminated) × (n ≤ 3)

via_terminating :
    (start job : Job) (n : ℕ) (now : Time)
    → Reaches start n job
    → n ≤ 1
    → can_transition job.state terminating ≡ true
    → Ends start
unfolding can_transition
via_terminating start job n now before short valid = (
  suc (suc n),
  _,
  go_to start _ (suc n) terminated now (go_to start job n terminating now before valid) refl,
  refl,
  omega arith,
)

-- Every job can be terminated, by at most three transitions.
pub end_is_in_reach : (start : Job) (now : Time) → Ends start
unfolding can_transition
end_is_in_reach start now = ends start.state refl
  where
    ends : (s : JobState) → start.state ≡ s → Ends start
    ends queued e =
        via_terminating start _ 1 now (go_to start start 0 cancelled now here (ground arith))
          (omega arith) refl
    ends provisioning e = via_terminating start start 0 now here (omega arith) (ground arith)
    ends ready e = via_terminating start start 0 now here (omega arith) (ground arith)
    ends running e = via_terminating start start 0 now here (omega arith) (ground arith)
    ends completed e = via_terminating start start 0 now here (omega arith) (ground arith)
    ends failed e = via_terminating start start 0 now here (omega arith) (ground arith)
    ends cancelled e = via_terminating start start 0 now here (omega arith) (ground arith)
    ends terminating e =
        (1, _, go_to start start 0 terminated now here (ground arith), refl, omega arith)
    ends terminated e = (0, start, here, e, omega arith)
