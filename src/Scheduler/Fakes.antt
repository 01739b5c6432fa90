-- ===== src/Scheduler/Fakes.antt =====
-- Two fake providers, of controller/internal/providers/provider.go, and the promises of
-- Scheduler/Cloud that they keep.
use leo_runners.Base.{String, ℕ, Bool, true, false, not}
use leo_runners.Base.Time.{Time}
use leo_runners.Lifecycle.Fake.{Fake, provision, wait_ready_begin, terminate}
use leo_runners.Scheduler.Cloud.{Cloud, CloudLaws}
use leo_runners.Lifecycle.Solitude.{
  Idle, Alone, provision-Idle, provision-Alone, waited, wait_ready-Alone, terminate-Idle,
}

-- The two providers, `true` and `false`, with what they keep.
abbrev pub Pair : Type 0
Pair = Fake × Fake

abbrev pub side : Bool → Pair → Fake
side true s = s.0
side false s = s.1

abbrev pub with_side : Bool → Pair → Fake → Pair
with_side true s f = (f, s.1)
with_side false s f = (s.0, f)

abbrev pub two_fakes : (ℕ → String) → Time → Cloud
two_fakes name now = record {
  Handle = Bool;
  State = Pair;
  provision = λ h s ctx spec.
      let (f, answer) = provision name now ctx spec (side h s) in (with_side h s f, answer);
  wait_ready = λ h s ctx i.
      let (f, answer) = waited (wait_ready_begin ctx i (side h s)) ctx i in
      (with_side h s f, answer);
  terminate =
      λ h s ctx i. let (f, answer) = terminate (side h s) ctx i in (with_side h s f, answer);
}

abbrev pub BothIdle : Pair → Type 0
BothIdle s = Idle s.0 × Idle s.1

-- Of both providers together, one instance is active, at the given one.
abbrev pub AloneAt : Bool → String → Pair → Type 0
AloneAt h k s = Alone k (side h s) × Idle (side (not h) s)

pub side-Idle : (h : Bool) (s : Pair) → BothIdle s → Idle (side h s) × Idle (side (not h) s)
side-Idle true s idle = (idle.0, idle.1)
side-Idle false s idle = (idle.1, idle.0)

pub with_side-BothIdle :
    (h : Bool) (s : Pair) (f : Fake) → Idle (side (not h) s) → Idle f → BothIdle (with_side h s f)
with_side-BothIdle true s f rest idle = (idle, rest)
with_side-BothIdle false s f rest idle = (rest, idle)

pub with_side-AloneAt :
    (h : Bool) (k : String) (s : Pair) (f : Fake)
    → Idle (side (not h) s)
    → Alone k f
    → AloneAt h k (with_side h s f)
with_side-AloneAt true k s f rest alone = (alone, rest)
with_side-AloneAt false k s f rest alone = (alone, rest)

-- Two fake providers keep the promises: no machine is no active instance at either, and one machine
-- is one active instance, at the provider that was asked.
abbrev pub two_fakes_laws : (name : ℕ → String) (now : Time) → CloudLaws (two_fakes name now)
two_fakes_laws name now = record {
  Clean = BothIdle;
  Holds = λ h i s. AloneAt h i.id s;
  provision-Clean = λ h s ctx spec e clean refused.
      let idle = side-Idle h s clean in
      with_side-BothIdle h s _ idle.1
        (provision-Idle name now ctx spec (side h s) e idle.0 refused);
  provision-Holds = λ h s ctx spec i clean granted.
      let idle = side-Idle h s clean in
      with_side-AloneAt h i.id s _ idle.1
        (provision-Alone name now ctx spec (side h s) i idle.0 granted);
  wait_ready-Holds = λ h s ctx i held.
      with_side-AloneAt h i.id s _ held.1 (wait_ready-Alone ctx i (side h s) held.0);
  terminate-Clean = λ h s ctx i held confirmed.
      with_side-BothIdle h s _ held.1 (terminate-Idle ctx i (side h s) held.0 confirmed);
}
