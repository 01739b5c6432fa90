-- ===== src/Scheduler/Accounts.antt =====
-- The books of the scheduler: what a schedule that fails leaves, and what one that succeeds owes.
use leo_runners.Base.{
  ◌≡◌, refl, sym, ap, subst, ◌∙◌, String, Option, none, some, false, Result, ok, err, Context,
  arith, inl, inr, Option-cases,
}
use leo_runners.Base.Int.{ℤ}
use leo_runners.Base.Text.{is_empty, is_blank, trim_space, trim_left, trim_right}
use leo_runners.Base.Time.{Time}
use leo_runners.Base.Dict.{get}
use leo_runners.State.Types
use leo_runners.State.Types.{Job, Runner}
use leo_runners.State.Table
use leo_runners.State.Table.{create, create_over}
use leo_runners.State.Memory.{MemoryRepository, create_runner, runner_entity}
use leo_runners.Capacity.Pool
use leo_runners.Capacity.Pool.{Pool, Floats, Registry}
use leo_runners.Capacity.Registry
use leo_runners.Capacity.Selection
use leo_runners.Capacity.Validation.{validate}
use leo_runners.Capacity.Validity.{Fits64, validate-IsWithin}
use leo_runners.Capacity.Soundness.{IsSound}
use leo_runners.Capacity.Choice.{select_prefers}
use leo_runners.Capacity.Retraction.{reserve_then_release}
use leo_runners.Lifecycle.Provider.{ProviderError, RunnerInstance, RunnerSpec}
use leo_runners.Scheduler.Cloud.{Cloud}
use leo_runners.Scheduler.Scheduling.{
  Settings, Site, Moment, Answer, bool_int, request_for, runner_for, with_registry, with_state,
  reserve, reserve_at, reserve_in, reserved, give_back, drop, recorded, awaited, provisioned,
  placed, schedule, release,
}

is_empty-is_blank : (s : String) → is_blank s ≡ false → is_empty s ≡ false
unfolding is_blank trim_space trim_left trim_right
is_empty-is_blank String.[] h = absurd (ground arith)
is_empty-is_blank (String.◌∷◌ c s) h = refl

validate-named :
    (floats : Floats) (p : Pool floats.Float) → validate floats p ≡ none → is_blank p.id ≡ false
unfolding validate
validate-named floats p valid = ground arith

refused_reserve :
    {Float : Type 0} (id : String) (cpu memory gpu : ℤ) (e : Pool.Error) (r : Registry Float)
    → (Registry.reserve id cpu memory gpu r).1 ≡ some e
    → (Registry.reserve id cpu memory gpu r).0 ≡ r
unfolding Registry.reserve Registry.reserve_from
refused_reserve id cpu memory gpu e r h = ground arith

failed_over :
    (o : Option Runner) (now : Time) (v : Runner) (t t' : Table.Table runner_entity)
    (e : Types.Error)
    → create_over runner_entity o now v t ≡ (t', err e)
    → t' ≡ t
unfolding create_over
failed_over none now v t t' e h = absurd (ground arith)
failed_over (some old) now v t t' e h = ground arith

failed_create :
    (now : Time) (ctx : Context) (v : Runner) (t t' : Table.Table runner_entity) (e : Types.Error)
    → create runner_entity now ctx v t ≡ (t', err e)
    → t' ≡ t
unfolding create
failed_create now ctx v t t' e h = ground (arith, failed_over (get v.id t) now v t t' e)

-- A runner that is not created leaves the repository as it was.
pub failed_create_runner :
    (now : Time) (ctx : Context) (v : Runner) (r r' : MemoryRepository) (e : Types.Error)
    → create_runner now ctx v r ≡ (r', err e)
    → r' ≡ r
unfolding create_runner
failed_create_runner now ctx v r r' e h =
    let kept = failed_create now ctx v r.runners r'.runners e (ap (λ x. (x.0.runners, x.1)) h) in
    sym (ap (λ x. x.0) h) ∙ ap (λ t. record r { runners = t }) (ap (λ x. x.0.runners) h ∙ kept)

module _ (floats : Floats) (cloud : Cloud) where
  open floats use {Float}
  open cloud use {Handle, State}

  -- Of the registry and the repository before a call, what its answer leaves: both as they were
  -- after an error, and a runner whose release restores the registry otherwise.
  abbrev pub Balanced : Registry Float → MemoryRepository → Answer floats cloud → Type 0
  Balanced r m (s, err e) = (s.registry ≡ r) × (s.repository ≡ m)
  Balanced r m (s, ok v) = release floats cloud v s ≡ (with_registry floats cloud s r, none)

  module _ (r : Registry Float) (id : String) (spec : RunnerSpec)
      (named : is_empty id ≡ false) where
    -- The registry of a site gives back `r`, when the amounts of the specification are released.
    abbrev Owes : Site floats cloud → Type 0
    Owes s = Registry.release id spec.cpu spec.memory_gb (bool_int spec.gpu) s.registry ≡ (r, none)

    recorded-Balanced :
        (saved : MemoryRepository × Result Types.Error (Unit {0})) (h : Handle) (job : Job)
        (i : RunnerInstance) (s : Site floats cloud)
        → ((e : Types.Error) → saved ≡ (saved.0, err e) → saved.0 ≡ s.repository)
        → Owes s
        → Balanced r s.repository
            (recorded floats cloud saved h id spec i (runner_for job spec id i) s)
    unfolding recorded give_back drop release
    recorded-Balanced (m, err e) h job i s kept owes = (ap (λ x. x.0) owes, kept e refl)
    recorded-Balanced (m, ok u) h job i s kept owes = rw (release, named, owes) refl

    awaited-Balanced :
        (answer : State × Option ProviderError) (m : Moment) (h : Handle) (job : Job)
        (i : RunnerInstance) (s : Site floats cloud)
        → Owes s
        → Balanced r s.repository (awaited floats cloud answer m h id job spec i s)
    unfolding awaited give_back drop
    awaited-Balanced (t, some e) m h job i s owes = (ap (λ x. x.0) owes, refl)
    awaited-Balanced (t, none) m h job i s owes =
        recorded-Balanced
          (create_runner m.clock m.at_create (runner_for job spec id i) s.repository) h job i
          (with_state floats cloud s t)
          (λ e failed.
            failed_create_runner m.clock m.at_create (runner_for job spec id i) s.repository _ e
              failed)
          owes

    provisioned-Balanced :
        (answer : State × Result ProviderError RunnerInstance) (m : Moment) (h : Handle) (job : Job)
        (s : Site floats cloud)
        → Owes s
        → Balanced r s.repository (provisioned floats cloud answer m h id job spec s)
    unfolding provisioned give_back
    provisioned-Balanced (t, err e) m h job s owes = (ap (λ x. x.0) owes, refl)
    provisioned-Balanced (t, ok i) m h job s owes =
        awaited-Balanced _ m h job i (with_state floats cloud s t) owes

    reserved-Balanced :
        (answer : Registry Float × Option Pool.Error) (m : Moment) (h : Handle) (job : Job)
        (s : Site floats cloud)
        → ((e : Pool.Error) → answer.1 ≡ some e → answer.0 ≡ r)
        → (answer.1 ≡ none
            → Registry.release id spec.cpu spec.memory_gb (bool_int spec.gpu) answer.0 ≡ (r, none))
        → Balanced r s.repository
            (placed floats cloud (reserved floats cloud answer h id s) m job spec)
    unfolding placed reserved
    reserved-Balanced (r', some e) m h job s refused granted = (refused e refl, refl)
    reserved-Balanced (r', none) m h job s refused granted =
        provisioned-Balanced _ m h job (with_registry floats cloud s r') (granted refl)

  -- The sums of a reservation stay within 64 bits in whatever pool is selected for it.
  abbrev pub HasRoom : Settings floats cloud → RunnerSpec → Registry Float → Type 0
  HasRoom c spec r =
      (p : Pool Float)
      → Selection.select floats (request_for c.mode spec) r ≡ some p
      → Fits64 p.capacity spec.cpu spec.memory_gb (bool_int spec.gpu)

  reserve_at-Balanced :
      (o : Option Handle) (c : Settings floats cloud) (p : Pool Float) (m : Moment) (job : Job)
      (spec : RunnerSpec) (s : Site floats cloud)
      → IsSound floats s.registry
      → HasRoom c spec s.registry
      → Selection.select floats (request_for c.mode spec) s.registry ≡ some p
      → Balanced s.registry s.repository
          (placed floats cloud (reserve_at floats cloud o p spec s) m job spec)
  unfolding reserve_at placed
  reserve_at-Balanced none c p m job spec s sound room chosen = (refl, refl)
  reserve_at-Balanced (some h) c p m job spec s sound room chosen =
      let ((k, there), fitting, preferred) =
        (select_prefers floats (request_for c.mode spec) s.registry sound.distinct).0 p chosen in
      let kept = sound.pools k p there in
      let here = subst (λ x. get x s.registry.pools ≡ some p) (sym kept.named) there in
      let answer = Registry.reserve p.id spec.cpu spec.memory_gb (bool_int spec.gpu) s.registry in
      reserved-Balanced s.registry p.id spec
        (is_empty-is_blank p.id (validate-named floats p kept.valid)) answer m h job s
        (λ e refused.
          refused_reserve p.id spec.cpu spec.memory_gb (bool_int spec.gpu) e s.registry refused)
        (λ granted.
          reserve_then_release p.id spec.cpu spec.memory_gb (bool_int spec.gpu) p s.registry
            answer.0 here (validate-IsWithin floats p kept.valid) (room p chosen)
            (ap (λ x. (answer.0, x)) granted))

  -- `Schedule` with a registry keeps its books: in a sound registry, where no sum leaves 64 bits, a
  -- schedule that fails, wherever it does, leaves the registry and the repository as they were, and
  -- one that succeeds gives a runner whose release restores the registry.
  pub schedule-Balanced :
      (c : Settings floats cloud) (m : Moment) (job : Job) (spec : RunnerSpec)
      (s : Site floats cloud)
      → IsSound floats s.registry
      → HasRoom c spec s.registry
      → Balanced s.registry s.repository (schedule floats cloud c m job spec s)
  unfolding schedule reserve reserve_in placed
  schedule-Balanced c m job spec s sound room =
      elim (Option-cases (Selection.select floats (request_for c.mode spec) s.registry)) [
        | inl nothing ↦ rw (schedule, reserve, nothing) (refl, refl)
        | inr (p, chosen) ↦
            rw (schedule, reserve, chosen)
              (reserve_at-Balanced (get p.id c.pool_providers) c p m job spec s sound room chosen)
      ]
