-- ===== src/Scheduler/Scheduling.antt =====
-- controller/internal/scheduler/scheduler.go. A provider that is nil stands for none in the map.
use leo_runners.Base.{
  String, List, [], ◌∷◌, Option, none, some, Bool, true, false, str_eq, if◌then◌else◌, Result, ok,
  err, Context, live, map,
}
use leo_runners.Base.Int.{ℤ, pos}
use leo_runners.Base.Time.{Time}
use leo_runners.Base.Text.{is_empty}
use leo_runners.Base.Dict.{Dict, get}
use leo_runners.State.Types
use leo_runners.State.Types.{Job, Runner, ready}
use leo_runners.State.Memory.{MemoryRepository, create_runner}
use leo_runners.Capacity.Pool
use leo_runners.Capacity.Pool.{Pool, Floats, Registry, Request}
use leo_runners.Capacity.Registry
use leo_runners.Capacity.Selection
use leo_runners.Policy.Selecting
use leo_runners.Policy.Selecting.{
  Mode, customer_first, managed_first, customer_only, managed_only, fallback, other,
}
use leo_runners.Lifecycle.Provider.{ProviderError, RunnerInstance, RunnerSpec}
use leo_runners.Scheduler.Cloud.{Cloud}

pub data ScheduleError : Type 0 where
  no_capacity no_provider : ScheduleError
  capacity : Pool.Error → ScheduleError
  provider : ProviderError → ScheduleError
  repository : Types.Error → ScheduleError

-- `boolInt`
abbrev pub bool_int : Bool → ℤ
bool_int true = pos 1
bool_int false = pos 0

-- `capacity.SelectionMode(s.Mode)`
abbrev pub mode_text : Mode → String
mode_text customer_first = "customer-first"
mode_text managed_first = "managed-first"
mode_text customer_only = "customer-only"
mode_text managed_only = "managed-only"
mode_text fallback = "fallback"
mode_text (other s) = s

abbrev pub request_for : Mode → RunnerSpec → Request
request_for mode spec = record {
  mode = mode_text mode;
  ownership = "";
  provider = "";
  region = "";
  security_profile = "";
  labels = spec.labels;
  cpu = spec.cpu;
  memory_gb = spec.memory_gb;
  gpu = bool_int spec.gpu;
}

-- A runner that is ready, with the amounts that it holds.
abbrev pub ready_runner : Job → String → ℤ → ℤ → ℤ → RunnerInstance → Runner
ready_runner job pool cpu memory gpu i = record {
  id = i.id;
  job_id = job.id;
  lease_id = "";
  provider = i.provider;
  provider_instance_id = i.provider_id;
  capacity_pool_id = pool;
  cpu = cpu;
  memory_gb = memory;
  gpu = gpu;
  region = "";
  labels = [];
  state = ready;
  controller_owner = "";
  created_at = pos 0;
  updated_at = pos 0;
  expires_at = job.expires_at;
  revision = pos 0;
}

-- The runner that is recorded with a registry, and the one without.
abbrev pub runner_for : Job → RunnerSpec → String → RunnerInstance → Runner
runner_for job spec pool i = ready_runner job pool spec.cpu spec.memory_gb (bool_int spec.gpu) i

abbrev pub plain_runner_for : Job → RunnerInstance → Runner
plain_runner_for job i = ready_runner job "" (pos 0) (pos 0) (pos 0) i

-- The caller's context as each call finds it, and the store's reading of the clock.
pub record Moment : Type 0 where
  pub at_provision : Context
  pub at_wait : Context
  pub at_create : Context
  pub clock : Time

module _ (floats : Floats) (cloud : Cloud) where
  open floats use {Float}
  open cloud use {Handle, State, provision, wait_ready, terminate}

  -- `Capacity`: a pool of the policy with its provider.
  pub record Place : Type 0 where
    pub pool : Selecting.Pool
    pub provider : Handle

  -- The configuration of a scheduler, apart from the registry.
  pub record Settings : Type 0 where
    pub capacities : List Place
    pub mode : Mode
    pub pool_providers : Dict Handle

  -- What a scheduler works on.
  pub record Site : Type 0 where
    pub registry : Registry Float
    pub state : State
    pub repository : MemoryRepository

  abbrev pub with_registry : Site → Registry Float → Site
  with_registry s r = record s { registry = r }

  abbrev pub with_state : Site → State → Site
  with_state s t = record s { state = t }

  abbrev pub Answer : Type 0
  Answer = Site × Result ScheduleError Runner

  unfoldable pub reserved :
      Registry Float × Option Pool.Error
      → Handle
      → String
      → Site
      → Site × Result ScheduleError (Handle × String)
  reserved (r, some e) h id s = (with_registry s r, err (capacity e))
  reserved (r, none) h id s = (with_registry s r, ok (h, id))

  unfoldable pub reserve_at :
      Option Handle → Pool Float → RunnerSpec → Site → Site × Result ScheduleError (Handle × String)
  unfolding reserved
  reserve_at none p spec s = (s, err no_provider)
  reserve_at (some h) p spec s =
      reserved (Registry.reserve p.id spec.cpu spec.memory_gb (bool_int spec.gpu) s.registry) h p.id
        s

  unfoldable pub reserve_in :
      Option (Pool Float)
      → Settings
      → RunnerSpec
      → Site
      → Site × Result ScheduleError (Handle × String)
  unfolding reserve_at
  reserve_in none c spec s = (s, err no_capacity)
  reserve_in (some p) c spec s = reserve_at (get p.id c.pool_providers) p spec s

  -- `Scheduler.Reserve`, and the part of `Schedule` up to the reservation.
  unfoldable pub reserve :
      Settings → RunnerSpec → Site → Site × Result ScheduleError (Handle × String)
  unfolding reserve_in
  reserve c spec s =
      reserve_in (Selection.select floats (request_for c.mode spec) s.registry) c spec s

  -- `_ = s.PoolRegistry.Release(...)`
  unfoldable pub give_back : String → RunnerSpec → Site → Site
  give_back id spec s =
      with_registry s (Registry.release id spec.cpu spec.memory_gb (bool_int spec.gpu) s.registry).0

  -- `_ = provider.Terminate(context.Background(), instance)`
  unfoldable pub drop : Handle → RunnerInstance → Site → Site
  drop h i s = with_state s (terminate h s.state live i).0

  unfoldable pub recorded :
      MemoryRepository × Result Types.Error (Unit {0})
      → Handle
      → String
      → RunnerSpec
      → RunnerInstance
      → Runner
      → Site
      → Answer
  unfolding give_back drop
  recorded (r, err e) h id spec i v s =
      (give_back id spec (drop h i (record s { repository = r })), err (repository e))
  recorded (r, ok u) h id spec i v s = (record s { repository = r }, ok v)

  unfoldable pub awaited :
      State × Option ProviderError
      → Moment
      → Handle
      → String
      → Job
      → RunnerSpec
      → RunnerInstance
      → Site
      → Answer
  unfolding recorded
  awaited (t, some e) m h id job spec i s =
      (give_back id spec (drop h i (with_state s t)), err (provider e))
  awaited (t, none) m h id job spec i s =
      recorded (create_runner m.clock m.at_create (runner_for job spec id i) s.repository) h id spec
        i (runner_for job spec id i) (with_state s t)

  unfoldable pub provisioned :
      State × Result ProviderError RunnerInstance
      → Moment
      → Handle
      → String
      → Job
      → RunnerSpec
      → Site
      → Answer
  unfolding awaited
  provisioned (t, err e) m h id job spec s = (give_back id spec (with_state s t), err (provider e))
  provisioned (t, ok i) m h id job spec s =
      awaited (wait_ready h t m.at_wait i) m h id job spec i (with_state s t)

  unfoldable pub placed :
      Site × Result ScheduleError (Handle × String) → Moment → Job → RunnerSpec → Answer
  unfolding provisioned
  placed (s, err e) m job spec = (s, err e)
  placed (s, ok (h, id)) m job spec =
      provisioned (provision h s.state m.at_provision spec) m h id job spec s

  -- `Scheduler.Schedule` with a registry.
  unfoldable pub schedule : Settings → Moment → Job → RunnerSpec → Site → Answer
  unfolding placed reserve
  schedule c m job spec s = placed (reserve c spec s) m job spec

  -- `Scheduler.Release`
  unfoldable pub release : Runner → Site → Site × Option Pool.Error
  release v s =
      if is_empty v.capacity_pool_id
      then (s, none)
      else let (r, e) = Registry.release v.capacity_pool_id v.cpu v.memory_gb v.gpu s.registry in
        (with_registry s r, e)

  -- `Scheduler.Schedule` without a registry: the policy selects among the configured pools.
  unfoldable pub provider_of : String → List Place → Option Handle
  provider_of id [] = none
  provider_of id (x ∷ xs) =
      let later = provider_of id xs in if str_eq x.pool.id id then some x.provider else later

  unfoldable pub plain_recorded :
      MemoryRepository × Result Types.Error (Unit {0})
      → Handle
      → RunnerInstance
      → Runner
      → Site
      → Answer
  unfolding drop
  plain_recorded (r, err e) h i v s = (drop h i (record s { repository = r }), err (repository e))
  plain_recorded (r, ok u) h i v s = (record s { repository = r }, ok v)

  unfoldable pub plain_awaited :
      State × Option ProviderError → Moment → Handle → Job → RunnerInstance → Site → Answer
  unfolding plain_recorded
  plain_awaited (t, some e) m h job i s = (drop h i (with_state s t), err (provider e))
  plain_awaited (t, none) m h job i s =
      plain_recorded (create_runner m.clock m.at_create (plain_runner_for job i) s.repository) h i
        (plain_runner_for job i) (with_state s t)

  unfoldable pub plain_provisioned :
      State × Result ProviderError RunnerInstance → Moment → Handle → Job → Site → Answer
  unfolding plain_awaited
  plain_provisioned (t, err e) m h job s = (with_state s t, err (provider e))
  plain_provisioned (t, ok i) m h job s =
      plain_awaited (wait_ready h t m.at_wait i) m h job i (with_state s t)

  unfoldable pub plain_placed : Option Handle → Moment → Job → RunnerSpec → Site → Answer
  unfolding plain_provisioned
  plain_placed none m job spec s = (s, err no_provider)
  plain_placed (some h) m job spec s =
      plain_provisioned (provision h s.state m.at_provision spec) m h job s

  unfoldable pub plain_selected :
      Option Selecting.Pool → Settings → Moment → Job → RunnerSpec → Site → Answer
  unfolding plain_placed provider_of
  plain_selected none c m job spec s = (s, err no_capacity)
  plain_selected (some p) c m job spec s = plain_placed (provider_of p.id c.capacities) m job spec s

  unfoldable pub schedule_plain : Settings → Moment → Job → RunnerSpec → Site → Answer
  unfolding plain_selected
  schedule_plain c m job spec s =
      plain_selected (Selecting.select c.mode (map (λ x. x.pool) c.capacities)) c m job spec s
