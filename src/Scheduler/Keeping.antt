-- ===== src/Scheduler/Keeping.antt =====
-- The scheduler writes nothing but runners: what holds of the rest of the repository, stays.
use leo_runners.Base.{String, Context, Option, none, some, Result, ok, err}
use leo_runners.Base.Dict.{get}
use leo_runners.Base.Time.{Time}
use leo_runners.State.Types
use leo_runners.State.Types.{Job, Runner}
use leo_runners.State.Memory.{MemoryRepository, create_runner}
use leo_runners.Capacity.Pool
use leo_runners.Capacity.Pool.{Pool, Floats, Registry}
use leo_runners.Policy.Selecting
use leo_runners.Lifecycle.Provider.{ProviderError, RunnerInstance, RunnerSpec}
use leo_runners.Scheduler.Cloud.{Cloud}
use leo_runners.Scheduler.Scheduling.{
  ScheduleError, Settings, Site, Moment, runner_for, plain_runner_for, reserve, reserve_at,
  reserve_in, reserved, give_back, drop, recorded, awaited, provisioned, placed, schedule,
  plain_recorded, plain_awaited, plain_provisioned, plain_placed, plain_selected, schedule_plain,
}

module _ (floats : Floats) (cloud : Cloud) (P : MemoryRepository → Type 0)
    (keeps : (now : Time) (ctx : Context) (v : Runner) (r : MemoryRepository)
      → P r
      → P (create_runner now ctx v r).0) where
  open cloud use {Handle, State}
  open floats use {Float}

  abbrev Kept : {A : Type 0} → Site floats cloud × A → Type 0
  Kept (s, a) = P s.repository

  recorded_keeps :
      (saved : MemoryRepository × Result Types.Error (Unit {0})) (h : Handle) (id : String)
      (spec : RunnerSpec) (i : RunnerInstance) (v : Runner) (s : Site floats cloud)
      → P saved.0
      → Kept (recorded floats cloud saved h id spec i v s)
  unfolding recorded give_back drop
  recorded_keeps (r, err e) h id spec i v s p = p
  recorded_keeps (r, ok u) h id spec i v s p = p

  awaited_keeps :
      (answer : State × Option ProviderError) (m : Moment) (h : Handle) (id : String) (job : Job)
      (spec : RunnerSpec) (i : RunnerInstance) (s : Site floats cloud)
      → P s.repository
      → Kept (awaited floats cloud answer m h id job spec i s)
  unfolding awaited give_back drop
  awaited_keeps (t, some e) m h id job spec i s p = p
  awaited_keeps (t, none) m h id job spec i s p =
      recorded_keeps _ h id spec i _ _
        (keeps m.clock m.at_create (runner_for job spec id i) s.repository p)

  provisioned_keeps :
      (answer : State × Result ProviderError RunnerInstance) (m : Moment) (h : Handle) (id : String)
      (job : Job) (spec : RunnerSpec) (s : Site floats cloud)
      → P s.repository
      → Kept (provisioned floats cloud answer m h id job spec s)
  unfolding provisioned give_back
  provisioned_keeps (t, err e) m h id job spec s p = p
  provisioned_keeps (t, ok i) m h id job spec s p = awaited_keeps _ m h id job spec i _ p

  reserved_keeps :
      (answer : Registry Float × Option Pool.Error) (h : Handle) (id : String)
      (s : Site floats cloud)
      → P s.repository
      → Kept (reserved floats cloud answer h id s)
  unfolding reserved
  reserved_keeps (r, some e) h id s p = p
  reserved_keeps (r, none) h id s p = p

  reserve_at_keeps :
      (o : Option Handle) (x : Pool Float) (spec : RunnerSpec) (s : Site floats cloud)
      → P s.repository
      → Kept (reserve_at floats cloud o x spec s)
  unfolding reserve_at
  reserve_at_keeps none x spec s p = p
  reserve_at_keeps (some h) x spec s p = reserved_keeps _ h x.id s p

  reserve_in_keeps :
      (o : Option (Pool Float)) (c : Settings floats cloud) (spec : RunnerSpec)
      (s : Site floats cloud)
      → P s.repository
      → Kept (reserve_in floats cloud o c spec s)
  unfolding reserve_in
  reserve_in_keeps none c spec s p = p
  reserve_in_keeps (some x) c spec s p = reserve_at_keeps (get x.id c.pool_providers) x spec s p

  pub reserve_keeps :
      (c : Settings floats cloud) (spec : RunnerSpec) (s : Site floats cloud)
      → P s.repository
      → Kept (reserve floats cloud c spec s)
  unfolding reserve
  reserve_keeps c spec s p = reserve_in_keeps _ c spec s p

  placed_keeps :
      (answer : Site floats cloud × Result ScheduleError (Handle × String)) (m : Moment) (job : Job)
      (spec : RunnerSpec)
      → Kept answer
      → Kept (placed floats cloud answer m job spec)
  unfolding placed
  placed_keeps (s, err e) m job spec p = p
  placed_keeps (s, ok (h, id)) m job spec p = provisioned_keeps _ m h id job spec s p

  pub schedule_keeps :
      (c : Settings floats cloud) (m : Moment) (job : Job) (spec : RunnerSpec)
      (s : Site floats cloud)
      → P s.repository
      → Kept (schedule floats cloud c m job spec s)
  unfolding schedule
  schedule_keeps c m job spec s p = placed_keeps _ m job spec (reserve_keeps c spec s p)

  plain_recorded_keeps :
      (saved : MemoryRepository × Result Types.Error (Unit {0})) (h : Handle) (i : RunnerInstance)
      (v : Runner) (s : Site floats cloud)
      → P saved.0
      → Kept (plain_recorded floats cloud saved h i v s)
  unfolding plain_recorded drop
  plain_recorded_keeps (r, err e) h i v s p = p
  plain_recorded_keeps (r, ok u) h i v s p = p

  plain_awaited_keeps :
      (answer : State × Option ProviderError) (m : Moment) (h : Handle) (job : Job)
      (i : RunnerInstance) (s : Site floats cloud)
      → P s.repository
      → Kept (plain_awaited floats cloud answer m h job i s)
  unfolding plain_awaited drop
  plain_awaited_keeps (t, some e) m h job i s p = p
  plain_awaited_keeps (t, none) m h job i s p =
      plain_recorded_keeps _ h i _ _
        (keeps m.clock m.at_create (plain_runner_for job i) s.repository p)

  plain_provisioned_keeps :
      (answer : State × Result ProviderError RunnerInstance) (m : Moment) (h : Handle) (job : Job)
      (s : Site floats cloud)
      → P s.repository
      → Kept (plain_provisioned floats cloud answer m h job s)
  unfolding plain_provisioned
  plain_provisioned_keeps (t, err e) m h job s p = p
  plain_provisioned_keeps (t, ok i) m h job s p = plain_awaited_keeps _ m h job i _ p

  plain_placed_keeps :
      (o : Option Handle) (m : Moment) (job : Job) (spec : RunnerSpec) (s : Site floats cloud)
      → P s.repository
      → Kept (plain_placed floats cloud o m job spec s)
  unfolding plain_placed
  plain_placed_keeps none m job spec s p = p
  plain_placed_keeps (some h) m job spec s p = plain_provisioned_keeps _ m h job s p

  plain_selected_keeps :
      (o : Option Selecting.Pool) (c : Settings floats cloud) (m : Moment) (job : Job)
      (spec : RunnerSpec) (s : Site floats cloud)
      → P s.repository
      → Kept (plain_selected floats cloud o c m job spec s)
  unfolding plain_selected
  plain_selected_keeps none c m job spec s p = p
  plain_selected_keeps (some x) c m job spec s p = plain_placed_keeps _ m job spec s p

  pub schedule_plain_keeps :
      (c : Settings floats cloud) (m : Moment) (job : Job) (spec : RunnerSpec)
      (s : Site floats cloud)
      → P s.repository
      → Kept (schedule_plain floats cloud c m job spec s)
  unfolding schedule_plain
  schedule_plain_keeps c m job spec s p = plain_selected_keeps _ c m job spec s p
