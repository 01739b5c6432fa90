-- ===== src/Assignment/Records.antt =====
-- The runner's record between the steps of an assignment: created, read again, and saved as ready.
use leo_runners.Base.{
  ◌≡◌, some_injective, refl, sym, ap, ◌∙◌, String, Option, none, some, ok, Context, arith,
}
use leo_runners.Base.Int.{ℤ}
use leo_runners.Base.Time.{Time}
use leo_runners.Base.Dict.{get, get-put_self}
use leo_runners.State.Types
use leo_runners.State.Types.{Runner, LifecycleEvent}
use leo_runners.State.Table
use leo_runners.State.Memory.{
  MemoryRepository, runner_entity, get_runner, save_runner, create_runner,
}
use leo_runners.State.Creation.{create-put}
use leo_runners.State.Concurrency.{save-Saved}
use leo_runners.State.Events.{insert_lifecycle_event, insert_over}
use leo_runners.Lifecycle.Provider.{RunnerInstance}
use leo_runners.Assignment.Cleanup.{now}
use leo_runners.Assignment.Cleaning.{Stands}

insert_over-runners :
    (o : Option LifecycleEvent) (v : LifecycleEvent) (r : MemoryRepository)
    → (insert_over o v r).0.runners ≡ r.runners
unfolding insert_over
insert_over-runners none v r = refl
insert_over-runners (some old) v r = ground arith

pub insert_lifecycle_event-runners :
    (ctx : Context) (v : LifecycleEvent) (r : MemoryRepository)
    → (insert_lifecycle_event ctx v r).0.runners ≡ r.runners
unfolding insert_lifecycle_event
insert_lifecycle_event-runners ctx v r = ground (arith, insert_over-runners _ v r)

-- The runner that the repository has, before it is ready.
pub record Current (job : String) (i : RunnerInstance) (v : Runner) (r : MemoryRepository)
    : Type 0 where
  pub there : get v.id r.runners ≡ some v
  pub same_id : v.id ≡ i.id
  pub of_machine : v.provider_instance_id ≡ i.provider_id
  pub of_job : v.job_id ≡ job

saved_over-next :
    (o : Option Runner) (now : Time) (old v u : Runner) (expected : ℤ)
    (t t' : Table.Table runner_entity)
    → o ≡ some old
    → Table.save_over runner_entity o now v expected t ≡ (t', ok u)
    → u ≡ Table.next_version runner_entity now old v
unfolding Table.save_over
saved_over-next none now old v u expected t t' there h = absurd (ground arith)
saved_over-next (some x) now old v u expected t t' there h = ground arith

saved-next :
    (now : Time) (ctx : Context) (old v u : Runner) (expected : ℤ)
    (t t' : Table.Table runner_entity)
    → get v.id t ≡ some old
    → Table.save runner_entity now ctx v expected t ≡ (t', ok u)
    → u ≡ Table.next_version runner_entity now old v
unfolding Table.save
saved-next now ctx old v u expected t t' there h =
    saved_over-next (get v.id t) now old v u expected t t' there (ground arith)

-- The record of a runner that has become ready.
pub saved-Stands :
    (job : String) (i : RunnerInstance) (now : Time) (ctx : Context) (v u : Runner)
    (r r' : MemoryRepository)
    → Current job i v r
    → save_runner now ctx (record v { state = Types.RunnerState.ready }) v.revision r ≡ (r', ok u)
    → Stands job i (record v { state = Types.RunnerState.ready }) u r'
unfolding save_runner Table.next_version
saved-Stands job i now ctx v u r r' current h =
    let v' : Runner = record v { state = Types.RunnerState.ready } in
    let h' = ap (λ x. (x.0.runners, x.1)) h in
    let kept = save-Saved runner_entity now ctx v' u v.revision r.runners r'.runners h' in
    let next = saved-next now ctx v v' u v.revision r.runners r'.runners current.there h' in
    record {
      there = rw kept.written (get-put_self v.id u r.runners);
      named = kept.named;
      same_id = current.same_id;
      of_machine = ap (λ x. x.provider_instance_id) next ∙ current.of_machine;
      of_job = ap (λ x. x.job_id) next ∙ current.of_job;
      is_ready = ap (λ x. x.state) next;
      next_revision = kept.next_revision;
    }

-- The record of a runner that has been created and read again.
pub created-Current :
    (now : Time) (ctx ctx' : Context) (v u : Runner) (i : RunnerInstance) (r r' : MemoryRepository)
    → v.id ≡ i.id
    → v.provider_instance_id ≡ i.provider_id
    → create_runner now ctx v r ≡ (r', ok tt)
    → get_runner ctx' v.id r' ≡ ok u
    → Current v.job_id i u r'
unfolding create_runner get_runner Table.fresh
created-Current now ctx ctx' v u i r r' same machine h read =
    let (written, named) =
      create-put runner_entity now ctx v r.runners r'.runners (ap (λ x. (x.0.runners, x.1)) h) in
    let there =
      ap (get v.id) written ∙ get-put_self v.id (Table.fresh runner_entity now v) r.runners in
    let got = Table.read_entry runner_entity ctx' v.id u r'.runners read in
    let same_record : u ≡ Table.fresh runner_entity now v = some_injective (sym got ∙ there) in
    record {
      there = ap (λ x. get x.id r'.runners) same_record ∙ got;
      same_id = ap (λ x. x.id) same_record ∙ same;
      of_machine = ap (λ x. x.provider_instance_id) same_record ∙ machine;
      of_job = ap (λ x. x.job_id) same_record;
    }
