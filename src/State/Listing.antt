-- ===== src/State/Listing.antt =====
-- Listings: the records that pass a test, each once, in the order of their identifiers.
use mathlib.Core.List.{Perm}
use leo_runners.Base.{
  Bool, List, ◌≡◌, Context, live, done, subst, ok_injective, keep_all, ok, keep, true, ◌↔◌,
}
use leo_runners.Base.Time.{Time}
use leo_runners.Base.Dict.{values}
use leo_runners.Base.Sort.{sort, IsSorted, sort-IsSorted, sort-perm, keep-sort-perm, keep-IsSorted}
use leo_runners.Base.Text.Order.{by_key-IsStrictOrder}
use leo_runners.State.Types.{
  Job, Runner, Lease, JobState, RunnerState, LeaseState, job_is, runner_is, lease_is,
}
use leo_runners.State.Table.{Entity, Table, list, list_where, by_id}
use leo_runners.State.Passing.{
  Wanted, matches-Wanted, IsOverdueJob, IsOverdueRunner, IsOverdueLease, job_is_exact,
  runner_is_exact, lease_is_exact, job_is_itself, runner_is_itself, lease_is_itself,
  is_expired_job-IsOverdueJob, is_expired_runner-IsOverdueRunner, is_expired_lease-IsOverdueLease,
}
use leo_runners.State.Memory.{
  MemoryRepository, job_entity, runner_entity, lease_entity, matches, is_expired_job,
  is_expired_runner, is_expired_lease, list_jobs, list_runners, list_leases, list_expired_jobs,
  list_expired_runners, list_expired_leases,
}

module _ (entity : Entity) where
  open entity use {Record, id}

  -- The records of the table that pass a test, in the order of their identifiers.
  abbrev Passing : (Record → Bool) → Table entity → List Record → Type 0
  Passing test t vs = Perm vs (keep test (values t)) × IsSorted (by_id entity) vs

  -- `vs` are the records of the table of which `P` holds, in the order of their identifiers: those
  -- that pass a test which decides `P`.
  abbrev pub Lists : (Record → Type 0) → Table entity → List Record → Type 0
  Lists P t vs =
      (test : Record → Bool) × ((v : Record) → test v ≡ true ↔ P v)
      × Perm vs (keep test (values t))
      × IsSorted (by_id entity) vs

  passes :
      (P : Record → Type 0) (test : Record → Bool) (t : Table entity) (vs : List Record)
      → ((v : Record) → test v ≡ true ↔ P v)
      → Passing test t vs
      → Lists P t vs
  passes P test t vs decides (same, sorted) = (test, decides, same, sorted)

  Passing-sort :
      (test : Record → Bool) (t : Table entity)
      → Passing test t (sort (by_id entity) (keep test (values t)))
  Passing-sort test t = (
    sort-perm (by_id entity) (keep test (values t)),
    sort-IsSorted (by_key-IsStrictOrder id) (keep test (values t)),
  )

  list-Passing :
      (test : Record → Bool) (ctx : Context) (t : Table entity) (vs : List Record)
      → list entity test ctx t ≡ ok vs
      → Passing test t vs
  unfolding list
  list-Passing test live t vs listed =
      subst (Passing test t) (ok_injective listed) (Passing-sort test t)
  list-Passing test (done e) t vs listed = cc

  list_where-Passing :
      (test : Record → Bool) (ctx : Context) (t : Table entity) (vs : List Record)
      → list_where entity test ctx t ≡ ok vs
      → Passing test t vs
  unfolding list_where
  list_where-Passing test live t vs listed = subst (Passing test t) (ok_injective listed) (
      rw (keep_all (values t)) (
        keep-sort-perm (by_id entity) test (values t),
        keep-IsSorted (by_id entity) test _ (sort-IsSorted (by_key-IsStrictOrder id) (values t)),
      ))
  list_where-Passing test (done e) t vs listed = cc

-- A listing by states gives exactly the records whose state is one of those that are wanted (all
-- records, if none is wanted), each as often as it is stored, in the order of their identifiers.
pub listings_by_state :
    (r : MemoryRepository) (ctx : Context) (jobs : List Job) (runners : List Runner)
    (leases : List Lease) (js : List JobState) (rs : List RunnerState) (ls : List LeaseState)
    → (list_jobs ctx js r ≡ ok jobs → Lists job_entity (λ v. Wanted js v.state) r.jobs jobs)
      × (list_runners ctx rs r ≡ ok runners
          → Lists runner_entity (λ v. Wanted rs v.state) r.runners runners)
      × (list_leases ctx ls r ≡ ok leases
          → Lists lease_entity (λ v. Wanted ls v.state) r.leases leases)
unfolding list_jobs list_runners list_leases
listings_by_state r ctx jobs runners leases js rs ls = (
  λ listed.
      passes job_entity (λ v. Wanted js v.state) (λ v. matches (job_is v.state) js) r.jobs jobs
        (λ v.
          matches-Wanted (job_is v.state) v.state (job_is_exact v.state) (job_is_itself v.state) js)
        (list-Passing job_entity _ ctx r.jobs jobs listed),
  λ listed.
      passes runner_entity (λ v. Wanted rs v.state) (λ v. matches (runner_is v.state) rs) r.runners
        runners
        (λ v.
          matches-Wanted (runner_is v.state) v.state (runner_is_exact v.state)
            (runner_is_itself v.state) rs)
        (list-Passing runner_entity _ ctx r.runners runners listed),
  λ listed.
      passes lease_entity (λ v. Wanted ls v.state) (λ v. matches (lease_is v.state) ls) r.leases
        leases
        (λ v.
          matches-Wanted (lease_is v.state) v.state (lease_is_exact v.state)
            (lease_is_itself v.state) ls)
        (list-Passing lease_entity _ ctx r.leases leases listed),
)

-- A listing of expired records gives exactly the jobs that have an expiry, not after now, and are
-- not completed, cancelled or failed, the runners that have one and are not terminated, and the
-- leases that have one and are not terminated, each as often as it is stored, in the order of their
-- identifiers.
pub listings_of_expired :
    (r : MemoryRepository) (ctx : Context) (now : Time) (jobs : List Job) (runners : List Runner)
    (leases : List Lease)
    → (list_expired_jobs ctx now r ≡ ok jobs → Lists job_entity (IsOverdueJob now) r.jobs jobs)
      × (list_expired_runners ctx now r ≡ ok runners
          → Lists runner_entity (IsOverdueRunner now) r.runners runners)
      × (list_expired_leases ctx now r ≡ ok leases
          → Lists lease_entity (IsOverdueLease now) r.leases leases)
unfolding list_expired_jobs list_expired_runners list_expired_leases
listings_of_expired r ctx now jobs runners leases = (
  λ listed.
      passes job_entity (IsOverdueJob now) (is_expired_job now) r.jobs jobs
        (is_expired_job-IsOverdueJob now) (list_where-Passing job_entity _ ctx r.jobs jobs listed),
  λ listed.
      passes runner_entity (IsOverdueRunner now) (is_expired_runner now) r.runners runners
        (is_expired_runner-IsOverdueRunner now)
        (list_where-Passing runner_entity _ ctx r.runners runners listed),
  λ listed.
      passes lease_entity (IsOverdueLease now) (is_expired_lease now) r.leases leases
        (is_expired_lease-IsOverdueLease now)
        (list_where-Passing lease_entity _ ctx r.leases leases listed),
)
