-- ===== src/State/Memory.antt =====
-- controller/internal/state/memory.go: the repository in memory. Each method holds the mutex, so
-- that it is one step. Values are not shared here, so the copies that the methods make at the
-- boundary (`cloneJob`, `cloneRunner`, `cloneMap`) are the values themselves.
use leo_runners.Base.{String, Bool, List, [], ◌∷◌, Result, Context, refl, any, not, ◌&&◌, true}
use leo_runners.Base.Int.{ℤ}
use leo_runners.Base.Time.{Time, expired}
use leo_runners.Base.Dict.{Dict}
use leo_runners.State.Types.{
  Job, Runner, Lease, LifecycleEvent, JobState, RunnerState, LeaseState, Error, job_is, runner_is,
  lease_is,
}
use leo_runners.State.Table
use leo_runners.State.Table.{Entity}

pub record MemoryRepository : Type 0 where
  pub jobs : Dict Job
  pub runners : Dict Runner
  pub leases : Dict Lease
  pub events : Dict LifecycleEvent

pub new_memory_repository : MemoryRepository
new_memory_repository = record { jobs = []; runners = []; leases = []; events = [] }

-- `matchesJob` and its kin: with no state wanted, every state matches.
abbrev pub matches {ℓ} : {S : Type ℓ} → (S → Bool) → List S → Bool
matches is [] = true
matches is (s ∷ wanted) = any is (s ∷ wanted)

abbrev pub is_expired_job : Time → Job → Bool
is_expired_job now v =
    expired v.expires_at now
    && not (job_is v.state JobState.completed)
    && not (job_is v.state JobState.cancelled)
    && not (job_is v.state JobState.failed)

abbrev pub is_expired_runner : Time → Runner → Bool
is_expired_runner now v = expired v.expires_at now && not (runner_is v.state RunnerState.terminated)

abbrev pub is_expired_lease : Time → Lease → Bool
is_expired_lease now v = expired v.expires_at now && not (lease_is v.state LeaseState.terminated)

abbrev pub job_entity : Entity
job_entity = record {
  Record = Job;
  id = λ v. v.id;
  revision = λ v. v.revision;
  created_at = λ v. v.created_at;
  updated_at = λ v. v.updated_at;
  stamp = λ v r c u. record v { revision = r; created_at = c; updated_at = u };
  id-stamp = λ v r c u. refl;
  revision-stamp = λ v r c u. refl;
  created_at-stamp = λ v r c u. refl;
  updated_at-stamp = λ v r c u. refl;
}

abbrev pub runner_entity : Entity
runner_entity = record {
  Record = Runner;
  id = λ v. v.id;
  revision = λ v. v.revision;
  created_at = λ v. v.created_at;
  updated_at = λ v. v.updated_at;
  stamp = λ v r c u. record v { revision = r; created_at = c; updated_at = u };
  id-stamp = λ v r c u. refl;
  revision-stamp = λ v r c u. refl;
  created_at-stamp = λ v r c u. refl;
  updated_at-stamp = λ v r c u. refl;
}

abbrev pub lease_entity : Entity
lease_entity = record {
  Record = Lease;
  id = λ v. v.id;
  revision = λ v. v.revision;
  created_at = λ v. v.created_at;
  updated_at = λ v. v.updated_at;
  stamp = λ v r c u. record v { revision = r; created_at = c; updated_at = u };
  id-stamp = λ v r c u. refl;
  revision-stamp = λ v r c u. refl;
  created_at-stamp = λ v r c u. refl;
  updated_at-stamp = λ v r c u. refl;
}

unfoldable pub create_job :
    Time → Context → Job → MemoryRepository → MemoryRepository × Result Error (Unit {0})
create_job now ctx v r =
    let (t, done) = Table.create job_entity now ctx v r.jobs in (record r { jobs = t }, done)

unfoldable pub get_job : Context → String → MemoryRepository → Result Error Job
get_job ctx k r = Table.read job_entity ctx k r.jobs

unfoldable pub save_job :
    Time → Context → Job → ℤ → MemoryRepository → MemoryRepository × Result Error Job
save_job now ctx v expected r =
    let (t, saved) = Table.save job_entity now ctx v expected r.jobs in
    (record r { jobs = t }, saved)

unfoldable pub list_jobs : Context → List JobState → MemoryRepository → Result Error (List Job)
list_jobs ctx states r = Table.list job_entity (λ v. matches (job_is v.state) states) ctx r.jobs

unfoldable pub list_expired_jobs : Context → Time → MemoryRepository → Result Error (List Job)
list_expired_jobs ctx now r = Table.list_where job_entity (λ v. is_expired_job now v) ctx r.jobs

unfoldable pub create_runner :
    Time → Context → Runner → MemoryRepository → MemoryRepository × Result Error (Unit {0})
create_runner now ctx v r =
    let (t, done) = Table.create runner_entity now ctx v r.runners in
    (record r { runners = t }, done)

unfoldable pub get_runner : Context → String → MemoryRepository → Result Error Runner
get_runner ctx k r = Table.read runner_entity ctx k r.runners

unfoldable pub save_runner :
    Time → Context → Runner → ℤ → MemoryRepository → MemoryRepository × Result Error Runner
save_runner now ctx v expected r =
    let (t, saved) = Table.save runner_entity now ctx v expected r.runners in
    (record r { runners = t }, saved)

unfoldable pub list_runners :
    Context → List RunnerState → MemoryRepository → Result Error (List Runner)
list_runners ctx states r =
    Table.list runner_entity (λ v. matches (runner_is v.state) states) ctx r.runners

unfoldable pub list_expired_runners : Context → Time → MemoryRepository → Result Error (List Runner)
list_expired_runners ctx now r =
    Table.list_where runner_entity (λ v. is_expired_runner now v) ctx r.runners

unfoldable pub create_lease :
    Time → Context → Lease → MemoryRepository → MemoryRepository × Result Error (Unit {0})
create_lease now ctx v r =
    let (t, done) = Table.create lease_entity now ctx v r.leases in (record r { leases = t }, done)

unfoldable pub get_lease : Context → String → MemoryRepository → Result Error Lease
get_lease ctx k r = Table.read lease_entity ctx k r.leases

unfoldable pub save_lease :
    Time → Context → Lease → ℤ → MemoryRepository → MemoryRepository × Result Error Lease
save_lease now ctx v expected r =
    let (t, saved) = Table.save lease_entity now ctx v expected r.leases in
    (record r { leases = t }, saved)

unfoldable pub list_leases :
    Context → List LeaseState → MemoryRepository → Result Error (List Lease)
list_leases ctx states r =
    Table.list lease_entity (λ v. matches (lease_is v.state) states) ctx r.leases

unfoldable pub list_expired_leases : Context → Time → MemoryRepository → Result Error (List Lease)
list_expired_leases ctx now r =
    Table.list_where lease_entity (λ v. is_expired_lease now v) ctx r.leases
