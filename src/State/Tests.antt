-- ===== src/State/Tests.antt =====
-- A job "j1" that is created and saved, and the events of its registration.
use leo_runners.Base.{
  ℕ, String, some, List, [], ◌∷◌, ◌≡◌, ◌≢◌, refl, true, false, ok, err, live, arith, eq_iff, ◌⊎◌,
  ◌<◌,
}
use leo_runners.Base.Int.{pos, add64}
use leo_runners.Base.Time.{Time, is_zero}
use leo_runners.Base.Dict.{get, put}
use leo_runners.Base.Text.Order.{str_lt}
use leo_runners.Base.Sort.{sort, insert}
use leo_runners.State.Types.{
  Job, LifecycleEvent, JobState, revision_conflict, event_conflict, already_exists,
}
use leo_runners.State.Table.{Table, create, save, fresh, next_version, list, list_where}
use leo_runners.State.Memory.{
  MemoryRepository, job_entity, save_job, get_job, list_jobs, list_expired_jobs,
}
use leo_runners.State.Concurrency.{no_lost_update}
use leo_runners.State.Saving.{save_then_read}
use leo_runners.State.Creation.{create_then_read}
use leo_runners.State.Versions.{run, saves, revision_names_version}
use leo_runners.State.Passing.{Wanted, IsOverdueJob}
use leo_runners.State.Listing.{Lists, listings_by_state, listings_of_expired}
use leo_runners.State.Events.{same_event, key_of, stored, maps_equal, insert_lifecycle_event}
use leo_runners.State.Idempotency.{
  key_names_event, keyless_repetition_conflicts, maps_equal_confuses,
}

abbrev job_at : String → JobState → ℕ → ℕ → ℕ → Job
job_at id state created updated revision = record {
  id = id;
  repository = "acme/app";
  workflow = "ci";
  run_id = pos 7;
  job_id = pos 9;
  attempt = pos 1;
  labels = "linux" ∷ [];
  state = state;
  controller_owner = "";
  created_at = pos created;
  updated_at = pos updated;
  expires_at = pos 100;
  revision = pos revision;
}

abbrev queued_job : Job
queued_job = job_at "j1" JobState.queued 5 5 1

abbrev assigned_job : Job
assigned_job = job_at "j1" JobState.assigned 5 9 2

abbrev one_job : Table job_entity
one_job = ("j1", queued_job) ∷ []

abbrev saved_job : Table job_entity
saved_job = ("j1", assigned_job) ∷ []

abbrev jobs_only : Table job_entity → MemoryRepository
jobs_only jobs = record { jobs = jobs; runners = []; leases = []; events = [] }

first_save :
    save job_entity (pos 9) live (job_at "j1" JobState.assigned 5 0 1) (pos 1) one_job
    ≡ (saved_job, ok assigned_job)
unfolding save next_version get put
first_save = refl

no_lost_update_example :
    save job_entity (pos 10) live (job_at "j1" JobState.failed 5 0 1) (pos 1) saved_job
    ≡ (saved_job, err revision_conflict)
no_lost_update_example =
    no_lost_update job_entity (pos 9) (pos 10) live (job_at "j1" JobState.assigned 5 0 1)
      (job_at "j1" JobState.failed 5 0 1) assigned_job (pos 1) one_job saved_job first_save refl

first_save_job :
    save_job (pos 9) live (job_at "j1" JobState.assigned 5 0 1) (pos 1) (jobs_only one_job)
    ≡ (jobs_only saved_job, ok assigned_job)
unfolding save_job save next_version get put
first_save_job = refl

save_then_read_example :
    (c : Time) × (assigned_job ≡ record (job_at "j1" JobState.assigned 5 0 1) {
      revision = add64 (pos 1) (pos 1);
      created_at = c;
      updated_at = pos 9;
    })
    × (is_zero (pos 5) ≡ false → c ≡ pos 5)
    × ((old : Job)
        → get_job live "j1" (jobs_only one_job) ≡ ok old
        → is_zero (pos 5) ≡ true
        → c ≡ old.created_at)
    × (get_job live "j1" (jobs_only saved_job) ≡ ok assigned_job)
    × (◌≢◌ {A = String} "j2" "j1"
        → get_job live "j2" (jobs_only saved_job) ≡ get_job live "j2" (jobs_only one_job))
save_then_read_example =
    (save_then_read (pos 9) live live "j2" (pos 1) (jobs_only one_job) (jobs_only saved_job)).0
      (job_at "j1" JobState.assigned 5 0 1) assigned_job first_save_job

first_create :
    create job_entity (pos 5) live (job_at "j1" JobState.queued 0 0 0) [] ≡ (one_job, ok tt)
unfolding create fresh get put
first_create = refl

create_then_read_example :
    create job_entity (pos 6) live (job_at "j1" JobState.queued 0 0 0) one_job
    ≡ (one_job, err already_exists)
create_then_read_example =
    (create_then_read job_entity (pos 5) (pos 6) live live (job_at "j1" JobState.queued 0 0 0)
        (job_at "j1" JobState.queued 0 0 0) [] one_job "j2" first_create).3
      refl

revision_names_version_example :
    (new : Job) × (m : ℕ) × (get "j1" (
        run job_entity one_job
          (saves (pos 9) live (job_at "j1" JobState.assigned 5 0 1) (pos 1) ∷ []))
      ≡ some new)
    × (new.revision ≡ pos m)
    × (((new ≡ queued_job) × (m ≡ 1)) ⊎ (1 < m))
revision_names_version_example =
    revision_names_version job_entity queued_job 1 "j1" one_job
      (saves (pos 9) live (job_at "j1" JobState.assigned 5 0 1) (pos 1) ∷ []) (unfold get in refl)
      refl (omega arith)

abbrev late_job : Job
late_job = job_at "j0" JobState.running 6 6 1

abbrev repository : List LifecycleEvent → MemoryRepository
repository events = record {
  jobs = ("j1", queued_job) ∷ ("j0", late_job) ∷ [];
  runners = [];
  leases = [];
  events = events_by events;
}
  where
    events_by : List LifecycleEvent → List (String × LifecycleEvent)
    events_by [] = []
    events_by (e ∷ es) = (e.idempotency_key, e) ∷ events_by es

listings_by_state_example :
    Lists job_entity
      (λ v. Wanted (JobState.running ∷ []) v.state)
      (repository []).jobs
      (late_job ∷ [])
unfolding list_jobs list sort insert str_lt
listings_by_state_example =
    (listings_by_state (repository []) live (late_job ∷ []) [] [] (JobState.running ∷ []) [] []).0
      refl

listings_of_expired_example :
    Lists job_entity (IsOverdueJob (pos 200)) (repository []).jobs (late_job ∷ queued_job ∷ [])
unfolding list_expired_jobs list_where sort insert str_lt
listings_of_expired_example =
    (listings_of_expired (repository []) live (pos 200) (late_job ∷ queued_job ∷ []) [] []).0 refl

abbrev event_with : String → LifecycleEvent
event_with key = record {
  id = "e1";
  idempotency_key = key;
  kind = "queued";
  job_id = "j1";
  lease_id = "";
  runner_id = "";
  provider = "github";
  occurred_at = pos 3;
  payload = ("runner", "r1") ∷ [];
}

insert_keyed :
    insert_lifecycle_event live (event_with "k1") (repository [])
    ≡ (repository (event_with "k1" ∷ []), ok true)
unfolding insert_lifecycle_event get put key_of stored
insert_keyed = refl

insert_keyless :
    insert_lifecycle_event live (event_with "") (repository [])
    ≡ (repository (event_with "e1" ∷ []), ok true)
unfolding insert_lifecycle_event get put key_of stored
insert_keyless = refl

github_not_aws : ◌≢◌ {A = String} "github" "aws"
github_not_aws = ground (arith, eq_iff "github" "aws")

key_names_event_example :
    insert_lifecycle_event live
      (record (event_with "k1") { provider = "aws" })
      (repository (event_with "k1" ∷ []))
    ≡ (repository (event_with "k1" ∷ []), err event_conflict)
unfolding same_event stored key_of maps_equal get
key_names_event_example =
    (key_names_event live (event_with "k1") (record (event_with "k1") { provider = "aws" })
        (repository []) (repository (event_with "k1" ∷ [])) insert_keyed refl refl).2
      (λ agrees. github_not_aws agrees.same_provider)

keyless_repetition_conflicts_example :
    insert_lifecycle_event live (event_with "") (repository (event_with "e1" ∷ []))
    ≡ (repository (event_with "e1" ∷ []), err event_conflict)
keyless_repetition_conflicts_example =
    (keyless_repetition_conflicts live (event_with "") (repository [])
      (repository (event_with "e1" ∷ [])) insert_keyless refl refl).1

a_not_b : ◌≢◌ {A = String} "a" "b"
a_not_b = ground (arith, eq_iff "a" "b")

maps_equal_confuses_example : maps_equal (("a", "") ∷ []) (("b", "x") ∷ []) ≡ true
maps_equal_confuses_example = (maps_equal_confuses "a" "b" "x" a_not_b).0
