-- ===== src/Domain/Tests.antt =====
-- Runs of the domain model at concrete inputs.
use leo_runners.Base.{◌≡◌, ◌≤◌, refl, arith, ℕ}
use leo_runners.Base.Int.{pos}
use leo_runners.Domain.Machine.{
  Job, queued, cancelled, terminated, Reaches, here, step, transition, can_transition, moved,
  History, Reaches-History, end_is_in_reach,
}

abbrev job_1 : Job
job_1 = record {
  id = "job-1";
  repository = "r";
  workflow = "w";
  run_id = "1";
  attempt_id = "1";
  state = queued;
  created_at = pos 1;
  updated_at = pos 1;
  expires_at = pos 0;
  revision = 4;
}

job_1_cancelled : Reaches job_1 1 (moved job_1 cancelled (pos 2))
job_1_cancelled =
    step 0 job_1 (moved job_1 cancelled (pos 2)) cancelled (pos 2) here
      (unfold transition can_transition in refl)

Reaches-History_example : History job_1 (moved job_1 cancelled (pos 2)) 1
Reaches-History_example = Reaches-History job_1 _ 1 (omega arith) job_1_cancelled

end_is_in_reach_example :
    (n : ℕ) × (job : Job) × Reaches job_1 n job × (job.state ≡ terminated) × (n ≤ 3)
end_is_in_reach_example = end_is_in_reach job_1 (pos 2)
