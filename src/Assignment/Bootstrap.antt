-- ===== src/Assignment/Bootstrap.antt =====
-- What `Service.Assign` of controller/internal/runners/runners.go is configured with, what it admits,
-- and what it sends to GitHub, to the provider and to the repository.
use leo_runners.Base.{
  String, [], ◌∷◌, Option, none, some, Bool, not, ◌&&◌, ◌||◌, str_eq, str_append, if◌then◌else◌,
  is_nil, Result, ok, err,
}
use leo_runners.Base.Int.{ℤ, pos, leb_ℤ, eqb_ℤ}
use leo_runners.Base.Time.{Time}
use leo_runners.Base.Text.{is_empty, is_blank, trim_space}
use leo_runners.Base.Dict.{get, put}
use leo_runners.Base.Decimal.{format_int}
use leo_runners.State.Types.{LifecycleEvent}
use leo_runners.State.Events.{text_at}
use leo_runners.Lifecycle.Provider.{RunnerSpec}
use leo_runners.Lifecycle.Fake.{clone_spec}
use leo_runners.Assignment.Request.{
  JitRequest, JitConfig, GithubRunner, Registration, state_text, AssignmentRequest, AssignError,
}
use leo_runners.Assignment.Policy.{AssignmentPolicy, validate}

-- The error of a pair `(_, error)`.
unfoldable pub error_of {ℓ} : {A E : Type ℓ} → Result E A → Option E
error_of (ok x) = none
error_of (err e) = some e

-- The event of `persistRegistration`.
unfoldable pub registration_event : Registration → Time → LifecycleEvent
registration_event g at =
    let id =
      str_append "runner-registration/"
        (str_append g.runner_id (str_append "/" (state_text g.state))) in
    record {
      id = id;
      idempotency_key = id;
      kind = str_append "runner.registration." (state_text g.state);
      job_id = g.job_id;
      lease_id = "";
      runner_id = g.runner_id;
      provider = "github";
      occurred_at = at;
      payload =
          ("github_runner_id", format_int g.github_runner_id)
          ∷ ("github_runner_name", g.github_runner_name)
          ∷ ("registration_state", state_text g.state)
          ∷ [];
    }

-- The specification that the provider is given.
unfoldable pub bootstrap : RunnerSpec → JitConfig → String → RunnerSpec
bootstrap spec jit repository = record (clone_spec spec) {
  metadata = put "github_repository" repository (
      put "github_runner_name" jit.runner_name (
        put "github_runner_id" (format_int jit.runner_id)
          (put "github_jit_config" jit.encoded_config [])));
}

-- The answer to `GenerateJITConfig` that is refused.
abbrev pub bad_config : JitConfig → Bool
bad_config jit =
    is_empty jit.encoded_config || leb_ℤ jit.runner_id (pos 0) || is_blank jit.runner_name

abbrev pub other_runner : GithubRunner → JitConfig → Bool
other_runner who jit =
    not (eqb_ℤ who.id jit.runner_id) || not (str_eq (trim_space who.name) jit.runner_name)

-- The configuration of a service.
pub record Settings (Handle : Type 0) : Type 0 where
  pub provider : Option Handle
  pub runner_group_id : Option ℤ
  pub policy : AssignmentPolicy

abbrev pub request_of : {Handle : Type 0} → Settings Handle → AssignmentRequest Handle → JitRequest
request_of c q = record {
  repository = q.job.repository;
  name = text_at (get "github_runner_name" q.spec.metadata);
  labels = q.job.labels;
  runner_group_id = c.runner_group_id;
}

-- The request's own provider comes before the service's.
abbrev pub chosen_provider : {Handle : Type 0} → Option Handle → Option Handle → Option Handle
chosen_provider (some h) o = some h
chosen_provider none o = o

-- `Policy.validate`, where the policy names repositories or labels.
unfoldable pub admitted :
    {Handle : Type 0}
    → (String → String → Bool)
    → Settings Handle
    → AssignmentRequest Handle
    → Option AssignError
admitted equal_fold c q =
    if is_nil c.policy.repositories && is_nil c.policy.allowed_labels
    then none
    else validate equal_fold c.policy q c.runner_group_id
