-- ===== src/Github/Events.antt =====
-- controller/internal/github/events.go: a workflow_job delivery and its normal form. The payload is
-- taken as `json.Unmarshal` leaves it. The owner of a repository, of any JSON type, is left out:
-- nothing reads it.
use leo_runners.Base.{
  String, List, Option, none, some, Bool, true, false, not, if◌then◌else◌, Result, ok, err,
  str_append, str_eq, ◌&&◌,
}
use leo_runners.Base.Int.{ℤ, pos, leb_ℤ}
use leo_runners.Base.Time.{Time, is_zero}
use leo_runners.Base.Text.{is_empty, trim_space}
use leo_runners.Base.Decimal.{format_int}

pub data Action : Type 0 where
  queued in_progress completed cancelled : Action
  other : String → Action

abbrev pub action_text : Action → String
action_text queued = "queued"
action_text in_progress = "in_progress"
action_text completed = "completed"
action_text cancelled = "cancelled"
action_text (other s) = s

-- `Action.valid`
abbrev pub is_known : Action → Bool
is_known (other s) = false
is_known _ = true

pub record Repository : Type 0 where
  pub id : ℤ
  pub full_name : String
  pub name : String
  pub is_fork : Bool

pub record WorkflowJob : Type 0 where
  pub id : ℤ
  pub run_id : ℤ
  pub run_attempt : ℤ
  pub name : String
  pub workflow_name : String
  pub head_branch : String
  pub head_sha : String
  pub status : String
  pub conclusion : String
  pub labels : List String
  pub runner_name : String
  pub runner_id : ℤ
  pub repository : Repository

pub record WorkflowJobEvent : Type 0 where
  pub event_name : String
  pub event_id : String
  pub delivery_id : String
  pub action : Action
  pub received_at : Time
  pub dedup_key : String
  pub job_key : String
  pub run_key : String
  pub job : WorkflowJob

pub record WorkflowJobPayload : Type 0 where
  pub action : Action
  pub workflow_job : WorkflowJob
  pub repository : Repository

pub data PayloadError : Type 0 where
  undecodable unsupported_action no_job_id no_run_id unexpected_event : PayloadError

abbrev pub attempt_of : ℤ → ℤ
attempt_of n = if leb_ℤ n (pos 0) then pos 1 else n

-- The repository beside the job comes before the one in it.
abbrev pub repository_of : WorkflowJobPayload → Repository
repository_of p =
    if is_empty p.repository.full_name then p.workflow_job.repository else p.repository

unfoldable pub job_key_of : String → ℤ → String
job_key_of repo id = str_append repo (str_append "/job/" (format_int id))

unfoldable pub run_key_of : String → ℤ → ℤ → String
run_key_of repo id attempt =
    str_append repo (
      str_append "/run/" (str_append (format_int id) (str_append "/attempt/" (format_int attempt))))

-- The key of a delivery that has no identifier.
unfoldable pub action_key : String → Action → String
action_key job_key action = str_append job_key (str_append "/action/" (action_text action))

unfoldable pub event_of : WorkflowJobPayload → String → Time → Time → WorkflowJobEvent
unfolding job_key_of run_key_of action_key
event_of p delivery received now =
    let attempt = attempt_of p.workflow_job.run_attempt in
    let repo = trim_space (repository_of p).full_name in
    let job_key = job_key_of repo p.workflow_job.id in
    let given = trim_space delivery in
    let key = if is_empty given then action_key job_key p.action else given in
    record {
      event_name = "workflow_job";
      event_id = key;
      delivery_id = given;
      action = p.action;
      received_at = if is_zero received then now else received;
      dedup_key = key;
      job_key = job_key;
      run_key = run_key_of repo p.workflow_job.run_id attempt;
      job = record p.workflow_job { run_attempt = attempt; repository = repository_of p };
    }

-- `NormalizeWorkflowJob`, with the reading of the clock.
unfoldable pub normalize_workflow_job :
    Option WorkflowJobPayload → String → Time → Time → Result PayloadError WorkflowJobEvent
unfolding event_of
normalize_workflow_job none delivery received now = err undecodable
normalize_workflow_job (some p) delivery received now =
    if not (is_known p.action)
    then err unsupported_action
    else if leb_ℤ p.workflow_job.id (pos 0)
    then err no_job_id
    else if leb_ℤ p.workflow_job.run_id (pos 0)
    then err no_run_id
    else ok (event_of p delivery received now)

-- `NormalizeWorkflowJobHeaders`, with the values of the two headers as `headerValue` finds them.
unfoldable pub normalize_workflow_job_headers :
    Option WorkflowJobPayload → String → String → Time → Time → Result PayloadError WorkflowJobEvent
unfolding normalize_workflow_job
normalize_workflow_job_headers p event delivery received now =
    let name = trim_space event in
    if not (is_empty name) && not (str_eq name "workflow_job")
    then err unexpected_event
    else normalize_workflow_job p (trim_space delivery) received now
