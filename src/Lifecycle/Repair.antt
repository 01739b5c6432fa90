-- ===== src/Lifecycle/Repair.antt =====
-- What `Reconcile` of controller/internal/lifecycle/reconciler.go infers: the states that records
-- should have, from the provider's answers and from each other.
use leo_runners.Base.{Option, none, some, Bool, not, ◌&&◌, ◌||◌, if◌then◌else◌}
use leo_runners.Base.Time.{Time, expired}
use leo_runners.State.Types.{
  Job, Runner, Lease, JobState, RunnerState, LeaseState, job_is, runner_is, lease_is,
}
use leo_runners.Lifecycle.Provider.{RunnerStatus}

-- `runnerState`
abbrev pub runner_state : RunnerStatus → RunnerState
runner_state RunnerStatus.provisioning = RunnerState.provisioning
runner_state RunnerStatus.ready = RunnerState.ready
runner_state RunnerStatus.busy = RunnerState.busy
runner_state RunnerStatus.terminating = RunnerState.terminating
runner_state RunnerStatus.terminated = RunnerState.terminated
runner_state RunnerStatus.failed = RunnerState.failed
runner_state RunnerStatus.unknown = RunnerState.unknown

-- `isTerminalJob`
abbrev pub is_terminal_job : JobState → Bool
is_terminal_job s =
    job_is s JobState.completed || job_is s JobState.cancelled || job_is s JobState.failed

-- A runner that is terminated, failed or unknown.
abbrev pub is_lost : RunnerState → Bool
is_lost s =
    runner_is s RunnerState.terminated
    || runner_is s RunnerState.failed
    || runner_is s RunnerState.unknown

-- The state of a lease whose job or runner is missing.
abbrev pub stranded : LeaseState → LeaseState
stranded s =
    if not (lease_is s LeaseState.terminated) && not (lease_is s LeaseState.failed)
    then LeaseState.failed
    else s

-- The cases of the `switch` on leases.
unfoldable pub lease_target : Time → Option Job → Option Runner → Lease → LeaseState
lease_target now none _ lease = stranded lease.state
lease_target now (some job) none lease = stranded lease.state
lease_target now (some job) (some runner) lease =
    if expired lease.expires_at now
    then LeaseState.terminated
    else if is_terminal_job job.state
    then LeaseState.terminated
    else if runner_is runner.state RunnerState.terminated
    then LeaseState.terminated
    else if runner_is runner.state RunnerState.failed || runner_is runner.state RunnerState.unknown
    then LeaseState.failed
    else if lease_is lease.state LeaseState.pending
    then LeaseState.active
    else lease.state

-- The state of a job that has expired.
abbrev pub expiry_target : Time → Job → JobState
expiry_target now job =
    if not (is_terminal_job job.state) && expired job.expires_at now
    then JobState.failed
    else job.state

-- A lease that has ended.
abbrev pub is_over : LeaseState → Bool
is_over s =
    lease_is s LeaseState.terminated
    || lease_is s LeaseState.failed
    || lease_is s LeaseState.cancelled
    || lease_is s LeaseState.completed

-- The state of a job with a runner that is not lost.
abbrev pub following : RunnerState → JobState → JobState
following runner s =
    if runner_is runner RunnerState.busy
      && (job_is s JobState.queued || job_is s JobState.provisioning || job_is s JobState.assigned)
    then JobState.running
    else if runner_is runner RunnerState.ready
        && (job_is s JobState.queued || job_is s JobState.provisioning)
    then JobState.assigned
    else s

-- The state of a job that is not terminal, from its lease and the lease's runner.
unfoldable pub job_target : Option Lease → Option Runner → JobState → JobState
job_target none _ s =
    if job_is s JobState.assigned || job_is s JobState.running then JobState.failed else s
job_target (some lease) none s = JobState.failed
job_target (some lease) (some runner) s =
    if is_over lease.state
    then JobState.failed
    else if is_lost runner.state
    then JobState.failed
    else following runner.state s
