-- ===== src/Lib.antt =====
-- leoRunners: a verification library of the runner controller in controller/internal.
--
-- The controller gives GitHub workflow jobs short-lived runners. Its durable records (jobs,
-- runners, leases and lifecycle events) stand in a repository with conditional writes; several
-- controllers agree on a leader by leases with fencing tokens; a leader reserves capacity in the
-- registry of pools with its token; providers start and stop the machines; and the lifecycle
-- manager moves jobs and reaps runners that have expired, reading and writing the repository and
-- calling the provider. A webhook delivery reaches the controller, which records it, queues the job
-- with the scheduler or the runner service, and finishes it.
--
-- The parts and their files:
--   Base (Tests, Lists, Outcome, Int, Time, Text, Dict, Keys, Sort, Decimal): what the Go code uses
--     of its language and its standard library. Int has the 64-bit integers with their
--     wrap-around, Time the instants, Text the trimming of blanks and the order of strings, Dict
--     the maps, Sort `sort.Slice`, Decimal the printing of numbers, Outcome results with errors
--     and contexts.
--   Coordination: controller/internal/coordination. Lease and Coordinator follow coordination.go
--     (the errors, `validate`, `Acquire`, `Renew`, `Release`), MemoryStore follows memory.go. Calls
--     has the histories of calls by several controllers, each call one step with its own clock.
--   State: controller/internal/state. Types follows types.go, Table and Memory follow memory.go:
--     the methods of jobs, runners and leases are one text in Table, used three times in Memory
--     (`create_job` is `CreateJob`). Events follows the methods on lifecycle events.
--   Capacity: controller/internal/capacity/capacity.go. Pool has the types, Validation
--     `Pool.Validate`, Registry the plain operations, Replica the fenced ones, Selection `Select`.
--     Leadership joins it to Coordination.
--   Lifecycle: Transitions follows controller/internal/lifecycle/lifecycle.go; System, Repair,
--     Reconciler and Reaper follow reconciler.go (`reconcile` is `Reconcile`, `reap` is
--     `ReapExpired`); Provider and Fake follow controller/internal/providers/provider.go, and so
--     does `waited` of Solitude, the whole `WaitReady`.
--   Scheduler: controller/internal/scheduler/scheduler.go. Cloud stands for all providers of a
--     deployment; Scheduling has `Schedule`, `Reserve` and `Release`, one function for each call
--     that they make, by the call's answer. Fakes has a deployment of two fake providers.
--   Assignment: controller/internal/runners/runners.go, in the same way. Registrar stands for the
--     GitHub client, Policy is the admission, Bootstrap what is sent, Cleanup the closure `cleanup`,
--     Service `Assign`.
--   Github: Events follows controller/internal/github/events.go, Scope scope.go, and Retry and
--     Attempts retry.go.
--   Controller: controller/internal/controller/controller.go. Deployment has its state and its
--     configuration, Queueing the queued branch, Finishing `finish`, Handler `HandleWorkflowJob`.
--   Policy: `Select` of controller/internal/policy/policy.go, which the scheduler calls.
--   Domain: the jobs of controller/internal/domain/domain.go and their transitions.
--
-- How the state corresponds: a struct is a record with the fields of the struct, a mutex-guarded
-- object is a record that each method takes and gives back, a method under its mutex is one step,
-- and interleavings are sequences of such steps. An answer `(T, error)` is a `Result`, an `error`
-- alone an `Option`; wrapped errors are told apart by the error that `errors.Is` finds. Readings of
-- the clock are arguments; where a pass makes several calls, Surroundings gives each call, by its
-- number, its own reading and its own context, which may be done at any of them.
--
-- Bounds: `int`, `int64` and `time.Duration` are integers with the wrap-around of 64 bits written
-- out where they are added to or subtracted from (`add64`, `sub64`, `incr_u64`); theorems that
-- need it say that no sum leaves 64 bits. Instants do not wrap. A loop is a recursion on its list,
-- or on the number of its rounds where the code counts them (the attempts of a request, and the
-- rounds of their delay); the printing of a number alone runs on fuel, for 20 digits, and no 64-bit
-- integer has more. A map is an association list, whose order is one order in which `range` may
-- visit it; insertion sort stands for `sort.Slice`, which gives the same where no two elements
-- compare equal. Prices are `float64`, a type that is a parameter with the tests the code makes.
--
-- Parameters: `strings.EqualFold`, `strings.ToLower`, `Time.Format`, `strconv.ParseInt`,
-- `http.ParseTime`, decoded JSON, the HTTP transport, the providers, the GitHub client and, for the
-- controller, the runner service.
--
-- Not modelled: shared memory (the copies that the code makes at its boundaries are values here),
-- the texts of errors, logging and metrics, nil dependencies, states that are none of the declared
-- constants, and calls of `Assign` or of `HandleWorkflowJob` that run at the same time; the file and
-- DynamoDB repositories, the AWS and GCP providers and the GitHub client, which are input and
-- output; the event bus, cache, configuration, extensions, the analysis of measurements, the
-- command, and the Go programs in tools, which check files of this repository.
pub mod Base
pub mod Coordination
pub mod State
pub mod Capacity
pub mod Github
pub mod Lifecycle
pub mod Policy
pub mod Controller
pub mod Domain
pub mod Scheduler
pub mod Assignment
