-- ===== src/Lifecycle/Fake.antt =====
-- `FakeProvider` of controller/internal/providers/provider.go, the provider of tests and local
-- runs. Each method holds the mutex, so that it is one step; `WaitReady` lets go of it while it
-- waits, and is two.
use leo_runners.Base.{
  ℕ, String, [], Option, none, some, Bool, false, not, ◌||◌, ◌&&◌, if◌then◌else◌, Result, ok, err,
  ◌∷◌, Context, live, done, length, keep, ◌==◌,
}
use leo_runners.Base.Int.{ℤ, pos, ltb_ℤ, leb_ℤ, eqb_ℤ, sub64, incr_u64}
use leo_runners.Base.Time.{Time, Duration}
use leo_runners.Base.Dict.{Dict, get, put, values}
use leo_runners.Lifecycle.Provider.{
  Provider, ProviderError, RunnerInstance, RunnerSpec, RunnerStatus, capacity, instance_not_found,
  context, failure, provisioning, ready, unknown, busy, terminating, terminated, failed,
}

abbrev pub status_code : RunnerStatus → ℕ
status_code unknown = 0
status_code provisioning = 1
status_code ready = 2
status_code busy = 3
status_code terminating = 4
status_code terminated = 5
status_code failed = 6

abbrev pub status_is : RunnerStatus → RunnerStatus → Bool
status_is a b = status_code a == status_code b

-- The failures to come, by operation, and their error if it is not nil.
pub record FailurePlan : Type 0 where
  pub provision : ℤ
  pub wait_ready : ℤ
  pub status : ℤ
  pub terminate : ℤ
  pub error : Option ProviderError

pub record Fake : Type 0 where
  pub capacity : ℤ
  pub ready_after : Duration
  pub failures : FailurePlan
  pub instances : Dict RunnerInstance
  pub sequence : ℕ

abbrev pub context_error : Context → Option ProviderError
context_error live = none
context_error (done e) = some (context e)

-- `failureLocked`: the error, if a failure is due, and the count that is left.
unfoldable pub failure_locked : Option ProviderError → ℤ → Option ProviderError × ℤ
failure_locked e count = if eqb_ℤ count (pos 0) then (none, count) else (
  some (elim e [ some x ↦ x | none ↦ failure "fake provider injected failure" ]),
  if ltb_ℤ (pos 0) count then sub64 count (pos 1) else count,
)

-- `for key, value := range from { to[key] = value }`
abbrev pub copy_entries : Dict String → Dict String → Dict String
copy_entries [] to = to
copy_entries ((k, v) ∷ from) to = copy_entries from (put k v to)

-- `cloneSpec`: the loop ranges over the field, which has been set to a new map before. A nil map and
-- an empty one are both `[]`.
abbrev pub clone_spec : RunnerSpec → RunnerSpec
clone_spec spec =
    let made : RunnerSpec = record spec { metadata = [] } in
    record made { metadata = copy_entries made.metadata made.metadata }

abbrev pub clone_instance : RunnerInstance → RunnerInstance
clone_instance i = record i { spec = clone_spec i.spec }

abbrev pub is_active : RunnerInstance → Bool
is_active i = not (status_is i.status terminated)

abbrev pub active_count : Fake → ℕ
active_count f = length (keep is_active (values f.instances))

-- The zero instance, which a map gives for a missing key.
abbrev pub no_instance : RunnerInstance
no_instance = record {
  id = "";
  provider_id = "";
  provider = "";
  status = unknown;
  created_at = pos 0;
  expires_at = pos 0;
  spec = record {
    cpu = pos 0;
    memory_gb = pos 0;
    architecture = "";
    os = "";
    disk_gb = pos 0;
    gpu = false;
    image = "";
    labels = [];
    docker_required = false;
    node_version = "";
    security_profile = "";
    metadata = [];
    expires_at = pos 0;
  };
}

abbrev pub or_zero : Option RunnerInstance → RunnerInstance
or_zero none = no_instance
or_zero (some i) = i

unfoldable pub set_status_locked : String → RunnerStatus → Fake → Fake
set_status_locked id s f = record f {
  instances = put id (record (or_zero (get id f.instances)) { status = s }) f.instances;
}

unfoldable pub set_status : String → RunnerStatus → Fake → Fake × Option ProviderError
unfolding set_status_locked
set_status id s f = elim (get id f.instances) [
  | none ↦ (f, some instance_not_found)
  | some i ↦ (set_status_locked id s f, none)
]

-- The new instance of `Provision`; `name` is `fmt.Sprintf("fake-runner-%d", n)`.
abbrev pub provisioned : (ℕ → String) → Time → RunnerSpec → ℕ → RunnerInstance
provisioned name now spec n = record {
  id = name n;
  provider_id = name n;
  provider = "fake";
  status = provisioning;
  created_at = now;
  expires_at = spec.expires_at;
  spec = clone_spec spec;
}

abbrev pub with_failures : Fake → FailurePlan → Fake
with_failures f p = record f { failures = p }

unfoldable pub provision :
    (ℕ → String) → Time → Context → RunnerSpec → Fake → Fake × Result ProviderError RunnerInstance
unfolding failure_locked incr_u64
provision name now ctx spec f = elim (context_error ctx) [
  | some e ↦ (f, err e)
  | none ↦
      let (failing, left) = failure_locked f.failures.error f.failures.provision in
      let g = with_failures f (record f.failures { provision = left }) in
      elim failing [
        | some e ↦ (g, err e)
        | none ↦
            if ltb_ℤ (pos 0) f.capacity && leb_ℤ f.capacity (pos (active_count f))
            then (g, err capacity)
            else (
              record g {
                sequence = incr_u64 f.sequence;
                instances =
                    put (name (incr_u64 f.sequence))
                      (provisioned name now spec (incr_u64 f.sequence)) f.instances;
              },
              ok (clone_instance (provisioned name now spec (incr_u64 f.sequence))),
            )
      ]
]

-- `WaitReady` up to the wait.
unfoldable pub wait_ready_begin : Context → RunnerInstance → Fake → Fake × Option ProviderError
unfolding failure_locked set_status_locked
wait_ready_begin ctx i f = elim (context_error ctx) [
  | some e ↦ (f, some e)
  | none ↦
      let (failing, left) = failure_locked f.failures.error f.failures.wait_ready in
      let g = with_failures f (record f.failures { wait_ready = left }) in
      elim failing [
        | some e ↦ (set_status_locked i.id failed g, some e)
        | none ↦ elim (get i.id f.instances) [
          | none ↦ (g, some instance_not_found)
          | some current ↦ (g, none)
        ]
      ]
]

-- `WaitReady` after the wait, which ended with the context as it is then.
unfoldable pub wait_ready_end : Context → RunnerInstance → Fake → Fake × Option ProviderError
wait_ready_end ctx i f = elim (context_error ctx) [
  | some e ↦ (f, some e)
  | none ↦ elim (get i.id f.instances) [
    | none ↦ (f, some instance_not_found)
    | some current ↦
        if status_is current.status terminated || status_is current.status terminating
        then (f, none)
        else (
          record f { instances = put i.id (record current { status = ready }) f.instances },
          none,
        )
  ]
]

unfoldable pub status : Fake → Context → RunnerInstance → Fake × Result ProviderError RunnerStatus
unfolding failure_locked
status f ctx i = elim (context_error ctx) [
  | some e ↦ (f, err e)
  | none ↦
      let (failing, left) = failure_locked f.failures.error f.failures.status in
      let g = with_failures f (record f.failures { status = left }) in
      elim failing [
        | some e ↦ (g, err e)
        | none ↦ elim (get i.id f.instances) [
          | none ↦ (g, err instance_not_found)
          | some current ↦ (g, ok current.status)
        ]
      ]
]

unfoldable pub terminate_over :
    Option RunnerInstance → Fake → RunnerInstance → Fake × Option ProviderError
unfolding failure_locked
terminate_over none f i = (f, none)
terminate_over (some current) f i =
    if status_is current.status terminated
    then (f, none)
    else let (failing, left) = failure_locked f.failures.error f.failures.terminate in
      let g = with_failures f (record f.failures { terminate = left }) in
      elim failing [
        | some e ↦ (g, some e)
        | none ↦ (
          record g { instances = put i.id (record current { status = terminated }) f.instances },
          none,
        )
      ]

unfoldable pub terminate : Fake → Context → RunnerInstance → Fake × Option ProviderError
unfolding terminate_over
terminate f ctx i = elim (context_error ctx) [
  | some e ↦ (f, some e)
  | none ↦ terminate_over (get i.id f.instances) f i
]

abbrev pub fake_provider : Provider
fake_provider = record { State = Fake; status = status; terminate = terminate }
