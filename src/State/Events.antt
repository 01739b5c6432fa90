-- ===== src/State/Events.antt =====
-- The lifecycle events of controller/internal/state/memory.go: inserted once for each idempotency
-- key, deleted, and listed by time.
use leo_runners.Base.{
  String, Option, none, some, Bool, true, false, List, [], ◌∷◌, Result, ok, err, Context, ◌&&◌,
  ◌||◌, str_eq, if◌then◌else◌, length, keep, ◌==◌, not,
}
use leo_runners.Base.Int.{eqb_ℤ}
use leo_runners.Base.Time.{Time, is_zero, before}
use leo_runners.Base.Dict.{Dict, get, put, remove, values}
use leo_runners.Base.Text.{is_empty}
use leo_runners.Base.Text.Order.{str_lt}
use leo_runners.Base.Sort.{sort}
use leo_runners.State.Types.{LifecycleEvent, Error, invalid_record, event_conflict}
use leo_runners.State.Table.{check_context}
use leo_runners.State.Memory.{MemoryRepository}

-- `m[k]` of a map of texts: the empty text for a missing key.
unfoldable pub text_at : Option String → String
text_at none = ""
text_at (some v) = v

unfoldable pub all_found : Dict String → Dict String → Bool
unfolding text_at
all_found [] b = true
all_found ((k, v) ∷ a) b = str_eq (text_at (get k b)) v && all_found a b

-- `mapsEqual`
unfoldable pub maps_equal : Dict String → Dict String → Bool
unfolding all_found
maps_equal a b = length a == length b && all_found a b

-- `sameEvent`
unfoldable pub same_event : LifecycleEvent → LifecycleEvent → Bool
same_event a b =
    str_eq a.id b.id
    && str_eq a.idempotency_key b.idempotency_key
    && str_eq a.kind b.kind
    && str_eq a.job_id b.job_id
    && str_eq a.lease_id b.lease_id
    && str_eq a.runner_id b.runner_id
    && str_eq a.provider b.provider
    && eqb_ℤ a.occurred_at b.occurred_at
    && maps_equal a.payload b.payload

-- The key under which an event is stored.
unfoldable pub key_of : LifecycleEvent → String
key_of v = if is_empty v.idempotency_key then v.id else v.idempotency_key

-- The event as it is stored.
unfoldable pub stored : LifecycleEvent → LifecycleEvent
stored v = record v { idempotency_key = key_of v }

unfoldable pub insert_over :
    Option LifecycleEvent → LifecycleEvent → MemoryRepository → MemoryRepository × Result Error Bool
insert_over (some old) v r = if same_event old v then (r, ok false) else (r, err event_conflict)
insert_over none v r = (record r { events = put (key_of v) (stored v) r.events }, ok true)

-- The answer says whether the event was inserted.
unfoldable pub insert_lifecycle_event :
    Context → LifecycleEvent → MemoryRepository → MemoryRepository × Result Error Bool
unfolding insert_over
insert_lifecycle_event ctx v r = elim (check_context ctx) [
  | some e ↦ (r, err e)
  | none ↦
      if is_empty (key_of v) || is_empty v.kind
      then (r, err invalid_record)
      else insert_over (get (key_of v) r.events) v r
]

unfoldable pub delete_lifecycle_event :
    Context → String → MemoryRepository → MemoryRepository × Result Error (Unit {0})
delete_lifecycle_event ctx key r = elim (check_context ctx) [
  | some e ↦ (r, err e)
  | none ↦ (record r { events = remove key r.events }, ok tt)
]

abbrev pub is_about : String → Time → LifecycleEvent → Bool
is_about aggregate since v =
    (is_empty aggregate
      || str_eq v.job_id aggregate
      || str_eq v.lease_id aggregate
      || str_eq v.runner_id aggregate)
    && (is_zero since || not (before v.occurred_at since))

-- By time, then by idempotency key.
abbrev pub happens_before : LifecycleEvent → LifecycleEvent → Bool
happens_before a b =
    if eqb_ℤ a.occurred_at b.occurred_at
    then str_lt a.idempotency_key b.idempotency_key
    else before a.occurred_at b.occurred_at

unfoldable pub list_lifecycle_events :
    Context → String → Time → MemoryRepository → Result Error (List LifecycleEvent)
list_lifecycle_events ctx aggregate since r = elim (check_context ctx) [
  | some e ↦ err e
  | none ↦ ok (sort happens_before (keep (is_about aggregate since) (values r.events)))
]
