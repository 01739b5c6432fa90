-- ===== src/Coordination/MemoryStore.antt =====
-- controller/internal/coordination/memory.go: the lease store in memory. The clock's readings are
-- arguments: `Renew` reads it twice.
use leo_runners.Base.{
  ℕ, String, Option, none, some, Result, ok, err, Context, not, if◌then◌else◌, ◌==◌, str_eq, [],
}
use leo_runners.Base.Int.{incr_u64}
use leo_runners.Base.Time.{Time, Duration, before, add}
use leo_runners.Base.Dict.{Dict, get, put, remove}
use leo_runners.Coordination.Lease.{
  Lease, LeaseStore, Error, lease_held, not_found, not_owner, stale_token, context_err,
}

pub record Entry : Type 0 where
  pub lease : Lease
  pub next : ℕ

pub record MemoryStore : Type 0 where
  pub items : Dict Entry

unfoldable pub new_memory_store : MemoryStore
new_memory_store = record { items = [] }

-- The token counter of a key; that of a key with no entry is Go's zero value.
unfoldable pub next_of : Option Entry → ℕ
next_of none = 0
next_of (some e) = e.next

-- The entry that `Acquire` writes: the next token, a fresh expiry.
unfoldable pub granted : MemoryStore → String → String → Duration → Time → Entry
unfolding incr_u64 next_of
granted s key owner ttl now =
    let next = incr_u64 (next_of (get key s.items)) in
    record {
      lease = record { key = key; owner = owner; token = next; expires_at = add now ttl };
      next = next;
    }

unfoldable pub grant :
    MemoryStore → String → String → Duration → Time → MemoryStore × Result Error Lease
grant s key owner ttl now =
    let e = granted s key owner ttl now in (record { items = put key e s.items }, ok e.lease)

-- The entry's branches: a live lease is given back to its owner and refused to others.
unfoldable pub acquire_over :
    Option Entry
    → MemoryStore
    → String
    → String
    → Duration
    → Time
    → MemoryStore × Result Error Lease
acquire_over none s key owner ttl now = grant s key owner ttl now
acquire_over (some e) s key owner ttl now =
    if before now e.lease.expires_at
    then (if str_eq e.lease.owner owner then (s, ok e.lease) else (s, err lease_held))
    else grant s key owner ttl now

unfoldable pub acquire :
    Time
    → MemoryStore
    → Option Context
    → String
    → String
    → Duration
    → MemoryStore × Result Error Lease
unfolding acquire_over context_err
acquire now s ctx key owner ttl = elim (context_err ctx) [
  | some e ↦ (s, err e)
  | none ↦ acquire_over (get key s.items) s key owner ttl now
]

abbrev pub renewed : Entry → Duration → Time → Entry
renewed e ttl later = record e { lease = record e.lease { expires_at = add later ttl } }

unfoldable pub renew_over :
    Option Entry → MemoryStore → Lease → Duration → Time × Time → MemoryStore × Result Error Lease
renew_over none s lease ttl clock = (s, err not_found)
renew_over (some e) s lease ttl (now, later) =
    if not (before now e.lease.expires_at)
    then (s, err not_owner)
    else if not (e.lease.token == lease.token)
    then (s, err stale_token)
    else if not (str_eq e.lease.owner lease.owner)
    then (s, err not_owner)
    else (
      record { items = put lease.key (renewed e ttl later) s.items },
      ok (renewed e ttl later).lease,
    )

unfoldable pub renew :
    Time × Time → MemoryStore → Option Context → Lease → Duration → MemoryStore × Result Error Lease
unfolding renew_over context_err
renew clock s ctx lease ttl = elim (context_err ctx) [
  | some e ↦ (s, err e)
  | none ↦ renew_over (get lease.key s.items) s lease ttl clock
]

unfoldable pub release_over :
    Option Entry → MemoryStore → Lease → MemoryStore × Result Error (Unit {0})
release_over none s lease = (s, ok tt)
release_over (some e) s lease =
    if not (e.lease.token == lease.token)
    then (s, err stale_token)
    else if not (str_eq e.lease.owner lease.owner)
    then (s, err not_owner)
    else (record { items = remove lease.key s.items }, ok tt)

unfoldable pub release :
    MemoryStore → Option Context → Lease → MemoryStore × Result Error (Unit {0})
unfolding release_over context_err
release s ctx lease = elim (context_err ctx) [
  | some e ↦ (s, err e)
  | none ↦ release_over (get lease.key s.items) s lease
]

-- The store as an implementation of the interface. Its world is the clock's two readings.
abbrev pub memory_lease_store : LeaseStore
memory_lease_store = record {
  Store = MemoryStore;
  World = Time × Time;
  acquire = λ clock. acquire clock.0;
  renew = renew;
  release = λ clock. release;
}
