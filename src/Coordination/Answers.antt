-- ===== src/Coordination/Answers.antt =====
-- What the coordinator's answers say about the memory store.
use leo_runners.Base.{String, Option, none, some, ◌≡◌, Context, ok, err, arith, true, false}
use leo_runners.Base.Int.{pos, leb_ℤ}
use leo_runners.Base.Time.{Time, Duration, before, before-add}
use leo_runners.Base.Dict.{get}
use leo_runners.Coordination.Lease.{Lease, Error}
use leo_runners.Coordination.MemoryStore
use leo_runners.Coordination.MemoryStore.{
  MemoryStore, Entry, acquire_over, renew_over, release_over, granted, grant, memory_lease_store,
}
use leo_runners.Coordination.Coordinator
use leo_runners.Coordination.Coordinator.{validate}

-- A call that fails, at whatever check, has written nothing.
pub failure_writes_nothing :
    (clock : Time × Time) (s : MemoryStore) (ctx : Option Context) (key owner : String)
    (ttl : Duration) (lease : Lease) (e : Error)
    → ((Coordinator.acquire memory_lease_store clock s ctx key owner ttl).1 ≡ err e
        → (Coordinator.acquire memory_lease_store clock s ctx key owner ttl).0 ≡ s)
      × ((Coordinator.renew memory_lease_store clock s ctx lease ttl).1 ≡ err e
          → (Coordinator.renew memory_lease_store clock s ctx lease ttl).0 ≡ s)
      × ((Coordinator.release memory_lease_store clock s ctx lease).1 ≡ err e
          → (Coordinator.release memory_lease_store clock s ctx lease).0 ≡ s)
unfolding Coordinator.acquire Coordinator.renew Coordinator.release MemoryStore.acquire
    MemoryStore.renew MemoryStore.release grant
failure_writes_nothing clock s ctx key owner ttl lease e =
    (λ h. ground arith, λ h. ground arith, λ h. ground arith)

acquire_over-live :
    (o : Option Entry) (t : Time) (s : MemoryStore) (key owner : String) (ttl : Duration)
    (lease : Lease)
    → leb_ℤ ttl (pos 0) ≡ false
    → (acquire_over o s key owner ttl t).1 ≡ ok lease
    → before t lease.expires_at ≡ true
unfolding acquire_over grant granted
acquire_over-live none t s key owner ttl lease positive given =
    ground (arith, before-add t ttl positive)
acquire_over-live (some e) t s key owner ttl lease positive given =
    ground (arith, before-add t ttl positive)

-- A lease that the coordinator gives is live when it is given, and is in the caller's name.
pub acquire-live :
    (clock : Time × Time) (s : MemoryStore) (ctx : Option Context) (key owner : String)
    (ttl : Duration) (lease : Lease)
    → (Coordinator.acquire memory_lease_store clock s ctx key owner ttl).1 ≡ ok lease
    → before clock.0 lease.expires_at ≡ true
unfolding Coordinator.acquire MemoryStore.acquire
acquire-live clock s ctx key owner ttl lease given =
    ground (arith, acquire_over-live (get key s.items) clock.0 s key owner ttl lease)
