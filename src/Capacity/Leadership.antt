-- ===== src/Capacity/Leadership.antt =====
-- A coordination lease as a capacity replica: the lease's fencing token is the replica's.
use leo_runners.Base.{
  ◌≡◌, ◌≢◌, refl, sym, ap, ◌∙◌, String, ◌<◌, some, arith, eq_iff, false, ok, ok_injective, live,
}
use leo_runners.Base.Time.{Time, Duration}
use leo_runners.Base.Text.{is_blank}
use leo_runners.Base.Dict.{get}
use leo_runners.Coordination.Lease.{Lease}
use leo_runners.Coordination.MemoryStore.{MemoryStore, Entry, acquire, release}
use leo_runners.Coordination.Fencing.{release_resets_token}
use leo_runners.Capacity.Pool.{Registry, stale_replica}
use leo_runners.Capacity.Replica.{Replica, Demand, new_replica, fenced, reserve_fenced, bad_demand}

module _ {Float : Type 0} where
  behind :
      (owner : String) (r : Registry Float)
      → 1 < r.active_token
      → is_blank owner ≡ false
      → new_replica owner 1 r ≡ (r, ok (record { owner = owner; token = 1 }))
  unfolding new_replica
  behind owner r older named = ground arith

  stale :
      (owner : String) (r : Registry Float)
      → 1 < r.active_token
      → owner ≢ ""
      → fenced (record { owner = owner; token = 1 }) r ≡ some stale_replica
  unfolding fenced
  stale owner r older named = ground (arith, eq_iff owner "")

  refused_reserve :
      (v : Replica) (d : Demand) (r : Registry Float)
      → fenced v r ≡ some stale_replica
      → bad_demand d ≡ false
      → reserve_fenced v d r ≡ (r, some stale_replica)
  unfolding reserve_fenced
  refused_reserve v d r out good = rw (reserve_fenced, good, out) refl

  -- When a leader whose token, 2 or more, the registry knows has released its lease, the next
  -- leader's lease makes a replica without an error, but each reservation of that replica is
  -- refused as stale.
  pub next_leader_is_stale :
      (s : MemoryStore) (e : Entry) (lease next : Lease) (t : Time) (owner : String)
      (ttl : Duration) (d : Demand) (r : Registry Float)
      → get lease.key s.items ≡ some e
      → e.lease.token ≡ lease.token
      → e.lease.owner ≡ lease.owner
      → (acquire t (release s (some live) lease).0 (some live) lease.key owner ttl).1 ≡ ok next
      → r.active_token ≡ lease.token
      → 1 < lease.token
      → is_blank owner ≡ false
      → owner ≢ ""
      → bad_demand d ≡ false
      → (v : Replica) × (new_replica next.owner next.token r ≡ (r, ok v))
        × (reserve_fenced v d r ≡ (r, some stale_replica))
  next_leader_is_stale s e lease next t owner ttl d r here token mine given known later named
        nonempty good =
      let same =
        ok_injective (sym (release_resets_token s e lease t owner ttl here token mine) ∙ given) in
      let older : 1 < r.active_token = omega arith in
      (
        record { owner = owner; token = 1 },
        ap (λ l. new_replica l.owner l.token r) (sym same) ∙ behind owner r older named,
        refused_reserve _ d r (stale owner r older nonempty) good,
      )
