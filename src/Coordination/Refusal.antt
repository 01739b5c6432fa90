-- ===== src/Coordination/Refusal.antt =====
-- Calls that the memory store refuses, and what a call on one key does to the others.
use leo_runners.Base.{
  String, Option, none, some, ◌≡◌, ◌≢◌, refl, true, arith, eq_iff, Context, live, err,
}
use leo_runners.Base.Time.{Time, Duration, before}
use leo_runners.Base.Dict.{get, get-put_ne, get-remove_ne}
use leo_runners.Coordination.Lease.{Lease, lease_held}
use leo_runners.Coordination.MemoryStore.{
  MemoryStore, Entry, acquire, renew, renew_over, renewed, release, grant,
}

-- A call on one key leaves every other key's entry alone.
module _ (k key : String) (s : MemoryStore) (other : key ≢ k) where
  get-grant_ne :
      (owner : String) (ttl : Duration) (t : Time)
      → get k (grant s key owner ttl t).0.items ≡ get k s.items
  unfolding grant
  get-grant_ne owner ttl t = get-put_ne key k _ s.items other

  pub get-acquire_ne :
      (t : Time) (ctx : Option Context) (owner : String) (ttl : Duration)
      → get k (acquire t s ctx key owner ttl).0.items ≡ get k s.items
  unfolding acquire
  get-acquire_ne t ctx owner ttl = ground (arith, get-grant_ne owner ttl t)

get-renew_over_ne :
    (o : Option Entry) (k : String) (s : MemoryStore) (clock : Time × Time) (lease : Lease)
    (ttl : Duration)
    → lease.key ≢ k
    → get k (renew_over o s lease ttl clock).0.items ≡ get k s.items
unfolding renew_over
get-renew_over_ne none k s clock lease ttl other = refl
get-renew_over_ne (some e) k s (t, later) lease ttl other =
    ground (arith, get-put_ne lease.key k (renewed e ttl later) s.items other)

pub get-renew_ne :
    (k : String) (s : MemoryStore) (clock : Time × Time) (ctx : Option Context) (lease : Lease)
    (ttl : Duration)
    → lease.key ≢ k
    → get k (renew clock s ctx lease ttl).0.items ≡ get k s.items
unfolding renew
get-renew_ne k s clock ctx lease ttl other =
    ground (arith, get-renew_over_ne (get lease.key s.items) k s clock lease ttl other)

pub get-release_ne :
    (k : String) (s : MemoryStore) (ctx : Option Context) (lease : Lease)
    → lease.key ≢ k
    → get k (release s ctx lease).0.items ≡ get k s.items
unfolding release
get-release_ne k s ctx lease other = ground (arith, get-remove_ne lease.key k s.items other)

-- A refused call leaves the whole store alone.
module _ (s : MemoryStore) (e : Entry) where
  pub acquire_refused :
      (t : Time) (ctx : Option Context) (key owner : String) (ttl : Duration)
      → get key s.items ≡ some e
      → before t e.lease.expires_at ≡ true
      → owner ≢ e.lease.owner
      → (acquire t s ctx key owner ttl).0 ≡ s
  unfolding acquire
  acquire_refused t ctx key owner ttl held early other = ground (arith, eq_iff e.lease.owner owner)

  pub renew_refused :
      (clock : Time × Time) (ctx : Option Context) (lease : Lease) (ttl : Duration)
      → get lease.key s.items ≡ some e
      → lease.owner ≢ e.lease.owner
      → (renew clock s ctx lease ttl).0 ≡ s
  unfolding renew
  renew_refused clock ctx lease ttl held other = ground (arith, eq_iff e.lease.owner lease.owner)

  pub release_refused :
      (ctx : Option Context) (lease : Lease)
      → get lease.key s.items ≡ some e
      → lease.owner ≢ e.lease.owner
      → (release s ctx lease).0 ≡ s
  unfolding release
  release_refused ctx lease held other = ground (arith, eq_iff e.lease.owner lease.owner)

-- A live lease of another owner answers a call of `Acquire`, and nothing is written.
pub acquire_held :
    (s : MemoryStore) (e : Entry) (t : Time) (key owner : String) (ttl : Duration)
    → get key s.items ≡ some e
    → before t e.lease.expires_at ≡ true
    → owner ≢ e.lease.owner
    → acquire t s (some live) key owner ttl ≡ (s, err lease_held)
unfolding acquire
acquire_held s e t key owner ttl held early other = ground (arith, eq_iff e.lease.owner owner)
