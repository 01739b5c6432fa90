-- ===== src/Coordination/Grant.antt =====
-- What a successful call of the memory store's `Acquire` gives.
use leo_runners.Base.{
  String, Option, none, some, ◌≡◌, inl, inr, refl, arith, eq_iff, Context, ok, Bool-cases,
}
use leo_runners.Base.Time.{Time, Duration, before}
use leo_runners.Base.Dict.{get, get-put_self}
use leo_runners.Coordination.Lease.{Lease}
use leo_runners.Coordination.MemoryStore.{MemoryStore, Entry, acquire, grant, granted, acquire_over}

-- What `Acquire` gives under an entry: the lease that is in the store, in the caller's name.
abbrev pub Given : MemoryStore → String → String → Lease → Type 0
Given s key owner lease =
    (e : Entry) × (get key s.items ≡ some e) × (e.lease ≡ lease) × (lease.owner ≡ owner)

grant-Given :
    (s s' : MemoryStore) (t : Time) (key owner : String) (ttl : Duration) (lease : Lease)
    → grant s key owner ttl t ≡ (s', ok lease)
    → Given s' key owner lease
unfolding grant
grant-Given s s' t key owner ttl lease given = (
  granted s key owner ttl t,
  ground (arith, get-put_self key (granted s key owner ttl t) s.items),
  ground arith,
  unfold granted in ground arith,
)

acquire_over-Given :
    (o : Option Entry) (s s' : MemoryStore) (t : Time) (key owner : String) (ttl : Duration)
    (lease : Lease)
    → get key s.items ≡ o
    → acquire_over o s key owner ttl t ≡ (s', ok lease)
    → Given s' key owner lease
unfolding acquire_over
acquire_over-Given none s s' t key owner ttl lease here given =
    grant-Given s s' t key owner ttl lease given
acquire_over-Given (some e) s s' t key owner ttl lease here given =
    elim (Bool-cases (before t e.lease.expires_at)) [
      | inl early ↦ (e, ground arith, ground arith, ground (arith, eq_iff e.lease.owner owner))
      | inr late ↦ grant-Given s s' t key owner ttl lease (ground arith)
    ]

-- What a successful `Acquire` gives.
pub acquire-Given :
    (s s' : MemoryStore) (t : Time) (ctx : Option Context) (key owner : String) (ttl : Duration)
    (lease : Lease)
    → acquire t s ctx key owner ttl ≡ (s', ok lease)
    → Given s' key owner lease
unfolding acquire
acquire-Given s s' t ctx key owner ttl lease given =
    acquire_over-Given (get key s.items) s s' t key owner ttl lease refl (ground arith)
