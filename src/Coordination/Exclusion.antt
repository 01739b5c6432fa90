-- ===== src/Coordination/Exclusion.antt =====
-- Mutual exclusion: while a lease is live, nobody else gets it, ends it or changes it.
use leo_runners.Base.{
  String, Option, some, List, [], ◌∷◌, ◌≡◌, ◌≢◌, inl, inr, sym, ap, subst, ◌∙◌, true, Context, live,
  ok, err, All,
}
use leo_runners.Base.Time.{Time, Duration, before}
use leo_runners.Base.Text.Order.{str_cases}
use leo_runners.Base.Dict.{get}
use leo_runners.Coordination.Lease.{Lease, lease_held}
use leo_runners.Coordination.MemoryStore.{
  MemoryStore, Entry, acquire, renew, release, memory_lease_store,
}
use leo_runners.Coordination.Coordinator
use leo_runners.Coordination.Calls.{
  Call, Operation, acquires, renews, releases, owner_of, now, perform, step, run,
}
use leo_runners.Coordination.Refusal.{
  get-acquire_ne, get-renew_ne, get-release_ne, acquire_refused, renew_refused, release_refused,
  acquire_held,
}
use leo_runners.Coordination.Grant.{acquire-Given}

-- The entry of a live lease stands against every operation in another owner's name.
module _ (k : String) (e : Entry) (s : MemoryStore) (held : get k s.items ≡ some e) where
  abbrev Kept : MemoryStore → Type 0
  Kept s' = get k s'.items ≡ some e

  acquire-Kept :
      (t : Time) (ctx : Option Context) (key owner : String) (ttl : Duration)
      → before t e.lease.expires_at ≡ true
      → owner ≢ e.lease.owner
      → Kept (acquire t s ctx key owner ttl).0
  acquire-Kept t ctx key owner ttl early other = elim (str_cases key k) [
    | inl same ↦
        let there = ap (λ x. get x s.items) same ∙ held in
        rw (acquire_refused s e t ctx key owner ttl there early other) held
    | inr differ ↦ get-acquire_ne k key s differ t ctx owner ttl ∙ held
  ]

  renew-Kept :
      (clock : Time × Time) (ctx : Option Context) (lease : Lease) (ttl : Duration)
      → lease.owner ≢ e.lease.owner
      → Kept (renew clock s ctx lease ttl).0
  renew-Kept clock ctx lease ttl other = elim (str_cases lease.key k) [
    | inl same ↦
        let there = ap (λ x. get x s.items) same ∙ held in
        rw (renew_refused s e clock ctx lease ttl there other) held
    | inr differ ↦ get-renew_ne k s clock ctx lease ttl differ ∙ held
  ]

  release-Kept :
      (ctx : Option Context) (lease : Lease)
      → lease.owner ≢ e.lease.owner
      → Kept (release s ctx lease).0
  release-Kept ctx lease other = elim (str_cases lease.key k) [
    | inl same ↦
        let there = ap (λ x. get x s.items) same ∙ held in
        rw (release_refused s e ctx lease there other) held
    | inr differ ↦ get-release_ne k s ctx lease differ ∙ held
  ]

  perform-Kept :
      (o : Operation) (clock : Time × Time) (ctx : Option Context)
      → before clock.0 e.lease.expires_at ≡ true
      → owner_of o ≢ e.lease.owner
      → Kept (perform o clock ctx s)
  perform-Kept (acquires key owner ttl) clock ctx early other =
      Coordinator.acquire_cases memory_lease_store Kept clock s ctx key owner ttl held
        (acquire-Kept clock.0 ctx key owner ttl early other)
  perform-Kept (renews lease ttl) clock ctx early other =
      Coordinator.renew_cases memory_lease_store Kept clock s ctx lease ttl held
        (renew-Kept clock ctx lease ttl other)
  perform-Kept (releases lease) clock ctx early other =
      Coordinator.release_cases memory_lease_store Kept clock s ctx lease held
        (release-Kept ctx lease other)

-- A call in another owner's name, made before the lease ends.
abbrev pub ByOther : Lease → Call → Type 0
ByOther lease c = (before (now c) lease.expires_at ≡ true) × (owner_of c.operation ≢ lease.owner)

-- While a lease is live, no sequence of calls in other owners' names changes its entry.
pub run_keeps_lease :
    (s : MemoryStore) (cs : List Call) (k : String) (e : Entry)
    → get k s.items ≡ some e
    → All (ByOther e.lease) cs
    → get k (run s cs).items ≡ some e
unfolding run step
run_keeps_lease s [] k e held q = held
run_keeps_lease s (c ∷ cs) k e held q =
    run_keeps_lease (step s c) cs k e
      (perform-Kept k e s held c.operation c.clock c.ctx q.0.0 q.0.1) q.1

-- Whoever gets a lease holds it alone: until it expires, and whatever calls other owners make on
-- the store (acquiring, renewing or releasing, on this key or on any other, with a live context or
-- a dead one), another owner's `Acquire` on the key is refused, and the store stays as it is.
pub mutual_exclusion :
    (s s' : MemoryStore) (t : Time) (ctx : Option Context) (key owner : String) (ttl : Duration)
    (lease : Lease) (cs : List Call) (later : Time) (other : String) (ttl' : Duration)
    → acquire t s ctx key owner ttl ≡ (s', ok lease)
    → All (ByOther lease) cs
    → before later lease.expires_at ≡ true
    → other ≢ owner
    → acquire later (run s' cs) (some live) key other ttl' ≡ (run s' cs, err lease_held)
mutual_exclusion s s' t ctx key owner ttl lease cs later other ttl' given others early differ =
    let (e, there, same, mine) = acquire-Given s s' t ctx key owner ttl lease given in
    acquire_held (run s' cs) e later key other ttl'
      (run_keeps_lease s' cs key e there (subst (λ l. All (ByOther l) cs) (sym same) others))
      (rw same early) (λ p. differ (p ∙ ap (λ (l : Lease). l.owner) same ∙ mine))
