-- ===== src/Coordination/Fencing.antt =====
-- Fencing tokens: they grow with each new holder, and start again after a release.
use leo_runners.Base.{
  ℕ, suc, ◌+◌, ◌^◌, ◌<◌, String, Option, none, some, List, [], ◌∷◌, ◌≡◌, ◌≢◌, sym, ap, ◌∙◌, subst,
  Context, live, ok, All, length, arith, eq_iff,
}
use leo_runners.Base.Time.{Time, Duration, add}
use leo_runners.Base.Dict.{get, remove, get-remove_self, get-empty}
use leo_runners.Coordination.Lease.{Lease}
use leo_runners.Coordination.MemoryStore.{
  MemoryStore, Entry, acquire, release, granted, grant, memory_lease_store, new_memory_store,
}
use leo_runners.Coordination.Coordinator
use leo_runners.Coordination.Calls.{Call, Operation, acquires, renews, releases, perform, step, run}
use leo_runners.Coordination.Grant.{acquire-Given}
use leo_runners.Coordination.Follows.{Follows, Follows-mono, acquire-Follows, renew-Follows}
use leo_runners.Coordination.Fenced.{HasToken, IsFenced, acquire-IsFenced, run-IsFenced}

abbrev pub NoRelease : Operation → Type 0
NoRelease (releases l) = ⊥
NoRelease o = Unit

perform-Follows :
    (lease : Lease) (n : ℕ) (k : String) (s : MemoryStore) (o : Operation) (clock : Time × Time)
    (ctx : Option Context)
    → NoRelease o
    → Follows lease (suc n) (get k s.items)
    → Follows lease n (get k (perform o clock ctx s).items)
perform-Follows lease n k s (acquires key owner ttl) clock ctx h f =
    Coordinator.acquire_cases memory_lease_store (λ x. Follows lease n (get k x.items)) clock s ctx
      key owner ttl (Follows-mono lease n (get k s.items) f)
      (acquire-Follows lease n s k clock.0 ctx key owner ttl f)
perform-Follows lease n k s (renews l ttl) clock ctx h f =
    Coordinator.renew_cases memory_lease_store (λ x. Follows lease n (get k x.items)) clock s ctx l
      ttl (Follows-mono lease n (get k s.items) f) (renew-Follows lease n s k clock ctx l ttl f)
perform-Follows lease n k s (releases l) clock ctx h f = absurd h

run-Follows :
    (lease : Lease) (n : ℕ) (k : String) (s : MemoryStore) (cs : List Call)
    → All (λ (c : Call). NoRelease c.operation) cs
    → Follows lease (length cs + n) (get k s.items)
    → Follows lease n (get k (run s cs).items)
unfolding run step
run-Follows lease n k s [] q f = subst (λ m. Follows lease m (get k s.items)) (omega arith) f
run-Follows lease n k s (c ∷ cs) q f = run-Follows lease n k (step s c) cs q.1 (
    perform-Follows lease (length cs + n) k s c.operation c.clock c.ctx q.0
      (subst (λ m. Follows lease m (get k s.items)) (omega arith) f))

IsFenced-new_memory_store : IsFenced new_memory_store
unfolding new_memory_store
IsFenced-new_memory_store k = rw (get-empty {V = Entry} k) tt

-- The first holder's entry is one that follows from its lease.
Follows-self :
    (lease : Lease) (n : ℕ) (e : Entry)
    → e.lease ≡ lease
    → e.lease.token ≡ e.next
    → lease.token + n < 2 ^ 64
    → Follows lease n (some e)
Follows-self lease n e same counted room = ground arith

-- A follower in another owner's name has a greater token.
Follows-other :
    (lease : Lease) (e : Entry)
    → Follows lease 0 (some e)
    → lease.owner ≢ e.lease.owner
    → lease.token < e.lease.token
Follows-other lease e f other = ground arith

-- Fencing: after any history of calls, a lease that `Acquire` gives has a smaller token than a
-- lease that another owner gets on the same key later, however many acquisitions and renewals, on
-- this key and on others, lie between, as long as nobody releases a lease meanwhile and the 64-bit
-- counter does not run out.
pub tokens_grow :
    (history cs : List Call) (s' s'' : MemoryStore) (t later : Time) (ctx ctx' : Option Context)
    (key owner other : String) (ttl ttl' : Duration) (lease lease' : Lease)
    → acquire t (run new_memory_store history) ctx key owner ttl ≡ (s', ok lease)
    → All (λ (c : Call). NoRelease c.operation) cs
    → acquire later (run s' cs) ctx' key other ttl' ≡ (s'', ok lease')
    → other ≢ owner
    → lease.token + (length cs + 1) < 2 ^ 64
    → lease.token < lease'.token
tokens_grow history cs s' s'' t later ctx ctx' key owner other ttl ttl' lease lease' first calm
      second differ room =
    let (e, there, same, mine) = acquire-Given _ s' t ctx key owner ttl lease first in
    let (e', there', same', mine') = acquire-Given _ s'' later ctx' key other ttl' lease' second in
    let fenced =
      acquire-IsFenced _ t ctx key owner ttl
        (run-IsFenced new_memory_store history IsFenced-new_memory_store) key in
    let counted = subst HasToken (ap (λ p. get key p.0.items) first ∙ there) fenced in
    let start = run-Follows lease 1 key s' cs calm (
      subst (Follows lease (length cs + 1)) (sym there)
        (Follows-self lease (length cs + 1) e same counted room)) in
    let end =
      subst (Follows lease 0) (ap (λ p. get key p.0.items) second ∙ there')
        (acquire-Follows lease 0 (run s' cs) key later ctx' key other ttl' start) in
    let more =
      Follows-other lease e' end
        (λ p. differ (sym mine' ∙ ap (λ (l : Lease). l.owner) (sym same') ∙ sym p ∙ mine)) in
    subst (λ (l : Lease). lease.token < l.token) same' more

release_mine :
    (s : MemoryStore) (e : Entry) (lease : Lease)
    → get lease.key s.items ≡ some e
    → e.lease.token ≡ lease.token
    → e.lease.owner ≡ lease.owner
    → release s (some live) lease ≡ (record { items = remove lease.key s.items }, ok tt)
unfolding release
release_mine s e lease here token mine = ground (arith, eq_iff e.lease.owner lease.owner)

acquire_free :
    (s : MemoryStore) (t : Time) (key owner : String) (ttl : Duration)
    → get key s.items ≡ none
    → (acquire t s (some live) key owner ttl).1
      ≡ ok (record { key = key; owner = owner; token = 1; expires_at = add t ttl })
unfolding acquire grant granted
acquire_free s t key owner ttl free = ground arith

-- Release, then acquire: the counter of the key is gone with its entry, so the next lease has
-- token 1 again, whatever token the released lease had. A lease that was given before can thus
-- have the greater token.
pub release_resets_token :
    (s : MemoryStore) (e : Entry) (lease : Lease) (t : Time) (owner : String) (ttl : Duration)
    → get lease.key s.items ≡ some e
    → e.lease.token ≡ lease.token
    → e.lease.owner ≡ lease.owner
    → (acquire t (release s (some live) lease).0 (some live) lease.key owner ttl).1
      ≡ ok (record { key = lease.key; owner = owner; token = 1; expires_at = add t ttl })
release_resets_token s e lease t owner ttl here token mine =
    rw (release_mine s e lease here token mine)
      (acquire_free _ t lease.key owner ttl (get-remove_self lease.key s.items))
