-- ===== src/Coordination/Fenced.antt =====
-- In every store that the calls can reach, a lease carries its entry's counter as its token.
use leo_runners.Base.{String, Option, none, some, List, [], ◌∷◌, ◌≡◌, refl, Context, arith}
use leo_runners.Base.Time.{Time, Duration}
use leo_runners.Base.Dict.{get, get-put, get-remove}
use leo_runners.Coordination.Lease.{Lease}
use leo_runners.Coordination.MemoryStore.{
  MemoryStore, Entry, acquire, renew, renew_over, renewed, release, granted, grant,
  memory_lease_store,
}
use leo_runners.Coordination.Coordinator
use leo_runners.Coordination.Calls.{Call, Operation, acquires, renews, releases, perform, step, run}

-- The token of an entry's lease is the entry's counter.
abbrev pub HasToken : Option Entry → Type 0
HasToken none = Unit
HasToken (some e) = e.lease.token ≡ e.next

abbrev pub IsFenced : MemoryStore → Type 0
IsFenced s = (k : String) → HasToken (get k s.items)

grant-IsFenced :
    (s : MemoryStore) (t : Time) (key owner : String) (ttl : Duration)
    → IsFenced s
    → IsFenced (grant s key owner ttl t).0
unfolding grant granted
grant-IsFenced s t key owner ttl f k =
    rw (get-put key k (granted s key owner ttl t) s.items) (ground (arith, f k))

pub acquire-IsFenced :
    (s : MemoryStore) (t : Time) (ctx : Option Context) (key owner : String) (ttl : Duration)
    → IsFenced s
    → IsFenced (acquire t s ctx key owner ttl).0
unfolding acquire
acquire-IsFenced s t ctx key owner ttl f k =
    ground (arith, f k, grant-IsFenced s t key owner ttl f k)

renew_over-IsFenced :
    (s : MemoryStore) (clock : Time × Time) (l : Lease) (ttl : Duration) (o : Option Entry)
    → get l.key s.items ≡ o
    → IsFenced s
    → IsFenced (renew_over o s l ttl clock).0
unfolding renew_over
renew_over-IsFenced s clock l ttl none here f k = f k
renew_over-IsFenced s (t, later) l ttl (some e) here f k =
    ground (arith, f k, f l.key, get-put l.key k (renewed e ttl later) s.items)

renew-IsFenced :
    (s : MemoryStore) (clock : Time × Time) (ctx : Option Context) (l : Lease) (ttl : Duration)
    → IsFenced s
    → IsFenced (renew clock s ctx l ttl).0
unfolding renew
renew-IsFenced s clock ctx l ttl f k =
    ground (arith, f k, renew_over-IsFenced s clock l ttl (get l.key s.items) refl f k)

release-IsFenced :
    (s : MemoryStore) (ctx : Option Context) (l : Lease) → IsFenced s → IsFenced (release s ctx l).0
unfolding release
release-IsFenced s ctx l f k = ground (arith, f k, get-remove l.key k s.items)

perform-IsFenced :
    (s : MemoryStore) (o : Operation) (clock : Time × Time) (ctx : Option Context)
    → IsFenced s
    → IsFenced (perform o clock ctx s)
perform-IsFenced s (acquires key owner ttl) clock ctx f =
    Coordinator.acquire_cases memory_lease_store IsFenced clock s ctx key owner ttl f
      (acquire-IsFenced s clock.0 ctx key owner ttl f)
perform-IsFenced s (renews l ttl) clock ctx f =
    Coordinator.renew_cases memory_lease_store IsFenced clock s ctx l ttl f
      (renew-IsFenced s clock ctx l ttl f)
perform-IsFenced s (releases l) clock ctx f =
    Coordinator.release_cases memory_lease_store IsFenced clock s ctx l f
      (release-IsFenced s ctx l f)

pub run-IsFenced : (s : MemoryStore) (cs : List Call) → IsFenced s → IsFenced (run s cs)
unfolding run step
run-IsFenced s [] f = f
run-IsFenced s (c ∷ cs) f =
    run-IsFenced (step s c) cs (perform-IsFenced s c.operation c.clock c.ctx f)
