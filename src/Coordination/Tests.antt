-- ===== src/Coordination/Tests.antt =====
-- Two controllers, "a" and "b", and the lease "leader".
use leo_runners.Base.{
  ℕ, ◌<◌, String, some, none, List, [], ◌∷◌, ◌≡◌, ◌≢◌, refl, ok, err, live, arith, eq_iff,
}
use leo_runners.Base.Int.{pos}
use leo_runners.Base.Time.{Time, add}
use leo_runners.Base.Dict.{get, put}
use leo_runners.Coordination.Lease.{Lease, lease_held, invalid_ttl}
use leo_runners.Coordination.MemoryStore.{
  MemoryStore, new_memory_store, acquire, renew, release, grant, granted, memory_lease_store,
}
use leo_runners.Coordination.Coordinator
use leo_runners.Base.Text.{is_blank}
use leo_runners.Coordination.Calls.{Call, acquires, renews, releases, step, run}
use leo_runners.Coordination.Exclusion.{mutual_exclusion}
use leo_runners.Coordination.Fencing.{tokens_grow, release_resets_token}
use leo_runners.Coordination.Answers.{failure_writes_nothing}

abbrev lease_of : String → ℕ → ℕ → Lease
lease_of owner token ends = record {
  key = "leader";
  owner = owner;
  token = token;
  expires_at = pos ends;
}

abbrev store_of : String → ℕ → ℕ → MemoryStore
store_of owner token ends = record {
  items = ("leader", record { lease = lease_of owner token ends; next = token }) ∷ [];
}

abbrev at : ℕ → Time × Time
at n = (pos n, pos n)

-- "b" tries to acquire, to renew and to release while "a" holds the lease.
abbrev attempts : List Call
attempts =
    record { clock = at 3; ctx = some live; operation = acquires "leader" "b" (pos 100) }
    ∷ record { clock = at 4; ctx = some live; operation = renews (lease_of "b" 1 10) (pos 100) }
    ∷ record { clock = at 5; ctx = none; operation = releases (lease_of "b" 1 10) }
    ∷ []

a_not_b : ◌≢◌ {A = String} "b" "a"
a_not_b = ground (arith, eq_iff "b" "a")

first_acquire :
    acquire (pos 0) new_memory_store (some live) "leader" "a" (pos 10)
    ≡ (store_of "a" 1 10, ok (lease_of "a" 1 10))
unfolding new_memory_store acquire grant granted get put add
first_acquire = refl

mutual_exclusion_example :
    acquire (pos 6) (run (store_of "a" 1 10) attempts) (some live) "leader" "b" (pos 5)
    ≡ (run (store_of "a" 1 10) attempts, err lease_held)
mutual_exclusion_example =
    mutual_exclusion new_memory_store (store_of "a" 1 10) (pos 0) (some live) "leader" "a" (pos 10)
      (lease_of "a" 1 10) attempts (pos 6) "b" (pos 5) first_acquire
      ((refl, a_not_b), ((refl, a_not_b), ((refl, a_not_b), tt))) refl a_not_b

-- "a" acquires at 0 and its lease runs out at 10; "b" acquires at 20.
second_acquire :
    acquire (pos 20) (store_of "a" 1 10) (some live) "leader" "b" (pos 10)
    ≡ (store_of "b" 2 30, ok (lease_of "b" 2 30))
unfolding acquire grant granted get put add
second_acquire = refl

first_after_history :
    acquire (pos 0) (run new_memory_store []) (some live) "leader" "a" (pos 10)
    ≡ (store_of "a" 1 10, ok (lease_of "a" 1 10))
unfolding run new_memory_store acquire grant granted get put add
first_after_history = refl

abbrev late_renewal : List Call
late_renewal =
    record { clock = at 15; ctx = some live; operation = renews (lease_of "a" 1 10) (pos 5) } ∷ []

second_after_renewal :
    acquire (pos 20) (run (store_of "a" 1 10) late_renewal) (some live) "leader" "b" (pos 10)
    ≡ (store_of "b" 2 30, ok (lease_of "b" 2 30))
unfolding run step Coordinator.renew renew acquire grant granted get put add is_blank
second_after_renewal = refl

tokens_grow_example : ◌<◌ 1 2
tokens_grow_example =
    tokens_grow [] late_renewal (store_of "a" 1 10) (store_of "b" 2 30) (pos 0) (pos 20) (some live)
      (some live) "leader" "a" "b" (pos 10) (pos 10) (lease_of "a" 1 10) (lease_of "b" 2 30)
      first_after_history (tt, tt) second_after_renewal a_not_b (omega arith)

-- "b" holds the lease under token 7 and releases it; "a" gets token 1.
release_resets_token_example :
    (acquire
      (pos 40)
      (release (store_of "b" 7 30) (some live) (lease_of "b" 7 30)).0
      (some live)
      "leader"
      "a"
      (pos 10)).1
    ≡ ok (lease_of "a" 1 50)
unfolding add
release_resets_token_example =
    release_resets_token (store_of "b" 7 30) (record { lease = lease_of "b" 7 30; next = 7 })
      (lease_of "b" 7 30) (pos 40) "a" (pos 10) (unfold get in refl) refl refl

failure_writes_nothing_example :
    (Coordinator.acquire memory_lease_store
      (at 3)
      (store_of "a" 1 10)
      (some live)
      "leader"
      "b"
      (pos 0)).0
    ≡ store_of "a" 1 10
unfolding is_blank
failure_writes_nothing_example =
    (failure_writes_nothing (at 3) (store_of "a" 1 10) (some live) "leader" "b" (pos 0)
        (lease_of "b" 1 10) invalid_ttl).0
      (unfold Coordinator.acquire in refl)
