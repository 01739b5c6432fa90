-- ===== src/Capacity/Histories.antt =====
-- The histories of a registry: any calls by any replicas, in the order the mutex lets them in.
use leo_runners.Base.{
  ◌≡◌, refl, inl, inr, Bool-cases, Option-cases, String, ℕ, Option, none, some, false, not, ◌||◌,
  str_eq, arith, ltb, ◌==◌,
}
use leo_runners.Base.Int.{ℤ}
use leo_runners.Base.Text.{is_blank}
use leo_runners.Base.Dict.{get}
use leo_runners.Base.Keys.{put-Each, remove-Each, put-IsMap}
use leo_runners.Capacity.Pool.{Pool, Floats, Registry, Reservation, available}
use leo_runners.Capacity.Registry.{
  new_registry, register, upsert, remove_pool, reserve, release, fits, lacks,
}
use leo_runners.Capacity.Replica.{
  Replica, Demand, new_replica, fenced, reserve_fenced, reserve_new, reserve_in, release_fenced,
  release_known, release_pool, bad_demand,
}
use leo_runners.Capacity.Validity.{Is64, Amounts, guard-Amounts}
use leo_runners.Capacity.Soundness.{
  IsSound, IsKept, IsHeld, Room, charge-IsKept, refund-IsKept, new_registry-IsSound,
  reserve-IsSound, release-IsSound, remove_pool-IsSound, upsert-IsSound, register-IsSound,
}

module _ (floats : Floats) where
  open floats use {Float}

  reserve_in-IsSound :
      (o : Option (Pool Float)) (v : Replica) (d : Demand) (r : Registry Float)
      → get d.pool_id r.pools ≡ o
      → IsSound floats r
      → Amounts d.cpu d.memory_gb d.gpu
      → Room floats o d.cpu d.memory_gb d.gpu
      → IsSound floats (reserve_in o v d r).0
  unfolding reserve_in
  reserve_in-IsSound none v d r here s a room = s
  reserve_in-IsSound (some p) v d r here s a room =
      elim (Bool-cases
        (not (str_eq p.availability available) || not (fits p.capacity d.cpu d.memory_gb d.gpu))) [
          | inl refused ↦ rw refused s
          | inr free ↦ rw free (record {
            pools =
                put-Each (IsKept floats) d.pool_id _ r.pools
                  (charge-IsKept floats d.pool_id p _ _ _ (s.pools d.pool_id p here) a room
                    (ground arith))
                  s.pools;
            reservations = put-Each (IsHeld floats) d.id _ r.reservations (refl, a) s.reservations;
            distinct = put-IsMap d.pool_id _ r.pools s.distinct;
          })
        ]

  reserve_new-IsSound :
      (o : Option Reservation) (v : Replica) (d : Demand) (r : Registry Float)
      → IsSound floats r
      → Amounts d.cpu d.memory_gb d.gpu
      → Room floats (get d.pool_id r.pools) d.cpu d.memory_gb d.gpu
      → IsSound floats (reserve_new o v d r).0
  unfolding reserve_new
  reserve_new-IsSound none v d r s a room = reserve_in-IsSound _ v d r refl s a room
  reserve_new-IsSound (some x) v d r s a room = ground (arith, s)

  demand-Amounts : (d : Demand) → bad_demand d ≡ false → Amounts d.cpu d.memory_gb d.gpu
  unfolding bad_demand
  demand-Amounts d good = guard-Amounts d.cpu d.memory_gb d.gpu (ground arith)

  reserve_fenced-IsSound :
      (v : Replica) (d : Demand) (r : Registry Float)
      → IsSound floats r
      → Room floats (get d.pool_id r.pools) d.cpu d.memory_gb d.gpu
      → IsSound floats (reserve_fenced v d r).0
  unfolding reserve_fenced
  reserve_fenced-IsSound v d r s room = elim (Bool-cases (bad_demand d)) [
    | inl bad ↦ rw (reserve_fenced, bad) s
    | inr good ↦ elim (Option-cases (fenced v r)) [
      | inl active ↦
          rw (reserve_fenced, good, active)
            (reserve_new-IsSound (get d.id r.reservations) v d r s (demand-Amounts d good) room)
      | inr (e, stale) ↦ rw (reserve_fenced, good, stale) s
    ]
  ]

  release_pool-IsSound :
      (o : Option (Pool Float)) (x : Reservation) (id : String) (r : Registry Float)
      → get x.pool_id r.pools ≡ o
      → IsSound floats r
      → Amounts x.cpu x.memory_gb x.gpu
      → IsSound floats (release_pool o x id r).0
  unfolding release_pool
  release_pool-IsSound none x id r here s a = s
  release_pool-IsSound (some p) x id r here s a =
      elim (Bool-cases (lacks p.capacity x.cpu x.memory_gb x.gpu)) [
        | inl refused ↦ rw refused s
        | inr free ↦ rw free (record {
          pools =
              put-Each (IsKept floats) x.pool_id _ r.pools
                (refund-IsKept floats x.pool_id p _ _ _ (s.pools x.pool_id p here) a free) s.pools;
          reservations = remove-Each (IsHeld floats) id r.reservations s.reservations;
          distinct = put-IsMap x.pool_id _ r.pools s.distinct;
        })
      ]

  release_known-IsSound :
      (o : Option Reservation) (id : String) (r : Registry Float)
      → get id r.reservations ≡ o
      → IsSound floats r
      → IsSound floats (release_known o id r).0
  unfolding release_known
  release_known-IsSound none id r here s = s
  release_known-IsSound (some x) id r here s =
      release_pool-IsSound _ x id r refl s (s.reservations id x here).1

  release_fenced-IsSound :
      (v : Replica) (id : String) (r : Registry Float)
      → IsSound floats r
      → IsSound floats (release_fenced v id r).0
  unfolding release_fenced
  release_fenced-IsSound v id r s = elim (Bool-cases (is_blank id)) [
    | inl bad ↦ rw (release_fenced, bad) s
    | inr good ↦ elim (Option-cases (fenced v r)) [
      | inl active ↦ rw (release_fenced, good, active) (release_known-IsSound _ id r refl s)
      | inr (e, stale) ↦ rw (release_fenced, good, stale) s
    ]
  ]

  new_replica-IsSound :
      (owner : String) (token : ℕ) (r : Registry Float)
      → IsSound floats r
      → IsSound floats (new_replica owner token r).0
  unfolding new_replica
  new_replica-IsSound owner token r s = elim (Bool-cases (is_blank owner || token == 0)) [
    | inl bad ↦ rw bad s
    | inr good ↦ elim (Bool-cases (ltb r.active_token token)) [
      | inl newer ↦
          rw (good, newer)
            (record { pools = s.pools; reservations = s.reservations; distinct = s.distinct })
      | inr older ↦ rw (good, older) s
    ]
  ]

  -- The calls that may write to a registry.
  pub data Call : Type 0 where
    registers upserts : Pool Float → Call
    removes : String → Call
    reserves releases : String → ℤ → ℤ → ℤ → Call
    claims : String → ℕ → Call
    reserves_fenced : Replica → Demand → Call
    releases_fenced : Replica → String → Call

  abbrev pub after_call : Call → Registry Float → Registry Float
  after_call (registers p) r = (register floats p r).0
  after_call (upserts p) r = (upsert floats p r).0
  after_call (removes id) r = (remove_pool id r).0
  after_call (reserves id cpu memory gpu) r = (reserve id cpu memory gpu r).0
  after_call (releases id cpu memory gpu) r = (release id cpu memory gpu r).0
  after_call (claims owner token) r = (new_replica owner token r).0
  after_call (reserves_fenced v d) r = (reserve_fenced v d r).0
  after_call (releases_fenced v id) r = (release_fenced v id r).0

  -- No number of the call leaves 64 bits: a new pool's usage, or the sum of a pool's usage and
  -- the amounts to be reserved.
  abbrev pub Stays64 : Call → Registry Float → Type 0
  Stays64 (registers p) r = Is64 p.capacity
  Stays64 (upserts p) r = Is64 p.capacity
  Stays64 (removes id) r = Unit
  Stays64 (reserves id cpu memory gpu) r = Room floats (get id r.pools) cpu memory gpu
  Stays64 (releases id cpu memory gpu) r = Unit
  Stays64 (claims owner token) r = Unit
  Stays64 (reserves_fenced v d) r = Room floats (get d.pool_id r.pools) d.cpu d.memory_gb d.gpu
  Stays64 (releases_fenced v id) r = Unit

  pub data Reachable : Registry Float → Type 0 where
    starts : Reachable new_registry
    steps : (r : Registry Float) (c : Call) → Reachable r → Stays64 c r → Reachable (after_call c r)

  after_call-IsSound :
      (c : Call) (r : Registry Float)
      → Stays64 c r
      → IsSound floats r
      → IsSound floats (after_call c r)
  after_call-IsSound (registers p) r h s = register-IsSound floats p r s h
  after_call-IsSound (upserts p) r h s = upsert-IsSound floats p r s h
  after_call-IsSound (removes id) r h s = remove_pool-IsSound floats id r s
  after_call-IsSound (reserves id cpu memory gpu) r h s =
      reserve-IsSound floats id cpu memory gpu r s h
  after_call-IsSound (releases id cpu memory gpu) r h s =
      release-IsSound floats id cpu memory gpu r s
  after_call-IsSound (claims owner token) r h s = new_replica-IsSound owner token r s
  after_call-IsSound (reserves_fenced v d) r h s = reserve_fenced-IsSound v d r s h
  after_call-IsSound (releases_fenced v id) r h s = release_fenced-IsSound v id r s

  -- Whatever calls are made of a registry, as long as no sum leaves 64 bits: every pool stands
  -- under its own identifier and passes `Validate`, so that no usage is negative or above its
  -- limit, and every reservation stands under its own identifier with amounts that are not negative.
  pub Reachable-IsSound : (r : Registry Float) → Reachable r → IsSound floats r
  Reachable-IsSound _ starts = new_registry-IsSound floats
  Reachable-IsSound _ (steps r c before stays) =
      after_call-IsSound c r stays (Reachable-IsSound r before)
