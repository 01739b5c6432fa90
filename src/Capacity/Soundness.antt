-- ===== src/Capacity/Soundness.antt =====
-- Histories of a capacity registry, and what every reachable registry keeps. Each call is one
-- step, as the registry's mutex makes it.
use leo_runners.Base.{
  ◌≡◌, refl, inl, inr, Bool-cases, Option-cases, String, Option, none, some, true, false, not, ◌||◌,
  str_eq, arith,
}
use leo_runners.Base.Int.{ℤ}
use leo_runners.Base.Dict.{get}
use leo_runners.Base.Keys.{Each, put-Each, remove-Each, IsMap, put-IsMap, remove-IsMap}
use leo_runners.Capacity.Pool.{Pool, Floats, Registry, Reservation, available}
use leo_runners.Capacity.Validation.{validate}
use leo_runners.Capacity.Registry.{
  new_registry, register, upsert, remove_pool, reserve, reserve_from, release, release_to,
  with_capacity, with_pool, charge, refund, fits, lacks, any_negative_amount,
}
use leo_runners.Capacity.Validity.{
  Fits64, Is64, Amounts, guard-Amounts, charge-IsWithin, charge-Is64, refund-IsWithin, refund-Is64,
  validate-IsWithin, validate-with_capacity,
}

module _ (floats : Floats) where
  open floats use {Float}

  -- A pool stands under its identifier, is valid, and counts its usage in 64 bits.
  pub record IsKept (k : String) (p : Pool Float) : Type 0 where
    pub named : p.id ≡ k
    pub valid : validate floats p ≡ none
    pub counted : Is64 p.capacity

  -- A reservation's amounts are not negative.
  abbrev pub IsHeld : String → Reservation → Type 0
  IsHeld k x = (x.id ≡ k) × Amounts x.cpu x.memory_gb x.gpu

  pub record IsSound (r : Registry Float) : Type 0 where
    pub pools : Each IsKept r.pools
    pub reservations : Each IsHeld r.reservations
    pub distinct : IsMap r.pools

  -- The sums of a reservation stay within 64 bits, if the pool is there.
  abbrev pub Room : Option (Pool Float) → ℤ → ℤ → ℤ → Type 0
  Room none cpu memory gpu = Unit
  Room (some p) cpu memory gpu = Fits64 p.capacity cpu memory gpu

  pub new_registry-IsSound : IsSound new_registry
  unfolding get
  new_registry-IsSound = record {
    pools = λ k p h. absurd (ground arith);
    reservations = λ k x h. absurd (ground arith);
    distinct = tt;
  }

  with_pool-IsSound :
      (r : Registry Float) (id : String) (p : Pool Float)
      → IsSound r
      → IsKept id p
      → IsSound (with_pool r id p)
  with_pool-IsSound r id p s kept = record {
    pools = put-Each IsKept id p r.pools kept s.pools;
    reservations = s.reservations;
    distinct = put-IsMap id p r.pools s.distinct;
  }

  pub charge-IsKept :
      (id : String) (p : Pool Float) (cpu memory gpu : ℤ)
      → IsKept id p
      → Amounts cpu memory gpu
      → Fits64 p.capacity cpu memory gpu
      → fits p.capacity cpu memory gpu ≡ true
      → IsKept id (with_capacity p (charge p.capacity cpu memory gpu))
  charge-IsKept id p cpu memory gpu kept a sums room = record {
    named = kept.named;
    valid =
        validate-with_capacity floats p _ kept.valid
          (charge-IsWithin _ _ _ _ (validate-IsWithin floats p kept.valid) a sums room);
    counted = charge-Is64 p.capacity cpu memory gpu;
  }

  pub refund-IsKept :
      (id : String) (p : Pool Float) (cpu memory gpu : ℤ)
      → IsKept id p
      → Amounts cpu memory gpu
      → lacks p.capacity cpu memory gpu ≡ false
      → IsKept id (with_capacity p (refund p.capacity cpu memory gpu))
  refund-IsKept id p cpu memory gpu kept a enough = record {
    named = kept.named;
    valid =
        validate-with_capacity floats p _ kept.valid
          (refund-IsWithin _ _ _ _ (validate-IsWithin floats p kept.valid) a kept.counted enough);
    counted = refund-Is64 p.capacity cpu memory gpu;
  }

  reserve_from-IsSound :
      (o : Option (Pool Float)) (id : String) (cpu memory gpu : ℤ) (r : Registry Float)
      → get id r.pools ≡ o
      → IsSound r
      → Amounts cpu memory gpu
      → Room o cpu memory gpu
      → IsSound (reserve_from o id cpu memory gpu r).0
  unfolding reserve_from
  reserve_from-IsSound none id cpu memory gpu r here s a room = s
  reserve_from-IsSound (some p) id cpu memory gpu r here s a room =
      elim (Bool-cases
        (not (str_eq p.availability available) || not (fits p.capacity cpu memory gpu))) [
          | inl refused ↦ rw refused s
          | inr free ↦ rw free (
              with_pool-IsSound r id _ s
                (charge-IsKept id p cpu memory gpu (s.pools id p here) a room (ground arith)))
        ]

  release_to-IsSound :
      (o : Option (Pool Float)) (id : String) (cpu memory gpu : ℤ) (r : Registry Float)
      → get id r.pools ≡ o
      → IsSound r
      → Amounts cpu memory gpu
      → IsSound (release_to o id cpu memory gpu r).0
  unfolding release_to
  release_to-IsSound none id cpu memory gpu r here s a = s
  release_to-IsSound (some p) id cpu memory gpu r here s a =
      elim (Bool-cases (lacks p.capacity cpu memory gpu)) [
        | inl refused ↦ rw refused s
        | inr free ↦ rw free (
            with_pool-IsSound r id _ s
              (refund-IsKept id p cpu memory gpu (s.pools id p here) a free))
      ]

  pub reserve-IsSound :
      (id : String) (cpu memory gpu : ℤ) (r : Registry Float)
      → IsSound r
      → Room (get id r.pools) cpu memory gpu
      → IsSound (reserve id cpu memory gpu r).0
  unfolding reserve
  reserve-IsSound id cpu memory gpu r s room =
      elim (Bool-cases (any_negative_amount cpu memory gpu)) [
        | inl bad ↦ rw bad s
        | inr good ↦
            rw good
              (reserve_from-IsSound _ id cpu memory gpu r refl s (guard-Amounts _ _ _ good) room)
      ]

  pub release-IsSound :
      (id : String) (cpu memory gpu : ℤ) (r : Registry Float)
      → IsSound r
      → IsSound (release id cpu memory gpu r).0
  unfolding release
  release-IsSound id cpu memory gpu r s = elim (Bool-cases (any_negative_amount cpu memory gpu)) [
    | inl bad ↦ rw bad s
    | inr good ↦
        rw good (release_to-IsSound _ id cpu memory gpu r refl s (guard-Amounts _ _ _ good))
  ]

  pub remove_pool-IsSound :
      (id : String) (r : Registry Float) → IsSound r → IsSound (remove_pool id r).0
  unfolding remove_pool
  remove_pool-IsSound id r s = elim (Option-cases (get id r.pools)) [
    | inl absent ↦ rw (remove_pool, absent) s
    | inr (p, there) ↦
        rw (remove_pool, there)
          (record {
            pools = remove-Each IsKept id r.pools s.pools;
            reservations = s.reservations;
            distinct = remove-IsMap id r.pools s.distinct;
          })
  ]

  pub upsert-IsSound :
      (p : Pool Float) (r : Registry Float)
      → IsSound r
      → Is64 p.capacity
      → IsSound (upsert floats p r).0
  unfolding upsert
  upsert-IsSound p r s counted = elim (Option-cases (validate floats p)) [
    | inl valid ↦
        rw (upsert, valid)
          (with_pool-IsSound r p.id p s (record { named = refl; valid = valid; counted = counted }))
    | inr (e, bad) ↦ rw (upsert, bad) s
  ]

  pub register-IsSound :
      (p : Pool Float) (r : Registry Float)
      → IsSound r
      → Is64 p.capacity
      → IsSound (register floats p r).0
  unfolding register
  register-IsSound p r s counted = elim (Option-cases (validate floats p)) [
    | inl valid ↦ elim (Option-cases (get p.id r.pools)) [
      | inl free ↦
          rw (register, valid, free)
            (with_pool-IsSound r p.id p s
              (record { named = refl; valid = valid; counted = counted }))
      | inr (old, there) ↦ rw (register, valid, there) s
    ]
    | inr (e, bad) ↦ rw (register, bad) s
  ]
