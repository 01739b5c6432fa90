-- ===== src/Capacity/Retraction.antt =====
-- Giving back what was reserved restores the registry.
use leo_runners.Base.{
  ◌≡◌, refl, sym, ap, subst, ◌∙◌, inl, inr, String, none, some, Option-cases, false, arith,
}
use leo_runners.Base.Int.{ℤ}
use leo_runners.Base.Text.{is_blank}
use leo_runners.Base.Dict.{get, put, get-put_self, put-put, put-get, remove-put}
use leo_runners.Capacity.Pool.{Pool, Registry}
use leo_runners.Capacity.Validation.{IsWithin}
use leo_runners.Capacity.Registry.{
  reserve, reserve_from, release, release_to, with_capacity, with_pool, charge, any_negative_amount,
}
use leo_runners.Capacity.Replica.{
  Replica, Demand, fenced, reserve_fenced, reserve_new, reserve_in, reservation_of, release_fenced,
  release_known, release_pool, bad_demand,
}
use leo_runners.Capacity.Validity.{Fits64, Amounts, guard-Amounts, lacks-charge, refund-charge}

demand-good :
    (d : Demand)
    → bad_demand d ≡ false
    → (is_blank d.id ≡ false) × (any_negative_amount d.cpu d.memory_gb d.gpu ≡ false)
unfolding bad_demand
demand-good d good = (ground arith, ground arith)

module _ {Float : Type 0} where
  -- A charged pool, and the registry with it.
  abbrev charged : Pool Float → ℤ → ℤ → ℤ → Pool Float
  charged p cpu memory gpu = with_capacity p (charge p.capacity cpu memory gpu)

  release_to-charged :
      (p : Pool Float) (id : String) (cpu memory gpu : ℤ) (r : Registry Float)
      → get id r.pools ≡ some p
      → IsWithin p.capacity
      → Amounts cpu memory gpu
      → Fits64 p.capacity cpu memory gpu
      → release_to
          (some (charged p cpu memory gpu))
          id
          cpu
          memory
          gpu
          (with_pool r id (charged p cpu memory gpu))
        ≡ (r, none)
  unfolding release_to
  release_to-charged p id cpu memory gpu r there w a sums =
      rw
        (
          lacks-charge p.capacity cpu memory gpu w a sums,
          refund-charge p.capacity cpu memory gpu w a sums,
          put-put id (charged p cpu memory gpu) p r.pools,
          put-get id p r.pools there,
        )
        refl

  reserve_from-Written :
      (p : Pool Float) (id : String) (cpu memory gpu : ℤ) (r r' : Registry Float)
      → reserve_from (some p) id cpu memory gpu r ≡ (r', none)
      → r' ≡ with_pool r id (charged p cpu memory gpu)
  unfolding reserve_from
  reserve_from-Written p id cpu memory gpu r r' h = ground arith

  reserve-Written :
      (id : String) (cpu memory gpu : ℤ) (p : Pool Float) (r r' : Registry Float)
      → get id r.pools ≡ some p
      → reserve id cpu memory gpu r ≡ (r', none)
      → (any_negative_amount cpu memory gpu ≡ false)
        × (r' ≡ with_pool r id (charged p cpu memory gpu))
  unfolding reserve
  reserve-Written id cpu memory gpu p r r' there done = (
    ground arith,
    reserve_from-Written p id cpu memory gpu r r'
        (ground (arith, ap (λ o. reserve_from o id cpu memory gpu r) there)),
  )

  -- A reservation that succeeds and the release of the same amounts restore the registry, if the
  -- pool's usage was within its limits and the sums stay within 64 bits.
  pub reserve_then_release :
      (id : String) (cpu memory gpu : ℤ) (p : Pool Float) (r r' : Registry Float)
      → get id r.pools ≡ some p
      → IsWithin p.capacity
      → Fits64 p.capacity cpu memory gpu
      → reserve id cpu memory gpu r ≡ (r', none)
      → release id cpu memory gpu r' ≡ (r, none)
  unfolding release
  reserve_then_release id cpu memory gpu p r r' there w sums done =
      let (good, written) = reserve-Written id cpu memory gpu p r r' there done in
      rw (release, good, written, get-put_self id (charged p cpu memory gpu) r.pools)
        (release_to-charged p id cpu memory gpu r there w (guard-Amounts cpu memory gpu good) sums)

  -- The registry with a fenced reservation in it.
  abbrev holding : Registry Float → Replica → Demand → Pool Float → Registry Float
  holding r v d p = record r {
    pools = put d.pool_id (charged p d.cpu d.memory_gb d.gpu) r.pools;
    reservations = put d.id (reservation_of v d) r.reservations;
  }

  reserve_in-Written :
      (p : Pool Float) (v : Replica) (d : Demand) (r r' : Registry Float)
      → reserve_in (some p) v d r ≡ (r', none)
      → r' ≡ holding r v d p
  unfolding reserve_in
  reserve_in-Written p v d r r' h = ground arith

  reserve_new-Written :
      (v : Replica) (d : Demand) (p : Pool Float) (r r' : Registry Float)
      → get d.pool_id r.pools ≡ some p
      → get d.id r.reservations ≡ none
      → reserve_new (get d.id r.reservations) v d r ≡ (r', none)
      → r' ≡ holding r v d p
  unfolding reserve_new
  reserve_new-Written v d p r r' there new done =
      reserve_in-Written p v d r r'
        (sym (ap (λ o. reserve_in o v d r) there) ∙ sym (ap (λ o. reserve_new o v d r) new) ∙ done)

  reserve_fenced-Written :
      (v : Replica) (d : Demand) (p : Pool Float) (r r' : Registry Float)
      → get d.pool_id r.pools ≡ some p
      → get d.id r.reservations ≡ none
      → reserve_fenced v d r ≡ (r', none)
      → (bad_demand d ≡ false) × (fenced v r ≡ none) × (r' ≡ holding r v d p)
  unfolding reserve_fenced
  reserve_fenced-Written v d p r r' there new done = elim (Option-cases (fenced v r)) [
    | inl active ↦ (ground arith, active, reserve_new-Written v d p r r' there new (ground arith))
    | inr (e, stale) ↦ absurd (ground arith)
  ]

  release_pool-holding :
      (v : Replica) (d : Demand) (p : Pool Float) (r : Registry Float)
      → get d.pool_id r.pools ≡ some p
      → get d.id r.reservations ≡ none
      → IsWithin p.capacity
      → Amounts d.cpu d.memory_gb d.gpu
      → Fits64 p.capacity d.cpu d.memory_gb d.gpu
      → release_pool
          (some (charged p d.cpu d.memory_gb d.gpu))
          (reservation_of v d)
          d.id
          (holding r v d p)
        ≡ (r, none)
  unfolding release_pool
  release_pool-holding v d p r there new w a sums =
      rw
        (
          lacks-charge p.capacity d.cpu d.memory_gb d.gpu w a sums,
          refund-charge p.capacity d.cpu d.memory_gb d.gpu w a sums,
          put-put d.pool_id (charged p d.cpu d.memory_gb d.gpu) p r.pools,
          put-get d.pool_id p r.pools there,
          remove-put d.id (reservation_of v d) r.reservations new,
        )
        refl

  fenced-holding :
      (v : Replica) (d : Demand) (p : Pool Float) (r : Registry Float)
      → fenced v (holding r v d p) ≡ fenced v r
  unfolding fenced
  fenced-holding v d p r = refl

  -- A fenced reservation under a new identifier that succeeds, and its release by the same
  -- replica, restore the registry, if the pool's usage was within its limits and the sums stay
  -- within 64 bits.
  pub reserve_then_release_fenced :
      (v : Replica) (d : Demand) (p : Pool Float) (r r' : Registry Float)
      → get d.pool_id r.pools ≡ some p
      → get d.id r.reservations ≡ none
      → IsWithin p.capacity
      → Fits64 p.capacity d.cpu d.memory_gb d.gpu
      → reserve_fenced v d r ≡ (r', none)
      → release_fenced v d.id r' ≡ (r, none)
  unfolding release_fenced release_known
  reserve_then_release_fenced v d p r r' there new w sums done =
      let (good, active, written) = reserve_fenced-Written v d p r r' there new done in
      let (named, amounts) = demand-good d good in
      subst (λ x. release_fenced v d.id x ≡ (r, none)) (sym written)
        (rw
          (
            release_fenced,
            named,
            fenced-holding v d p r,
            active,
            get-put_self d.id (reservation_of v d) r.reservations,
            release_known,
            get-put_self d.pool_id (charged p d.cpu d.memory_gb d.gpu) r.pools,
          )
          (release_pool-holding v d p r there new w (guard-Amounts _ _ _ amounts) sums))
