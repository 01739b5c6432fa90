-- ===== src/Capacity/Overflow.antt =====
-- What `fits` does where the sum of a usage and an amount leaves 64 bits.
use leo_runners.Base.{
  ◌≡◌, refl, String, ◌≤◌, ◌<◌, ◌+◌, ◌^◌, none, some, true, false, ◌||◌, str_eq, arith,
}
use leo_runners.Base.Int.{ℤ, pos, pos_part, ◌≤ℤ◌, ◌<ℤ◌, IsInt64, add64, ltb_ℤ, eqb_ℤ}
use leo_runners.Base.Dict.{get, get-put_self}
use leo_runners.Capacity.Pool.{Capacity, Pool, Registry, available}
use leo_runners.Capacity.Validation.{Within, IsWithin}
use leo_runners.Capacity.Validity.{Is64}
use leo_runners.Capacity.Registry.{
  reserve, reserve_from, fits, has_room, charge, with_capacity, any_negative_amount,
}

-- The sum wraps around to a negative number, which is below every limit.
wrapped_sum :
    (max used amount : ℤ)
    → pos 0 ≤ℤ used
    → pos 0 ≤ℤ amount
    → pos 0 ≤ℤ max
    → IsInt64 used
    → IsInt64 amount
    → 2 ^ 63 ≤ pos_part used + pos_part amount
    → (has_room max used amount ≡ true) × (add64 used amount <ℤ pos 0)
unfolding add64
wrapped_sum max used amount a b c d e over = (ground arith, ground arith)

used_IsInt64 : (used : ℤ) → pos 0 ≤ℤ used → pos_part used < 2 ^ 63 → IsInt64 used
used_IsInt64 used a b = (omega arith, omega arith)

not_below : (amount : ℤ) → pos 0 ≤ℤ amount → any_negative_amount amount (pos 0) (pos 0) ≡ false
not_below amount h = ground arith

nothing_asked :
    (max used : ℤ) → Within max used → pos_part used < 2 ^ 63 → has_room max used (pos 0) ≡ true
unfolding add64
nothing_asked max used w counted = ground arith

oversized_fits :
    (c : Capacity) (amount : ℤ)
    → IsWithin c
    → Is64 c
    → IsInt64 amount
    → pos 0 ≤ℤ amount
    → (eqb_ℤ c.max_runners (pos 0) || ltb_ℤ c.used_runners c.max_runners) ≡ true
    → 2 ^ 63 ≤ pos_part c.used_cpu + pos_part amount
    → fits c amount (pos 0) (pos 0) ≡ true
unfolding fits
oversized_fits c amount w s small nonneg slot over =
    rw
      (
        slot,
        (wrapped_sum c.max_cpu c.used_cpu amount w.cpu.usage nonneg w.cpu.limit
            (used_IsInt64 c.used_cpu w.cpu.usage s.cpu) small over).0,
        nothing_asked c.max_memory_gb c.used_memory_gb w.memory s.memory,
        nothing_asked c.max_gpu c.used_gpu w.gpu s.gpu,
      )
      refl

module _ {Float : Type 0} where
  -- In a pool with a free runner, whatever its CPU limit is, a request for so many CPUs that the
  -- sum with the CPUs in use leaves 64 bits is granted, and leaves a negative number of CPUs in use.
  pub oversized_is_granted :
      (id : String) (p : Pool Float) (amount : ℤ) (r : Registry Float)
      → get id r.pools ≡ some p
      → str_eq p.availability available ≡ true
      → IsWithin p.capacity
      → Is64 p.capacity
      → IsInt64 amount
      → pos 0 ≤ℤ amount
      → (eqb_ℤ p.capacity.max_runners (pos 0)
          || ltb_ℤ p.capacity.used_runners p.capacity.max_runners)
        ≡ true
      → 2 ^ 63 ≤ pos_part p.capacity.used_cpu + pos_part amount
      → ((reserve id amount (pos 0) (pos 0) r).1 ≡ none)
        × ((q : Pool Float) × (get id (reserve id amount (pos 0) (pos 0) r).0.pools ≡ some q)
            × (q.capacity.used_cpu <ℤ pos 0))
  unfolding reserve reserve_from charge
  oversized_is_granted id p amount r there open_pool w s small nonneg slot over =
      rw
        (
          reserve,
          not_below amount nonneg,
          there,
          reserve_from,
          open_pool,
          oversized_fits p.capacity amount w s small nonneg slot over,
        )
        (
          refl,
          (
            with_capacity p (charge p.capacity amount (pos 0) (pos 0)),
            get-put_self id _ r.pools,
            (wrapped_sum p.capacity.max_cpu p.capacity.used_cpu amount w.cpu.usage nonneg
                w.cpu.limit (used_IsInt64 p.capacity.used_cpu w.cpu.usage s.cpu) small over).1,
          ),
        )
