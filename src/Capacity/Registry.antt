-- ===== src/Capacity/Registry.antt =====
-- The registry of controller/internal/capacity/capacity.go: its pools, and reservations that are
-- not fenced. An answer is the error, or none for nil.
use leo_runners.Base.{
  ℕ, String, Option, none, some, Bool, List, [], not, ◌&&◌, ◌||◌, str_eq, if◌then◌else◌, Result, ok,
  err,
}
use leo_runners.Base.Int.{ℤ, pos, ltb_ℤ, leb_ℤ, eqb_ℤ, add64, sub64}
use leo_runners.Base.Dict.{get, put, remove, values}
use leo_runners.Base.Sort.{sort}
use leo_runners.Base.Text.Order.{str_lt}
use leo_runners.Capacity.Pool.{
  Capacity, Pool, Floats, Registry, Reservation, Error, pool_exists, pool_not_found, no_capacity,
  bad_reservation, available,
}
use leo_runners.Capacity.Validation.{validate, negative_int}

abbrev pub new_registry : {Float : Type 0} → Registry Float
new_registry = record { pools = []; reservations = []; active_owner = ""; active_token = 0 }

-- `max == 0 || used + amount <= max`
abbrev pub has_room : ℤ → ℤ → ℤ → Bool
has_room max used amount = eqb_ℤ max (pos 0) || leb_ℤ (add64 used amount) max

unfoldable pub fits : Capacity → ℤ → ℤ → ℤ → Bool
fits c cpu memory gpu =
    (eqb_ℤ c.max_runners (pos 0) || ltb_ℤ c.used_runners c.max_runners)
    && has_room c.max_cpu c.used_cpu cpu
    && has_room c.max_memory_gb c.used_memory_gb memory
    && has_room c.max_gpu c.used_gpu gpu

-- The usage with one more runner, and with one less.
unfoldable pub charge : Capacity → ℤ → ℤ → ℤ → Capacity
charge c cpu memory gpu = record c {
  used_runners = add64 c.used_runners (pos 1);
  used_cpu = add64 c.used_cpu cpu;
  used_memory_gb = add64 c.used_memory_gb memory;
  used_gpu = add64 c.used_gpu gpu;
}

unfoldable pub refund : Capacity → ℤ → ℤ → ℤ → Capacity
refund c cpu memory gpu = record c {
  used_runners = sub64 c.used_runners (pos 1);
  used_cpu = sub64 c.used_cpu cpu;
  used_memory_gb = sub64 c.used_memory_gb memory;
  used_gpu = sub64 c.used_gpu gpu;
}

-- Less is in use than is to be given back.
unfoldable pub lacks : Capacity → ℤ → ℤ → ℤ → Bool
lacks c cpu memory gpu =
    ltb_ℤ c.used_runners (pos 1)
    || ltb_ℤ c.used_cpu cpu
    || ltb_ℤ c.used_memory_gb memory
    || ltb_ℤ c.used_gpu gpu

abbrev pub any_negative_amount : ℤ → ℤ → ℤ → Bool
any_negative_amount cpu memory gpu = negative_int cpu || negative_int memory || negative_int gpu

module _ {Float : Type 0} where
  abbrev pub with_pool : Registry Float → String → Pool Float → Registry Float
  with_pool r id p = record r { pools = put id p r.pools }

  abbrev pub with_capacity : Pool Float → Capacity → Pool Float
  with_capacity p c = record p { capacity = c }

  unfoldable pub remove_pool : String → Registry Float → Registry Float × Option Error
  remove_pool id r = elim (get id r.pools) [
    | none ↦ (r, some pool_not_found)
    | some p ↦ (record r { pools = remove id r.pools }, none)
  ]

  unfoldable pub get_pool : String → Registry Float → Result Error (Pool Float)
  get_pool id r = elim (get id r.pools) [ none ↦ err pool_not_found | some p ↦ ok p ]

  unfoldable pub list_pools : Registry Float → List (Pool Float)
  list_pools r = sort (λ a b. str_lt a.id b.id) (values r.pools)

  unfoldable pub evidence : Registry Float → String × ℕ × List Reservation
  evidence r =
      (r.active_owner, r.active_token, sort (λ a b. str_lt a.id b.id) (values r.reservations))

  unfoldable pub reserve_from :
      Option (Pool Float) → String → ℤ → ℤ → ℤ → Registry Float → Registry Float × Option Error
  reserve_from none id cpu memory gpu r = (r, some pool_not_found)
  reserve_from (some p) id cpu memory gpu r =
      if not (str_eq p.availability available) || not (fits p.capacity cpu memory gpu)
      then (r, some no_capacity)
      else (with_pool r id (with_capacity p (charge p.capacity cpu memory gpu)), none)

  unfoldable pub reserve : String → ℤ → ℤ → ℤ → Registry Float → Registry Float × Option Error
  unfolding reserve_from
  reserve id cpu memory gpu r =
      if any_negative_amount cpu memory gpu
      then (r, some bad_reservation)
      else reserve_from (get id r.pools) id cpu memory gpu r

  unfoldable pub release_to :
      Option (Pool Float) → String → ℤ → ℤ → ℤ → Registry Float → Registry Float × Option Error
  release_to none id cpu memory gpu r = (r, some pool_not_found)
  release_to (some p) id cpu memory gpu r =
      if lacks p.capacity cpu memory gpu
      then (r, some bad_reservation)
      else (with_pool r id (with_capacity p (refund p.capacity cpu memory gpu)), none)

  unfoldable pub release : String → ℤ → ℤ → ℤ → Registry Float → Registry Float × Option Error
  unfolding release_to
  release id cpu memory gpu r =
      if any_negative_amount cpu memory gpu
      then (r, some bad_reservation)
      else release_to (get id r.pools) id cpu memory gpu r

module _ (floats : Floats) where
  open floats use {Float}

  unfoldable pub register : Pool Float → Registry Float → Registry Float × Option Error
  register p r = elim (validate floats p) [
    | some e ↦ (r, some e)
    | none ↦ elim (get p.id r.pools) [
      | some old ↦ (r, some pool_exists)
      | none ↦ (with_pool r p.id p, none)
    ]
  ]

  unfoldable pub upsert : Pool Float → Registry Float → Registry Float × Option Error
  upsert p r = elim (validate floats p) [ some e ↦ (r, some e) | none ↦ (with_pool r p.id p, none) ]
