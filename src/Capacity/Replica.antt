-- ===== src/Capacity/Replica.antt =====
-- Fenced reservations of controller/internal/capacity/capacity.go. A replica is not nil, and its
-- registry is the one that the operations take and give back.
use leo_runners.Base.{
  ℕ, String, Option, none, some, Bool, not, ◌&&◌, ◌||◌, str_eq, if◌then◌else◌, Result, ok, err,
  ◌==◌, ltb,
}
use leo_runners.Base.Int.{ℤ, eqb_ℤ}
use leo_runners.Base.Dict.{get, put, remove}
use leo_runners.Base.Text.{is_blank}
use leo_runners.Capacity.Pool.{
  Pool, Registry, Reservation, Error, pool_not_found, no_capacity, bad_reservation, stale_replica,
  invalid_replica, available,
}
use leo_runners.Capacity.Registry.{fits, charge, refund, lacks, with_capacity, any_negative_amount}

pub record Replica : Type 0 where
  pub owner : String
  pub token : ℕ

-- What a replica asks for: the reservation's identifier, the pool's, and the amounts.
pub record Demand : Type 0 where
  pub id : String
  pub pool_id : String
  pub cpu : ℤ
  pub memory_gb : ℤ
  pub gpu : ℤ

-- The reservation that a replica records for a demand.
abbrev pub reservation_of : Replica → Demand → Reservation
reservation_of v d = record {
  id = d.id;
  pool_id = d.pool_id;
  owner = v.owner;
  fencing_token = v.token;
  cpu = d.cpu;
  memory_gb = d.memory_gb;
  gpu = d.gpu;
}

unfoldable pub same_reservation : Reservation → Replica → Demand → Bool
same_reservation x v d =
    str_eq x.owner v.owner
    && x.fencing_token == v.token
    && str_eq x.pool_id d.pool_id
    && eqb_ℤ x.cpu d.cpu
    && eqb_ℤ x.memory_gb d.memory_gb
    && eqb_ℤ x.gpu d.gpu

unfoldable pub bad_demand : Demand → Bool
bad_demand d = is_blank d.id || is_blank d.pool_id || any_negative_amount d.cpu d.memory_gb d.gpu

module _ {Float : Type 0} where
  unfoldable pub new_replica : String → ℕ → Registry Float → Registry Float × Result Error Replica
  new_replica owner token r =
      if is_blank owner || token == 0
      then (r, err invalid_replica)
      else if ltb r.active_token token
      then (
        record r { active_token = token; active_owner = owner },
        ok (record { owner = owner; token = token }),
      )
      else (r, ok (record { owner = owner; token = token }))

  unfoldable pub fenced : Replica → Registry Float → Option Error
  fenced v r =
      if v.token == 0 || str_eq v.owner ""
      then some invalid_replica
      else if not (v.token == r.active_token) || not (str_eq v.owner r.active_owner)
      then some stale_replica
      else none

  unfoldable pub reserve_in :
      Option (Pool Float) → Replica → Demand → Registry Float → Registry Float × Option Error
  reserve_in none v d r = (r, some pool_not_found)
  reserve_in (some p) v d r =
      if not (str_eq p.availability available) || not (fits p.capacity d.cpu d.memory_gb d.gpu)
      then (r, some no_capacity)
      else (
        record r {
          pools =
              put d.pool_id (with_capacity p (charge p.capacity d.cpu d.memory_gb d.gpu)) r.pools;
          reservations = put d.id (reservation_of v d) r.reservations;
        },
        none,
      )

  unfoldable pub reserve_new :
      Option Reservation → Replica → Demand → Registry Float → Registry Float × Option Error
  unfolding reserve_in
  reserve_new (some x) v d r =
      if same_reservation x v d then (r, none) else (r, some bad_reservation)
  reserve_new none v d r = reserve_in (get d.pool_id r.pools) v d r

  unfoldable pub reserve_fenced : Replica → Demand → Registry Float → Registry Float × Option Error
  unfolding reserve_new fenced
  reserve_fenced v d r = if bad_demand d then (r, some bad_reservation) else elim (fenced v r) [
    | some e ↦ (r, some e)
    | none ↦ reserve_new (get d.id r.reservations) v d r
  ]

  unfoldable pub release_pool :
      Option (Pool Float) → Reservation → String → Registry Float → Registry Float × Option Error
  release_pool none x id r = (r, some bad_reservation)
  release_pool (some p) x id r =
      if lacks p.capacity x.cpu x.memory_gb x.gpu then (r, some bad_reservation) else (
        record r {
          pools =
              put x.pool_id (with_capacity p (refund p.capacity x.cpu x.memory_gb x.gpu)) r.pools;
          reservations = remove id r.reservations;
        },
        none,
      )

  unfoldable pub release_known :
      Option Reservation → String → Registry Float → Registry Float × Option Error
  unfolding release_pool
  release_known none id r = (r, none)
  release_known (some x) id r = release_pool (get x.pool_id r.pools) x id r

  unfoldable pub release_fenced : Replica → String → Registry Float → Registry Float × Option Error
  unfolding release_known fenced
  release_fenced v id r = if is_blank id then (r, some bad_reservation) else elim (fenced v r) [
    | some e ↦ (r, some e)
    | none ↦ release_known (get id r.reservations) id r
  ]
