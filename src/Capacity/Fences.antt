-- ===== src/Capacity/Fences.antt =====
-- What fencing gives: repeated requests, replaced replicas and failing calls.
use leo_runners.Base.{
  ◌≡◌, refl, inl, inr, String, Option, none, some, Option-cases, true, false, arith, eq_iff,
}
use leo_runners.Base.Int.{ℤ, eqb_ℤ_refl}
use leo_runners.Base.Text.{is_blank}
use leo_runners.Base.Dict.{get, get-put_self}
use leo_runners.Capacity.Pool.{Pool, Floats, Registry, Reservation, Error}
use leo_runners.Capacity.Registry.{
  register, upsert, remove_pool, reserve, reserve_from, release, release_to,
}
use leo_runners.Capacity.Replica.{
  Replica, Demand, fenced, reserve_fenced, reserve_new, reserve_in, reservation_of,
  same_reservation, release_fenced, release_known, release_pool, bad_demand,
}

same_reservation_refl :
    (v : Replica) (d : Demand) → same_reservation (reservation_of v d) v d ≡ true
unfolding same_reservation
same_reservation_refl v d = ground (
  arith,
  eq_iff v.owner v.owner,
  eq_iff d.pool_id d.pool_id,
  eqb_ℤ_refl d.cpu,
  eqb_ℤ_refl d.memory_gb,
  eqb_ℤ_refl d.gpu,
)

module _ {Float : Type 0} where
  -- Under the reservation's identifier stands what the replica asked for.
  abbrev Recorded : Replica → Demand → Registry Float → Type 0
  Recorded v d r =
      (x : Reservation) × (get d.id r.reservations ≡ some x) × (same_reservation x v d ≡ true)

  reserve_in-Recorded :
      (o : Option (Pool Float)) (v : Replica) (d : Demand) (r r' : Registry Float)
      → reserve_in o v d r ≡ (r', none)
      → Recorded v d r' × (fenced v r' ≡ fenced v r)
  unfolding reserve_in fenced
  reserve_in-Recorded none v d r r' h = absurd (ground arith)
  reserve_in-Recorded (some p) v d r r' h = (
    (
      reservation_of v d,
      ground (arith, get-put_self d.id (reservation_of v d) r.reservations),
      same_reservation_refl v d,
    ),
    ground arith,
  )

  reserve_new-Recorded :
      (o : Option Reservation) (v : Replica) (d : Demand) (r r' : Registry Float)
      → get d.id r.reservations ≡ o
      → reserve_new o v d r ≡ (r', none)
      → Recorded v d r' × (fenced v r' ≡ fenced v r)
  unfolding reserve_new
  reserve_new-Recorded none v d r r' here h = reserve_in-Recorded (get d.pool_id r.pools) v d r r' h
  reserve_new-Recorded (some x) v d r r' here h = ((x, ground arith, ground arith), ground arith)

  demand_good :
      (v : Replica) (d : Demand) (r r' : Registry Float)
      → reserve_fenced v d r ≡ (r', none)
      → bad_demand d ≡ false
  unfolding reserve_fenced
  demand_good v d r r' done = ground arith

  repeats :
      (x : Reservation) (v : Replica) (d : Demand) (r : Registry Float)
      → same_reservation x v d ≡ true
      → reserve_new (some x) v d r ≡ (r, none)
  unfolding reserve_new
  repeats x v d r same = rw same refl

  -- A request that succeeded and is repeated by the same replica succeeds again, and changes
  -- nothing: nothing is charged twice.
  pub repeated_reserve :
      (v : Replica) (d : Demand) (r r' : Registry Float)
      → reserve_fenced v d r ≡ (r', none)
      → reserve_fenced v d r' ≡ (r', none)
  unfolding reserve_fenced
  repeated_reserve v d r r' done = elim (Option-cases (fenced v r)) [
    | inl active ↦
        let ((x, there, same), kept) =
          reserve_new-Recorded (get d.id r.reservations) v d r r' refl (ground arith) in
        rw (reserve_fenced, demand_good v d r r' done, kept, active, there) (repeats x v d r' same)
    | inr (e, stale) ↦ absurd (ground arith)
  ]

  pub refused :
      (v : Replica) (d : Demand) (id : String) (e : Error) (r : Registry Float)
      → fenced v r ≡ some e
      → bad_demand d ≡ false
      → is_blank id ≡ false
      → (reserve_fenced v d r ≡ (r, some e)) × (release_fenced v id r ≡ (r, some e))
  unfolding reserve_fenced release_fenced
  refused v d id e r stale good named =
      (rw (reserve_fenced, good, stale) refl, rw (release_fenced, named, stale) refl)

module _ (floats : Floats) where
  open floats use {Float}

  -- A call that answers an error, at whatever check, has written nothing.
  pub errors_write_nothing :
      (p : Pool Float) (id : String) (cpu memory gpu : ℤ) (v : Replica) (d : Demand) (e : Error)
      (r : Registry Float)
      → ((register floats p r).1 ≡ some e → (register floats p r).0 ≡ r)
        × ((upsert floats p r).1 ≡ some e → (upsert floats p r).0 ≡ r)
        × ((remove_pool id r).1 ≡ some e → (remove_pool id r).0 ≡ r)
        × ((reserve id cpu memory gpu r).1 ≡ some e → (reserve id cpu memory gpu r).0 ≡ r)
        × ((release id cpu memory gpu r).1 ≡ some e → (release id cpu memory gpu r).0 ≡ r)
        × ((reserve_fenced v d r).1 ≡ some e → (reserve_fenced v d r).0 ≡ r)
        × ((release_fenced v id r).1 ≡ some e → (release_fenced v id r).0 ≡ r)
  unfolding register upsert remove_pool reserve reserve_from release release_to reserve_fenced
      reserve_new reserve_in release_fenced release_known release_pool
  errors_write_nothing p id cpu memory gpu v d e r = (
    λ h. ground arith,
    λ h. ground arith,
    λ h. ground arith,
    λ h. ground arith,
    λ h. ground arith,
    λ h. ground arith,
    λ h. ground arith,
  )
