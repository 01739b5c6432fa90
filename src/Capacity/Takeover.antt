-- ===== src/Capacity/Takeover.antt =====
-- A replica that has been replaced stays out, whatever happens to the registry.
use leo_runners.Base.{◌≡◌, ◌≢◌, String, ℕ, ◌<◌, ◌≤◌, List, [], ◌∷◌, some, false, arith, eq_iff, ok}
use leo_runners.Base.Text.{is_blank}
use leo_runners.Capacity.Pool.{Floats, Registry, stale_replica}
use leo_runners.Capacity.Registry.{
  register, upsert, remove_pool, reserve, reserve_from, release, release_to,
}
use leo_runners.Capacity.Replica.{
  Replica, Demand, new_replica, fenced, reserve_fenced, reserve_new, reserve_in, release_fenced,
  release_known, release_pool, bad_demand,
}
use leo_runners.Capacity.Histories.{
  Call, after_call, registers, upserts, removes, reserves, releases, claims, reserves_fenced,
  releases_fenced,
}
use leo_runners.Capacity.Fences.{refused}

module _ (floats : Floats) where
  open floats use {Float}

  token_grows :
      (c : Call floats) (r : Registry Float) → r.active_token ≤ (after_call floats c r).active_token
  unfolding register upsert remove_pool reserve reserve_from release release_to new_replica
      reserve_fenced reserve_new reserve_in release_fenced release_known release_pool
  token_grows (registers p) r = ground arith
  token_grows (upserts p) r = ground arith
  token_grows (removes id) r = ground arith
  token_grows (reserves id cpu memory gpu) r = ground arith
  token_grows (releases id cpu memory gpu) r = ground arith
  token_grows (claims owner token) r = ground arith
  token_grows (reserves_fenced v d) r = ground arith
  token_grows (releases_fenced v id) r = ground arith

  abbrev pub after_calls : List (Call floats) → Registry Float → Registry Float
  after_calls [] r = r
  after_calls (c ∷ cs) r = after_calls cs (after_call floats c r)

  tokens_grow_over :
      (cs : List (Call floats)) (r : Registry Float)
      → r.active_token ≤ (after_calls cs r).active_token
  tokens_grow_over [] r = omega arith
  tokens_grow_over (c ∷ cs) r =
      omega (arith, token_grows c r, tokens_grow_over cs (after_call floats c r))

  outdated :
      (old : Replica) (r : Registry Float)
      → old.token < r.active_token
      → old.token ≢ 0
      → old.owner ≢ ""
      → fenced old r ≡ some stale_replica
  unfolding fenced
  outdated old r older known named = ground (arith, eq_iff old.owner "")

  claim_active :
      (owner : String) (token : ℕ) (new : Replica) (r r' : Registry Float)
      → new_replica owner token r ≡ (r', ok new)
      → token ≤ r'.active_token
  unfolding new_replica
  claim_active owner token new r r' claimed = ground arith

  -- When a replica has claimed the registry, every replica with a smaller token is out for good:
  -- whatever calls anybody makes afterwards, each of its reservations and releases is refused as
  -- stale, and writes nothing.
  pub takeover_is_final :
      (owner : String) (token : ℕ) (new old : Replica) (d : Demand) (id : String)
      (r r' : Registry Float) (cs : List (Call floats))
      → new_replica owner token r ≡ (r', ok new)
      → old.token < token
      → old.token ≢ 0
      → old.owner ≢ ""
      → bad_demand d ≡ false
      → is_blank id ≡ false
      → (reserve_fenced old d (after_calls cs r') ≡ (after_calls cs r', some stale_replica))
        × (release_fenced old id (after_calls cs r') ≡ (after_calls cs r', some stale_replica))
  takeover_is_final owner token new old d id r r' cs claimed older known named good id_named =
      refused old d id stale_replica (after_calls cs r')
        (outdated old (after_calls cs r')
          (omega (arith, claim_active owner token new r r' claimed, tokens_grow_over cs r')) known
          named)
        good id_named
