-- ===== src/Policy/Tests.antt =====
-- Runs of the policy at concrete inputs.
use leo_runners.Base.{[], ◌∷◌, some, true, false}
use leo_runners.Policy.Selecting.{
  Pool, Selected, customer_first, select-Selected, select, eligible, first,
}

abbrev house : Pool
house = record { id = "house"; customer_owned = false; available = true }

abbrev own : Pool
own = record { id = "own"; customer_owned = true; available = true }

-- The customer's pool is chosen, though the other comes first.
select-Selected_example : Selected customer_first (house ∷ own ∷ []) (some own)
unfolding select eligible first
select-Selected_example = select-Selected customer_first (house ∷ own ∷ [])
