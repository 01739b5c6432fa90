-- ===== src/Capacity/Selection.antt =====
-- `Select` of controller/internal/capacity/capacity.go.
use leo_runners.Base.{
  String, Option, none, some, Bool, true, false, List, [], ◌∷◌, not, ◌&&◌, ◌||◌, str_eq,
  if◌then◌else◌, keep, any,
}
use leo_runners.Base.Int.{ltb_ℤ, eqb_ℤ}
use leo_runners.Base.Dict.{values}
use leo_runners.Base.Sort.{sort}
use leo_runners.Base.Text.Order.{str_lt}
use leo_runners.Capacity.Pool.{
  Pool, Floats, Registry, Request, customer_owned, managed, customer_first, managed_first,
  customer_only, managed_only, available,
}
use leo_runners.Capacity.Validation.{negative_int}
use leo_runners.Capacity.Registry.{fits}

-- The ownerships to try, in order; the empty text stands for any.
unfoldable pub ownership_order : String → String → List String
ownership_order mode requested =
    if not (str_eq requested "")
    then requested ∷ []
    else if str_eq mode customer_first
    then customer_owned ∷ managed ∷ []
    else if str_eq mode managed_first
    then managed ∷ customer_owned ∷ []
    else if str_eq mode customer_only
    then customer_owned ∷ []
    else if str_eq mode managed_only
    then managed ∷ []
    else "" ∷ []

-- Whether every requested label is among the pool's.
unfoldable pub has_labels : List String → List String → Bool
has_labels pool [] = true
has_labels pool (l ∷ ls) = any (str_eq l) pool && has_labels pool ls

-- `want != "" && have != want`
abbrev pub refuses : String → String → Bool
refuses want have = not (str_eq want "") && not (str_eq have want)

module _ {Float : Type 0} where
  unfoldable pub matches : Request → Pool Float → Bool
  matches q p =
      if not (str_eq p.availability available)
        || refuses q.provider p.provider
        || refuses q.region p.region
        || refuses q.security_profile p.security_profile
      then false
      else if negative_int q.cpu
          || negative_int q.memory_gb
          || negative_int q.gpu
          || not (has_labels p.labels q.labels)
          || not (fits p.capacity q.cpu q.memory_gb q.gpu)
      then false
      else true

  -- Whether a pool is among the candidates for an ownership.
  abbrev pub owned_as : String → Pool Float → Bool
  owned_as ownership p = str_eq ownership "" || str_eq p.ownership ownership

  -- The first of the candidates, if there is one.
  abbrev pub first_or : Option (Pool Float) → List (Pool Float) → Option (Pool Float)
  first_or rest [] = rest
  first_or rest (p ∷ ps) = some p

module _ (floats : Floats) where
  open floats use {Float, below, differs}

  -- `less`: by provider if one is requested, by startup time, price, region and identifier.
  unfoldable pub less : Request → Pool Float → Pool Float → Bool
  less q a b =
      if not (str_eq q.provider "") && not (str_eq a.provider b.provider)
      then str_lt a.provider b.provider
      else if not (eqb_ℤ a.startup.expected_seconds b.startup.expected_seconds)
      then ltb_ℤ a.startup.expected_seconds b.startup.expected_seconds
      else if differs a.pricing.per_runner_hour b.pricing.per_runner_hour
      then below a.pricing.per_runner_hour b.pricing.per_runner_hour
      else if not (str_eq a.region b.region)
      then str_lt a.region b.region
      else str_lt a.id b.id

  -- The loop over the ownerships: the first candidate of the first that has one.
  unfoldable pub first_owned : Request → List (Pool Float) → List String → Option (Pool Float)
  first_owned q all [] = none
  first_owned q all (o ∷ os) =
      let rest = first_owned q all os in first_or rest (sort (less q) (keep (owned_as o) all))

  unfoldable pub select : Request → Registry Float → Option (Pool Float)
  unfolding first_owned
  select q r =
      first_owned q (keep (matches q) (values r.pools)) (ownership_order q.mode q.ownership)
