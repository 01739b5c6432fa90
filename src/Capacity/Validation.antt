-- ===== src/Capacity/Validation.antt =====
-- `Pool.Validate` of controller/internal/capacity/capacity.go, and what it guarantees.
use leo_runners.Base.{
  ◌≡◌, String, Option, none, some, Bool, true, false, List, [], ◌∷◌, not, ◌&&◌, ◌||◌, str_eq,
  if◌then◌else◌, any, arith,
}
use leo_runners.Base.Int.{ℤ, pos, ltb_ℤ, ◌≤ℤ◌, ◌<ℤ◌}
use leo_runners.Base.Text.{trim_space, is_blank}
use leo_runners.Capacity.Pool.{
  Capacity, Startup, Pricing, Pool, Floats, Error, invalid_pool, customer_owned, managed, available,
  draining, unavailable,
}

abbrev pub negative_int : ℤ → Bool
negative_int v = ltb_ℤ v (pos 0)

-- `validateNonNegative`: whether a value is negative.
unfoldable pub any_negative : List ℤ → Bool
any_negative [] = false
any_negative (v ∷ vs) = negative_int v || any_negative vs

-- `max > 0 && used > max`
abbrev pub exceeds : ℤ → ℤ → Bool
exceeds max used = ltb_ℤ (pos 0) max && ltb_ℤ max used

-- `validateUsage`: whether a usage exceeds its limit.
unfoldable pub over_limit : Capacity → Bool
over_limit c =
    exceeds c.max_runners c.used_runners
    || exceeds c.max_cpu c.used_cpu
    || exceeds c.max_memory_gb c.used_memory_gb
    || exceeds c.max_gpu c.used_gpu

unfoldable pub bad_startup : Startup → Bool
bad_startup s =
    negative_int s.expected_seconds
    || negative_int s.p95_seconds
    || (ltb_ℤ (pos 0) s.p95_seconds && ltb_ℤ s.p95_seconds s.expected_seconds)

-- The loop over the labels: an empty one, or one that was seen before.
unfoldable pub bad_labels : List String → List String → Bool
bad_labels seen [] = false
bad_labels seen (l ∷ ls) =
    let label = trim_space l in
    let rest = bad_labels (label ∷ seen) ls in
    if str_eq label "" then true else if any (str_eq label) seen then true else rest

unfoldable pub values_of : Capacity → List ℤ
values_of c =
    c.max_runners ∷ c.max_cpu ∷ c.max_memory_gb ∷ c.max_gpu ∷ c.used_runners ∷ c.used_cpu
    ∷ c.used_memory_gb ∷ c.used_gpu ∷ []

module _ (floats : Floats) where
  open floats use {Float, negative, is_nan, is_inf}

  unfoldable pub bad_pricing : Pricing Float → Bool
  bad_pricing p =
      negative p.per_runner_hour
      || negative p.per_cpu_hour
      || negative p.startup_cost
      || is_nan p.per_runner_hour
      || is_nan p.per_cpu_hour
      || is_nan p.startup_cost
      || is_inf p.per_runner_hour
      || is_inf p.per_cpu_hour
      || is_inf p.startup_cost

  unfoldable pub validate : Pool Float → Option Error
  validate p =
      if is_blank p.id || is_blank p.provider || is_blank p.region
      then some invalid_pool
      else if not (str_eq p.ownership customer_owned) && not (str_eq p.ownership managed)
      then some invalid_pool
      else if str_eq p.availability ""
      then some invalid_pool
      else if not (str_eq p.availability available)
          && not (str_eq p.availability draining)
          && not (str_eq p.availability unavailable)
      then some invalid_pool
      else if is_blank p.security_profile
      then some invalid_pool
      else if any_negative (values_of p.capacity)
      then some invalid_pool
      else if over_limit p.capacity
      then some invalid_pool
      else if bad_startup p.startup
      then some invalid_pool
      else if bad_pricing p.pricing
      then some invalid_pool
      else if bad_labels [] p.labels
      then some invalid_pool
      else none

-- No number is negative, and a usage does not exceed its limit, where 0 is no limit.
pub record Within (max used : ℤ) : Type 0 where
  pub limit : pos 0 ≤ℤ max
  pub usage : pos 0 ≤ℤ used
  pub fits : pos 0 <ℤ max → used ≤ℤ max

pub record IsWithin (c : Capacity) : Type 0 where
  pub runners : Within c.max_runners c.used_runners
  pub cpu : Within c.max_cpu c.used_cpu
  pub memory : Within c.max_memory_gb c.used_memory_gb
  pub gpu : Within c.max_gpu c.used_gpu

pub or_false : (a b : Bool) → (a || b) ≡ false → (a ≡ false) × (b ≡ false)
or_false a b h = (ground arith, ground arith)

checks-Within :
    (max used : ℤ)
    → negative_int max ≡ false
    → negative_int used ≡ false
    → exceeds max used ≡ false
    → Within max used
checks-Within max used a b e = record {
  limit = ground arith;
  usage = ground arith;
  fits = λ h. ground arith;
}

pub checks-IsWithin :
    (c : Capacity) → any_negative (values_of c) ≡ false → over_limit c ≡ false → IsWithin c
unfolding any_negative values_of over_limit
checks-IsWithin c nonneg within =
    let (n1, r1) = or_false (negative_int c.max_runners) _ nonneg in
    let (n2, r2) = or_false (negative_int c.max_cpu) _ r1 in
    let (n3, r3) = or_false (negative_int c.max_memory_gb) _ r2 in
    let (n4, r4) = or_false (negative_int c.max_gpu) _ r3 in
    let (n5, r5) = or_false (negative_int c.used_runners) _ r4 in
    let (n6, r6) = or_false (negative_int c.used_cpu) _ r5 in
    let (n7, r7) = or_false (negative_int c.used_memory_gb) _ r6 in
    let (n8, r8) = or_false (negative_int c.used_gpu) _ r7 in
    let (e1, s1) = or_false _ _ within in
    let (e2, s2) = or_false _ _ e1 in
    let (e3, s3) = or_false _ _ e2 in
    record {
      runners = checks-Within _ _ n1 n5 e3;
      cpu = checks-Within _ _ n2 n6 s3;
      memory = checks-Within _ _ n3 n7 s2;
      gpu = checks-Within _ _ n4 n8 s1;
    }
