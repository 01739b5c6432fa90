-- ===== src/Github/Delays.antt =====
-- The delays between the attempts of a request: they double, and stay within the configured bounds.
use leo_runners.Base.{
  ◌≡◌, refl, sym, subst, ap, ltb, ◌*◌, ℕ, zero, suc, ◌+◌, ◌-◌, ◌≤◌, ◌<◌, ◌^◌, String, Option, none,
  some, Bool-cases, inl, inr, if◌then◌else◌, leb, arith, not, ◌&&◌, ◌||◌, ◌==◌,
}
use leo_runners.Base.Int.{ℤ, pos, negsuc, add64, wrap, wrap_id, ◌+ℤ◌, ◌-ℤ◌, ◌≤ℤ◌, ltb_ℤ, IsInt64}
use leo_runners.Base.Time.{Time, Duration}
use leo_runners.Base.Text.{is_blank, trim_space}
use leo_runners.Github.Retry.{
  RetryConfig, normalize_retry_config, or_standard, grow, exponential_delay, until_date,
  until_seconds, parse_retry_after, asked_delay, retry_delay,
}

-- A number doubled some times.
unfoldable pub doubled : ℕ → ℕ → ℕ
doubled zero i = i
doubled (suc n) i = doubled n (i + i)

abbrev pub least : ℕ → ℕ → ℕ
least a b = if leb a b then a else b

doubled_grows : (n i : ℕ) → i ≤ doubled n i
unfolding doubled
doubled_grows zero i = omega arith
doubled_grows (suc n) i = omega (arith, doubled_grows n (i + i))

grow_stays : (n m : ℕ) → grow n (pos m) (pos m) ≡ pos m
unfolding grow
grow_stays zero m = refl
grow_stays (suc n) m = ground arith

add64_small : (a : ℕ) → a + a < 2 ^ 63 → add64 (pos a) (pos a) ≡ pos (a + a)
unfolding add64 ◌+ℤ◌ wrap
add64_small a h = ground arith

grow-doubled :
    (n m i : ℕ) → i ≤ m → m < 2 ^ 63 → grow n (pos m) (pos i) ≡ pos (least m (doubled n i))
unfolding grow doubled
grow-doubled zero m i low high = ground arith
grow-doubled (suc n) m i low high = ground (
  arith,
  grow_stays n m,
  add64_small i,
  grow-doubled n m m,
  grow-doubled n m (i + i),
  doubled_grows n (i + i),
  doubled_grows n m,
)

-- A configuration as `normalizeRetryConfig` leaves it.
pub record IsNormal (c : RetryConfig) : Type 0 where
  pub initial : ℕ
  pub most : ℕ
  pub starts : c.initial_delay ≡ pos initial
  pub stops : c.max_delay ≡ pos most
  pub positive : 0 < initial
  pub ordered : initial ≤ most
  pub fits : most < 2 ^ 63

standard_or_given :
    (standard : ℕ) (a : ℤ)
    → 0 < standard
    → standard < 2 ^ 63
    → IsInt64 a
    → (n : ℕ) × (or_standard (pos standard) a ≡ pos n) × (0 < n) × (n < 2 ^ 63)
standard_or_given standard (pos zero) low high fits = (standard, ground arith, low, high)
standard_or_given standard (pos (suc n)) low high fits =
    (suc n, ground arith, omega arith, omega arith)
standard_or_given standard (negsuc n) low high fits = (standard, ground arith, low, high)

-- The configuration of a first and a largest delay.
config_of : ℤ → ℤ → ℤ → RetryConfig
config_of attempts initial most = record {
  max_attempts = attempts;
  initial_delay = initial;
  max_delay = if ltb_ℤ most initial then initial else most;
}

config_of-IsNormal :
    (attempts : ℤ) (i m : ℕ)
    → 0 < i
    → i < 2 ^ 63
    → m < 2 ^ 63
    → IsNormal (config_of attempts (pos i) (pos m))
unfolding config_of
config_of-IsNormal attempts i m positive small fits = record {
  initial = i;
  most = if ltb m i then i else m;
  starts = refl;
  stops = ground arith;
  positive = positive;
  ordered = ground arith;
  fits = ground arith;
}

pub normalize-IsNormal :
    (c : RetryConfig)
    → IsInt64 c.initial_delay
    → IsInt64 c.max_delay
    → IsNormal (normalize_retry_config c)
unfolding normalize_retry_config config_of
normalize-IsNormal c first last =
    let (i, starts, positive, small) =
      standard_or_given 100000000 c.initial_delay (omega arith) (omega arith) first in
    let (m, stops, above, fits) =
      standard_or_given 2000000000 c.max_delay (omega arith) (omega arith) last in
    let attempts = or_standard (pos 3) c.max_attempts in
    subst IsNormal
      (ap (λ x. config_of attempts x (or_standard (pos 2000000000) c.max_delay)) (sym starts))
      (subst (λ y. IsNormal (config_of attempts (pos i) y)) (sym stops)
        (config_of-IsNormal attempts i m positive small fits))

module _ (c : RetryConfig) (normal : IsNormal c) where
  -- The delay after an attempt is the first delay, doubled once for each attempt before it, or
  -- `MaxDelay` if that is less.
  pub exponential_delay-doubled :
      (n : ℕ) → exponential_delay c (suc n) ≡ pos (least normal.most (doubled n normal.initial))
  unfolding exponential_delay
  exponential_delay-doubled n =
      let grown = grow-doubled n normal.most normal.initial normal.ordered normal.fits in
      let same : suc n - 1 ≡ n = omega arith in
      rw (same, normal.starts, normal.stops, grown) (ground arith)

  -- A duration within the bounds of the configuration.
  abbrev pub InBounds : Duration → Type 0
  InBounds t = (pos 0 ≤ℤ t) × (t ≤ℤ c.max_delay)

  pub exponential_delay-InBounds : (attempt : ℕ) → InBounds (exponential_delay c attempt)
  unfolding exponential_delay
  exponential_delay-InBounds attempt =
      let grown =
        grow-doubled (attempt - 1) normal.most normal.initial normal.ordered normal.fits in
      rw (normal.starts, normal.stops, grown) (ground arith, ground arith)

  abbrev NotNegative : Option Duration → Type 0
  NotNegative none = Unit
  NotNegative (some t) = pos 0 ≤ℤ t

  module _ (parse_int : String → Option ℤ) (parse_time : String → Option Time) where
    asked_delay-InBounds :
        (o : Option Duration) (attempt : ℕ)
        → NotNegative o
        → InBounds (asked_delay parse_int parse_time o c attempt)
    unfolding asked_delay
    asked_delay-InBounds none attempt h = exponential_delay-InBounds attempt
    asked_delay-InBounds (some t) attempt h = rw normal.stops (ground arith, ground arith)

    until_date-NotNegative :
        (o : Option Time) (now : Time) → NotNegative (until_date parse_int parse_time o now)
    unfolding until_date ◌-ℤ◌
    until_date-NotNegative none now = tt
    until_date-NotNegative (some when) now = ground arith

    until_seconds-NotNegative :
        (o : Option ℤ) (value : String) (now : Time)
        → NotNegative (until_seconds parse_int parse_time o value now)
    unfolding until_seconds
    until_seconds-NotNegative none value now = until_date-NotNegative (parse_time value) now
    until_seconds-NotNegative (some (negsuc n)) value now =
        until_date-NotNegative (parse_time value) now
    until_seconds-NotNegative (some (pos n)) value now =
        ground (arith, wrap_id (pos (n * 1000000000)))

    -- Every delay is within the bounds, whatever a header asks for.
    pub retry_delay-InBounds :
        (attempt : ℕ) (header : String) (status : ℕ) (now : Time)
        → InBounds (retry_delay parse_int parse_time c attempt header status now)
    unfolding retry_delay parse_retry_after
    retry_delay-InBounds attempt header status now =
        elim (Bool-cases ((status == 429 || status == 503) && not (is_blank header))) [
          | inl asks ↦
              rw (retry_delay, asks)
                (asked_delay-InBounds _ attempt (
                  until_seconds-NotNegative (parse_int (trim_space header)) (trim_space header)
                    now))
          | inr plain ↦ rw (retry_delay, plain) (exponential_delay-InBounds attempt)
        ]
