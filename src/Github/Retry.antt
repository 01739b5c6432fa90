-- ===== src/Github/Retry.antt =====
-- controller/internal/github/retry.go: the delays between the attempts of a request, and the
-- attempts. `parse_int` and `parse_time` are `strconv.ParseInt(_, 10, 64)` and `http.ParseTime`.
use leo_runners.Base.{
  ℕ, zero, suc, ◌-◌, ◌*◌, ◌/◌, ◌==◌, ltb, String, Option, none, some, Bool, not, ◌&&◌, ◌||◌,
  if◌then◌else◌,
}
use leo_runners.Base.Int.{ℤ, wrap, pos, negsuc, ltb_ℤ, leb_ℤ, add64, ◌-ℤ◌}
use leo_runners.Base.Time.{Time, Duration, before}
use leo_runners.Base.Text.{is_blank, trim_space}

-- `RetryConfig`, apart from the function that sleeps.
pub record RetryConfig : Type 0 where
  pub max_attempts : ℤ
  pub initial_delay : Duration
  pub max_delay : Duration

-- `if value <= 0 { value = standard }`
abbrev pub or_standard : ℤ → ℤ → ℤ
or_standard standard value = if leb_ℤ value (pos 0) then standard else value

unfoldable pub normalize_retry_config : RetryConfig → RetryConfig
normalize_retry_config c =
    let initial = or_standard (pos 100000000) c.initial_delay in
    let most = or_standard (pos 2000000000) c.max_delay in
    record {
      max_attempts = or_standard (pos 3) c.max_attempts;
      initial_delay = initial;
      max_delay = if ltb_ℤ most initial then initial else most;
    }

abbrev pub retryable_status : ℕ → Bool
retryable_status s =
    s == 408 || s == 425 || s == 429 || s == 500 || s == 502 || s == 503 || s == 504

-- `d / 2`, which rounds towards zero.
abbrev pub half : Duration → Duration
half (pos n) = pos (n / 2)
half (negsuc n) = pos 0 -ℤ pos (suc n / 2)

-- The loop of `exponentialDelay`, by the rounds that are left.
unfoldable pub grow : ℕ → Duration → Duration → Duration
unfolding add64
grow zero most delay = delay
grow (suc n) most delay =
    let next = grow n most (if ltb_ℤ (half most) delay then most else add64 delay delay) in
    if ltb_ℤ delay most then next else delay

unfoldable pub exponential_delay : RetryConfig → ℕ → Duration
unfolding grow
exponential_delay c attempt =
    let delay = grow (attempt - 1) c.max_delay c.initial_delay in
    if ltb_ℤ c.max_delay delay then c.max_delay else delay

-- `when.Sub(now)`, which stops at the largest duration.
abbrev pub since : Time → Time → Duration
since now when =
    let d = when -ℤ now in if ltb_ℤ (pos 9223372036854775807) d then pos 9223372036854775807 else d

module _ (parse_int : String → Option ℤ) (parse_time : String → Option Time) where
  unfoldable pub until_date : Option Time → Time → Option Duration
  unfolding ◌-ℤ◌
  until_date none now = none
  until_date (some when) now = if before when now then some (pos 0) else some (since now when)

  unfoldable pub until_seconds : Option ℤ → String → Time → Option Duration
  unfolding until_date wrap
  until_seconds none value now = until_date (parse_time value) now
  until_seconds (some (negsuc n)) value now = until_date (parse_time value) now
  until_seconds (some (pos n)) value now =
      if ltb 9223372036 n then none else some (wrap (pos (n * 1000000000)))

  -- `parseRetryAfter`
  unfoldable pub parse_retry_after : String → Time → Option Duration
  unfolding until_seconds
  parse_retry_after value now = until_seconds (parse_int (trim_space value)) (trim_space value) now

  -- The delay that a header asks for, or the exponential one.
  unfoldable pub asked_delay : Option Duration → RetryConfig → ℕ → Duration
  unfolding exponential_delay
  asked_delay none c attempt = exponential_delay c attempt
  asked_delay (some d) c attempt = if ltb_ℤ c.max_delay d then c.max_delay else d

  unfoldable pub retry_delay : RetryConfig → ℕ → String → ℕ → Time → Duration
  unfolding asked_delay parse_retry_after
  retry_delay c attempt header status now =
      if (status == 429 || status == 503) && not (is_blank header)
      then asked_delay (parse_retry_after header now) c attempt
      else exponential_delay c attempt
