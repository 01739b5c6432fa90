-- ===== src/Github/Bounded.antt =====
-- How often `doWithRetry` sends, and how long it sleeps.
use leo_runners.Base.{
  ℕ, zero, suc, ◌+◌, ◌≤◌, ◌==◌, String, Option, none, some, Bool, Bool-cases, inl, inr, true, false,
  not, ◌||◌, Context, live, done, arith,
}
use leo_runners.Base.Int.{ℤ, pos_part}
use leo_runners.Base.Time.{Time, Duration}
use leo_runners.Lifecycle.System.{Surroundings}
use leo_runners.Github.Retry.{RetryConfig, retryable_status, exponential_delay, retry_delay}
use leo_runners.Github.Attempts.{
  Exchange, unbuilt, failed, answered, Transport, slept, unanswered, received, attempt_in, attempts,
  do_with_retry, Outcome,
}
use leo_runners.Github.Delays.{IsNormal, InBounds, exponential_delay-InBounds, retry_delay-InBounds}

module _ (parse_int : String → Option ℤ) (parse_time : String → Option Time) (transport : Transport)
    (around : Surroundings) (c : RetryConfig) (normal : IsNormal c)
    -- What is true of the transport after so many requests.
    (After : ℕ → transport.State → Type 0)
    (sends : (k : ℕ) (s : transport.State) (ctx : Context)
      → After k s
      → After (suc k) (transport.send s ctx).0)
    (sleeps : (k : ℕ) (s : transport.State) (ctx : Context) (t : Duration)
      → InBounds c normal t
      → After k s
      → After k (transport.sleep s ctx t).0) where
  open transport use {State}

  -- The transport has sent at most so often.
  abbrev Within : ℕ → Outcome parse_int parse_time transport around c → Type 0
  Within most ((s, n), a) = (k : ℕ) × (k ≤ most) × After k s

  abbrev Continues : ℕ → ℕ → (State → ℕ → Outcome parse_int parse_time transport around c) → Type 0
  Continues k most again = (s : State) (n : ℕ) → After k s → Within most (again s n)

  slept-Within :
      (answer : State × Option String) (k most : ℕ)
      (again : State → ℕ → Outcome parse_int parse_time transport around c) (n : ℕ)
      → k ≤ most
      → After k answer.0
      → Continues k most again
      → Within most (slept parse_int parse_time transport around c answer again n)
  unfolding slept
  slept-Within (s, some e) k most again n low after goes = (k, low, after)
  slept-Within (s, none) k most again n low after goes = goes s n after

  unanswered-Within :
      (ctx : Context) (last : Bool) (attempt : ℕ) (e : String) (k most : ℕ)
      (again : State → ℕ → Outcome parse_int parse_time transport around c) (s : State) (n : ℕ)
      → k ≤ most
      → After k s
      → Continues k most again
      → Within most
          (unanswered parse_int parse_time transport around c ctx last attempt e again s n)
  unfolding unanswered
  unanswered-Within (done x) last attempt e k most again s n low after goes = (k, low, after)
  unanswered-Within live true attempt e k most again s n low after goes = (k, low, after)
  unanswered-Within live false attempt e k most again s n low after goes =
      slept-Within _ k most again (suc n) low
        (sleeps k s (around.contexts n) (exponential_delay c attempt)
          (exponential_delay-InBounds c normal attempt) after)
        goes

  received-Within :
      (answer : State × Exchange) (last : Bool) (attempt k most : ℕ)
      (again : State → ℕ → Outcome parse_int parse_time transport around c) (n : ℕ)
      → k ≤ most
      → After k answer.0
      → Continues k most again
      → Within most (received parse_int parse_time transport around c answer last attempt again n)
  unfolding received
  received-Within (s, unbuilt e) last attempt k most again n low after goes = (k, low, after)
  received-Within (s, failed e (some x)) last attempt k most again n low after goes =
      (k, low, after)
  received-Within (s, failed e none) last attempt k most again n low after goes =
      unanswered-Within (around.contexts n) last attempt e k most again s (suc n) low after goes
  received-Within (s, answered r) last attempt k most again n low after goes =
      elim (Bool-cases (not (retryable_status r.status) || last)) [
        | inl ends ↦ rw (received, ends) (k, low, after)
        | inr repeats ↦
            rw (received, repeats)
              (slept-Within _ k most again (suc n) low
                (sleeps k s (around.contexts n)
                  (retry_delay parse_int parse_time c attempt r.retry_after r.status
                    (around.clock n))
                  (retry_delay-InBounds c normal parse_int parse_time attempt r.retry_after r.status
                    (around.clock n))
                  after)
                goes)
      ]

  attempt_in-Within :
      (ctx : Context) (last : Bool) (attempt k most : ℕ)
      (again : State → ℕ → Outcome parse_int parse_time transport around c) (s : State) (n : ℕ)
      → suc k ≤ most
      → After k s
      → Continues (suc k) most again
      → Within most (attempt_in parse_int parse_time transport around c ctx last attempt again s n)
  unfolding attempt_in
  attempt_in-Within (done x) last attempt k most again s n low after goes = (k, omega arith, after)
  attempt_in-Within live last attempt k most again s n low after goes =
      received-Within (transport.send s (around.contexts n)) last attempt (suc k) most again (suc n)
        low (sends k s (around.contexts n) after) goes

  attempts-Within :
      (left attempt k : ℕ) (s : State) (n : ℕ)
      → After k s
      → Within (k + left) (attempts parse_int parse_time transport around c left attempt s n)
  unfolding attempts
  attempts-Within zero attempt k s n after = (k, omega arith, after)
  attempts-Within (suc left) attempt k s n after =
      attempt_in-Within (around.contexts n) (left == 0) attempt k (k + suc left)
        (λ t j. attempts parse_int parse_time transport around c left (suc attempt) t j) s (suc n)
        (omega arith) after
        (λ t j later.
          let (i, low, so) = attempts-Within left (suc attempt) (suc k) t j later in
          (i, omega arith, so))

  -- Under a configuration as `normalizeRetryConfig` leaves it: `doWithRetry` ends after at most
  -- `MaxAttempts` requests, and each time it sleeps for a duration from 0 to `MaxDelay`. For
  -- whatever is true of the transport before, becomes true of one more request with every request,
  -- and stays true when the transport sleeps for such a duration, is true in the end, of a number of
  -- requests that is at most `MaxAttempts`.
  pub requests_are_bounded :
      (s : State) (n : ℕ)
      → After 0 s
      → (k : ℕ) × (k ≤ pos_part c.max_attempts)
        × After k (do_with_retry parse_int parse_time transport around c s n).0.0
  unfolding do_with_retry
  requests_are_bounded s n after =
      let (k, low, so) = attempts-Within (pos_part c.max_attempts) 1 0 s n after in
      (k, omega arith, so)
