-- ===== src/Github/Attempts.antt =====
-- `Client.doWithRetry` of controller/internal/github/retry.go: the attempts of a request. The HTTP
-- client and the function that sleeps are a transport; the texts of API errors are left out.
use leo_runners.Base.{
  ℕ, zero, suc, ◌==◌, String, Option, none, some, Bool, true, false, not, ◌||◌, if◌then◌else◌,
  Result, ok, err, Context, ContextError, live, done,
}
use leo_runners.Base.Int.{ℤ, pos_part}
use leo_runners.Base.Time.{Time, Duration}
use leo_runners.Lifecycle.System.{Surroundings}
use leo_runners.Github.Retry.{RetryConfig, retryable_status, exponential_delay, retry_delay}

pub record Response : Type 0 where
  pub status : ℕ
  pub retry_after : String

-- What one attempt comes to: no request, an error of the client (which may be a context's), or a
-- response.
pub data Exchange : Type 0 where
  unbuilt : String → Exchange
  failed : String → Option ContextError → Exchange
  answered : Response → Exchange

pub record Transport : Type 1 where
  pub State : Type 0
  pub send : State → Context → State × Exchange
  pub sleep : State → Context → Duration → State × Option String

pub data RequestError : Type 0 where
  not_built unreachable sleep_failed : String → RequestError
  cancelled : ContextError → RequestError
  never_tried : RequestError

-- `contextError`
abbrev pub context_error : Context → ContextError → ContextError
context_error live e = e
context_error (done x) e = x

module _ (parse_int : String → Option ℤ) (parse_time : String → Option Time) (transport : Transport)
    (around : Surroundings) (c : RetryConfig) where
  open transport use {State, send, sleep}

  -- The transport, how many operations there were, and the answer.
  abbrev pub Outcome : Type 0
  Outcome = (State × ℕ) × Result RequestError Response

  unfoldable pub slept : State × Option String → (State → ℕ → Outcome) → ℕ → Outcome
  slept (s, some e) again n = ((s, n), err (sleep_failed e))
  slept (s, none) again n = again s n

  -- An error of the client, which is no context's.
  unfoldable pub unanswered :
      Context → Bool → ℕ → String → (State → ℕ → Outcome) → State → ℕ → Outcome
  unfolding slept
  unanswered (done x) last attempt e again s n = ((s, n), err (cancelled x))
  unanswered live true attempt e again s n = ((s, n), err (unreachable e))
  unanswered live false attempt e again s n =
      slept (sleep s (around.contexts n) (exponential_delay c attempt)) again (suc n)

  unfoldable pub received : State × Exchange → Bool → ℕ → (State → ℕ → Outcome) → ℕ → Outcome
  unfolding unanswered slept
  received (s, unbuilt e) last attempt again n = ((s, n), err (not_built e))
  received (s, failed e (some x)) last attempt again n =
      ((s, n), err (cancelled (context_error (around.contexts n) x)))
  received (s, failed e none) last attempt again n =
      unanswered (around.contexts n) last attempt e again s (suc n)
  received (s, answered r) last attempt again n =
      if not (retryable_status r.status) || last
      then ((s, n), ok r)
      else slept
          (sleep s (around.contexts n)
            (retry_delay parse_int parse_time c attempt r.retry_after r.status (around.clock n)))
          again (suc n)

  unfoldable pub attempt_in : Context → Bool → ℕ → (State → ℕ → Outcome) → State → ℕ → Outcome
  unfolding received
  attempt_in (done x) last attempt again s n = ((s, n), err (cancelled x))
  attempt_in live last attempt again s n =
      received (send s (around.contexts n)) last attempt again (suc n)

  -- The loop, by the attempts that are left.
  unfoldable pub attempts : ℕ → ℕ → State → ℕ → Outcome
  unfolding attempt_in
  attempts zero attempt s n = ((s, n), err never_tried)
  attempts (suc left) attempt s n =
      attempt_in (around.contexts n) (left == 0) attempt (λ t k. attempts left (suc attempt) t k) s
        (suc n)

  unfoldable pub do_with_retry : State → ℕ → Outcome
  unfolding attempts
  do_with_retry s n = attempts (pos_part c.max_attempts) 1 s n
