-- ===== src/Github/Tests.antt =====
-- A delivery in its normal form, and labels.
use leo_runners.Base.{◌≡◌, refl, String, [], ◌∷◌}
use leo_runners.Base.Sort.{sort, insert}
use leo_runners.Base.Text.{trim_space, trim_left, trim_right, is_space, is_blank}
use leo_runners.Base.Text.Order.{str_lt}
use leo_runners.Base.Dict.{get, put}
use leo_runners.Base.{Option, none, ap, ℕ, suc, live, arith, ◌≤◌}
use leo_runners.Base.Int.{ℤ, pos}
use leo_runners.Base.Time.{Time, Duration}
use leo_runners.Lifecycle.System.{Surroundings}
use leo_runners.Github.Retry.{RetryConfig, normalize_retry_config, exponential_delay}
use leo_runners.Github.Attempts.{Transport, answered, do_with_retry}
use leo_runners.Github.Delays.{
  IsNormal, normalize-IsNormal, exponential_delay-doubled, doubled, least, InBounds,
}
use leo_runners.Github.Bounded.{requests_are_bounded}
use leo_runners.Github.Scope.{canonical_labels}

abbrev same_text : String → String
same_text s = s

labels_lem :
    canonical_labels same_text ("x64" ∷ " linux " ∷ "" ∷ "linux" ∷ []) ≡ "linux" ∷ "x64" ∷ []
unfolding canonical_labels sort insert str_lt trim_space trim_left trim_right is_space is_blank get
    put
labels_lem = refl

-- Three attempts, with delays of 100 milliseconds and up.
abbrev config : RetryConfig
config = record { max_attempts = pos 0; initial_delay = pos 0; max_delay = pos 0 }

config-IsNormal : IsNormal (normalize_retry_config config)
config-IsNormal = normalize-IsNormal config (omega arith, omega arith) (omega arith, omega arith)

exponential_delay-doubled_example :
    exponential_delay (normalize_retry_config config) 3
    ≡ pos (least config-IsNormal.most (doubled 2 config-IsNormal.initial))
exponential_delay-doubled_example =
    exponential_delay-doubled (normalize_retry_config config) config-IsNormal 2

abbrev no_int : String → Option ℤ
no_int s = none

abbrev no_time : String → Option Time
no_time s = none

-- A server that is always busy, with the requests it has seen and how long the client slept last.
abbrev overloaded : Transport
overloaded = record {
  State = ℕ × Duration;
  send = λ s ctx. ((suc s.0, s.1), answered (record { status = 503; retry_after = "" }));
  sleep = λ s ctx t. ((s.0, t), none);
}

abbrev calm : Surroundings
calm = record { clock = λ n. pos (suc n); contexts = λ n. live }

abbrev Seen : ℕ → ℕ × Duration → Type 0
Seen k s = (s.0 ≡ k) × InBounds (normalize_retry_config config) config-IsNormal s.1

started : Seen 0 (0, pos 0)
unfolding normalize_retry_config
started = (refl, (omega arith, omega arith))

requests_are_bounded_example :
    (k : ℕ) × (k ≤ 3)
    × Seen k
        (do_with_retry no_int no_time overloaded calm
          (normalize_retry_config config)
          (0, pos 0)
          0).0.0
unfolding normalize_retry_config
requests_are_bounded_example =
    requests_are_bounded no_int no_time overloaded calm (normalize_retry_config config)
      config-IsNormal Seen (λ k s ctx seen. (ap suc seen.0, seen.1))
      (λ k s ctx t within seen. (seen.0, within)) (0, pos 0) 0 started
