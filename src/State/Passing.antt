-- ===== src/State/Passing.antt =====
-- What the tests of the listings of controller/internal/state/memory.go mean.
use leo_runners.Base.{
  Bool, true, List, [], ◌∷◌, ◌≡◌, ◌≢◌, ◌↔◌, ◌⊎◌, inl, inr, refl, any, arith, Bool-cases, subst,
}
use leo_runners.Base.Int.{pos, ◌≤ℤ◌, eqb_ℤ→eq, eqb_ℤ_refl}
use leo_runners.Base.Time.{Time, expired}
use leo_runners.State.Types.{
  Job, Runner, Lease, JobState, RunnerState, LeaseState, job_is, runner_is, lease_is,
}
use leo_runners.State.Memory.{matches, is_expired_job, is_expired_runner, is_expired_lease}

module _ {S : Type 0} where
  -- The element is in the list.
  abbrev pub Among : S → List S → Type 0
  Among s [] = ⊥
  Among s (x ∷ xs) = (s ≡ x) ⊎ Among s xs

  -- The state is one of those that are wanted, or none is named.
  abbrev pub Wanted : List S → S → Type 0
  Wanted xs s = (xs ≡ []) ⊎ Among s xs

  any-Among :
      (is : S → Bool) (s : S)
      → ((x : S) → is x ≡ true → s ≡ x)
      → (xs : List S) → any is xs ≡ true
      → Among s xs
  any-Among is s exact [] h = absurd (ground arith)
  any-Among is s exact (x ∷ xs) h = elim (Bool-cases (is x)) [
    | inl same ↦ inl (exact x same)
    | inr differs ↦ inr (any-Among is s exact xs (ground arith))
  ]

  Among-any : (is : S → Bool) (s : S) → is s ≡ true → (xs : List S) → Among s xs → any is xs ≡ true
  Among-any is s itself [] among = absurd among
  Among-any is s itself (x ∷ xs) (inl same) =
      let here = subst (λ y. is y ≡ true) same itself in ground arith
  Among-any is s itself (x ∷ xs) (inr there) =
      let rest = Among-any is s itself xs there in ground arith

  pub matches-Wanted :
      (is : S → Bool) (s : S)
      → ((x : S) → is x ≡ true → s ≡ x)
      → is s ≡ true
      → (xs : List S) → matches is xs ≡ true ↔ Wanted xs s
  matches-Wanted is s exact itself [] = (λ h. inl refl, λ h. refl)
  matches-Wanted is s exact itself (x ∷ xs) = (
    λ h. inr (any-Among is s exact (x ∷ xs) h),
    λ wanted. elim wanted [
      | inl none_named ↦ absurd (ground arith)
      | inr among ↦ Among-any is s itself (x ∷ xs) among
    ],
  )

pub job_is_exact : (a b : JobState) → job_is a b ≡ true → a ≡ b
job_is_exact a b same = ground arith

pub job_is_itself : (a : JobState) → job_is a a ≡ true
job_is_itself a = ground arith

pub runner_is_exact : (a b : RunnerState) → runner_is a b ≡ true → a ≡ b
runner_is_exact a b same = ground arith

pub runner_is_itself : (a : RunnerState) → runner_is a a ≡ true
runner_is_itself a = ground arith

pub lease_is_exact : (a b : LeaseState) → lease_is a b ≡ true → a ≡ b
lease_is_exact a b same = ground arith

pub lease_is_itself : (a : LeaseState) → lease_is a a ≡ true
lease_is_itself a = ground arith

-- A record has an expiry, which is not after now.
abbrev pub IsPast : Time → Time → Type 0
IsPast now e = (e ≢ pos 0) × (e ≤ℤ now)

expired-IsPast : (now e : Time) → expired e now ≡ true → IsPast now e
expired-IsPast now e past = (λ zero. absurd (ground (arith, eqb_ℤ_refl e)), ground arith)

IsPast-expired : (now e : Time) → IsPast now e → expired e now ≡ true
IsPast-expired now e (given, before) = ground (arith, eqb_ℤ→eq e (pos 0))

-- Expired jobs, runners and leases that are not at their end.
abbrev pub IsOverdueJob : Time → Job → Type 0
IsOverdueJob now v =
    IsPast now v.expires_at
    × (v.state ≢ JobState.completed)
    × (v.state ≢ JobState.cancelled)
    × (v.state ≢ JobState.failed)

abbrev pub IsOverdueRunner : Time → Runner → Type 0
IsOverdueRunner now v = IsPast now v.expires_at × (v.state ≢ RunnerState.terminated)

abbrev pub IsOverdueLease : Time → Lease → Type 0
IsOverdueLease now v = IsPast now v.expires_at × (v.state ≢ LeaseState.terminated)

pub is_expired_job-IsOverdueJob :
    (now : Time) (v : Job) → is_expired_job now v ≡ true ↔ IsOverdueJob now v
is_expired_job-IsOverdueJob now v = (
  λ h. (
    expired-IsPast now v.expires_at (ground arith),
    λ e. absurd (ground arith),
    λ e. absurd (ground arith),
    λ e. absurd (ground arith),
  ),
  λ h.
      let past = IsPast-expired now v.expires_at h.0 in
      ground (
        arith,
        job_is_exact v.state JobState.completed,
        job_is_exact v.state JobState.cancelled,
        job_is_exact v.state JobState.failed,
      ),
)

pub is_expired_runner-IsOverdueRunner :
    (now : Time) (v : Runner) → is_expired_runner now v ≡ true ↔ IsOverdueRunner now v
is_expired_runner-IsOverdueRunner now v = (
  λ h. (expired-IsPast now v.expires_at (ground arith), λ e. absurd (ground arith)),
  λ h.
      let past = IsPast-expired now v.expires_at h.0 in
      ground (arith, runner_is_exact v.state RunnerState.terminated),
)

pub is_expired_lease-IsOverdueLease :
    (now : Time) (v : Lease) → is_expired_lease now v ≡ true ↔ IsOverdueLease now v
is_expired_lease-IsOverdueLease now v = (
  λ h. (expired-IsPast now v.expires_at (ground arith), λ e. absurd (ground arith)),
  λ h.
      let past = IsPast-expired now v.expires_at h.0 in
      ground (arith, lease_is_exact v.state LeaseState.terminated),
)
