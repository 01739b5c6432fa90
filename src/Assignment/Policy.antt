-- ===== src/Assignment/Policy.antt =====
-- `AssignmentPolicy` of controller/internal/runners/runners.go. `equal_fold` is `strings.EqualFold`,
-- which compares texts under Unicode's case folding.
use Prim.Native.Char.{code}
use leo_runners.Base.{
  String, List, [], ◌∷◌, Option, none, some, Bool, true, false, not, ◌&&◌, ◌||◌, ◌==◌,
  if◌then◌else◌, any, is_nil,
}
use leo_runners.Base.Int.{ℤ, pos, leb_ℤ, eqb_ℤ}
use leo_runners.Base.Text.{trim_space}
use leo_runners.Assignment.Request.{
  AssignmentRequest, AssignError, invalid_request, fork_not_allowed,
}

pub record AssignmentPolicy : Type 0 where
  pub organizations : List String
  pub repositories : List String
  pub allowed_labels : List String
  pub runner_group_id : ℤ
  pub allow_forks : Bool

-- `strings.SplitN(text, "/", 2)[0]`
unfoldable pub before_slash : String → String
before_slash String.[] = ""
before_slash (String.◌∷◌ c s) =
    let rest = before_slash s in if code c == 47 then "" else String.◌∷◌ c rest

-- `configuredGroupID == nil || *configuredGroupID != p.RunnerGroupID`
abbrev pub other_group : Option ℤ → ℤ → Bool
other_group none id = true
other_group (some g) id = not (eqb_ℤ g id)

module _ (equal_fold : String → String → Bool) where
  abbrev pub contains_fold : List String → String → Bool
  contains_fold values want = any (λ v. equal_fold (trim_space v) (trim_space want)) values

  -- The loop over the labels: one that is not allowed.
  unfoldable pub bad_label : List String → List String → Bool
  bad_label allowed [] = false
  bad_label allowed (l ∷ ls) = not (contains_fold allowed l) || bad_label allowed ls

  unfoldable pub validate :
      {Handle : Type 0}
      → AssignmentPolicy
      → AssignmentRequest Handle
      → Option ℤ
      → Option AssignError
  unfolding before_slash bad_label
  validate p q group =
      if is_nil p.organizations && is_nil p.repositories || is_nil p.allowed_labels
      then some invalid_request
      else if leb_ℤ p.runner_group_id (pos 0) || other_group group p.runner_group_id
      then some invalid_request
      else if q.is_fork && not p.allow_forks
      then some fork_not_allowed
      else if not (contains_fold p.repositories q.job.repository)
          && not (contains_fold p.organizations (before_slash q.job.repository))
      then some invalid_request
      else if bad_label p.allowed_labels q.job.labels
      then some invalid_request
      else none
