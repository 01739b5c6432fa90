-- ===== src/Github/Scope.antt =====
-- controller/internal/github/scope.go. `equal_fold` and `to_lower` are `strings.EqualFold` and
-- `strings.ToLower`, which follow Unicode.
use Prim.Native.Char.{Char, code}
use leo_runners.Base.{
  String, List, [], ◌∷◌, ◌++◌, Option, none, some, Bool, true, false, not, ◌&&◌, ◌||◌, ◌==◌, any,
  is_nil, if◌then◌else◌,
}
use leo_runners.Base.Text.{is_empty, is_blank, trim_space}
use leo_runners.Base.Text.Order.{str_lt}
use leo_runners.Base.Dict.{Dict, get, put}
use leo_runners.Base.Sort.{sort}
use leo_runners.Github.Events.{WorkflowJobEvent}

pub record ScopePolicy : Type 0 where
  pub organizations : List String
  pub repositories : List String
  pub allowed_labels : List String
  pub allow_forks : Bool

pub data ScopeError : Type 0 where
  scope_denied invalid_scope : ScopeError

-- `strings.ContainsAny(s, "\r\n")`
unfoldable pub has_line_break : String → Bool
has_line_break String.[] = false
has_line_break (String.◌∷◌ c s) = code c == 13 || code c == 10 || has_line_break s

-- A character before the pieces of the rest: a slash begins a piece.
abbrev pub extend : Bool → Char → List String → List String
extend true c pieces = "" ∷ pieces
extend false c [] = String.◌∷◌ c "" ∷ []
extend false c (piece ∷ pieces) = String.◌∷◌ c piece ∷ pieces

-- `strings.Split(s, "/")`
unfoldable pub split_slash : String → List String
split_slash String.[] = "" ∷ []
split_slash (String.◌∷◌ c s) = extend (code c == 47) c (split_slash s)

-- The owner in `owner/name`.
abbrev pub owner_in : List String → Option String
owner_in (a ∷ b ∷ []) = if is_empty a || is_empty b then none else some a
owner_in _ = none

module _ (to_lower : String → String) where
  -- The loop over the allowlists, with the values seen before.
  unfoldable pub check_values : Dict (Unit {0}) → List String → Option ScopeError
  check_values seen [] = none
  check_values seen (v ∷ vs) =
      let rest = check_values (put (to_lower (trim_space v)) tt seen) vs in
      if is_blank v || has_line_break v
      then some invalid_scope
      else elim (get (to_lower (trim_space v)) seen) [ some u ↦ some invalid_scope | none ↦ rest ]

  -- `ScopePolicy.Validate`
  unfoldable pub validate : ScopePolicy → Option ScopeError
  unfolding check_values
  validate p =
      if is_nil p.organizations && is_nil p.repositories || is_nil p.allowed_labels
      then some invalid_scope
      else check_values [] (p.organizations ++ (p.repositories ++ p.allowed_labels))

  -- The loop of `CanonicalLabels`.
  unfoldable pub distinct_labels : Dict (Unit {0}) → List String → List String
  distinct_labels seen [] = []
  distinct_labels seen (l ∷ ls) =
      let skipped = distinct_labels seen ls in
      let kept = trim_space l ∷ distinct_labels (put (to_lower (trim_space l)) tt seen) ls in
      if is_blank l
      then skipped
      else elim (get (to_lower (trim_space l)) seen) [ some u ↦ skipped | none ↦ kept ]

  -- `CanonicalLabels`
  unfoldable pub canonical_labels : List String → List String
  unfolding distinct_labels
  canonical_labels labels = sort str_lt (distinct_labels [] labels)

  module _ (equal_fold : String → String → Bool) where
    abbrev pub contains_fold : List String → String → Bool
    contains_fold values want = any (λ v. equal_fold (trim_space v) (trim_space want)) values

    unfoldable pub all_allowed : List String → List String → Bool
    all_allowed allowed [] = true
    all_allowed allowed (l ∷ ls) = contains_fold allowed l && all_allowed allowed ls

    unfoldable pub in_scope :
        Option String → ScopePolicy → WorkflowJobEvent → String → Option ScopeError
    unfolding all_allowed
    in_scope none p e repository = some scope_denied
    in_scope (some owner) p e repository =
        if e.job.repository.is_fork && not p.allow_forks
        then some scope_denied
        else if not (contains_fold p.organizations owner)
            && not (contains_fold p.repositories repository)
        then some scope_denied
        else if not (all_allowed p.allowed_labels e.job.labels)
        then some scope_denied
        else none

    unfoldable pub checked : Option ScopeError → ScopePolicy → WorkflowJobEvent → Option ScopeError
    unfolding in_scope split_slash
    checked (some x) p e = some x
    checked none p e =
        let repository = to_lower (trim_space e.job.repository.full_name) in
        in_scope (owner_in (split_slash repository)) p e repository

    -- `ScopePolicy.ValidateEvent`
    unfoldable pub validate_event : ScopePolicy → WorkflowJobEvent → Option ScopeError
    unfolding checked validate
    validate_event p e = checked (validate p) p e
