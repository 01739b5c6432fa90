-- ===== src/Base/Lists.antt =====
-- Lists measured by native numbers, predicates on their elements, and Boolean filters.
use Prim.Native.Nat.{ℕ, zero, suc, ◌+◌}
use mathlib.Core.Path.{◌≡◌, refl, ap}
use mathlib.Core.Bool.{Bool, true, false}
use mathlib.Core.List.{List, [], ◌∷◌, ◌++◌}
use native.Mathlib.Omega.{arith}
use leo_runners.Base.Tests.{if◌then◌else◌}

module _ {ℓ} {A : Type ℓ} where
  abbrev pub length : List A → ℕ
  length [] = 0
  length (x ∷ xs) = suc (length xs)

  -- `len(v) == 0`
  abbrev pub is_nil : List A → Bool
  is_nil [] = true
  is_nil (x ∷ xs) = false

  pub length-append : (xs ys : List A) → length (xs ++ ys) ≡ length xs + length ys
  length-append [] ys = omega arith
  length-append (x ∷ xs) ys = omega (arith, length-append xs ys)

  -- `v[:n]` for an `n` that is at most the length.
  abbrev pub take : ℕ → List A → List A
  take zero xs = []
  take (suc n) [] = []
  take (suc n) (x ∷ xs) = x ∷ take n xs

  -- The elements that pass a test, in order: a `for` loop that appends under an `if`.
  abbrev pub keep : (A → Bool) → List A → List A
  keep test [] = []
  keep test (x ∷ xs) = let rest = keep test xs in if test x then x ∷ rest else rest

  pub keep_all : (xs : List A) → keep (λ x. true) xs ≡ xs
  keep_all [] = refl
  keep_all (x ∷ xs) = ap (◌∷◌ x) (keep_all xs)

  -- Whether an element passes a test: a `for` loop that returns under an `if`.
  abbrev pub any : (A → Bool) → List A → Bool
  any test [] = false
  any test (x ∷ xs) = let rest = any test xs in if test x then true else rest

abbrev pub All {ℓ κ} : {A : Type ℓ} → (A → Type κ) → List A → Type κ
All P [] = Unit
All P (x ∷ xs) = P x × All P xs

module _ {ℓ κ} {A : Type ℓ} (P : A → Type κ) (test : A → Bool) where
  -- What passes the test, passes it.
  pub All-keep_passing : (xs : List A) → All P xs → All (λ x. P x × (test x ≡ true)) (keep test xs)
  All-keep_passing [] q = tt
  All-keep_passing (x ∷ xs) q = go (test x) refl (All-keep_passing xs q.1)
    where
      go :
          (b : Bool)
          → test x ≡ b
          → All (λ y. P y × (test y ≡ true)) (keep test xs)
          → All (λ y. P y × (test y ≡ true)) (if b then x ∷ keep test xs else keep test xs)
      go true e r = ((q.0, e), r)
      go false e r = r

module _ {ℓ} {A : Type ℓ} (test : A → Bool) where
  -- Where nothing passes the test, everything fails it.
  pub keep_none : (xs : List A) → keep test xs ≡ [] → All (λ x. test x ≡ false) xs
  keep_none [] h = tt
  keep_none (x ∷ xs) h = go (keep_none xs) (test x) refl h
    where
      go :
          (keep test xs ≡ [] → All (λ y. test y ≡ false) xs)
          → (b : Bool) → test x ≡ b
          → (if b then x ∷ keep test xs else keep test xs) ≡ []
          → All (λ y. test y ≡ false) (x ∷ xs)
      go rest true e r = absurd (ground arith)
      go rest false e r = (e, rest r)

  -- What holds of the elements that pass the test holds of them all, if it holds of the rest too.
  pub All-keep_back {κ} :
      (P : A → Type κ) (xs : List A)
      → ((x : A) → test x ≡ false → P x)
      → All P (keep test xs)
      → All P xs
  All-keep_back P [] f h = tt
  All-keep_back P (x ∷ xs) f h = go (All-keep_back P xs f) (test x) refl h
    where
      go :
          (All P (keep test xs) → All P xs)
          → (b : Bool) → test x ≡ b
          → All P (if b then x ∷ keep test xs else keep test xs)
          → All P (x ∷ xs)
      go rest true e r = (r.0, rest r.1)
      go rest false e r = (f x e, rest r)
