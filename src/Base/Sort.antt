-- ===== src/Base/Sort.antt =====
-- `sort.Slice` and `sort.Strings`: the elements in the order of a test `less`. Insertion sort
-- stands for Go's algorithm; where no two elements compare equal the result is the same.
use mathlib.Core.Path.{◌≡◌}
use mathlib.Core.Bool.{Bool, true, false}
use mathlib.Core.List.{List, [], ◌∷◌, Perm}
use mathlib.Core.List.Perm
use native.Mathlib.Omega.{arith}
use leo_runners.Base.Tests.{if◌then◌else◌, Bool-cases}
use leo_runners.Base.Lists.{All, keep}
use mathlib.Core.Logic.{inl, inr}

module _ {ℓ} {A : Type ℓ} (less : A → A → Bool) where
  unfoldable pub insert : A → List A → List A
  insert x [] = x ∷ []
  insert x (y ∷ ys) = if less x y then x ∷ y ∷ ys else y ∷ insert x ys

  unfoldable pub sort : List A → List A
  unfolding insert
  sort [] = []
  sort (x ∷ xs) = insert x (sort xs)

  -- No later element is less than an earlier one.
  abbrev pub IsSorted : List A → Type ℓ
  IsSorted [] = Unit
  IsSorted (x ∷ xs) = All (λ y. less y x ≡ false) xs × IsSorted xs

  insert-perm : (x : A) (xs : List A) → Perm (insert x xs) (x ∷ xs)
  unfolding insert
  insert-perm x [] = Perm.refl (x ∷ [])
  insert-perm x (y ∷ ys) = elim (Bool-cases (less x y)) [
    | inl e ↦ rw (e, insert) (Perm.refl (x ∷ y ∷ ys))
    | inr e ↦ rw (e, insert) (Perm.trans (Perm.cons y (insert-perm x ys)) (Perm.swap x y ys))
  ]

  -- Sorting only rearranges.
  pub sort-perm : (xs : List A) → Perm (sort xs) xs
  unfolding sort
  sort-perm [] = Perm.refl []
  sort-perm (x ∷ xs) = Perm.trans (insert-perm x (sort xs)) (Perm.cons x (sort-perm xs))

  -- Nothing sorts to nothing.
  pub sort_none : (xs : List A) → sort xs ≡ [] → xs ≡ []
  unfolding sort insert
  sort_none [] h = h
  sort_none (x ∷ xs) h = absurd (never (sort xs) h)
    where
      never : (ys : List A) → insert x ys ≡ [] → ⊥
      never [] e = ground arith
      never (y ∷ ys) e = ground arith

  All-insert {κ} : (P : A → Type κ) (x : A) (xs : List A) → P x → All P xs → All P (insert x xs)
  unfolding insert
  All-insert P x [] p q = (p, tt)
  All-insert P x (y ∷ ys) p q = elim (Bool-cases (less x y)) [
    | inl e ↦ rw (e, insert) (p, (q.0, q.1))
    | inr e ↦ rw (e, insert) (q.0, All-insert P x ys p q.1)
  ]

  -- What holds of all elements holds of all after sorting.
  pub All-sort {κ} : (P : A → Type κ) (xs : List A) → All P xs → All P (sort xs)
  unfolding sort
  All-sort P [] q = tt
  All-sort P (x ∷ xs) q = All-insert P x (sort xs) q.0 (All-sort P xs q.1)

  -- Two elements under their tests, one before the other or after it.
  swap_kept :
      (b c : Bool) (x y : A) (l m : List A)
      → Perm l (if b then x ∷ m else m)
      → Perm
          (if c then y ∷ l else l)
          (if b then x ∷ (if c then y ∷ m else m) else (if c then y ∷ m else m))
  swap_kept true true x y l m p = Perm.trans (Perm.cons y p) (Perm.swap x y m)
  swap_kept true false x y l m p = p
  swap_kept false true x y l m p = Perm.cons y p
  swap_kept false false x y l m p = p

  keep-insert-perm :
      (test : A → Bool) (x : A) (xs : List A) → Perm (keep test (insert x xs)) (keep test (x ∷ xs))
  unfolding insert
  keep-insert-perm test x [] = Perm.refl (keep test (x ∷ []))
  keep-insert-perm test x (y ∷ ys) =
      let p = swap_kept (test x) (test y) x y _ (keep test ys) (keep-insert-perm test x ys) in
      elim (Bool-cases (less x y)) [
        | inl e ↦ rw (e, insert) (Perm.refl (keep test (x ∷ y ∷ ys)))
        | inr e ↦ rw (e, insert) p
      ]

  -- Filtering a sorted list keeps what filtering the list keeps.
  pub keep-sort-perm : (test : A → Bool) (xs : List A) → Perm (keep test (sort xs)) (keep test xs)
  unfolding sort
  keep-sort-perm test [] = Perm.refl []
  keep-sort-perm test (x ∷ xs) =
      Perm.trans (keep-insert-perm test x (sort xs)) (cons_kept (test x) (keep-sort-perm test xs))
    where
      cons_kept :
          (b : Bool) {l m : List A}
          → Perm l m
          → Perm (if b then x ∷ l else l) (if b then x ∷ m else m)
      cons_kept true p = Perm.cons x p
      cons_kept false p = p

  All-keep {κ} : (P : A → Type κ) (test : A → Bool) (xs : List A) → All P xs → All P (keep test xs)
  All-keep P test [] q = tt
  All-keep P test (x ∷ xs) q = kept (test x) (All-keep P test xs q.1)
    where
      kept :
          (b : Bool) → All P (keep test xs) → All P (if b then x ∷ keep test xs else keep test xs)
      kept true r = (q.0, r)
      kept false r = r

  pub keep-IsSorted : (test : A → Bool) (xs : List A) → IsSorted xs → IsSorted (keep test xs)
  keep-IsSorted test [] s = tt
  keep-IsSorted test (x ∷ xs) s =
      kept (test x) (All-keep (λ y. less y x ≡ false) test xs s.0) (keep-IsSorted test xs s.1)
    where
      kept :
          (b : Bool)
          → All (λ y. less y x ≡ false) (keep test xs)
          → IsSorted (keep test xs)
          → IsSorted (if b then x ∷ keep test xs else keep test xs)
      kept true q r = (q, r)
      kept false q r = r

-- What a test must satisfy for its sorts to come out sorted.
pub record IsStrictOrder {ℓ} {A : Type ℓ} (less : A → A → Bool) : Type ℓ where
  pub asymmetric : (x y : A) → less x y ≡ true → less y x ≡ false
  -- Of `x < y` and `y ≤ z` follows `x ≤ z`.
  pub below : (x y z : A) → less x y ≡ true → less z y ≡ false → less z x ≡ false

module _ {ℓ} {A : Type ℓ} {less : A → A → Bool} (order : IsStrictOrder less) where
  All-below :
      (x y : A) (ys : List A)
      → less x y ≡ true
      → All (λ z. less z y ≡ false) ys
      → All (λ z. less z x ≡ false) ys
  All-below x y [] e q = tt
  All-below x y (z ∷ ys) e q = (order.below x y z e q.0, All-below x y ys e q.1)

  insert-IsSorted : (x : A) (xs : List A) → IsSorted less xs → IsSorted less (insert less x xs)
  unfolding insert
  insert-IsSorted x [] s = (tt, tt)
  insert-IsSorted x (y ∷ ys) s = elim (Bool-cases (less x y)) [
    | inl e ↦ rw (e, insert) ((order.asymmetric x y e, All-below x y ys e s.0), s)
    | inr e ↦
        rw (e, insert)
          (All-insert less (λ z. less z y ≡ false) x ys e s.0, insert-IsSorted x ys s.1)
  ]

  -- The result is in order.
  pub sort-IsSorted : (xs : List A) → IsSorted less (sort less xs)
  unfolding sort
  sort-IsSorted [] = tt
  sort-IsSorted (x ∷ xs) = insert-IsSorted x (sort less xs) (sort-IsSorted xs)
