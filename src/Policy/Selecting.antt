-- ===== src/Policy/Selecting.antt =====
-- controller/internal/policy/policy.go. A mode is a Go string; one that is none of the constants
-- is `other`, and selects nothing.
use leo_runners.Base.{
  ◌≡◌, refl, ◌∙◌, ◌⊎◌, inl, inr, String, List, [], ◌∷◌, Option, none, some, Bool, true, false, not,
  ◌&&◌, if◌then◌else◌, All, arith,
}

pub data Mode : Type 0 where
  customer_first managed_first customer_only managed_only fallback : Mode
  other : String → Mode

pub record Pool : Type 0 where
  pub id : String
  pub customer_owned : Bool
  pub available : Bool

abbrev pub same : Bool → Bool → Bool
same true b = b
same false b = not b

-- The first pool that passes a test: a `for` loop that returns under an `if`.
unfoldable pub first : (Pool → Bool) → List Pool → Option Pool
first test [] = none
first test (p ∷ ps) = let rest = first test ps in if test p then some p else rest

-- The loop `eligible`, and the one of `Fallback`.
abbrev pub is_eligible : Bool → Pool → Bool
is_eligible owned p = p.available && same p.customer_owned owned

unfoldable pub eligible : Bool → List Pool → Option Pool
eligible owned = first (is_eligible owned)

abbrev pub or_else : Option Pool → Option Pool → Option Pool
or_else none q = q
or_else (some p) q = some p

unfoldable pub select : Mode → List Pool → Option Pool
unfolding eligible first
select customer_first pools = or_else (eligible true pools) (eligible false pools)
select managed_first pools = or_else (eligible false pools) (eligible true pools)
select customer_only pools = eligible true pools
select managed_only pools = eligible false pools
select fallback pools = first (λ p. p.available) pools
select (other s) pools = none

-- Which pools a mode may select at all.
abbrev pub allows : Mode → Pool → Bool
allows customer_first p = p.available
allows managed_first p = p.available
allows customer_only p = p.available && p.customer_owned
allows managed_only p = p.available && not p.customer_owned
allows fallback p = p.available
allows (other s) p = false

-- One of a list.
abbrev pub IsIn : Pool → List Pool → Type 0
IsIn p [] = ⊥
IsIn p (q ∷ qs) = (p ≡ q) ⊎ IsIn p qs

-- What a search for the first pool that passes a test answers.
pub data Found (test : Pool → Bool) (pools : List Pool) : Option Pool → Type 0 where
  nothing : All (λ p. test p ≡ false) pools → Found test pools none
  this : (p : Pool) → IsIn p pools → test p ≡ true → Found test pools (some p)

first-Found : (test : Pool → Bool) (pools : List Pool) → Found test pools (first test pools)
unfolding first
first-Found test [] = nothing tt
first-Found test (p ∷ ps) = go (test p) refl (first-Found test ps)
  where
    go :
        {o : Option Pool} (b : Bool)
        → test p ≡ b
        → Found test ps o
        → Found test (p ∷ ps) (if b then some p else o)
    go true e f = this p (inl refl) e
    go false e (nothing all) = nothing (e, all)
    go false e (this q there passes) = this q (inr there) passes

-- What a selection answers: a pool of the list that the mode allows and that is owned as the mode
-- prefers, unless no available pool is; or nothing, if the mode allows none of the pools.
pub data Selected (mode : Mode) (pools : List Pool) : Option Pool → Type 0 where
  refused : All (λ p. allows mode p ≡ false) pools → Selected mode pools none
  chosen :
      (p : Pool)
      → IsIn p pools
      → allows mode p ≡ true
      → (mode ≡ customer_first
          → (p.customer_owned ≡ true) ⊎ All (λ q. is_eligible true q ≡ false) pools)
      → (mode ≡ managed_first
          → (p.customer_owned ≡ false) ⊎ All (λ q. is_eligible false q ≡ false) pools)
      → Selected mode pools (some p)

All-both :
    (P Q R : Pool → Type 0) (f : (p : Pool) → P p → Q p → R p) (ps : List Pool)
    → All P ps
    → All Q ps
    → All R ps
All-both P Q R f [] a b = tt
All-both P Q R f (p ∷ ps) a b = (f p a.0 b.0, All-both P Q R f ps a.1 b.1)

none_eligible :
    (p : Pool) → is_eligible true p ≡ false → is_eligible false p ≡ false → p.available ≡ false
none_eligible p a b = ground arith

customer_first-Selected :
    (pools : List Pool) (o o' : Option Pool)
    → Found (is_eligible true) pools o
    → Found (is_eligible false) pools o'
    → Selected customer_first pools (or_else o o')
customer_first-Selected pools _ _ (this p there fits) g =
    chosen p there (ground arith) (λ h. inl (ground arith)) (λ h. inl (absurd (ground arith)))
customer_first-Selected pools _ _ (nothing all) (this p there fits) =
    chosen p there (ground arith) (λ h. inr all) (λ h. absurd (ground arith))
customer_first-Selected pools _ _ (nothing all) (nothing all') =
    refused (All-both _ _ _ none_eligible pools all all')

managed_first-Selected :
    (pools : List Pool) (o o' : Option Pool)
    → Found (is_eligible false) pools o
    → Found (is_eligible true) pools o'
    → Selected managed_first pools (or_else o o')
managed_first-Selected pools _ _ (this p there fits) g =
    chosen p there (ground arith) (λ h. absurd (ground arith)) (λ h. inl (ground arith))
managed_first-Selected pools _ _ (nothing all) (this p there fits) =
    chosen p there (ground arith) (λ h. absurd (ground arith)) (λ h. inr all)
managed_first-Selected pools _ _ (nothing all) (nothing all') =
    refused (All-both _ _ _ (λ p a b. none_eligible p b a) pools all all')

nothing_allowed : (pools : List Pool) → All (λ p. false ≡ false) pools
nothing_allowed [] = tt
nothing_allowed (p ∷ ps) = (refl, nothing_allowed ps)

only-Selected :
    (mode : Mode) (test : Pool → Bool) (pools : List Pool) (o : Option Pool)
    → ((p : Pool) → allows mode p ≡ test p)
    → (mode ≡ customer_first → ⊥)
    → (mode ≡ managed_first → ⊥)
    → Found test pools o
    → Selected mode pools o
only-Selected mode test pools _ same_test a b (this p there fits) =
    chosen p there (same_test p ∙ fits) (λ h. absurd (a h)) (λ h. absurd (b h))
only-Selected mode test pools _ same_test a b (nothing all) =
    refused (All-both _ _ _ (λ p h h'. same_test p ∙ h) pools all all)

owned_test : (p : Pool) → (p.available && p.customer_owned) ≡ is_eligible true p
owned_test p = ground arith

managed_test : (p : Pool) → (p.available && not p.customer_owned) ≡ is_eligible false p
managed_test p = ground arith

-- `Select` answers a pool of the list that the mode allows (an available one, and of the only
-- ownership where the mode names one), of the ownership that the mode prefers unless no available
-- pool has it; it answers nothing exactly if the mode allows none of the pools.
pub select-Selected : (mode : Mode) (pools : List Pool) → Selected mode pools (select mode pools)
unfolding select eligible
select-Selected customer_first pools =
    customer_first-Selected pools _ _ (first-Found (is_eligible true) pools)
      (first-Found (is_eligible false) pools)
select-Selected managed_first pools =
    managed_first-Selected pools _ _ (first-Found (is_eligible false) pools)
      (first-Found (is_eligible true) pools)
select-Selected customer_only pools =
    only-Selected customer_only (is_eligible true) pools _ owned_test (λ h. ground arith)
      (λ h. ground arith) (first-Found (is_eligible true) pools)
select-Selected managed_only pools =
    only-Selected managed_only (is_eligible false) pools _ managed_test (λ h. ground arith)
      (λ h. ground arith) (first-Found (is_eligible false) pools)
select-Selected fallback pools =
    only-Selected fallback (λ p. p.available) pools _ (λ p. refl) (λ h. ground arith)
      (λ h. ground arith) (first-Found (λ p. p.available) pools)
select-Selected (other s) pools = refused (nothing_allowed pools)
