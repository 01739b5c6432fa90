-- ===== src/Capacity/Choice.antt =====
-- What `Select` chooses.
use leo_runners.Base.{
  ◌≡◌, refl, sym, subst, inl, inr, ◌⊎◌, String, List, [], ◌∷◌, none, some, true, false, not, ◌||◌,
  str_eq, arith, All, keep, some_injective, keep_none, All-keep_passing,
}
use leo_runners.Base.Dict.{get, values}
use leo_runners.Base.Sort.{sort, All-sort, sort_none}
use leo_runners.Base.Keys.{IsMap, Stored, values-Stored}
use leo_runners.Capacity.Pool.{Pool, Floats, Registry, Request, available}
use leo_runners.Capacity.Registry.{
  reserve, reserve_from, with_pool, with_capacity, charge, fits, any_negative_amount,
}
use leo_runners.Capacity.Soundness.{IsSound}
use leo_runners.Capacity.Selection.{
  matches, owned_as, less, first_or, first_owned, select, ownership_order,
}

module _ (floats : Floats) where
  open floats use {Float}

  -- No pool of a list is owned in this way.
  abbrev pub Nobody : List (Pool Float) → String → Type 0
  Nobody all o = All (λ x. owned_as o x ≡ false) all

  -- A pool that is owned in one of the ways, while nobody is owned in an earlier one.
  abbrev pub Preferred : List (Pool Float) → Pool Float → List String → Type 0
  Preferred all p [] = ⊥
  Preferred all p (o ∷ os) = (owned_as o p ≡ true) ⊎ (Nobody all o × Preferred all p os)

  none_owned :
      (q : Request) (all : List (Pool Float)) (os : List String)
      → first_owned floats q all os ≡ none
      → All (Nobody all) os
  unfolding first_owned
  none_owned q all [] h = tt
  none_owned q all (o ∷ os) h =
      go (sort (less floats q) (keep (owned_as o) all)) refl (none_owned q all os) h
    where
      go :
          (sorted : List (Pool Float))
          → sort (less floats q) (keep (owned_as o) all) ≡ sorted
          → (first_owned floats q all os ≡ none → All (Nobody all) os)
          → first_or (first_owned floats q all os) sorted ≡ none
          → All (Nobody all) (o ∷ os)
      go [] e rest h = (keep_none (owned_as o) all (sort_none (less floats q) _ e), rest h)
      go (p ∷ ps) e rest h = absurd (ground arith)

  some_owned :
      (P : Pool Float → Type 0) (q : Request) (all : List (Pool Float)) (p : Pool Float)
      (os : List String)
      → All P all
      → first_owned floats q all os ≡ some p
      → P p × Preferred all p os
  unfolding first_owned
  some_owned P q all p [] each h = absurd (ground arith)
  some_owned P q all p (o ∷ os) each h =
      go (sort (less floats q) (keep (owned_as o) all)) refl (some_owned P q all p os each) h
    where
      go :
          (sorted : List (Pool Float))
          → sort (less floats q) (keep (owned_as o) all) ≡ sorted
          → (first_owned floats q all os ≡ some p → P p × Preferred all p os)
          → first_or (first_owned floats q all os) sorted ≡ some p
          → P p × Preferred all p (o ∷ os)
      go [] e rest h =
          let (holds, chosen) = rest h in
          (holds, inr (keep_none (owned_as o) all (sort_none (less floats q) _ e), chosen))
      go (x ∷ xs) e rest h =
          let each_owned = All-keep_passing P (owned_as o) all each in
          let (holds, owned) =
            (subst (All (λ y. P y × (owned_as o y ≡ true))) e
              (All-sort (less floats q) (λ y. P y × (owned_as o y ≡ true)) _ each_owned)).0 in
          let same = some_injective h in
          (subst P same holds, inl (subst (λ y. owned_as o y ≡ true) same owned))

  -- Whether a request may be served by a pool that is owned in this way.
  abbrev pub Unserved : Request → List (Pool Float) → String → Type 0
  Unserved q all o = Nobody (keep (matches q) all) o

  pub select_prefers :
      (q : Request) (r : Registry Float)
      → IsMap r.pools
      → ((p : Pool Float)
          → select floats q r ≡ some p
          → Stored r.pools p
            × (matches q p ≡ true)
            × Preferred (keep (matches q) (values r.pools)) p (ownership_order q.mode q.ownership))
        × (select floats q r ≡ none
            → All (Unserved q (values r.pools)) (ownership_order q.mode q.ownership))
  unfolding select
  select_prefers q r distinct = (
    λ p chosen.
        let ((stored, fitting), preferred) =
          some_owned (λ x. Stored r.pools x × (matches q x ≡ true)) q
            (keep (matches q) (values r.pools)) p _
            (All-keep_passing (Stored r.pools) (matches q) (values r.pools)
              (values-Stored r.pools distinct))
            chosen in
        (stored, fitting, preferred),
    λ h. none_owned q (keep (matches q) (values r.pools)) _ h,
  )

  fits_request :
      (q : Request) (p : Pool Float)
      → matches q p ≡ true
      → (any_negative_amount q.cpu q.memory_gb q.gpu ≡ false)
        × ((not (str_eq p.availability available) || not (fits p.capacity q.cpu q.memory_gb q.gpu))
            ≡ false)
  unfolding matches
  fits_request q p h = (ground arith, ground arith)

  -- In a reachable registry, what `Select` chooses for a request, `Reserve` grants: the pool is
  -- found under its identifier, and the request's amounts are charged to it.
  pub selected_is_granted :
      (q : Request) (p : Pool Float) (r : Registry Float)
      → IsSound floats r
      → select floats q r ≡ some p
      → reserve p.id q.cpu q.memory_gb q.gpu r
        ≡ (with_pool r p.id (with_capacity p (charge p.capacity q.cpu q.memory_gb q.gpu)), none)
  unfolding reserve reserve_from
  selected_is_granted q p r sound chosen =
      let ((k, there), fitting, preferred) = (select_prefers q r sound.distinct).0 p chosen in
      let (good, free) = fits_request q p fitting in
      let here = subst (λ x. get x r.pools ≡ some p) (sym (sound.pools k p there).named) there in
      rw (reserve, good, here, reserve_from, free) refl
