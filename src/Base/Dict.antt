-- ===== src/Base/Dict.antt =====
-- Go's `map[string]V`: an association list with one entry for each key. The order of the entries
-- is one order in which `range` may visit them; `put` on a new key adds at the end.
use Prim.Native.Nat.{◌+◌}
use Prim.Native.String.{String}
use mathlib.Core.Path.{◌≡◌, refl}
use mathlib.Core.Logic.{◌≢◌}
use mathlib.Core.Option.{Option, none, some}
use mathlib.Core.List.{List, [], ◌∷◌}
use native.Mathlib.Omega.{arith}
use text.Mathlib.Text.{◌==◌}
use text.Mathlib.TextEquality.{eq_iff}
use text.Mathlib.TextPositions.{eq_refl}
use leo_runners.Base.Tests.{if◌then◌else◌}
use leo_runners.Base.Lists.{length}

abbrev pub Dict {ℓ} : Type ℓ → Type ℓ
Dict V = List (String × V)

module _ {ℓ} {V : Type ℓ} where
  -- `v, ok := m[k]`
  unfoldable pub get : String → Dict V → Option V
  get k [] = none
  get k ((j, v) ∷ m) = if j == k then some v else get k m

  -- `m[k] = v`
  unfoldable pub put : String → V → Dict V → Dict V
  put k v [] = (k, v) ∷ []
  put k v ((j, w) ∷ m) = if j == k then (k, v) ∷ m else (j, w) ∷ put k v m

  -- `delete(m, k)`
  unfoldable pub remove : String → Dict V → Dict V
  remove k [] = []
  remove k ((j, v) ∷ m) = let rest = remove k m in if j == k then rest else (j, v) ∷ rest

  abbrev pub values : Dict V → List V
  values [] = []
  values ((k, v) ∷ m) = v ∷ values m

  pub get-put :
      (k j : String) (v : V) (m : Dict V) → get j (put k v m) ≡ (if k == j then some v else get j m)
  unfolding get put
  get-put k j v [] = refl
  get-put k j v ((i, w) ∷ m) = ground (arith, eq_iff k j, eq_iff i k, eq_iff i j, get-put k j v m)

  pub get-remove :
      (k j : String) (m : Dict V) → get j (remove k m) ≡ (if k == j then none else get j m)
  unfolding get remove
  get-remove k j [] = ground arith
  get-remove k j ((i, v) ∷ m) = ground (arith, get-remove k j m, eq_iff i k, eq_iff i j, eq_iff k j)

  pub get-put_self : (k : String) (v : V) (m : Dict V) → get k (put k v m) ≡ some v
  get-put_self k v m = simp (get-put, eq_refl)

  pub get-put_ne : (k j : String) (v : V) (m : Dict V) → k ≢ j → get j (put k v m) ≡ get j m
  get-put_ne k j v m h = simp get-put (ground (arith, eq_iff k j))

  pub get-remove_self : (k : String) (m : Dict V) → get k (remove k m) ≡ none
  get-remove_self k m = simp (get-remove, eq_refl)

  pub get-remove_ne : (k j : String) (m : Dict V) → k ≢ j → get j (remove k m) ≡ get j m
  get-remove_ne k j m h = simp get-remove (ground (arith, eq_iff k j))

  pub put-put : (k : String) (v w : V) (m : Dict V) → put k w (put k v m) ≡ put k w m
  unfolding put
  put-put k v w [] = ground (arith, eq_iff k k)
  put-put k v w ((j, x) ∷ m) = ground (arith, eq_iff k k, eq_iff j k, put-put k v w m)

  -- Writing what is there changes nothing.
  pub put-get : (k : String) (v : V) (m : Dict V) → get k m ≡ some v → put k v m ≡ m
  unfolding get put
  put-get k v [] h = ground arith
  put-get k v ((j, w) ∷ m) h = ground (arith, eq_iff j k, put-get k v m)

  pub remove-none : (k : String) (m : Dict V) → get k m ≡ none → remove k m ≡ m
  unfolding get remove
  remove-none k [] h = refl
  remove-none k ((j, w) ∷ m) h = ground (arith, remove-none k m)

  -- Deleting a key that was just added restores the map.
  pub remove-put : (k : String) (v : V) (m : Dict V) → get k m ≡ none → remove k (put k v m) ≡ m
  unfolding get put remove
  remove-put k v [] h = ground (arith, eq_iff k k)
  remove-put k v ((j, w) ∷ m) h = ground (arith, remove-put k v m)

  -- A write over an entry keeps the number of entries; a write on a new key adds one.
  pub length-put :
      (k : String) (v : V) (m : Dict V)
      → length (put k v m) ≡ elim (get k m) [ none ↦ length m + 1 | some w ↦ length m ]
  unfolding get put
  length-put k v [] = refl
  length-put k v ((j, w) ∷ m) = ground (arith, length-put k v m)

pub get-empty {ℓ} : {V : Type ℓ} (k : String) → get {V = V} k [] ≡ none
unfolding get
get-empty k = refl

pub ruleset dict_laws = (get-empty, get-put, get-remove)
