-- ===== src/Base/Keys.antt =====
-- Maps have one entry for each key: every write keeps it so.
use Prim.Native.String.{String}
use mathlib.Core.Path.{◌≡◌, refl, sym, subst, ◌∙◌}
use mathlib.Core.Logic.{inl, inr}
use mathlib.Core.Option.{none, some}
use mathlib.Core.List.{List, [], ◌∷◌}
use native.Mathlib.Omega.{arith}
use text.Mathlib.Text.{◌==◌}
use text.Mathlib.TextEquality.{eq_iff}
use leo_runners.Base.Tests.{Bool-cases}
use leo_runners.Base.Lists.{All}
use leo_runners.Base.Dict.{
  Dict, get, put, remove, values, get-put, get-remove, get-put_self, get-put_ne,
}
use leo_runners.Base.Text.Order.{str_cases}

module _ {V : Type 0} where
  abbrev pub IsMap : Dict V → Type 0
  IsMap [] = Unit
  IsMap ((k, v) ∷ m) = (get k m ≡ none) × IsMap m

  pub put-IsMap : (k : String) (v : V) (m : Dict V) → IsMap m → IsMap (put k v m)
  unfolding put
  put-IsMap k v [] s = (unfold get in refl, tt)
  put-IsMap k v ((j, w) ∷ m) s = elim (Bool-cases (j == k)) [
    | inl same ↦ rw (same, put) (ground (arith, eq_iff j k, s.0), s.1)
    | inr other ↦
        rw (other, put)
          (ground (arith, get-put k j v m, eq_iff j k, eq_iff k j, s.0), put-IsMap k v m s.1)
  ]

  pub remove-IsMap : (k : String) (m : Dict V) → IsMap m → IsMap (remove k m)
  unfolding remove
  remove-IsMap k [] s = tt
  remove-IsMap k ((j, w) ∷ m) s = elim (Bool-cases (j == k)) [
    | inl same ↦ rw (same, remove) (remove-IsMap k m s.1)
    | inr other ↦ rw (other, remove) (ground (arith, get-remove k j m, s.0), remove-IsMap k m s.1)
  ]

  -- The keys of the first entries do not matter for what stands in the rest.
  abbrev pub Stored : Dict V → V → Type 0
  Stored m v = (k : String) × (get k m ≡ some v)

  Stored-cons :
      (k : String) (w v : V) (m : Dict V) → get k m ≡ none → Stored m v → Stored ((k, w) ∷ m) v
  unfolding get
  Stored-cons k w v m free (j, there) = (j, ground (arith, eq_iff k j))

  All-map : (P Q : V → Type 0) (f : (v : V) → P v → Q v) (vs : List V) → All P vs → All Q vs
  All-map P Q f [] h = tt
  All-map P Q f (v ∷ vs) h = (f v h.0, All-map P Q f vs h.1)

  -- What is listed can be looked up.
  pub values-Stored : (m : Dict V) → IsMap m → All (Stored m) (values m)
  values-Stored [] s = tt
  values-Stored ((k, v) ∷ m) s = (
    (k, unfold get in ground (arith, eq_iff k k)),
    All-map (Stored m) (Stored ((k, v) ∷ m)) (λ w. Stored-cons k v w m s.0) (values m)
        (values-Stored m s.1),
  )

-- A value under a key, for every key that has one.
abbrev pub Each : {V : Type 0} → (String → V → Type 0) → Dict V → Type 0
Each {V} P m = (k : String) (v : V) → get k m ≡ some v → P k v

pub put-Each :
    {V : Type 0} (P : String → V → Type 0) (k : String) (v : V) (m : Dict V)
    → P k v
    → Each P m
    → Each P (put k v m)
put-Each P k v m pv e j w h = elim (str_cases k j) [
  | inl same ↦
      subst (λ x. P x w) same
        (subst (P k)
          (ground (arith, get-put_self k v m, subst (λ x. get x (put k v m) ≡ some w) (sym same) h))
          pv)
  | inr other ↦ e j w (sym (get-put_ne k j v m other) ∙ h)
]

pub remove-Each :
    {V : Type 0} (P : String → V → Type 0) (k : String) (m : Dict V)
    → Each P m
    → Each P (remove k m)
remove-Each P k m e j w h = e j w (ground (arith, get-remove k j m))
