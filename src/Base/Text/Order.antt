-- ===== src/Base/Text/Order.antt =====
-- `a < b` on Go strings.
use Prim.Native.String.{String, compare}
use Prim.Native.String.compare
use mathlib.Core.Path.{◌≡◌, refl}
use mathlib.Core.Bool.{Bool, true, false}
use native.Mathlib.Omega.{arith}
use text.Mathlib.Text.{is_lt, ◌==◌}
use text.Mathlib.TextEquality.{eq_iff}
use mathlib.Core.Bool.{false≢true}
use mathlib.Core.Path.{sym, ◌∙◌}
use mathlib.Core.Logic.{◌⊎◌, ◌≢◌, inl, inr}
use leo_runners.Base.Tests.{Bool-cases}
use leo_runners.Base.Sort.{IsStrictOrder}

-- Bytewise, which on UTF-8 is the order of the code points.
unfoldable pub str_lt : String → String → Bool
str_lt a b = is_lt (compare a b)

-- Two texts are equal or not.
pub str_cases : (s t : String) → (s ≡ t) ⊎ (s ≢ t)
str_cases s t = elim (Bool-cases (s == t)) [
  | inl same ↦ inl ((eq_iff s t).0 same)
  | inr differ ↦ inr (λ p. false≢true (sym differ ∙ (eq_iff s t).1 p))
]

pub str_ne : (s t : String) → s ≢ t → (s == t) ≡ false
str_ne s t other = elim (Bool-cases (s == t)) [
  | inl same ↦ absurd (other ((eq_iff s t).0 same))
  | inr differ ↦ differ
]

asymmetric : (s t : String) → str_lt s t ≡ true → str_lt t s ≡ false
unfolding str_lt
asymmetric String.[] String.[] h = refl
asymmetric String.[] (String.◌∷◌ d t) h = ground (arith, compare.cons-nil d t)
asymmetric (String.◌∷◌ c s) String.[] h = ground (arith, compare.cons-nil c s)
asymmetric (String.◌∷◌ c s) (String.◌∷◌ d t) h =
    ground (arith, compare.cons-cons c d s t, compare.cons-cons d c t s, asymmetric s t)

below : (s t u : String) → str_lt s t ≡ true → str_lt u t ≡ false → str_lt u s ≡ false
unfolding str_lt
below String.[] String.[] u h k = k
below (String.◌∷◌ c s) String.[] u h k = ground (arith, compare.cons-nil c s)
below String.[] (String.◌∷◌ d t) String.[] h k = refl
below String.[] (String.◌∷◌ d t) (String.◌∷◌ e u) h k = ground (arith, compare.cons-nil e u)
below (String.◌∷◌ c s) (String.◌∷◌ d t) String.[] h k = ground (arith, compare.nil-cons d t)
below (String.◌∷◌ c s) (String.◌∷◌ d t) (String.◌∷◌ e u) h k = ground (
  arith,
  compare.cons-cons c d s t,
  compare.cons-cons e d u t,
  compare.cons-cons e c u s,
  below s t u,
)

-- A test that compares a key of two elements orders them.
pub by_key-IsStrictOrder {ℓ} :
    {A : Type ℓ} (key : A → String) → IsStrictOrder (λ x y. str_lt (key x) (key y))
by_key-IsStrictOrder key = record {
  asymmetric = λ x y. asymmetric (key x) (key y);
  below = λ x y z. below (key x) (key y) (key z);
}
