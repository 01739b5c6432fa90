-- ===== src/Base/Decimal.antt =====
-- `strconv.FormatInt(n, 10)` and `%d`: the decimal digits of a 64-bit integer, of which there are
-- at most 20.
use Prim.Native.Nat.{ℕ, zero, suc, ◌/◌, ◌%◌}
use Prim.Native.Char.{Char, char}
use Prim.Native.String.{String, ◌++◌}
use mathlib.Core.List.{List, [], ◌∷◌}
use leo_runners.Base.Tests.{ltb, if◌then◌else◌}
use leo_runners.Base.Int.{ℤ, pos, negsuc}

abbrev figures : List Char
figures =
    char 48 tt
    ∷ char 49 tt
    ∷ char 50 tt
    ∷ char 51 tt
    ∷ char 52 tt
    ∷ char 53 tt
    ∷ char 54 tt
    ∷ char 55 tt
    ∷ char 56 tt
    ∷ []

-- The character at a place, and the figure 9 past the end.
abbrev nth : List Char → ℕ → Char
nth [] n = char 57 tt
nth (c ∷ cs) zero = c
nth (c ∷ cs) (suc n) = nth cs n

-- The digits of a number before a text.
unfoldable digits : ℕ → ℕ → String → String
digits zero n text = text
digits (suc fuel) n text =
    let longer = String.◌∷◌ (nth figures (n % 10)) text in
    let more = digits fuel (n / 10) longer in if ltb n 10 then longer else more

unfoldable pub format_int : ℤ → String
unfolding digits
format_int (pos n) = digits 20 n ""
format_int (negsuc n) = "-" ++ digits 20 (suc n) ""
