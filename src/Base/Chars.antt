-- ===== src/Base/Chars.antt =====
-- Quoted texts as lists of bytes, tests on bytes, and the decimal digits that printf and atoi know.
use Prim.Native.Char.{code}
use Prim.Native.String.{String}
use Prim.Native.Nat.{ℕ, zero, suc, ◌+◌, ◌-◌, ◌*◌, ◌/◌, ◌%◌}
use mathlib.Core.Bool.{Bool, true, false, ◌&&◌, ◌||◌}
use mathlib.Core.List.{List, [], ◌∷◌, ◌++◌}
use mathlib.Core.Option.{Option, none, some}
use cpp_study.Base.Tests.{ltb, leb, ◌==◌, if◌then◌else◌}
use cpp_study.Base.Int.{ℤ, pos, sub_ℕ}

abbrev pub codes : String → List ℕ
codes String.[] = []
codes (String.◌∷◌ c s) = code c ∷ codes s

-- isspace
abbrev pub is_space : ℕ → Bool
is_space c = c == 32 || (leb 9 c && leb c 13)

abbrev pub is_digit : ℕ → Bool
is_digit c = leb 48 c && leb c 57

-- The number that the digits at the front of a text make, behind `acc`.
abbrev pub digits_from : ℕ → List ℕ → ℕ
digits_from acc [] = acc
digits_from acc (c ∷ t) =
    let rest = digits_from (acc * 10 + (c - 48)) t in if is_digit c then rest else acc

-- atoi of a text that starts with its sign or with a digit, for numbers that an int holds.
abbrev pub atoi_here : List ℕ → ℤ
atoi_here [] = pos 0
atoi_here (c ∷ t) =
    if c == 45
    then sub_ℕ 0 (digits_from 0 t)
    else if c == 43
    then pos (digits_from 0 t)
    else pos (digits_from 0 (c ∷ t))

unfoldable pub atoi : List ℕ → ℤ
atoi [] = pos 0
atoi (c ∷ t) = let rest = atoi t in if is_space c then rest else atoi_here (c ∷ t)

-- "%d" of a number with at most `fuel` digits.
abbrev pub decimal_from : ℕ → ℕ → List ℕ
decimal_from zero n = []
decimal_from (suc fuel) n =
    let rest = decimal_from fuel (n / 10) in
    if ltb n 10 then (48 + n) ∷ [] else rest ++ (48 + n % 10) ∷ []

-- An int has ten digits at most.
unfoldable pub decimal : ℕ → List ℕ
decimal n = decimal_from 10 n

-- The text behind `key`, where the text starts with it.
abbrev pub behind : List ℕ → List ℕ → Option (List ℕ)
behind [] t = some t
behind (k ∷ key) [] = none
behind (k ∷ key) (c ∷ t) = let rest = behind key t in if k == c then rest else none

-- `strstr(text, key) != NULL`
unfoldable pub has_key : List ℕ → List ℕ → Bool
has_key key [] = elim (behind key []) [ some found ↦ true | none ↦ false ]
has_key key (c ∷ t) =
    let rest = has_key key t in elim (behind key (c ∷ t)) [ some found ↦ true | none ↦ rest ]
