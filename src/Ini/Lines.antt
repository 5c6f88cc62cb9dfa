-- ===== src/Ini/Lines.antt =====
-- readIni.cpp: what strstr, fgets and the end of a text make of bytes that lack a byte.
use cpp_study.Base.{
  ℕ, ◌-◌, ◌<◌, ◌≡◌, refl, [], ◌∷◌, ◌++◌, false, some, none, arith, ◌==◌, leb, length,
}
use cpp_study.Ini.{Text, split_at, c_text, line_size, lines_from}

abbrev pub Lacks : ℕ → Text → Type 0
Lacks c [] = Unit
Lacks c (x ∷ s) = ((x == c) ≡ false) × Lacks c s

-- Bytes that fgets and the text functions take for what they are.
abbrev pub IsPlain : Text → Type 0
IsPlain s = Lacks 10 s × Lacks 0 s

pub split_at-append : (c : ℕ) (s t : Text) → Lacks c s → split_at c (s ++ (c ∷ t)) ≡ some (s, t)
unfolding split_at
split_at-append c [] t h = ground arith
split_at-append c (x ∷ s) t (n, h) = rw (n, split_at-append c s t h) refl

pub split_at-none : (c : ℕ) (s : Text) → Lacks c s → split_at c s ≡ none
unfolding split_at
split_at-none c [] h = refl
split_at-none c (x ∷ s) (n, h) = rw (n, split_at-none c s h) refl

pub Lacks-append : (c : ℕ) (s t : Text) → Lacks c s → Lacks c t → Lacks c (s ++ t)
Lacks-append c [] t h g = g
Lacks-append c (x ∷ s) t (n, h) g = (n, Lacks-append c s t h g)

pub c_text-Lacks : (s : Text) → Lacks 0 s → c_text s ≡ s
unfolding c_text
c_text-Lacks [] h = refl
c_text-Lacks (x ∷ s) (n, h) = rw (n, c_text-Lacks s h) refl

-- A line that fits the buffer, up to its line feed, is what one call of fgets stores.
pub lines_from-line :
    (room : ℕ) (l t : Text)
    → Lacks 10 l
    → length l < room
    → lines_from room (l ++ (10 ∷ t)) ≡ (l ++ (10 ∷ [])) ∷ lines_from line_size t
unfolding lines_from
lines_from-line room [] t h k = refl
lines_from-line room (x ∷ l) t (n, h) k =
    let wide : leb room 1 ≡ false = ground arith in
    rw (lines_from, n, wide, lines_from-line (room - 1) l t h (omega arith)) refl
