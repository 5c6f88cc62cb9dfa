-- ===== src/Measure/Fields.antt =====
-- dealMROandMRE.cpp: the words of a line in the arrays of a struct.
use cpp_study.Base.{◌<◌, ◌≡◌, refl, ap, List, [], ◌∷◌, true, arith, ltb, length, suc}
use cpp_study.Base.Exec.{done}
use cpp_study.Ini.{Text}
use cpp_study.Measure.{use_size, scan}

-- Each word fits an array with its 0.
abbrev pub AllShort : List Text → Type 0
AllShort [] = Unit
AllShort (t ∷ ts) = (length t < use_size) × AllShort ts

-- The arrays with the words in them, from the first array on.
unfoldable pub filled : List Text → List Text → List Text
filled [] ts = []
filled (f ∷ fs) [] = f ∷ fs
filled (f ∷ fs) (t ∷ ts) = t ∷ filled fs ts

pub scan-filled : (fs ts : List Text) → AllShort ts → scan fs ts ≡ done (filled fs ts)
unfolding scan filled
scan-filled [] ts h = refl
scan-filled (f ∷ fs) [] h = refl
scan-filled (f ∷ fs) (t ∷ ts) (n, h) =
    let fits : ltb (length t) use_size ≡ true = ground (arith, n) in
    rw (scan, fits, scan-filled fs ts h) refl

pub length-filled : (fs ts : List Text) → length (filled fs ts) ≡ length fs
unfolding filled
length-filled [] ts = refl
length-filled (f ∷ fs) [] = refl
length-filled (f ∷ fs) (t ∷ ts) = ap suc (length-filled fs ts)
