-- ===== src/Measure/Rows.antt =====
-- dealMROandMRE.cpp: what the objects of a file become in vecMRO.
use mathlib.Core.List.{append-nil, append_assoc}
use cpp_study.Base.{
  ℕ, ◌+◌, ◌≡◌, refl, sym, ap, ◌∙◌, List, [], ◌∷◌, ◌++◌, Bool, true, false, ◌&&◌, arith,
  if◌then◌else◌, replicate, one_if, suc,
}
use cpp_study.Base.Exec.{done, Ends, ends}
use cpp_study.Ini.{Text}
use cpp_study.Measure.{
  MroFile, empty_mro, words, is_object, is_value, is_end, MroState, overlaps, same_mod3, aoa_flag,
  push_values, mro_line, mro_loop,
}
use cpp_study.Measure.Fields.{AllShort, filled, scan-filled}

-- How many of the lines, given by their values, cover each other, and how many of these agree
-- modulo 3.
abbrev pub coverings : List (List Text) → ℕ
coverings [] = 0
coverings (v ∷ vs) = one_if (overlaps v) + coverings vs

abbrev pub coverings_mod3 : List (List Text) → ℕ
coverings_mod3 [] = 0
coverings_mod3 (v ∷ vs) = one_if (overlaps v && same_mod3 v) + coverings_mod3 vs

-- The row of the line `v` of an object of which the lines `seen` are read, `v` being the last.
abbrev pub row_of : List Text → List (List Text) → List Text → MroFile
row_of head seen v = record {
  head = head;
  values = v;
  overlapp_coverage = coverings seen;
  mod3_ncells = coverings_mod3 seen;
  overshoot_aoa = aoa_flag v;
}

abbrev pub value_fields : Text → List Text
value_fields line = filled (replicate 29 []) (words line)

-- The rows of the lines of an object behind those that are read.
abbrev pub rows_from : List Text → List (List Text) → List Text → List MroFile
rows_from head seen [] = []
rows_from head seen (l ∷ ls) =
    let now = seen ++ value_fields l ∷ [] in
    let rest = rows_from head now ls in
    let others = rows_from head seen ls in
    if is_value l then row_of head now (value_fields l) ∷ rest else others

-- An "<object" line and the lines up to the next one.
pub record ObjectPart : Type 0 where
  pub heading : Text
  pub lines : List Text

abbrev pub object_rows : ObjectPart → List MroFile
object_rows o = rows_from (filled (replicate 11 []) (words o.heading)) [] o.lines

abbrev pub all_rows : List ObjectPart → List MroFile
all_rows [] = []
all_rows (o ∷ os) = object_rows o ++ all_rows os

-- The lines of the objects, and `rest` behind them.
abbrev pub file_lines : List ObjectPart → List Text → List Text
file_lines [] rest = rest
file_lines (o ∷ os) rest = o.heading ∷ (o.lines ++ file_lines os rest)

abbrev pub IsInside : Text → Type 0
IsInside l = (is_object l ≡ false) × (is_end l ≡ false) × AllShort (words l)

abbrev pub AllInside : List Text → Type 0
AllInside [] = Unit
AllInside (l ∷ ls) = IsInside l × AllInside ls

abbrev pub IsObjectPart : ObjectPart → Type 0
IsObjectPart o = (is_object o.heading ≡ true) × AllShort (words o.heading) × AllInside o.lines

abbrev pub AllObjects : List ObjectPart → Type 0
AllObjects [] = Unit
AllObjects (o ∷ os) = IsObjectPart o × AllObjects os

coverings-append :
    (vs : List (List Text)) (v : List Text)
    → coverings (vs ++ v ∷ []) ≡ (if overlaps v then suc (coverings vs) else coverings vs)
coverings-append [] v = ground arith
coverings-append (w ∷ vs) v = ground (arith, coverings-append vs v)

coverings_mod3-append :
    (vs : List (List Text)) (v : List Text)
    → coverings_mod3 (vs ++ v ∷ [])
      ≡ (if overlaps v && same_mod3 v then suc (coverings_mod3 vs) else coverings_mod3 vs)
coverings_mod3-append [] v = ground arith
coverings_mod3-append (w ∷ vs) v = ground (arith, coverings_mod3-append vs v)

-- The state while the lines of an object are read.
record InObject (head : List Text) (seen : List (List Text)) (s : MroState) : Type 0 where
  buf_head : s.mro_buf.head ≡ head
  buf_values : s.mro_buf.values ≡ replicate 29 []
  covering : s.overlapp ≡ coverings seen
  covering3 : s.mod3 ≡ coverings_mod3 seen

module _ (head : List Text) (seen : List (List Text)) (s : MroState) (h : InObject head seen s)
    (v : List Text) where
  push_values-InObject : InObject head (seen ++ v ∷ []) (push_values s v)
  unfolding push_values
  push_values-InObject = record {
    buf_head = h.buf_head;
    buf_values = h.buf_values;
    covering = rw (coverings-append seen v, h.covering) refl;
    covering3 = rw (coverings_mod3-append seen v, h.covering3) refl;
  }

  push_values-row : (push_values s v).vec_mro ≡ s.vec_mro ++ row_of head (seen ++ v ∷ []) v ∷ []
  unfolding push_values
  push_values-row =
      rw
        (coverings-append seen v, coverings_mod3-append seen v, h.covering, h.covering3, h.buf_head)
        refl

-- The loop over the lines `ls` comes to `more` with the rows of `ls` added.
abbrev Reads : List Text → List Text → MroState → List MroFile → Type 0
Reads lines more s rows =
    (t : MroState) × (mro_loop lines s ≡ mro_loop more t) × (t.vec_mro ≡ s.vec_mro ++ rows)

mro_line-value :
    (head : List Text) (seen : List (List Text)) (s : MroState) (l : Text)
    → InObject head seen s
    → IsInside l
    → is_value l ≡ true
    → mro_line l s ≡ done (true, push_values s (value_fields l))
unfolding mro_line
mro_line-value head seen s l h (o, e, w) v =
    rw (mro_line, o, v, h.buf_values, scan-filled (replicate 29 []) (words l) w) refl

mro_line-other :
    (s : MroState) (l : Text) → IsInside l → is_value l ≡ false → mro_line l s ≡ done (true, s)
unfolding mro_line
mro_line-other s l (o, e, w) v = rw (mro_line, o, v, e) refl

mro_loop-step :
    (s t : MroState) (l : Text) (ls : List Text)
    → mro_line l s ≡ done (true, t)
    → mro_loop (l ∷ ls) s ≡ mro_loop ls t
unfolding mro_loop
mro_loop-step s t l ls e = rw (mro_loop, e) refl

module _ (head : List Text) (more : List Text) where
  one_line :
      (l : Text) (ls : List Text) (seen : List (List Text)) (s : MroState) (b : Bool)
      → is_value l ≡ b
      → InObject head seen s
      → IsInside l
      → ((seen : List (List Text)) (s : MroState)
          → InObject head seen s
          → Reads (ls ++ more) more s (rows_from head seen ls))
      → Reads (l ∷ (ls ++ more)) more s (rows_from head seen (l ∷ ls))
  one_line l ls seen s true v h i next =
      let w = value_fields l in
      let (t, e, rows) =
        next (seen ++ w ∷ []) (push_values s w) (push_values-InObject head seen s h w) in
      let step =
        mro_loop-step s (push_values s w) l (ls ++ more) (mro_line-value head seen s l h i v) in
      let row = row_of head (seen ++ w ∷ []) w in
      let rest = rows_from head (seen ++ w ∷ []) ls in
      let both : t.vec_mro ≡ s.vec_mro ++ (row ∷ rest) =
        rows
        ∙ ap (λ x. x ++ rest) (push_values-row head seen s h w)
        ∙ append_assoc s.vec_mro (row ∷ []) rest in
      (t, step ∙ e, rw v both)
  one_line l ls seen s false v h i next =
      let (t, e, rows) = next seen s h in
      (t, mro_loop-step s s l (ls ++ more) (mro_line-other s l i v) ∙ e, rw v rows)

  mro_loop-lines :
      (ls : List Text) (seen : List (List Text)) (s : MroState)
      → AllInside ls
      → InObject head seen s
      → Reads (ls ++ more) more s (rows_from head seen ls)
  mro_loop-lines [] seen s a h = (s, refl, sym (append-nil s.vec_mro))
  mro_loop-lines (l ∷ ls) seen s (i, a) h =
      one_line l ls seen s (is_value l) refl h i λ seen s h. mro_loop-lines ls seen s a h

-- The state behind an "<object" line.
abbrev with_head : List Text → MroState → MroState
with_head head s = record s { mro_buf = record empty_mro { head = head }; overlapp = 0; mod3 = 0 }

mro_line-object :
    (s : MroState) (l : Text)
    → is_object l ≡ true
    → AllShort (words l)
    → mro_line l s ≡ done (true, with_head (filled (replicate 11 []) (words l)) s)
unfolding mro_line
mro_line-object s l o w = rw (mro_line, o, scan-filled (replicate 11 []) (words l) w) refl

mro_loop-objects :
    (os : List ObjectPart) (more : List Text) (s : MroState)
    → AllObjects os
    → Reads (file_lines os more) more s (all_rows os)
mro_loop-objects [] more s a = (s, refl, sym (append-nil s.vec_mro))
mro_loop-objects (o ∷ os) more s ((f, w, i), a) =
    let head = filled (replicate 11 []) (words o.heading) in
    let behind = file_lines os more in
    let first =
      mro_loop-step s (with_head head s) o.heading (o.lines ++ behind)
        (mro_line-object s o.heading f w) in
    let (t, e, rows) =
      mro_loop-lines head behind o.lines [] (with_head head s) i
        (record { buf_head = refl; buf_values = refl; covering = refl; covering3 = refl }) in
    let (u, d, others) = mro_loop-objects os more t a in
    let both : u.vec_mro ≡ s.vec_mro ++ all_rows (o ∷ os) =
      others
      ∙ ap (λ x. x ++ all_rows os) rows
      ∙ append_assoc s.vec_mro (object_rows o) (all_rows os) in
    (u, first ∙ e ∙ d, both)

-- The line that ends the reading.
abbrev pub IsStop : Text → Type 0
IsStop l = (is_object l ≡ false) × (is_value l ≡ false) × (is_end l ≡ true)

mro_loop-stop :
    (s : MroState) (l : Text) (rest : List Text) → IsStop l → mro_loop (l ∷ rest) s ≡ done s
unfolding mro_loop mro_line
mro_loop-stop s l rest (o, v, e) = rw (mro_loop, mro_line, o, v, e) refl

-- A line that is none of the three kinds, as those before the first object are.
abbrev pub IsPassed : Text → Type 0
IsPassed l = (is_object l ≡ false) × (is_value l ≡ false) × (is_end l ≡ false)

abbrev pub AllPassed : List Text → Type 0
AllPassed [] = Unit
AllPassed (l ∷ ls) = IsPassed l × AllPassed ls

pub mro_loop-passed :
    (s : MroState) (ls rest : List Text) → AllPassed ls → mro_loop (ls ++ rest) s ≡ mro_loop rest s
unfolding mro_loop mro_line
mro_loop-passed s [] rest h = refl
mro_loop-passed s (l ∷ ls) rest ((o, v, e), h) =
    rw (mro_loop, mro_line, o, v, e) (mro_loop-passed s ls rest h)

-- A file with objects and behind them a line "</measurement": the loop ends, whatever stands behind
-- that line, and adds to vecMRO one row for each "<v" line, in the order of the file. A row has the
-- words of its object's line and its own, and its counters are how many of the object's "<v" lines
-- up to it cover each other, and how many of these agree modulo 3; no object sees the counts of
-- another.
pub mro_loop-rows :
    (os : List ObjectPart) (stop : Text) (rest : List Text) (s : MroState)
    → AllObjects os
    → IsStop stop
    → Ends (λ t. t.vec_mro ≡ s.vec_mro ++ all_rows os) (mro_loop (file_lines os (stop ∷ rest)) s)
mro_loop-rows os stop rest s a e =
    let (t, same, rows) = mro_loop-objects os (stop ∷ rest) s a in
    rw (same, mro_loop-stop t stop rest e) (ends rows)
