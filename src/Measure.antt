-- ===== src/Measure.antt =====
-- temp/dealMROandMRE.cpp: measurement reports of a mobile network, in which each line of numbers
-- becomes a line of a CSV file.
--
-- Texts are lists of bytes without 0, and a file that fgets reads is cut into the pieces that it
-- returns. A struct is the texts of its arrays in their order: those that an "<object" line fills,
-- and those that a "<v" line fills. Counters stay below 2^31.
pub mod Csv
pub mod Deals
pub mod Fields
pub mod Main
pub mod Rows
use cpp_study.Base.{
  ℕ, suc, ◌+◌, ◌/◌, ◌%◌, List, [], ◌∷◌, ◌++◌, Bool, true, false, ◌&&◌, ◌||◌, ltb, ◌==◌,
  if◌then◌else◌, length, get_or, replicate,
}
use cpp_study.Base.Int.{ℤ, pos, negsuc, sub_ℕ, ◌-ℤ◌, ltb_ℤ, eqb_ℤ}
use cpp_study.Base.Exec.{Exec, done, fault, ◌>>=◌}
use cpp_study.Base.Chars.{codes, is_space, atoi, has_key}
use cpp_study.Ini.{Text}
use cpp_study.Wtmp.{and_token}

-- USE_SIZE and MAX_SIZE
abbrev pub use_size : ℕ
use_size = 100

abbrev pub max_size : ℕ
max_size = 1024

-- MREfile
pub record MreFile : Type 0 where
  pub head : List Text
  pub values : List Text

-- MROfile
pub record MroFile : Type 0 where
  pub head : List Text
  pub values : List Text
  pub overlapp_coverage : ℕ
  pub mod3_ncells : ℕ
  pub overshoot_aoa : ℕ

-- `memset(&strcMREBuf, 0, sizeof(strcMREBuf))` and the same for the other struct.
abbrev pub empty_mre : MreFile
empty_mre = record { head = replicate 13 []; values = replicate 17 [] }

abbrev pub empty_mro : MroFile
empty_mro = record {
  head = replicate 11 [];
  values = replicate 29 [];
  overlapp_coverage = 0;
  mod3_ncells = 0;
  overshoot_aoa = 0;
}

-- The words between blanks, `now` being the word so far.
abbrev pub words_from : Text → Text → List Text
words_from now [] = and_token now []
words_from now (c ∷ t) =
    let next = words_from [] t in
    let longer = words_from (now ++ c ∷ []) t in if is_space c then and_token now next else longer

unfoldable pub words : Text → List Text
words t = words_from [] t

-- sscanf of words into arrays of `use_size` bytes: an array for which no word is left keeps what it
-- holds.
unfoldable pub scan : List Text → List Text → Exec (List Text)
scan [] ts = done []
scan (f ∷ fs) [] = done (f ∷ fs)
scan (f ∷ fs) (t ∷ ts) =
    let rest = scan fs ts in
    if ltb (length t) use_size then (do filled ← rest; done (t ∷ filled)) else fault

-- What the calls of fgets return, `now` being the piece so far.
abbrev pub pieces_from : Text → Text → List Text
pieces_from now [] = and_token now []
pieces_from now (c ∷ t) =
    let piece = now ++ c ∷ [] in
    let next = pieces_from [] t in
    let longer = pieces_from piece t in
    if c == 10 || suc (length piece) == max_size then piece ∷ next else longer

unfoldable pub pieces : Text → List Text
pieces t = pieces_from [] t

abbrev pub is_object : Text → Bool
is_object line = has_key (codes "<object") line

abbrev pub is_value : Text → Bool
is_value line = has_key (codes "<v") line

abbrev pub is_end : Text → Bool
is_end line = has_key (codes "</measurement") line

-- strcMREBuf and vecMRE
pub record MreState : Type 0 where
  pub mre_buf : MreFile
  pub vec_mre : List MreFile

-- The body of the loop for MRE.
unfoldable pub mre_line : Text → MreState → Exec MreState
unfolding words scan
mre_line line s =
    let object : Exec MreState = do
      head ← scan (replicate 13 []) (words line)
      done (record s { mre_buf = record empty_mre { head = head } })
    in let value : Exec MreState = do
      values ← scan s.mre_buf.values (words line)
      done (record s { vec_mre = s.vec_mre ++ record (s.mre_buf) { values = values } ∷ [] })
      in if is_object line then object else if is_value line then value else done s

unfoldable pub mre_loop : List Text → MreState → Exec MreState
unfolding mre_line
mre_loop [] s = done s
mre_loop (line ∷ lines) s = do t ← mre_line line s; mre_loop lines t

-- strcMROBuf, the three counters and vecMRO
pub record MroState : Type 0 where
  pub mro_buf : MroFile
  pub overlapp : ℕ
  pub mod3 : ℕ
  pub overshoot : ℕ
  pub vec_mro : List MroFile

-- `n / 2` and `n % 3` of an int, which C++ rounds towards 0.
abbrev pub half : ℤ → ℤ
half (pos n) = pos (n / 2)
half (negsuc n) = sub_ℕ 0 (suc n / 2)

abbrev pub rem3 : ℤ → ℤ
rem3 (pos n) = pos (n % 3)
rem3 (negsuc n) = sub_ℕ 0 (suc n % 3)

-- The number in one of the arrays of a "<v" line.
abbrev pub number_at : List Text → ℕ → ℤ
number_at values i = atoi (get_or values i [])

-- LteScRSRP, LteNcRSRP, LteScEarfcn and LteNcEarfcn
unfoldable pub overlaps : List Text → Bool
overlaps v =
    ltb_ℤ (number_at v 1 -ℤ number_at v 10) (pos 6) && eqb_ℤ (number_at v 8) (number_at v 12)

-- LteScPci and LteNcPci
unfoldable pub same_mod3 : List Text → Bool
same_mod3 v = eqb_ℤ (rem3 (number_at v 9)) (rem3 (number_at v 13))

-- LteScAOA
unfoldable pub aoa_flag : List Text → ℕ
aoa_flag v =
    let angle = half (number_at v 6) in
    if ltb_ℤ angle (negsuc 44) || ltb_ℤ (pos 45) angle then 0 else 1

-- The counters and the row that the values of a "<v" line make.
unfoldable pub push_values : MroState → List Text → MroState
unfolding overlaps same_mod3 aoa_flag
push_values s v =
    let more = if overlaps v then suc s.overlapp else s.overlapp in
    let more3 = if overlaps v && same_mod3 v then suc s.mod3 else s.mod3 in
    let row : MroFile = record {
      head = s.mro_buf.head;
      values = v;
      overlapp_coverage = more;
      mod3_ncells = more3;
      overshoot_aoa = aoa_flag v;
    } in
    record s {
      overlapp = more;
      mod3 = more3;
      overshoot = aoa_flag v;
      vec_mro = s.vec_mro ++ row ∷ [];
    }

-- The body of the loop for MRO: whether the loop goes on, and the state.
unfoldable pub mro_line : Text → MroState → Exec (Bool × MroState)
unfolding words scan push_values
mro_line line s =
    let object : Exec (Bool × MroState) = do
      head ← scan (replicate 11 []) (words line)
      done (true, record s { mro_buf = record empty_mro { head = head }; overlapp = 0; mod3 = 0 })
    in let value : Exec (Bool × MroState) = do
      values ← scan s.mro_buf.values (words line)
      done (true, push_values s values)
      in if is_object line
        then object
        else if is_value line
        then value
        else if is_end line
        then done (false, s)
        else done (true, s)

unfoldable pub mro_loop : List Text → MroState → Exec MroState
unfolding mro_line
mro_loop [] s = done s
mro_loop (line ∷ lines) s = do
  (go_on, t) ← mro_line line s
  let rest = mro_loop lines t
  if go_on then rest else done t
