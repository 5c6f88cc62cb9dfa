-- ===== src/Ini.antt =====
-- wzq_project/src/component/readIni.h and readIni.cpp: settings by section and name. A text is the
-- list of its bytes before the 0, and a file the list of its bytes, which fgets cuts into lines. A
-- section, a name or a value that does not fit its buffer with the 0 behind it is a fault. The map is
-- the list of its entries: its order shows in display only, which is left out.
pub mod Lines
pub mod Files
pub mod Reads
use cpp_study.Base.{
  ℕ, zero, suc, ◌+◌, ◌≡◌, List, [], ◌∷◌, ◌++◌, Bool, true, false, ◌&&◌, Option, none, some, ◌==◌,
  if◌then◌else◌, get_or, drop, ◌-◌, ◌||◌, ltb, leb, length,
}
use cpp_study.Base.Int.{ℤ}
use cpp_study.Base.Exec.{Exec, done, fault, ◌>>=◌}
use cpp_study.Shm.{ResultCode, rs_success, rs_common}

abbrev pub Text : Type 0
Text = List ℕ

-- TSectionName
pub record SectionName : Type 0 where
  pub section : Text
  pub name : Text

abbrev pub same_text : Text → Text → Bool
same_text [] [] = true
same_text [] (y ∷ t) = false
same_text (x ∷ s) [] = false
same_text (x ∷ s) (y ∷ t) = let rest = same_text s t in if x == y then rest else false

-- Neither of the two is before the other in the order of the map.
abbrev pub same_key : SectionName → SectionName → Bool
same_key a b = same_text a.section b.section && same_text a.name b.name

abbrev pub MapSection : Type 0
MapSection = List (SectionName × Text)

unfoldable pub map_find : SectionName → MapSection → Option Text
map_find k [] = none
map_find k ((j, v) ∷ m) = let rest = map_find k m in if same_key j k then some v else rest

-- `mapData[k] = v`
unfoldable pub map_put : SectionName → Text → MapSection → MapSection
map_put k v [] = (k, v) ∷ []
map_put k v ((j, w) ∷ m) =
    let rest = map_put k v m in if same_key j k then (j, v) ∷ m else (j, w) ∷ rest

abbrev pub prepend : ℕ → Option (Text × Text) → Option (Text × Text)
prepend x none = none
prepend x (some (a, b)) = some (x ∷ a, b)

-- The bytes before and behind the first `c`, as strstr finds it.
unfoldable pub split_at : ℕ → Text → Option (Text × Text)
split_at c [] = none
split_at c (x ∷ s) = let rest = prepend x (split_at c s) in if x == c then some ([], s) else rest

-- What a line asks for.
pub data Line : Type 0 where
  comment : Line
  heading : Text → Line
  setting : Text → Text → Line
  bad : Line

-- The first byte, which is 0 for an empty text.
abbrev pub first : Text → ℕ
first s = get_or s 0 0

pub as_heading : Option (Text × Text) → Line
as_heading none = bad
as_heading (some (a, b)) = heading (drop 1 a)

pub as_setting : Option (Text × Text) → Line
as_setting none = bad
as_setting (some ([], b)) = bad
as_setting (some (x ∷ a, b)) = setting (x ∷ a) b

-- The tests of the loop, in the section that is open.
unfoldable pub classify : Text → Text → Line
unfolding as_heading as_setting split_at
classify section buff =
    if first buff == b'0' && first buff == b'#'
    then comment
    else if first buff == b'['
    then as_heading (split_at b']' buff)
    else if first section == b'0'
    then bad
    else as_setting (split_at b'=' buff)

-- The text that a buffer with these bytes holds.
unfoldable pub c_text : Text → Text
c_text [] = []
c_text (x ∷ s) = let rest = c_text s in if x == 0 then [] else x ∷ rest

-- The bytes that a call of fgets with `sizeof(sBuff) - 1` stores at most.
abbrev pub line_size : ℕ
line_size = 1022

abbrev pub before_first : ℕ → List Text → List Text
before_first x [] = (x ∷ []) ∷ []
before_first x (l ∷ lines) = (x ∷ l) ∷ lines

-- What the calls of fgets store, where the first line has `room` bytes left.
unfoldable pub lines_from : ℕ → Text → List Text
lines_from room [] = []
lines_from room (x ∷ s) =
    let ended = x == 10 || leb room 1 in
    let rest = lines_from (if ended then line_size else room - 1) s in
    if ended then (x ∷ []) ∷ rest else before_first x rest

-- A text fits a buffer of BUFFER_TMP_SIZE bytes, with the 0 behind it.
abbrev pub fits : Text → Bool
fits s = ltb (length s) 128

unfoldable pub read_lines : List Text → Text → MapSection → Exec (ResultCode × MapSection)
unfolding map_put c_text
read_lines [] section m = done (rs_success, m)
read_lines (buff ∷ lines) section m = elim (classify section (c_text buff)) [
  | comment ↦ read_lines lines section m
  | heading s ↦ let rest = read_lines lines s m in if fits s then rest else fault
  | setting n v ↦
      let rest = read_lines lines section (map_put (record { section = section; name = n }) v m) in
      if fits n && fits v then rest else fault
  | bad ↦ done (rs_common, m)
]

pub record ReadIni : Type 0 where
  pub init_flag : Bool
  pub map_data : MapSection

-- The bytes of the file, or none if fopen fails.
unfoldable pub read_config_file : Option Text → Exec (ResultCode × MapSection)
unfolding lines_from
read_config_file none = done (rs_common, [])
read_config_file (some file) = read_lines (lines_from line_size file) [] []

unfoldable pub init : ReadIni → Option Text → Exec (ResultCode × ReadIni)
unfolding read_config_file
init r file = do
  (code, m) ← read_config_file file
  done (elim code [
    | rs_success ↦ (rs_success, record { init_flag = true; map_data = m })
    | other ↦ (other, record r { map_data = m })
  ])

abbrev pub or_empty : Option Text → Text
or_empty none = []
or_empty (some v) = v

-- `mapData[k]`, which makes an empty entry where there is none.
unfoldable pub map_index : SectionName → MapSection → Text × MapSection
unfolding map_find map_put
map_index k m = elim (map_find k m) [ none ↦ ([], map_put k [] m) | some v ↦ (v, m) ]

-- The code, the value where the code is RS_SUCCESS, and the object.
unfoldable pub read_string :
    ReadIni → Option Text → SectionName → Exec (ResultCode × Text × ReadIni)
unfolding init map_index
read_string r file k =
    let read : Exec (ResultCode × ReadIni) = init r file in
    do
      (code, s) ← if r.init_flag then done (rs_success, r) else read
      done (elim code [
        | rs_success ↦
            let (v, m) = map_index k s.map_data in (rs_success, v, record s { map_data = m })
        | other ↦ (other, [], s)
      ])

-- readInt and readDouble: atoi and atof are arguments.
unfoldable pub read_int :
    (Text → ℤ) → ReadIni → Option Text → SectionName → Exec (ResultCode × ℤ × ReadIni)
unfolding read_string
read_int atoi r file k = do (code, v, s) ← read_string r file k; done (code, atoi v, s)

unfoldable pub read_double {ℓ} :
    {D : Type ℓ}
    → (Text → D)
    → ReadIni
    → Option Text
    → SectionName
    → Exec (ResultCode × D × ReadIni)
unfolding read_string
read_double atof r file k = do (code, v, s) ← read_string r file k; done (code, atof v, s)
