-- ===== src/Secret.antt =====
-- secret/secret.cpp: a program that writes the files of a directory, exclusive-or a key, to another
-- directory.
--
-- `atoi` and the answers of the file system are arguments, and so is SEC_KEY, which the file uses and
-- no file of the repository defines. Texts are lists of bytes without 0, of the lengths that the
-- buffers hold.
pub mod Xor
pub mod Args
pub mod Cipher
pub mod Walk
use Prim.Native.Nat.{bit_xor}
use cpp_study.Base.{
  ℕ, zero, suc, ◌%◌, ◌-◌, List, [], ◌∷◌, ◌++◌, Bool, true, false, not, ◌&&◌, ◌||◌, Option, none,
  some, ltb, if◌then◌else◌, length, take,
}
use cpp_study.Base.Int.{ℤ, pos, negsuc, leb_ℤ}
use cpp_study.Ini.{Text, same_text}

-- g_sPath and g_iKey
pub record Options : Type 0 where
  pub path : Text
  pub key : ℤ

abbrev pub first_options : Options
first_options = record { path = []; key = negsuc 0 }

-- "-k" and "-p"
abbrev pub key_flag : Text
key_flag = 45 ∷ 107 ∷ []

abbrev pub path_flag : Text
path_flag = 45 ∷ 112 ∷ []

abbrev pub max_size : ℕ
max_size = 1024

abbrev pub is_empty : Text → Bool
is_empty [] = true
is_empty (x ∷ t) = false

-- What strncpy leaves of a text in the buffer g_sPath.
abbrev pub copied : Text → Text
copied t = take (max_size - 1) t

module _ (atoi : Text → ℤ) where
  -- The loop over the arguments; `none` stands for -1.
  unfoldable pub paras_loop : List Text → Options → Option Options
  paras_loop [] o = some o
  paras_loop (arg ∷ []) o = none
  paras_loop (arg ∷ value ∷ rest) o =
      let with_key = paras_loop rest (record o { key = atoi value }) in
      let with_path = paras_loop rest (record o { path = copied value }) in
      if same_text arg key_flag
      then (if leb_ℤ (atoi value) (pos 0) then none else with_key)
      else if same_text arg path_flag
      then (if is_empty (copied value) then none else with_path)
      else none

  abbrev pub complete : Options → Option Options
  complete o = if leb_ℤ o.key (pos 0) || is_empty o.path then none else some o

  -- ParasCmd, on the arguments behind the name of the program.
  unfoldable pub paras_cmd : List Text → Option Options
  unfolding paras_loop
  paras_cmd args =
      if ltb (suc (length args)) 3
      then none
      else elim (paras_loop args first_options) [ none ↦ none | some o ↦ complete o ]

-- `cTemp ^= SEC_KEY` on a byte
abbrev pub crypt : ℕ → ℕ → ℕ
crypt key c = bit_xor c (key % 256)

-- The loop of DoSecret over what is left of the file, and what it puts out. Where no byte is left,
-- `get` sets eof and leaves cTemp as it is.
unfoldable pub secret_loop : ℕ → List ℕ → ℕ → List ℕ
secret_loop key [] c = crypt key c ∷ []
secret_loop key (b ∷ input) c = crypt key b ∷ secret_loop key input (crypt key b)

-- What the system answers to DoSecret: whether the new directory is there, or can be made, whether
-- both files open, and the bytes of the file.
pub record Answers : Type 0 where
  pub there : Bool
  pub made : Bool
  pub opened : Bool
  pub input : List ℕ

-- DoSecret: the bytes of the new file, or `none` for -1.
unfoldable pub do_secret : ℕ → Answers → Option (List ℕ)
unfolding secret_loop
do_secret key a =
    if not a.there && not a.made
    then none
    else if not a.opened
    then none
    else some (secret_loop key a.input 0)

pub data Kind : Type 0 where
  regular : Kind
  directory : Kind
  other : Kind

abbrev pub is_regular : Kind → Bool
is_regular regular = true
is_regular directory = false
is_regular other = false

abbrev pub is_directory : Kind → Bool
is_directory regular = false
is_directory directory = true
is_directory other = false

-- What opendir and readdir, stat and DoSecret's calls answer.
pub record World : Type 0 where
  pub entries : Text → Option (List Text)
  pub stat : Text → Option Kind
  pub answers : Text → Text → Answers

-- A file that was written: its directory, its name and its bytes.
pub record Output : Type 0 where
  pub folder : Text
  pub file : Text
  pub bytes : List ℕ

-- "." and ".."
abbrev pub is_dots : Text → Bool
is_dots name = same_text name (46 ∷ 46 ∷ []) || same_text name (46 ∷ [])

abbrev pub full_name : Text → Text → Text
full_name path name = path ++ 47 ∷ name

-- What the loop does with one entry: it goes on, with another directory to visit or another file
-- written, or it returns.
pub data Visit : Type 0 where
  passed : Visit
  later : Text → Visit
  dealt : Output → Visit
  failed : Visit

unfoldable pub visit : World → ℕ → Text → Text → Visit
visit w key path name =
    let new_file : Visit = elim (do_secret key (w.answers path name)) [
      | none ↦ failed
      | some bytes ↦ dealt (record { folder = path; file = name; bytes = bytes })
    ] in
    if is_dots name then passed else elim (w.stat (full_name path name)) [
      | none ↦ passed
      | some kind ↦
          if not (is_regular kind)
          then passed
          else if is_directory kind
          then later (full_name path name)
          else new_file
    ]

-- How DealDirent ends: with 0, with a code other than 0, or not within the fuel.
pub data Ending : Type 0 where
  all_dealt : Ending
  stopped : Ending
  out_of_fuel : Ending

abbrev pub and_before : List Output → Ending × List Output → Ending × List Output
and_before new (ending, outputs) = (ending, new ++ outputs)

-- The loop of DealDirent: the directory that it reads, the entries that readdir still has, and the
-- directories to visit.
unfoldable pub deal_loop : World → ℕ → ℕ → Text → List Text → List Text → Ending × List Output
unfolding visit
deal_loop w key zero path names subs = (out_of_fuel, [])
deal_loop w key (suc fuel) path [] [] = (all_dealt, [])
deal_loop w key (suc fuel) path [] (sub ∷ subs) = elim (w.entries sub) [
  | none ↦ (stopped, [])
  | some names ↦ deal_loop w key fuel sub names subs
]
deal_loop w key (suc fuel) path (name ∷ names) subs = elim (visit w key path name) [
  | passed ↦ deal_loop w key fuel path names subs
  | later sub ↦ deal_loop w key fuel path names (subs ++ sub ∷ [])
  | dealt output ↦ and_before (output ∷ []) (deal_loop w key fuel path names subs)
  | failed ↦ (stopped, [])
]

unfoldable pub deal_dirent : World → ℕ → ℕ → Text → Ending × List Output
unfolding deal_loop
deal_dirent w key fuel path = elim (w.entries path) [
  | none ↦ (stopped, [])
  | some names ↦ deal_loop w key fuel path names []
]

-- The whole program: what it wrote, and whether it returned 0.
unfoldable pub secret_main : (Text → ℤ) → World → ℕ → ℕ → List Text → Ending × List Output
unfolding paras_cmd deal_dirent
secret_main atoi w key fuel args = elim (paras_cmd atoi args) [
  | none ↦ (stopped, [])
  | some o ↦ deal_dirent w key fuel o.path
]
