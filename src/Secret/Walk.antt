-- ===== src/Secret/Walk.antt =====
-- secret.cpp: the files that DealDirent comes to.
use cpp_study.Base.{
  ℕ, zero, suc, ◌<◌, ◌≡◌, refl, List, [], ◌∷◌, Bool, true, false, not, ◌&&◌, Option, none, some,
  arith, if◌then◌else◌, length,
}
use cpp_study.Ini.{Text}
use cpp_study.Secret.{
  secret_loop, Kind, regular, directory, other, is_regular, World, Output, is_dots, full_name,
  passed, dealt, visit, all_dealt, deal_loop, deal_dirent,
}
use cpp_study.Secret.Cipher.{opens, do_secret-opens}

abbrev pub is_regular_file : Option Kind → Bool
is_regular_file none = false
is_regular_file (some kind) = is_regular kind

module _ (w : World) (key : ℕ) (path : Text) where
  -- An entry that is a regular file.
  abbrev pub is_file : Text → Bool
  is_file name = not (is_dots name) && is_regular_file (w.stat (full_name path name))

  -- What is to be written for an entry.
  abbrev pub output_of : Text → Output
  output_of name = record {
    folder = path;
    file = name;
    bytes = secret_loop key (w.answers path name).input 0;
  }

  -- The outputs for the regular files among the entries, in their order.
  abbrev pub outputs_of : List Text → List Output
  outputs_of [] = []
  outputs_of (name ∷ names) =
      let rest = outputs_of names in if is_file name then output_of name ∷ rest else rest

  -- DoSecret's directory and files open for each regular file.
  abbrev pub AllOpen : List Text → Type 0
  AllOpen [] = Unit
  AllOpen (name ∷ names) =
      (is_file name ≡ true → opens (w.answers path name) ≡ true) × AllOpen names

  visit-kind :
      (name : Text) (kind : Option Kind) (dots : Bool)
      → w.stat (full_name path name) ≡ kind
      → is_dots name ≡ dots
      → (not dots && is_regular_file kind ≡ true → opens (w.answers path name) ≡ true)
      → visit w key path name
        ≡ (if not dots && is_regular_file kind then dealt (output_of name) else passed)
  unfolding visit
  visit-kind name none false e d o = rw (d, e) refl
  visit-kind name (some regular) false e d o =
      rw (d, e, do_secret-opens key (w.answers path name) (o refl)) refl
  visit-kind name (some directory) false e d o = rw (d, e) refl
  visit-kind name (some other) false e d o = rw (d, e) refl
  visit-kind name kind true e d o = rw d refl

  deal_visited :
      (fuel : ℕ) (name : Text) (names : List Text) (file : Bool)
      → visit w key path name ≡ (if file then dealt (output_of name) else passed)
      → deal_loop w key fuel path names [] ≡ (all_dealt, outputs_of names)
      → deal_loop w key (suc fuel) path (name ∷ names) []
        ≡ (all_dealt, if file then output_of name ∷ outputs_of names else outputs_of names)
  unfolding deal_loop
  deal_visited fuel name names true v rest = rw (deal_loop, v, rest) refl
  deal_visited fuel name names false v rest = rw (deal_loop, v, rest) refl

  deal_loop-outputs :
      (fuel : ℕ) (names : List Text)
      → AllOpen names
      → length names < fuel
      → deal_loop w key fuel path names [] ≡ (all_dealt, outputs_of names)
  unfolding deal_loop
  deal_loop-outputs zero names o h = absurd (omega arith)
  deal_loop-outputs (suc fuel) [] o h = refl
  deal_loop-outputs (suc fuel) (name ∷ names) (open_first, o) h =
      deal_visited fuel name names (is_file name)
        (visit-kind name (w.stat (full_name path name)) (is_dots name) refl refl open_first)
        (deal_loop-outputs fuel names o (omega arith))

  -- DealDirent on a directory that opens, where DoSecret's directory and files open for each of its
  -- regular files, on more fuel than it has entries: it returns 0, and it has written one file for
  -- each regular file of that directory, in the order of readdir, with the name of that file and
  -- what DoSecret makes of its bytes. It comes to no other directory, whatever directories there
  -- are among the entries.
  pub deal_dirent-outputs :
      (fuel : ℕ) (names : List Text)
      → w.entries path ≡ some names
      → AllOpen names
      → length names < fuel
      → deal_dirent w key fuel path ≡ (all_dealt, outputs_of names)
  unfolding deal_dirent
  deal_dirent-outputs fuel names e o h = rw (deal_dirent, e) (deal_loop-outputs fuel names o h)
