-- ===== src/Measure/Main.antt =====
-- dealMROandMRE.cpp: the files of a directory, one after another.
--
-- What a command does to the files is an argument, as are the names that readdir returns, the paths
-- that may be written, and what the memory of the two structs holds before they are set.
use cpp_study.Base.{
  ℕ, List, [], ◌∷◌, ◌++◌, Bool, false, ◌||◌, Option, none, some, ◌==◌, ltb, length, if◌then◌else◌,
}
use cpp_study.Base.Exec.{Exec, done, fault, ◌>>=◌}
use cpp_study.Base.Chars.{codes}
use cpp_study.Ini.{Text, same_text}
use cpp_study.Measure.{MreFile, MroFile, max_size, pieces, mre_loop, mro_loop}
use cpp_study.Measure.Csv.{Files, FileType, mre, mro, unknown, mre_csv, mro_csv, create_csv_file}

-- The global variables, and the files.
pub record World : Type 0 where
  pub files : Files
  pub overlapp_coverage : ℕ
  pub mod3_ncells : ℕ
  pub overshoot_aoa : ℕ
  pub vec_mre : List MreFile
  pub vec_mro : List MroFile

abbrev pub file_path : Text
file_path = codes "/home/hu_file"

-- judgeFileType: what stands behind the first R.
abbrev pub type_of : Text → FileType
type_of [] = unknown
type_of (c ∷ t) = if c == b'E' then mre else if c == b'O' then mro else unknown

unfoldable pub judge_file_type : Text → Exec FileType
judge_file_type [] = fault
judge_file_type (c ∷ t) =
    let rest = judge_file_type t in if c == b'R' then done (type_of t) else rest

-- The path that the loop makes of a name.
abbrev pub path_of : Text → Text
path_of name = file_path ++ (codes "/" ++ name)

-- "cp " with the argument, whose last byte tells whether a slash is added.
abbrev pub ends_slash : Text → Bool
ends_slash [] = false
ends_slash (c ∷ []) = c == b'/'
ends_slash (c ∷ d ∷ t) = ends_slash (d ∷ t)

abbrev pub copy_command : Text → Text
copy_command from =
    codes "cp " ++ (from ++ ((if ends_slash from then codes "* " else codes "/* ") ++ file_path))

module _ (system : Text → Files → Files) where
  -- deleteSomething
  unfoldable pub delete_something : Text → Files → Files
  delete_something path files = system (codes "sed -i 's#># #g' " ++ path) (
      system (codes "sed -i 's#=# #g' " ++ path) (
        system (codes "sed -i 's#^[[:space:]]*##g' " ++ path)
          (system (codes "sed -i 's#\"# #g' " ++ path) files)))

  -- The commands before the directory is read: mkdir, rm, cp and gunzip.
  unfoldable pub prepared : Text → Files → Files
  prepared from files = system (codes "gunzip " ++ (file_path ++ codes "/*.gz")) (
      system (copy_command from) (
        system (codes "rm -rf " ++ file_path) (
          system (codes "mkdir -p /home/saveFile")
            (system (codes "mkdir -p " ++ file_path) files))))

  unfoldable pub cleaned_up : Files → Files
  cleaned_up files = system (codes "rm -rf hu_file") (system (codes "cd /home") files)

module _ (system : Text → Files → Files) (may_write : Text → Bool) (mre_memory : MreFile)
    (mro_memory : MroFile) where
  -- The branches of dealingFile, once the file is open.
  unfoldable pub deal_mre : Text → Text → World → Exec World
  unfolding create_csv_file
  deal_mre path content w = do
    s ← mre_loop (pieces content) (record { mre_buf = mre_memory; vec_mre = w.vec_mre })
    files ← create_csv_file may_write path (mre_csv s.vec_mre) w.files
    done (record w { files = files; vec_mre = s.vec_mre })

  unfoldable pub deal_mro : Text → Text → World → Exec World
  unfolding create_csv_file
  deal_mro path content w = do
    s ← mro_loop (pieces content) (record {
      mro_buf = mro_memory;
      overlapp = w.overlapp_coverage;
      mod3 = w.mod3_ncells;
      overshoot = w.overshoot_aoa;
      vec_mro = w.vec_mro;
    })
    files ← create_csv_file may_write path (mro_csv s.vec_mro) w.files
    done (record w {
      files = files;
      overlapp_coverage = s.overlapp;
      mod3_ncells = s.mod3;
      overshoot_aoa = s.overshoot;
      vec_mro = s.vec_mro;
    })

  abbrev pub deal_content : FileType → Text → Option Text → World → Exec World
  deal_content mre path none w = done w
  deal_content mre path (some content) w = deal_mre path content w
  deal_content mro path none w = done w
  deal_content mro path (some content) w = deal_mro path content w
  deal_content unknown path content w = done w

  unfoldable pub dealing_file : Text → FileType → World → Exec World
  unfolding delete_something deal_mre deal_mro
  dealing_file path unknown w = done w
  dealing_file path mre w =
      let v : World = record w { files = delete_something system path w.files } in
      deal_content mre path (v.files path) v
  dealing_file path mro w =
      let v : World = record w { files = delete_something system path w.files } in
      deal_content mro path (v.files path) v

  -- The loop over the names that readdir returns.
  unfoldable pub name_loop : List Text → World → Exec World
  unfolding judge_file_type dealing_file
  name_loop [] w = done w
  name_loop (name ∷ names) w =
      let rest = name_loop names in
      let dealt : Exec World = do
        type ← judge_file_type name
        v ← dealing_file (path_of name) type w
        rest v
      in if same_text name (codes "..") || same_text name (codes ".") then rest w else dealt

  -- main: without one argument, or where opendir fails, it exits.
  unfoldable pub measure_main : (Files → Option (List Text)) → List Text → World → Exec World
  unfolding name_loop prepared cleaned_up
  measure_main listing [] w = done w
  measure_main listing (a ∷ b ∷ args) w = done w
  measure_main listing ([] ∷ []) w = fault
  measure_main listing ((c ∷ from) ∷ []) w =
      let v : World = record w { files = prepared system (c ∷ from) w.files } in
      let run : Exec World = elim (listing v.files) [
        | none ↦ done v
        | some names ↦ do
          u ← name_loop names v
          done (record u { files = cleaned_up system u.files })
      ] in
      if ltb (length (copy_command (c ∷ from))) max_size then run else fault
