-- ===== src/Measure/Deals.antt =====
-- dealMROandMRE.cpp: the CSV files of a directory of MRO reports.
use mathlib.Core.List.{append-nil, append_assoc}
use mathlib.Core.Path.{subst}
use cpp_study.Base.{
  ◌≡◌, refl, sym, ap, ◌∙◌, List, [], ◌∷◌, ◌++◌, Bool, true, false, ◌||◌, arith, some,
}
use cpp_study.Base.Exec.{Exec, done, Ends, ends, Ends-bind, Ends-weaken}
use cpp_study.Base.Chars.{codes}
use cpp_study.Ini.{Text, same_text}
use cpp_study.Measure.{MreFile, MroFile, MroState, pieces}
use cpp_study.Measure.Rows.{
  ObjectPart, all_rows, file_lines, AllObjects, AllPassed, IsStop, mro_loop-passed, mro_loop-rows,
}
use cpp_study.Measure.Csv.{Files, mro, put_file, mro_csv, csv_path, create_csv_file}
use cpp_study.Measure.Main.{
  World, judge_file_type, path_of, delete_something, deal_mro, dealing_file, name_loop,
}

-- A report of the directory: its name, its content as it is found and as sed leaves it, the path of
-- its CSV file, the lines before its first object, and the objects that stand in it.
pub record Report : Type 0 where
  pub name : Text
  pub raw : Text
  pub content : Text
  pub csv : Text
  pub preamble : List Text
  pub objects : List ObjectPart
  pub stop : Text
  pub rest : List Text

-- The names that readdir gives: those of the reports, in order, and "." and "..".
pub data Listing : List Text → List Report → Type 0 where
  listed_none : Listing [] []
  listed_dots :
      {n : Text} {ns : List Text} {rs : List Report}
      → same_text n (codes "..") || same_text n (codes ".") ≡ true
      → Listing ns rs
      → Listing (n ∷ ns) rs
  listed_one :
      {r : Report} {ns : List Text} {rs : List Report}
      → Listing ns rs
      → Listing (r.name ∷ ns) (r ∷ rs)

-- Neither the report nor its CSV file stands at the path.
abbrev pub Away : Text → Report → Type 0
Away other r = (same_text (path_of r.name) other ≡ false) × (same_text r.csv other ≡ false)

abbrev pub AllAway : Text → List Report → Type 0
AllAway other [] = Unit
AllAway other (r ∷ rs) = Away other r × AllAway other rs

abbrev pub Apart : Report → List Report → Type 0
Apart r [] = Unit
Apart r (q ∷ qs) = (Away (path_of q.name) r × Away r.csv q) × Apart r qs

-- No two of the paths are the same.
abbrev pub AllApart : List Report → Type 0
AllApart [] = Unit
AllApart (r ∷ rs) = Apart r rs × AllApart rs

abbrev pub Present : Files → List Report → Type 0
Present files [] = Unit
Present files (r ∷ rs) = (files (path_of r.name) ≡ some r.raw) × Present files rs

abbrev pub report_rows : List Report → List MroFile
report_rows [] = []
report_rows (r ∷ rs) = all_rows r.objects ++ report_rows rs

-- The CSV file of each report holds the rows `before` and those of the reports up to it.
abbrev pub Written : List MroFile → List Report → Files → Type 0
Written before [] files = Unit
Written before (r ∷ rs) files =
    (files r.csv ≡ some (mro_csv (before ++ all_rows r.objects)))
    × Written (before ++ all_rows r.objects) rs files

module _ (system : Text → Files → Files) (may_write : Text → Bool) where
  -- The four calls of sed turn the content of the report into the other one, and touch no other
  -- file.
  pub record IsReport (r : Report) : Type 0 where
    pub named : same_text r.name (codes "..") || same_text r.name (codes ".") ≡ false
    pub typed : judge_file_type r.name ≡ done mro
    pub saved : csv_path (path_of r.name) ≡ done r.csv
    pub writable : may_write r.csv ≡ true
    pub read_as : pieces r.content ≡ r.preamble ++ file_lines r.objects (r.stop ∷ r.rest)
    pub leads : AllPassed r.preamble
    pub parts : AllObjects r.objects
    pub stops : IsStop r.stop
    pub rewrites :
        (files : Files)
        → files (path_of r.name) ≡ some r.raw
        → delete_something system (path_of r.name) files (path_of r.name) ≡ some r.content
    pub touches :
        (files : Files) (other : Text)
        → same_text (path_of r.name) other ≡ false
        → delete_something system (path_of r.name) files other ≡ files other

  abbrev pub AllReports : List Report → Type 0
  AllReports [] = Unit
  AllReports (r ∷ rs) = IsReport r × AllReports rs

same_text_refl : (t : Text) → same_text t t ≡ true
same_text_refl [] = refl
same_text_refl (c ∷ t) = ground (arith, same_text_refl t)

put_file-same : (files : Files) (p content : Text) → put_file files p content p ≡ some content
unfolding put_file
put_file-same files p content = rw (put_file, same_text_refl p) refl

put_file-other :
    (files : Files) (p content other : Text)
    → same_text p other ≡ false
    → put_file files p content other ≡ files other
unfolding put_file
put_file-other files p content other n = rw (put_file, n) refl

module _ (system : Text → Files → Files) (may_write : Text → Bool) (mre_memory : MreFile)
    (mro_memory : MroFile) where
  abbrev deal : Text → World → Exec World
  deal path w = dealing_file system may_write mre_memory mro_memory path mro w

  record Dealt (r : Report) (w t : World) : Type 0 where
    vec : t.vec_mro ≡ w.vec_mro ++ all_rows r.objects
    written : t.files r.csv ≡ some (mro_csv (w.vec_mro ++ all_rows r.objects))
    others : (other : Text) → Away other r → t.files other ≡ w.files other

  deal_mro-Dealt :
      (r : Report) (w : World)
      → IsReport system may_write r
      → Ends
          (λ t. Dealt r w t)
          (deal_mro system may_write mre_memory mro_memory
            (path_of r.name)
            r.content
            (record w { files = delete_something system (path_of r.name) w.files }))
  unfolding deal_mro create_csv_file
  deal_mro-Dealt r w h =
      let files = delete_something system (path_of r.name) w.files in
      let first : MroState = record {
        mro_buf = mro_memory;
        overlapp = w.overlapp_coverage;
        mod3 = w.mod3_ncells;
        overshoot = w.overshoot_aoa;
        vec_mro = w.vec_mro;
      } in
      rw
        (
          deal_mro,
          h.read_as,
          mro_loop-passed first r.preamble (file_lines r.objects (r.stop ∷ r.rest)) h.leads,
        )
        (Ends-bind (mro_loop-rows r.objects r.stop r.rest first h.parts h.stops) λ s e.
          rw (create_csv_file, h.saved, h.writable, e)
            (ends (record {
              vec = refl;
              written = put_file-same files r.csv _;
              others =
                  λ other (p, q). put_file-other files r.csv _ other q ∙ h.touches w.files other p;
            })))

  dealing_file-Dealt :
      (r : Report) (w : World)
      → IsReport system may_write r
      → w.files (path_of r.name) ≡ some r.raw
      → Ends (λ t. Dealt r w t) (deal (path_of r.name) w)
  unfolding dealing_file
  dealing_file-Dealt r w h e = rw (dealing_file, h.rewrites w.files e) (deal_mro-Dealt r w h)

  abbrev Loop : List Text → World → Exec World
  Loop ns w = name_loop system may_write mre_memory mro_memory ns w

  record AllDealt (rs : List Report) (w t : World) : Type 0 where
    vec : t.vec_mro ≡ w.vec_mro ++ report_rows rs
    written : Written w.vec_mro rs t.files
    others : (other : Text) → AllAway other rs → t.files other ≡ w.files other

  still-Present :
      (r : Report) (rs : List Report) (w t : World)
      → ((other : Text) → Away other r → t.files other ≡ w.files other)
      → Apart r rs
      → Present w.files rs
      → Present t.files rs
  still-Present r [] w t o a p = tt
  still-Present r (q ∷ qs) w t o ((n, c), a) (e, p) =
      (o (path_of q.name) n ∙ e, still-Present r qs w t o a p)

  csv_away : (r : Report) (rs : List Report) → Apart r rs → AllAway r.csv rs
  csv_away r [] a = tt
  csv_away r (q ∷ qs) ((n, c), a) = (c, csv_away r qs a)

  both-Dealt :
      (r : Report) (rs : List Report) (w u t : World)
      → Apart r rs
      → Dealt r w u
      → AllDealt rs u t
      → AllDealt (r ∷ rs) w t
  both-Dealt r rs w u t a d ds = record {
    vec =
        ds.vec
        ∙ ap (λ x. x ++ report_rows rs) d.vec
        ∙ append_assoc w.vec_mro (all_rows r.objects) (report_rows rs);
    written = (
      ds.others r.csv (csv_away r rs a) ∙ d.written,
      subst (λ x. Written x rs t.files) d.vec ds.written,
    );
    others = λ other (n, m). ds.others other m ∙ d.others other n;
  }

  name_loop-AllDealt :
      (ns : List Text) (rs : List Report) (w : World)
      → Listing ns rs
      → AllReports system may_write rs
      → AllApart rs
      → Present w.files rs
      → Ends (λ t. AllDealt rs w t) (Loop ns w)
  unfolding name_loop
  name_loop-AllDealt _ _ w listed_none h a p =
      ends (record { vec = sym (append-nil w.vec_mro); written = tt; others = λ other n. refl })
  name_loop-AllDealt (n ∷ ns) rs w (listed_dots d l) h a p =
      rw (name_loop, d) (name_loop-AllDealt ns rs w l h a p)
  name_loop-AllDealt (_ ∷ ns) (r ∷ rs) w (listed_one l) (h, hs) (a, as') (e, p) =
      rw (name_loop, h.named, h.typed)
        (Ends-bind (dealing_file-Dealt r w h e) λ u d.
          Ends-weaken (λ t ds. both-Dealt r rs w u t a d ds)
            (name_loop-AllDealt ns rs u l hs as' (still-Present r rs w u d.others a p)))

  -- The loop over a directory that lists "." and ".." at any place and else only MRO reports, whose
  -- paths and CSV paths are all different and whose CSV files can be opened. sed makes of each report
  -- one that has no "<v" and no "</measurement" line before its first object and whose objects stand before a line
  -- "</measurement", with words that fit the buffers, and touches no other file. The loop ends, and each
  -- report has its CSV file. That file holds the head, the rows that vecMRO had before, and then the
  -- rows of all the reports up to this one, those of the earlier reports included.
  pub name_loop-Written :
      (ns : List Text) (rs : List Report) (w : World)
      → Listing ns rs
      → AllReports system may_write rs
      → AllApart rs
      → Present w.files rs
      → Ends
          (λ t. Written w.vec_mro rs t.files)
          (name_loop system may_write mre_memory mro_memory ns w)
  name_loop-Written ns rs w l h a p =
      Ends-weaken (λ t d. d.written) (name_loop-AllDealt ns rs w l h a p)
