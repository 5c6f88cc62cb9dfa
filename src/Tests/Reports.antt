-- ===== src/Tests/Reports.antt =====
-- Two MRO reports of one object each, as sed leaves them.
use cpp_study.Base.{
  [], ◌∷◌, ◌++◌, ◌≡◌, refl, Bool, true, false, some, if◌then◌else◌, List, ltb, ltb→lt, length,
}
use cpp_study.Base.Exec.{Ends}
use cpp_study.Base.Chars.{codes, has_key}
use cpp_study.Ini.{Text}
use cpp_study.Measure.{use_size, MroState, empty_mre, empty_mro, pieces, words, mro_loop}
use cpp_study.Measure.Csv.{Files, csv_path}
use cpp_study.Measure.Fields.{AllShort}
use cpp_study.Measure.Rows.{
  ObjectPart, all_rows, file_lines, AllObjects, AllPassed, IsInside, IsStop, mro_loop-rows,
}
use cpp_study.Measure.Main.{World, judge_file_type, delete_something, name_loop}
use cpp_study.Measure.Deals.{
  Report, IsReport, Written, Listing, listed_none, listed_dots, listed_one, name_loop-Written,
}

abbrev first_line : Text
first_line = codes "<?xml version 1\n"

abbrev heading_line : Text
heading_line = codes "<object id 7 a 1\n"

abbrev value_line : Text
value_line = codes "<v 90 1 2 3 4 5 6 38 9 88\n"

abbrev end_line : Text
end_line = codes "</measurement\n"

abbrev part : ObjectPart
part = record { heading = heading_line; lines = value_line ∷ value_line ∷ [] }

abbrev all_short : List Text → Bool
all_short [] = true
all_short (t ∷ ts) = let rest = all_short ts in if ltb (length t) use_size then rest else false

all_short-AllShort : (ts : List Text) → all_short ts ≡ true → AllShort ts
all_short-AllShort [] e = tt
all_short-AllShort (t ∷ ts) e = by_size (ltb (length t) use_size) refl e (all_short-AllShort ts)
  where
    by_size :
        (b : Bool)
        → ltb (length t) use_size ≡ b
        → (if b then all_short ts else false) ≡ true
        → (all_short ts ≡ true → AllShort ts)
        → AllShort (t ∷ ts)
    by_size true h e next = (ltb→lt (length t) use_size h, next e)
    by_size false h e next = absurd (cc e)

heading-AllShort : AllShort (words heading_line)
unfolding words
heading-AllShort = all_short-AllShort (words heading_line) refl

value-AllShort : AllShort (words value_line)
unfolding words
value-AllShort = all_short-AllShort (words value_line) refl

part-AllObjects : AllObjects (part ∷ [])
unfolding has_key
part-AllObjects =
    let inside : IsInside value_line = (refl, refl, value-AllShort) in
    ((refl, heading-AllShort, (inside, (inside, tt))), tt)

end_line-IsStop : IsStop end_line
unfolding has_key
end_line-IsStop = (refl, refl, refl)

first_line-AllPassed : AllPassed (first_line ∷ [])
unfolding has_key
first_line-AllPassed = ((refl, refl, refl), tt)

abbrev start : MroState
start = record { mro_buf = empty_mro; overlapp = 0; mod3 = 0; overshoot = 0; vec_mro = [] }

mro_loop-rows_example :
    Ends
      (λ t. t.vec_mro ≡ [] ++ all_rows (part ∷ []))
      (mro_loop (file_lines (part ∷ []) (end_line ∷ [])) start)
mro_loop-rows_example = mro_loop-rows (part ∷ []) end_line [] start part-AllObjects end_line-IsStop

abbrev report_text : Text
report_text = first_line ++ (heading_line ++ (value_line ++ (value_line ++ end_line)))

abbrev report : Text → Text → Report
report name csv = record {
  name = name;
  raw = report_text;
  content = report_text;
  csv = csv;
  preamble = first_line ∷ [];
  objects = part ∷ [];
  stop = end_line;
  rest = [];
}

abbrev reports : List Report
reports =
    report (codes "TD_MRO_1.xml") (codes "/home/saveFile/TD_MRO_1.csv")
    ∷ report (codes "TD_MRO_2.xml") (codes "/home/saveFile/TD_MRO_2.csv")
    ∷ []

-- The reports are clean, so that sed changes nothing.
abbrev system : Text → Files → Files
system command files = files

abbrev may_write : Text → Bool
may_write path = true

first-IsReport :
    IsReport system may_write (report (codes "TD_MRO_1.xml") (codes "/home/saveFile/TD_MRO_1.csv"))
unfolding judge_file_type csv_path pieces delete_something
first-IsReport = record {
  named = refl;
  typed = refl;
  saved = refl;
  writable = refl;
  read_as = refl;
  leads = first_line-AllPassed;
  parts = part-AllObjects;
  stops = end_line-IsStop;
  rewrites = λ files e. e;
  touches = λ files other n. refl;
}

second-IsReport :
    IsReport system may_write (report (codes "TD_MRO_2.xml") (codes "/home/saveFile/TD_MRO_2.csv"))
unfolding judge_file_type csv_path pieces delete_something
second-IsReport = record {
  named = refl;
  typed = refl;
  saved = refl;
  writable = refl;
  read_as = refl;
  leads = first_line-AllPassed;
  parts = part-AllObjects;
  stops = end_line-IsStop;
  rewrites = λ files e. e;
  touches = λ files other n. refl;
}

abbrev world : World
world = record {
  files = λ path. some report_text;
  overlapp_coverage = 0;
  mod3_ncells = 0;
  overshoot_aoa = 0;
  vec_mre = [];
  vec_mro = [];
}

-- What readdir gives for the directory.
abbrev listing : List Text
listing = codes "." ∷ codes "TD_MRO_1.xml" ∷ codes ".." ∷ codes "TD_MRO_2.xml" ∷ []

listing-Listing : Listing listing reports
listing-Listing = listed_dots refl (listed_one (listed_dots refl (listed_one listed_none)))

name_loop-Written_example :
    Ends
      (λ t. Written [] reports t.files)
      (name_loop system may_write empty_mre empty_mro listing world)
name_loop-Written_example =
    name_loop-Written system may_write empty_mre empty_mro listing reports world listing-Listing
      (first-IsReport, (second-IsReport, tt)) ((((refl, refl), (refl, refl)), tt), (tt, tt))
      (refl, (refl, tt))
