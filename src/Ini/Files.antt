-- ===== src/Ini/Files.antt =====
-- Files written from headings and settings, and files with a comment.
use mathlib.Core.Path.{subst}
use mathlib.Core.List.{append-nil, append_assoc}
use cpp_study.Base.{
  ℕ, ◌<◌, ◌≡◌, refl, sym, ap, ◌∙◌, List, [], ◌∷◌, ◌++◌, true, false, ◌&&◌, some, arith, ◌==◌,
  length, length-append,
}
use cpp_study.Base.Exec.{done}
use cpp_study.Shm.{rs_success, rs_common}
use cpp_study.Ini.{
  Text, SectionName, MapSection, map_put, split_at, heading, setting, bad, first, as_heading,
  as_setting, classify, c_text, line_size, lines_from, fits, read_lines, read_config_file,
}
use cpp_study.Ini.Lines.{
  Lacks, IsPlain, split_at-append, split_at-none, Lacks-append, c_text-Lacks, lines_from-line,
}

pub data Item : Type 0 where
  section_item : Text → Item
  setting_item : Text → Text → Item

abbrev pub to_line : Item → Text
to_line (section_item s) = b'[' ∷ (s ++ (b']' ∷ 10 ∷ []))
to_line (setting_item n v) = n ++ (b'=' ∷ (v ++ (10 ∷ [])))

-- A section without `]` that does not begin with a `0`, and a setting whose name is not empty, has
-- no `=` and does not begin with `[`. Sections and names have fewer than 128 bytes, values fewer than
-- 127, and none has a line feed or a 0.
abbrev pub IsItem : Item → Type 0
IsItem (section_item s) = Lacks b']' s × ((first s == b'0') ≡ false) × IsPlain s × (length s < 128)
IsItem (setting_item [] v) = ⊥
IsItem (setting_item (x ∷ n) v) =
    Lacks b'=' (x ∷ n)
    × ((x == b'[') ≡ false)
    × IsPlain (x ∷ n)
    × (length (x ∷ n) < 128)
    × IsPlain v
    × (length v < 127)

abbrev pub AllItems : List Item → Type 0
AllItems [] = Unit
AllItems (i ∷ is) = IsItem i × AllItems is

-- The map that the items describe: each setting under the section before it, the last one winning,
-- with the line feed at the end of its value.
unfoldable pub settings : List Item → Text → MapSection → MapSection
unfolding map_put
settings [] section m = m
settings (section_item s ∷ is) section m = settings is s m
settings (setting_item n v ∷ is) section m =
    settings is section (map_put (record { section = section; name = n }) (v ++ (10 ∷ [])) m)

classify_section :
    (section s : Text) → Lacks b']' s → classify section (to_line (section_item s)) ≡ heading s
unfolding classify split_at as_heading
classify_section section s h = rw (split_at-append b']' s (10 ∷ []) h) refl

not_comment : (x : ℕ) → ((x == b'0') && (x == b'#')) ≡ false
not_comment x = ground arith

classify_setting :
    (section : Text) (x : ℕ) (n v : Text)
    → (first section == b'0') ≡ false
    → Lacks b'=' (x ∷ n)
    → (x == b'[') ≡ false
    → classify section (to_line (setting_item (x ∷ n) v)) ≡ setting (x ∷ n) (v ++ (10 ∷ []))
unfolding classify as_setting
classify_setting section x n v o h k =
    rw (not_comment x, k, o, split_at-append b'=' (x ∷ n) (v ++ (10 ∷ [])) h) refl

-- The bytes of a file of items.
abbrev pub to_text : List Item → Text
to_text [] = []
to_text (i ∷ is) = to_line i ++ to_text is

-- The line of an item, less its line feed.
body : Item → Text
body (section_item s) = b'[' ∷ (s ++ (b']' ∷ []))
body (setting_item n v) = n ++ (b'=' ∷ v)

body-to_line : (i : Item) → body i ++ (10 ∷ []) ≡ to_line i
unfolding body
body-to_line (section_item s) = ap (◌∷◌ b'[') (append_assoc s (b']' ∷ []) (10 ∷ []))
body-to_line (setting_item n v) = append_assoc n (b'=' ∷ v) (10 ∷ [])

body-IsPlain : (i : Item) → IsItem i → IsPlain (body i) × (length (body i) < line_size)
unfolding body
body-IsPlain (section_item s) (l, f, (a, b), k) = (
  (
    (refl, Lacks-append 10 s (b']' ∷ []) a (refl, tt)),
    (refl, Lacks-append 0 s (b']' ∷ []) b (refl, tt)),
  ),
  omega (arith, length-append s (b']' ∷ [])),
)
body-IsPlain (setting_item [] v) e = absurd e
body-IsPlain (setting_item (x ∷ n) v) (l, f, (a, b), k, (c, d), m) = (
  (Lacks-append 10 (x ∷ n) (b'=' ∷ v) a (refl, c), Lacks-append 0 (x ∷ n) (b'=' ∷ v) b (refl, d)),
  omega (arith, length-append n (b'=' ∷ v)),
)

lines_from-to_line :
    (i : Item) (t : Text)
    → IsItem i
    → lines_from line_size (to_line i ++ t) ≡ to_line i ∷ lines_from line_size t
lines_from-to_line i t h =
    let ((plain, _), short) = body-IsPlain i h in
    let parts : to_line i ++ t ≡ body i ++ (10 ∷ t) =
      ap (λ l. l ++ t) (sym (body-to_line i)) ∙ append_assoc (body i) (10 ∷ []) t in
    ap (lines_from line_size) parts
    ∙ lines_from-line line_size (body i) t plain short
    ∙ ap (λ l. l ∷ lines_from line_size t) (body-to_line i)

c_text-to_line : (i : Item) → IsItem i → c_text (to_line i) ≡ to_line i
c_text-to_line i h =
    let ((_, plain), _) = body-IsPlain i h in
    subst (λ l. c_text l ≡ l) (body-to_line i)
      (c_text-Lacks (body i ++ (10 ∷ [])) (Lacks-append 0 (body i) (10 ∷ []) plain (refl, tt)))

-- The section that is open behind the items.
last_section : List Item → Text → Text
last_section [] section = section
last_section (section_item s ∷ is) section = last_section is s
last_section (setting_item n v ∷ is) section = last_section is section

last_section-first :
    (items : List Item) (section : Text)
    → AllItems items
    → (first section == b'0') ≡ false
    → (first (last_section items section) == b'0') ≡ false
unfolding last_section
last_section-first [] section h o = o
last_section-first (section_item s ∷ is) section ((l, f, _, _), h) o = last_section-first is s h f
last_section-first (setting_item n v ∷ is) section (e, h) o = last_section-first is section h o

-- Items at the beginning of a file are read, and the reading goes on behind them.
read_items :
    (items : List Item) (tail section : Text) (m : MapSection)
    → AllItems items
    → (first section == b'0') ≡ false
    → read_lines (lines_from line_size (to_text items ++ tail)) section m
      ≡ read_lines
          (lines_from line_size tail)
          (last_section items section)
          (settings items section m)
unfolding read_lines settings last_section
read_items [] tail section m h o = refl
read_items (section_item s ∷ is) tail section m (it, h) o =
    let i = section_item s in
    let (l, f, _, k) = it in
    let small : fits s ≡ true = ground arith in
    rw
      (
        append_assoc (to_line i) (to_text is) tail,
        lines_from-to_line i (to_text is ++ tail) it,
        read_lines,
        c_text-to_line i it,
        classify_section section s l,
        small,
      )
      (read_items is tail s m h f)
read_items (setting_item [] v ∷ is) tail section m (e, h) o = absurd e
read_items (setting_item (x ∷ n) v ∷ is) tail section m (it, h) o =
    let i = setting_item (x ∷ n) v in
    let (l, f, _, k, _, g) = it in
    let key : SectionName = record { section = section; name = x ∷ n } in
    let small : fits (x ∷ n) ≡ true = ground arith in
    let small' : fits (v ++ (10 ∷ [])) ≡ true = ground (arith, length-append v (10 ∷ [])) in
    rw
      (
        append_assoc (to_line i) (to_text is) tail,
        lines_from-to_line i (to_text is ++ tail) it,
        read_lines,
        c_text-to_line i it,
        classify_setting section x n v o l f,
        small,
        small',
      )
      (read_items is tail section (map_put key (v ++ (10 ∷ [])) m) h o)

-- readConfigFile on a file that is written from headings and settings succeeds and stores every
-- setting under its section and name, the last one winning, with the line feed behind its value.
-- No heading has a `]` or begins with a `0`; no name is empty, has a `=` or begins with a `[`.
-- Sections and names have fewer than 128 bytes and values fewer than 127, so that they fit their
-- buffers, and none of them has a line feed or a 0.
pub read_config_file-to_text :
    (items : List Item)
    → AllItems items
    → read_config_file (some (to_text items)) ≡ done (rs_success, settings items [] [])
unfolding read_config_file read_lines lines_from
read_config_file-to_text items h =
    rw (append-nil (to_text items)) at (read_items items [] [] [] h refl)

classify_remark :
    (section t : Text)
    → (first section == b'0') ≡ false
    → Lacks b'=' t
    → classify section (b'#' ∷ t) ≡ bad
unfolding classify as_setting split_at
classify_remark section t o l = rw (classify, o, split_at-none b'=' t l) refl

read_lines_stop :
    (line : Text) (later : List Text) (section : Text) (m : MapSection)
    → classify section (c_text line) ≡ bad
    → read_lines (line ∷ later) section m ≡ done (rs_common, m)
unfolding read_lines
read_lines_stop line later section m e = rw (read_lines, e) refl

-- A line that begins with `#` and has no `=` is no comment to readConfigFile: behind the headings
-- and settings of a well-formed beginning it ends the reading with RS_COMMON, and nothing of what
-- follows is stored, whatever it is. Behind the `#` the line has fewer than 1021 bytes up to its line
-- feed, so that fgets takes it at once, and no 0.
pub read_config_file_stopped :
    (items : List Item) (remark later : Text)
    → AllItems items
    → Lacks b'=' remark
    → IsPlain remark
    → length remark < 1021
    → read_config_file (some (to_text items ++ ((b'#' ∷ remark) ++ (10 ∷ later))))
      ≡ done (rs_common, settings items [] [])
unfolding read_config_file
read_config_file_stopped items remark later h l (a, b) k =
    let o = last_section-first items [] h refl in
    let line = (b'#' ∷ remark) ++ (10 ∷ []) in
    let whole : Lacks 0 line = (refl, Lacks-append 0 remark (10 ∷ []) b (refl, tt)) in
    let bare = Lacks-append b'=' remark (10 ∷ []) l (refl, tt) in
    rw
      (
        read_items items ((b'#' ∷ remark) ++ (10 ∷ later)) [] [] h refl,
        lines_from-line line_size (b'#' ∷ remark) later (refl, a) (omega arith),
      )
      (read_lines_stop line (lines_from line_size later) (last_section items [])
        (settings items [] [])
        (ap (classify (last_section items [])) (c_text-Lacks line whole)
          ∙ classify_remark (last_section items []) (remark ++ (10 ∷ [])) o bare))
