-- ===== src/Tests/Files.antt =====
-- A file of settings with one section.
use cpp_study.Base.{◌≡◌, refl, List, [], ◌∷◌, ◌++◌, some, arith}
use cpp_study.Base.Exec.{done}
use cpp_study.Shm.{rs_success, rs_common}
use cpp_study.Ini.{read_config_file}
use cpp_study.Ini.Files.{
  Item, section_item, setting_item, AllItems, to_text, settings, read_config_file-to_text,
  read_config_file_stopped,
}

-- [ab] and c=1
abbrev items : List Item
items = section_item (97 ∷ 98 ∷ []) ∷ setting_item (99 ∷ []) (49 ∷ []) ∷ []

items_valid : AllItems items
items_valid = (
  ((refl, (refl, tt)), refl, ((refl, (refl, tt)), (refl, (refl, tt))), omega arith),
  (
    (
      (refl, tt),
      refl,
      ((refl, tt), (refl, tt)),
      omega arith,
      ((refl, tt), (refl, tt)),
      omega arith,
    ),
    tt,
  ),
)

read_config_file-to_text_example :
    read_config_file (some (to_text items)) ≡ done (rs_success, settings items [] [])
read_config_file-to_text_example = read_config_file-to_text items items_valid

read_config_file_stopped_example :
    read_config_file (some (to_text items ++ ((35 ∷ 32 ∷ 120 ∷ []) ++ (10 ∷ to_text items))))
    ≡ done (rs_common, settings items [] [])
read_config_file_stopped_example =
    read_config_file_stopped items (32 ∷ 120 ∷ []) (to_text items) items_valid (refl, (refl, tt))
      ((refl, (refl, tt)), (refl, (refl, tt))) (omega arith)
