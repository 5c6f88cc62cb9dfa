-- ===== src/Tests/Ciphers.antt =====
-- A key of one byte, a file of three bytes, and a directory of two entries.
use cpp_study.Base.{
  ◌-◌, if◌then◌else◌, ◌≡◌, ◌↔◌, refl, List, [], ◌∷◌, ◌++◌, map, true, false, some, arith,
}
use cpp_study.Base.Int.{ℤ, pos}
use cpp_study.Ini.{Text, same_text}
use cpp_study.Secret.{
  Options, Answers, World, regular, directory, crypt, do_secret, deal_dirent, all_dealt, paras_cmd,
}
use cpp_study.Secret.Args.{Accepts, paras_cmd_iff}
use cpp_study.Secret.Cipher.{extra, do_secret-do_secret}
use cpp_study.Secret.Walk.{outputs_of, deal_dirent-outputs}

abbrev plain : Answers
plain = record { there = false; made = true; opened = true; input = 1 ∷ 2 ∷ 3 ∷ [] }

abbrev secret : Answers
secret = record { there = true; made = false; opened = true; input = 6 ∷ 5 ∷ 4 ∷ 3 ∷ [] }

do_secret-do_secret_example :
    let e = extra 7 plain.input in
    (secret.input ≡ map (crypt 7) plain.input ++ e ∷ [])
    × (do_secret 7 secret ≡ some (plain.input ++ crypt 7 e ∷ e ∷ []))
unfolding do_secret
do_secret-do_secret_example = do_secret-do_secret 7 plain secret refl refl refl

-- A file "a" and a directory "b".
abbrev world : World
world = record {
  entries = λ path. some ((97 ∷ []) ∷ (98 ∷ []) ∷ []);
  stat = λ name. if same_text name (46 ∷ 47 ∷ 97 ∷ []) then some regular else some directory;
  answers = λ path name. plain;
}

deal_dirent-outputs_example :
    deal_dirent world 7 3 (46 ∷ [])
    ≡ (all_dealt, outputs_of world 7 (46 ∷ []) ((97 ∷ []) ∷ (98 ∷ []) ∷ []))
deal_dirent-outputs_example =
    deal_dirent-outputs world 7 (46 ∷ []) 3 ((97 ∷ []) ∷ (98 ∷ []) ∷ []) refl
      ((λ e. refl), ((λ e. refl), tt)) (omega arith)

-- A reader of numbers that takes the first digit.
abbrev first_digit : Text → ℤ
first_digit [] = pos 0
first_digit (d ∷ t) = pos (d - 48)

abbrev options : Options
options = record { path = 46 ∷ []; key = pos 7 }

abbrev arguments : List Text
arguments = (45 ∷ 112 ∷ []) ∷ (46 ∷ []) ∷ (45 ∷ 107 ∷ []) ∷ (55 ∷ []) ∷ []

paras_cmd_iff_example :
    (paras_cmd first_digit arguments ≡ some options) ↔ Accepts first_digit arguments options
paras_cmd_iff_example = paras_cmd_iff first_digit arguments options
