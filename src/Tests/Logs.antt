-- ===== src/Tests/Logs.antt =====
-- A log of three records and a configuration that deletes two of them.
use cpp_study.Base.{ℕ, ◌≡◌, refl, List, [], ◌∷◌, some, true}
use cpp_study.Base.Int.{ℤ}
use cpp_study.Base.Exec.{done}
use cpp_study.Ini.{Text}
use cpp_study.Wtmp.{Conf, Utmp, first_conf, wtmp_main, read_conf}
use cpp_study.Wtmp.Clean.{cleaned, wtmp_main-cleaned}
use cpp_study.Wtmp.Lines.{user_line, ip_line, with_lists, read_conf-joined}

abbrev by : Text → Text → Utmp
by user host = record { sec = 9; user = user; host = host; others = [] }

abbrev log : List Utmp
log = by (97 ∷ []) (49 ∷ []) ∷ by (98 ∷ []) (50 ∷ []) ∷ by (98 ∷ []) (49 ∷ 48 ∷ 46 ∷ []) ∷ []

abbrev no_number : Text → ℕ
no_number t = 0

abbrev no_time : ℤ → ℤ → ℕ → ℕ
no_time year month day = 0

abbrev names : List Text
names = (97 ∷ []) ∷ (98 ∷ []) ∷ []

abbrev prefixes : List Text
prefixes = (49 ∷ 48 ∷ 46 ∷ []) ∷ []

-- The configuration.
abbrev conf : Conf
conf = record first_conf { users_delete = names; ips_delete = prefixes }

conf_read :
    read_conf no_number no_time first_conf (user_line names ∷ ip_line prefixes ∷ [])
    ≡ with_lists first_conf names prefixes
conf_read =
    read_conf-joined no_number no_time first_conf names prefixes
      (((λ e. cc e), (refl, tt)), (((λ e. cc e), (refl, tt)), tt))
      (((refl, (refl, (refl, tt))), (refl, (refl, (refl, tt))), (refl, (refl, (refl, tt)))), tt)

wtmp_main-cleaned_example :
    wtmp_main no_number no_time (some (user_line names ∷ ip_line prefixes ∷ [])) (some log) true
    ≡ done (some (cleaned conf log))
wtmp_main-cleaned_example =
    wtmp_main-cleaned conf tt tt no_number no_time (user_line names ∷ ip_line prefixes ∷ []) log
      true conf_read
