-- ===== src/Wtmp.antt =====
-- temp/wtmp.cpp: a program that deletes records from the log of logins and replaces users and hosts
-- in it.
--
-- Texts are lists of bytes without 0. The configuration is its lines that end in a newline, each
-- shorter than the buffer; strtoul and mktime are arguments.
pub mod Clean
pub mod Lines
use cpp_study.Base.{
  ℕ, zero, suc, ◌+◌, ◌-◌, ◌/◌, ◌%◌, ◌^◌, List, [], ◌∷◌, ◌++◌, Bool, true, false, ◌||◌, Option, none,
  some, ◌==◌, ltb, if◌then◌else◌, length, get_elem?, set,
}
use cpp_study.Base.Int.{ℤ, sub_ℕ}
use cpp_study.Base.Exec.{Exec, done, fault, timeout, ◌>>=◌}
use cpp_study.Ini.{Text, same_text, split_at}

pub record TwoString : Type 0 where
  pub str1 : Text
  pub str2 : Text

-- The vectors and timeDelete.
pub record Conf : Type 0 where
  pub users_delete : List Text
  pub ips_delete : List Text
  pub time_delete : ℕ
  pub users_replace : List TwoString
  pub ips_replace : List TwoString

-- A record of the log: tv_sec, as the comparison with timeDelete reads it, ut_user, ut_host and
-- what the program does not look at.
pub record Utmp : Type 0 where
  pub sec : ℕ
  pub user : Text
  pub host : Text
  pub others : List ℕ

-- The sizes of ut_user and of ut_host.
abbrev pub user_size : ℕ
user_size = 32

abbrev pub host_size : ℕ
host_size = 256

-- The text behind `key`, where the text starts with it.
abbrev pub behind : Text → Text → Option Text
behind [] t = some t
behind (k ∷ key) [] = none
behind (k ∷ key) (c ∷ t) = let rest = behind key t in if k == c then rest else none

-- `ptr = strstr(buff, key)` and `ptr += strlen(key)`
abbrev pub behind_first : Text → Text → Option Text
behind_first key [] = behind key []
behind_first key (c ∷ t) =
    let rest = behind_first key t in
    elim (behind key (c ∷ t)) [ some found ↦ some found | none ↦ rest ]

-- The next token is not returned where it is empty.
abbrev pub and_token : Text → List Text → List Text
and_token [] rest = rest
and_token (c ∷ t) rest = (c ∷ t) ∷ rest

-- All that strtok(ptr, ",") and the calls of strtok(NULL, ",") return, `now` being the token so
-- far.
abbrev pub tokens_from : Text → Text → List Text
tokens_from now [] = and_token now []
tokens_from now (c ∷ t) =
    let next_token = tokens_from [] t in
    let longer = tokens_from (now ++ c ∷ []) t in
    if c == 44 then and_token now next_token else longer

abbrev pub tokens : Text → List Text
tokens t = tokens_from [] t

-- `pTemp = strchr(ptr, '*'); if (pTemp) *pTemp = '\0';`
abbrev pub before_star : Text → Text
before_star t = elim (split_at 42 t) [ none ↦ t | some (before, after) ↦ before ]

-- The replacements of the tokens that have an '='.
abbrev pub replacements : List Text → List TwoString
replacements [] = []
replacements (t ∷ ts) =
    let rest = replacements ts in
    elim (split_at 61 t) [
      | none ↦ rest
      | some (before, after) ↦ record { str1 = before; str2 = after } ∷ rest
    ]

abbrev pub map_star : List Text → List Text
map_star [] = []
map_star (t ∷ ts) = before_star t ∷ map_star ts

-- "USER_DELETE_LIST=" and the others
abbrev pub user_delete_key : Text
user_delete_key =
    85 ∷ 83 ∷ 69 ∷ 82 ∷ 95 ∷ 68 ∷ 69 ∷ 76 ∷ 69 ∷ 84 ∷ 69 ∷ 95 ∷ 76 ∷ 73 ∷ 83 ∷ 84 ∷ 61 ∷ []

abbrev pub ip_delete_key : Text
ip_delete_key = 73 ∷ 80 ∷ 95 ∷ 68 ∷ 69 ∷ 76 ∷ 69 ∷ 84 ∷ 69 ∷ 95 ∷ 76 ∷ 73 ∷ 83 ∷ 84 ∷ 61 ∷ []

abbrev pub time_delete_key : Text
time_delete_key = 84 ∷ 73 ∷ 77 ∷ 69 ∷ 95 ∷ 68 ∷ 69 ∷ 76 ∷ 69 ∷ 84 ∷ 69 ∷ 61 ∷ []

abbrev pub user_replace_key : Text
user_replace_key =
    85 ∷ 83 ∷ 69 ∷ 82 ∷ 95 ∷ 82 ∷ 69 ∷ 80 ∷ 76 ∷ 65 ∷ 67 ∷ 69 ∷ 95 ∷ 76 ∷ 73 ∷ 83 ∷ 84 ∷ 61 ∷ []

abbrev pub ip_replace_key : Text
ip_replace_key = 73 ∷ 80 ∷ 95 ∷ 82 ∷ 69 ∷ 80 ∷ 76 ∷ 65 ∷ 67 ∷ 69 ∷ 95 ∷ 76 ∷ 73 ∷ 83 ∷ 84 ∷ 61 ∷ []

-- The first token of a list of users is pushed before it is tested: a string made of NULL.
abbrev pub push_users : Conf → List Text → Exec Conf
push_users conf [] = fault
push_users conf (t ∷ ts) = done (record conf { users_delete = conf.users_delete ++ t ∷ ts })

-- strtoul, and mktime of tm_year, tm_mon and tm_mday.
module _ (strtoul : Text → ℕ) (mktime : ℤ → ℤ → ℕ → ℕ) where
  -- The value of timeDelete for a date YYYYMMDD.
  unfoldable pub time_of : Text → ℕ
  time_of t =
      let date = strtoul t % 2 ^ 32 in
      let day = date % 100 in
      let month = date / 100 % 100 in
      let year = date / 100 / 100 in mktime (sub_ℕ year 1900) (sub_ℕ month 1) day % 2 ^ 32

  -- The body of the loop in readConf, without the reading.
  unfoldable pub read_line : Conf → Text → Exec Conf
  unfolding time_of
  read_line conf [] = done conf
  read_line conf (c ∷ t) =
      let replace_ips : Exec Conf = elim (behind_first ip_replace_key (c ∷ t)) [
        | none ↦ done conf
        | some list ↦
            done (record conf { ips_replace = conf.ips_replace ++ replacements (tokens list) })
      ] in
      let replace_users : Exec Conf = elim (behind_first user_replace_key (c ∷ t)) [
        | none ↦ replace_ips
        | some list ↦
            done (record conf { users_replace = conf.users_replace ++ replacements (tokens list) })
      ] in
      let delete_time : Exec Conf = elim (behind_first time_delete_key (c ∷ t)) [
        | none ↦ replace_users
        | some date ↦ done (record conf { time_delete = time_of date })
      ] in
      let delete_ips : Exec Conf = elim (behind_first ip_delete_key (c ∷ t)) [
        | none ↦ delete_time
        | some list ↦ done (record conf { ips_delete = conf.ips_delete ++ map_star (tokens list) })
      ] in
      let delete_users : Exec Conf = elim (behind_first user_delete_key (c ∷ t)) [
        | none ↦ delete_ips
        | some list ↦ push_users conf (tokens list)
      ] in
      if c == 35 then done conf else delete_users

  unfoldable pub read_conf : Conf → List Text → Exec Conf
  unfolding read_line
  read_conf conf [] = done conf
  read_conf conf (line ∷ lines) = do next ← read_line conf line; read_conf next lines

-- std::find on the users
abbrev pub is_among : Text → List Text → Bool
is_among t [] = false
is_among t (u ∷ us) = let rest = is_among t us in same_text u t || rest

-- `strncmp(host, ip, ip.size()) == 0` for one of the addresses
abbrev pub has_prefix : Text → List Text → Bool
has_prefix host [] = false
has_prefix host (ip ∷ ips) =
    let rest = has_prefix host ips in elim (behind ip host) [ some t ↦ true | none ↦ rest ]

unfoldable pub is_deleted : Conf → Utmp → Bool
is_deleted conf u =
    ltb u.sec conf.time_delete
    || is_among u.user conf.users_delete
    || has_prefix u.host conf.ips_delete

-- A loop over replacements of a field of `size` bytes, to which strcpy writes.
unfoldable pub replace_loop : ℕ → List TwoString → Text → Exec Text
replace_loop size [] t = done t
replace_loop size (r ∷ rs) t =
    let written = if ltb (length r.str2) size then replace_loop size rs r.str2 else fault in
    let kept = replace_loop size rs t in if same_text r.str1 t then written else kept

unfoldable pub replace_fields : Conf → Utmp → Exec Utmp
unfolding replace_loop
replace_fields conf u = do
  user ← replace_loop user_size conf.users_replace u.user
  host ← replace_loop host_size conf.ips_replace u.host
  done (record u { user = user; host = host })

-- `vUtmps.erase(iter)`
abbrev pub erase : List Utmp → ℕ → List Utmp
erase [] i = []
erase (u ∷ us) zero = us
erase (u ∷ us) (suc i) = u ∷ erase us i

-- The loop over the records; `i` is where the iterator stands.
unfoldable pub clean_loop : ℕ → Conf → List Utmp → ℕ → Exec (List Utmp)
unfolding is_deleted replace_fields
clean_loop zero conf records i = timeout
clean_loop (suc fuel) conf records i = elim (get_elem? records i) [
  | none ↦ done records
  | some u ↦
      let deleted = clean_loop fuel conf (erase records i) i in
      let replaced : Exec (List Utmp) = do
        v ← replace_fields conf u
        clean_loop fuel conf (set records i v) (suc i)
      in if is_deleted conf u then deleted else replaced
]

-- The vectors and timeDelete at the start.
abbrev pub first_conf : Conf
first_conf = record {
  users_delete = [];
  ips_delete = [];
  time_delete = 0;
  users_replace = [];
  ips_replace = [];
}

-- main: what it writes over the log, or `none` where it leaves the log as it is. A file that does
-- not open is `none`.
unfoldable pub wtmp_main :
    (Text → ℕ)
    → (ℤ → ℤ → ℕ → ℕ)
    → Option (List Text)
    → Option (List Utmp)
    → Bool
    → Exec (Option (List Utmp))
unfolding read_conf clean_loop
wtmp_main strtoul mktime none log writable = done none
wtmp_main strtoul mktime (some lines) none writable = do
  conf ← read_conf strtoul mktime first_conf lines
  done none
wtmp_main strtoul mktime (some lines) (some log) writable = do
  conf ← read_conf strtoul mktime first_conf lines
  records ← clean_loop (suc (length log)) conf log 0
  done (if writable then some records else none)
