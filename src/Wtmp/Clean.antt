-- ===== src/Wtmp/Clean.antt =====
-- wtmp.cpp: what the loop with the iterator makes of the records.
use mathlib.Core.List.{append_assoc}
use cpp_study.Base.{
  ℕ, zero, suc, ◌<◌, ◌≡◌, refl, sym, ap, List, [], ◌∷◌, ◌++◌, Bool, true, false, none, some, arith,
  ltb, if◌then◌else◌, length, get_elem?, set,
}
use cpp_study.Base.Int.{ℤ}
use cpp_study.Base.Exec.{done}
use cpp_study.Ini.{Text, same_text}
use cpp_study.Wtmp.{
  TwoString, Conf, Utmp, user_size, host_size, is_deleted, replace_loop, replace_fields, erase,
  clean_loop, read_conf, first_conf, wtmp_main,
}

-- The new texts leave room for the 0 behind them.
abbrev pub AllFit : ℕ → List TwoString → Type 0
AllFit size [] = Unit
AllFit size (r ∷ rs) = (length r.str2 < size) × AllFit size rs

-- Each replacement in turn, on what the ones before it left.
abbrev pub replaced : List TwoString → Text → Text
replaced [] t = t
replaced (r ∷ rs) t = replaced rs (if same_text r.str1 t then r.str2 else t)

abbrev pub updated : Conf → Utmp → Utmp
updated conf u = record u {
  user = replaced conf.users_replace u.user;
  host = replaced conf.ips_replace u.host;
}

-- The records that are not deleted, in their order, with their replacements.
abbrev pub cleaned : Conf → List Utmp → List Utmp
cleaned conf [] = []
cleaned conf (u ∷ us) =
    let rest = cleaned conf us in if is_deleted conf u then rest else updated conf u ∷ rest

replace_one :
    (size : ℕ) (r : TwoString) (rs : List TwoString) (t : Text) (hit : Bool)
    → same_text r.str1 t ≡ hit
    → length r.str2 < size
    → ((s : Text) → replace_loop size rs s ≡ done (replaced rs s))
    → replace_loop size (r ∷ rs) t ≡ done (replaced rs (if hit then r.str2 else t))
unfolding replace_loop
replace_one size r rs t true e h rest =
    let room : ltb (length r.str2) size ≡ true = ground (arith, h) in
    rw (replace_loop, e, room) (rest r.str2)
replace_one size r rs t false e h rest = rw (replace_loop, e) (rest t)

replace_loop-replaced :
    (size : ℕ) (rs : List TwoString) (t : Text)
    → AllFit size rs
    → replace_loop size rs t ≡ done (replaced rs t)
unfolding replace_loop
replace_loop-replaced size [] t f = refl
replace_loop-replaced size (r ∷ rs) t (h, f) =
    replace_one size r rs t (same_text r.str1 t) refl h λ s. replace_loop-replaced size rs s f

-- The records at, before and behind the iterator.
get_at : (front us : List Utmp) (u : Utmp) → get_elem? (front ++ u ∷ us) (length front) ≡ some u
get_at [] us u = refl
get_at (x ∷ front) us u = get_at front us u

erase_at : (front us : List Utmp) (u : Utmp) → erase (front ++ u ∷ us) (length front) ≡ front ++ us
erase_at [] us u = refl
erase_at (x ∷ front) us u = ap (◌∷◌ x) (erase_at front us u)

set_at :
    (front us : List Utmp) (u v : Utmp)
    → set (front ++ u ∷ us) (length front) v ≡ (front ++ v ∷ []) ++ us
set_at [] us u v = refl
set_at (x ∷ front) us u v = ap (◌∷◌ x) (set_at front us u v)

get_end : (front : List Utmp) → get_elem? (front ++ []) (length front) ≡ none
get_end [] = refl
get_end (x ∷ front) = get_end front

length-snoc : (front : List Utmp) (v : Utmp) → length (front ++ v ∷ []) ≡ suc (length front)
length-snoc [] v = refl
length-snoc (x ∷ front) v = ap suc (length-snoc front v)

module _ (conf : Conf) (users : AllFit user_size conf.users_replace)
    (hosts : AllFit host_size conf.ips_replace) where
  replace_fields-updated : (u : Utmp) → replace_fields conf u ≡ done (updated conf u)
  unfolding replace_fields
  replace_fields-updated u =
      rw
        (
          replace_fields,
          replace_loop-replaced user_size conf.users_replace u.user users,
          replace_loop-replaced host_size conf.ips_replace u.host hosts,
        )
        refl

  clean_one :
      (fuel : ℕ) (front us : List Utmp) (u : Utmp) (deleted : Bool)
      → is_deleted conf u ≡ deleted
      → ((kept : List Utmp)
          → clean_loop fuel conf (kept ++ us) (length kept) ≡ done (kept ++ cleaned conf us))
      → clean_loop (suc fuel) conf (front ++ u ∷ us) (length front)
        ≡ done (front ++ (if deleted then cleaned conf us else updated conf u ∷ cleaned conf us))
  unfolding clean_loop
  clean_one fuel front us u true e rest =
      rw (clean_loop, get_at front us u, e, erase_at front us u) (rest front)
  clean_one fuel front us u false e rest =
      let v = updated conf u in
      let next = rest (front ++ v ∷ []) in
      rw
        (
          clean_loop,
          get_at front us u,
          e,
          replace_fields-updated u,
          set_at front us u v,
          sym (length-snoc front v),
          next,
          append_assoc front (v ∷ []) (cleaned conf us),
        )
        refl

  clean_loop-from :
      (fuel : ℕ) (us front : List Utmp)
      → length us < fuel
      → clean_loop fuel conf (front ++ us) (length front) ≡ done (front ++ cleaned conf us)
  unfolding clean_loop
  clean_loop-from zero us front h = absurd (omega arith)
  clean_loop-from (suc fuel) [] front h = rw (clean_loop, get_end front) refl
  clean_loop-from (suc fuel) (u ∷ us) front h =
      clean_one fuel front us u (is_deleted conf u) refl
        λ kept. clean_loop-from fuel us kept (omega arith)

  -- The program on a configuration that readConf gives, where each text that replaces a user or a
  -- host fits its field, and a log that opens: it ends, and it writes the log without each record
  -- that is before timeDelete, of a user to delete or from an address to delete, also where several
  -- of them stand one behind another. The other records stay in their order, each with the
  -- replacements made, one after another, on its user and its host, and with nothing else changed.
  -- Where the log does not open for writing, it stays as it is.
  pub wtmp_main-cleaned :
      (strtoul : Text → ℕ) (mktime : ℤ → ℤ → ℕ → ℕ) (lines : List Text) (log : List Utmp)
      (writable : Bool)
      → read_conf strtoul mktime first_conf lines ≡ done conf
      → wtmp_main strtoul mktime (some lines) (some log) writable
        ≡ done (if writable then some (cleaned conf log) else none)
  unfolding wtmp_main
  wtmp_main-cleaned strtoul mktime lines log writable e =
      rw (wtmp_main, e, clean_loop-from (suc (length log)) log [] (omega arith)) refl
