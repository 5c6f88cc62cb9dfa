-- ===== src/Wtmp/Lines.antt =====
-- wtmp.cpp: what readConf makes of the lists that a line holds.
use mathlib.Core.List.{append-nil, append_assoc}
use mathlib.Core.Path.{ap₂}
use cpp_study.Base.{
  ◌⊎◌, inl, inr, ℕ, ◌≡◌, ◌≢◌, refl, sym, ap, ◌∙◌, List, [], ◌∷◌, ◌++◌, false, none, arith, ◌==◌,
}
use cpp_study.Base.Int.{ℤ}
use cpp_study.Base.Exec.{Exec, done, fault}
use cpp_study.Ini.{Text}
use cpp_study.Ini.Lines.{Lacks, split_at-append}
use cpp_study.Wtmp.{
  Conf, behind, behind_first, and_token, tokens_from, tokens, map_star, user_delete_key,
  ip_delete_key, push_users, read_line, read_conf, before_star,
}

-- A text that strtok returns whole.
abbrev pub IsToken : Text → Type 0
IsToken t = (t ≢ []) × Lacks 44 t

abbrev pub AllTokens : List Text → Type 0
AllTokens [] = Unit
AllTokens (t ∷ ts) = IsToken t × AllTokens ts

-- The texts with a comma between each two.
abbrev pub joined : List Text → Text
joined [] = []
joined (t ∷ []) = t
joined (t ∷ u ∷ ts) = t ++ 44 ∷ joined (u ∷ ts)

tokens_from-append :
    (now t rest : Text)
    → Lacks 44 t
    → tokens_from now (t ++ 44 ∷ rest) ≡ and_token (now ++ t) (tokens rest)
tokens_from-append now [] rest w = ap (λ n. and_token n (tokens rest)) (sym (append-nil now))
tokens_from-append now (c ∷ t) rest (h, w) = rw h (
    tokens_from-append (now ++ c ∷ []) t rest w
    ∙ ap (λ n. and_token n (tokens rest)) (append_assoc now (c ∷ []) t))

tokens_from-last : (now t : Text) → Lacks 44 t → tokens_from now t ≡ and_token (now ++ t) []
tokens_from-last now [] w = ap (λ n. and_token n []) (sym (append-nil now))
tokens_from-last now (c ∷ t) (h, w) =
    rw h (
      tokens_from-last (now ++ c ∷ []) t w ∙ ap (λ n. and_token n []) (append_assoc now (c ∷ []) t))

and_token-some : (t : Text) (rest : List Text) → t ≢ [] → and_token t rest ≡ t ∷ rest
and_token-some [] rest h = absurd (h refl)
and_token-some (c ∷ t) rest h = refl

pub tokens-joined : (ts : List Text) → AllTokens ts → tokens (joined ts) ≡ ts
tokens-joined [] a = refl
tokens-joined (t ∷ []) ((h, w), a) = tokens_from-last [] t w ∙ and_token-some t [] h
tokens-joined (t ∷ u ∷ ts) ((h, w), a) =
    tokens_from-append [] t (joined (u ∷ ts)) w
    ∙ and_token-some t (tokens (joined (u ∷ ts))) h
    ∙ ap (◌∷◌ t) (tokens-joined (u ∷ ts) a)

-- A key that has an '=' does not stand in a text that has none.
abbrev Has : Text → Type 0
Has [] = ⊥
Has (k ∷ key) = (k ≡ 61) ⊎ Has key

behind-none : (key t : Text) → Has key → Lacks 61 t → behind key t ≡ none
behind-none [] t h w = absurd h
behind-none (k ∷ key) [] h w = refl
behind-none (k ∷ key) (c ∷ t) (inl e) (n, w) = ground arith
behind-none (k ∷ key) (c ∷ t) (inr h) (n, w) = ground (arith, behind-none key t h w)

behind_first-none : (key t : Text) → Has key → Lacks 61 t → behind_first key t ≡ none
behind_first-none key [] h w = behind-none key [] h w
behind_first-none key (c ∷ t) h w =
    rw (behind_first, behind-none key (c ∷ t) h w) (behind_first-none key t h w.1)

-- An address as it is written: its prefix and a star.
abbrev pub starred : List Text → List Text
starred [] = []
starred (p ∷ ps) = (p ++ 42 ∷ []) ∷ starred ps

-- A prefix without a comma, a star or an '='.
abbrev pub IsPrefix : Text → Type 0
IsPrefix p = Lacks 44 p × Lacks 42 p × Lacks 61 p

abbrev pub AllPrefixes : List Text → Type 0
AllPrefixes [] = Unit
AllPrefixes (p ∷ ps) = IsPrefix p × AllPrefixes ps

before_star-star : (p : Text) → Lacks 42 p → before_star (p ++ 42 ∷ []) ≡ p
before_star-star p w = rw (before_star, split_at-append 42 p [] w) refl

map_star-starred : (ps : List Text) → AllPrefixes ps → map_star (starred ps) ≡ ps
map_star-starred [] a = refl
map_star-starred (p ∷ ps) ((c, s, e), a) = ap₂ ◌∷◌ (before_star-star p s) (map_star-starred ps a)

Lacks-append : (c : ℕ) (s t : Text) → Lacks c s → Lacks c t → Lacks c (s ++ t)
Lacks-append c [] t h g = g
Lacks-append c (x ∷ s) t (n, h) g = (n, Lacks-append c s t h g)

Lacks-star : (c : ℕ) (p : Text) → (42 == c) ≡ false → Lacks c p → Lacks c (p ++ 42 ∷ [])
Lacks-star c p n h = Lacks-append c p (42 ∷ []) h (n, tt)

some_star : (p : Text) → p ++ 42 ∷ [] ≢ []
some_star [] = λ e. cc e
some_star (x ∷ p) = λ e. cc e

starred-AllTokens : (ps : List Text) → AllPrefixes ps → AllTokens (starred ps)
starred-AllTokens [] a = tt
starred-AllTokens (p ∷ ps) ((c, s, e), a) =
    ((some_star p, Lacks-star 44 p refl c), starred-AllTokens ps a)

joined-Lacks : (ps : List Text) → AllPrefixes ps → Lacks 61 (joined (starred ps))
joined-Lacks [] a = tt
joined-Lacks (p ∷ []) ((c, s, e), a) = Lacks-star 61 p refl e
joined-Lacks (p ∷ q ∷ ps) ((c, s, e), a) =
    Lacks-append 61 (p ++ 42 ∷ []) (44 ∷ joined (starred (q ∷ ps))) (Lacks-star 61 p refl e)
      (refl, joined-Lacks (q ∷ ps) a)

user_key-Has : Has user_delete_key
user_key-Has = inr (
    inr (
      inr (inr (inr (inr (inr (inr (inr (inr (inr (inr (inr (inr (inr (inr (inl refl))))))))))))))))

abbrev pub user_line : List Text → Text
user_line users = user_delete_key ++ joined users

abbrev pub ip_line : List Text → Text
ip_line ips = ip_delete_key ++ joined (starred ips)

-- What the two lines add.
abbrev pub with_lists : Conf → List Text → List Text → Exec Conf
with_lists conf [] ips = fault
with_lists conf (u ∷ users) ips = done (record conf {
  users_delete = conf.users_delete ++ u ∷ users;
  ips_delete = conf.ips_delete ++ ips;
})

module _ (strtoul : Text → ℕ) (mktime : ℤ → ℤ → ℕ → ℕ) where
  read_line-users :
      (conf : Conf) (users : List Text)
      → AllTokens users
      → read_line strtoul mktime conf (user_line users) ≡ push_users conf users
  unfolding read_line
  read_line-users conf users a = ap (push_users conf) (tokens-joined users a)

  read_line-ips :
      (conf : Conf) (ips : List Text)
      → AllPrefixes ips
      → read_line strtoul mktime conf (ip_line ips)
        ≡ done (record conf { ips_delete = conf.ips_delete ++ ips })
  unfolding read_line
  read_line-ips conf ips a =
      let t = joined (starred ips) in
      let other : behind_first user_delete_key (ip_line ips) ≡ none =
        behind_first-none user_delete_key t user_key-Has (joined-Lacks ips a) in
      rw
        (
          read_line,
          other,
          tokens-joined (starred ips) (starred-AllTokens ips a),
          map_star-starred ips a,
        )
        refl

  -- A line USER_DELETE_LIST with names between commas, none of them empty, and a line IP_DELETE_LIST
  -- with prefixes between commas, each with a star behind it: readConf adds the names to the users
  -- to delete and the prefixes to the addresses, in their order, and nothing else. Without a name
  -- it makes a string of a null pointer.
  pub read_conf-joined :
      (conf : Conf) (users ips : List Text)
      → AllTokens users
      → AllPrefixes ips
      → read_conf strtoul mktime conf (user_line users ∷ ip_line ips ∷ [])
        ≡ with_lists conf users ips
  unfolding read_conf
  read_conf-joined conf [] ips a b = rw (read_conf, read_line-users conf [] a) refl
  read_conf-joined conf (u ∷ users) ips a b =
      let next : Conf = record conf { users_delete = conf.users_delete ++ u ∷ users } in
      rw (read_conf, read_line-users conf (u ∷ users) a, read_line-ips next ips b) refl
