-- ===== src/Secret/Args.antt =====
-- secret.cpp: which command lines ParasCmd takes.
use cpp_study.Base.{
  suc, ◌≡◌, refl, List, [], ◌∷◌, Bool, true, false, ◌||◌, ◌≤◌, ◌↔◌, ◌∙◌, sym, Option, none, some,
  arith, if◌then◌else◌, length, ltb,
}
use cpp_study.Base.Int.{ℤ, pos, leb_ℤ}
use cpp_study.Ini.{Text, same_text}
use cpp_study.Secret.{
  Options, first_options, key_flag, path_flag, is_empty, copied, paras_loop, complete, paras_cmd,
}

-- A flag with its value.
pub data Flag : Type 0 where
  key_is : Text → Flag
  path_is : Text → Flag

abbrev pub printed : List Flag → List Text
printed [] = []
printed (key_is t ∷ flags) = key_flag ∷ t ∷ printed flags
printed (path_is t ∷ flags) = path_flag ∷ t ∷ printed flags

same_text_sound : (s t : Text) → same_text s t ≡ true → s ≡ t
same_text_sound [] [] e = refl
same_text_sound [] (y ∷ t) e = absurd (cc e)
same_text_sound (x ∷ s) [] e = absurd (cc e)
same_text_sound (x ∷ s) (y ∷ t) e = ground (arith, same_text_sound s t)

module _ (atoi : Text → ℤ) where
  -- The last value of each flag counts.
  abbrev pub applied : List Flag → Options → Options
  applied [] o = o
  applied (key_is t ∷ flags) o = applied flags (record o { key = atoi t })
  applied (path_is t ∷ flags) o = applied flags (record o { path = copied t })

  -- A key above 0, and a path that is not empty.
  abbrev pub AllValid : List Flag → Type 0
  AllValid [] = Unit
  AllValid (key_is t ∷ flags) = (leb_ℤ (atoi t) (pos 0) ≡ false) × AllValid flags
  AllValid (path_is t ∷ flags) = (is_empty (copied t) ≡ false) × AllValid flags

  paras_loop-printed :
      (flags : List Flag) (o : Options)
      → AllValid flags
      → paras_loop atoi (printed flags) o ≡ some (applied flags o)
  unfolding paras_loop
  paras_loop-printed [] o v = refl
  paras_loop-printed (key_is t ∷ flags) o (h, v) =
      rw h (paras_loop-printed flags (record o { key = atoi t }) v)
  paras_loop-printed (path_is t ∷ flags) o (h, v) =
      rw h (paras_loop-printed flags (record o { path = copied t }) v)

  abbrev Read : List Text → Options → Options → Type 0
  Read args o o' =
      (flags : List Flag) × (args ≡ printed flags) × AllValid flags × (o' ≡ applied flags o)

  -- One flag with its value, once the tests are made.
  Read-flag :
      (arg value : Text) (rest : List Text) (o o' : Options)
      (is_key is_path bad_key bad_path : Bool)
      → same_text arg key_flag ≡ is_key
      → same_text arg path_flag ≡ is_path
      → leb_ℤ (atoi value) (pos 0) ≡ bad_key
      → is_empty (copied value) ≡ bad_path
      → (with_key with_path : Option Options)
      → (with_key ≡ some o' → Read rest (record o { key = atoi value }) o')
      → (with_path ≡ some o' → Read rest (record o { path = copied value }) o')
      → (if is_key
          then (if bad_key then none else with_key)
          else if is_path
          then (if bad_path then none else with_path)
          else none)
        ≡ some o'
      → Read (arg ∷ value ∷ rest) o o'
  Read-flag arg value rest o o' true is_path true bad_path k p b c with_key with_path f g e =
      absurd (cc e)
  Read-flag arg value rest o o' true is_path false bad_path k p b c with_key with_path f g e =
      let (flags, r, v, l) = f e in
      (key_is value ∷ flags, rw (same_text_sound arg key_flag k, r) refl, (b, v), l)
  Read-flag arg value rest o o' false true bad_key true k p b c with_key with_path f g e =
      absurd (cc e)
  Read-flag arg value rest o o' false true bad_key false k p b c with_key with_path f g e =
      let (flags, r, v, l) = g e in
      (path_is value ∷ flags, rw (same_text_sound arg path_flag p, r) refl, (c, v), l)
  Read-flag arg value rest o o' false false bad_key bad_path k p b c with_key with_path f g e =
      absurd (cc e)

  paras_loop-Read :
      (args : List Text) (o o' : Options) → paras_loop atoi args o ≡ some o' → Read args o o'
  unfolding paras_loop
  paras_loop-Read [] o o' e = let same : some o ≡ some o' = e in ([], refl, tt, cc same)
  paras_loop-Read (arg ∷ []) o o' e = absurd (cc e)
  paras_loop-Read (arg ∷ value ∷ rest) o o' e =
      Read-flag arg value rest o o' (same_text arg key_flag) (same_text arg path_flag)
        (leb_ℤ (atoi value) (pos 0)) (is_empty (copied value)) refl refl refl refl
        (paras_loop atoi rest (record o { key = atoi value }))
        (paras_loop atoi rest (record o { path = copied value }))
        (paras_loop-Read rest (record o { key = atoi value }) o')
        (paras_loop-Read rest (record o { path = copied value }) o') e

  -- What ParasCmd asks of the flags, and what it makes of them.
  pub record Accepts (args : List Text) (o : Options) : Type 0 where
    pub flags : List Flag
    pub as_printed : args ≡ printed flags
    pub valid : AllValid flags
    pub result : o ≡ applied flags first_options
    pub key_positive : leb_ℤ o.key (pos 0) ≡ false
    pub path_some : is_empty o.path ≡ false

  complete_only :
      (o o' : Options) (low empty : Bool)
      → leb_ℤ o.key (pos 0) ≡ low
      → is_empty o.path ≡ empty
      → (if low || empty then none else some o) ≡ some o'
      → (o' ≡ o) × (leb_ℤ o.key (pos 0) ≡ false) × (is_empty o.path ≡ false)
  complete_only o o' true empty k p e = absurd (cc e)
  complete_only o o' false true k p e = absurd (cc e)
  complete_only o o' false false k p e = (cc e, k, p)

  loop-Accepts :
      (args : List Text) (o' : Options) (r : Option Options)
      → paras_loop atoi args first_options ≡ r
      → elim r [ none ↦ none | some o ↦ complete atoi o ] ≡ some o'
      → Accepts args o'
  loop-Accepts args o' none e f = absurd (cc f)
  loop-Accepts args o' (some o) e f =
      let (flags, r, v, l) = paras_loop-Read args first_options o e in
      let (same, k, p) = complete_only o o' (leb_ℤ o.key (pos 0)) (is_empty o.path) refl refl f in
      record {
        flags = flags;
        as_printed = r;
        valid = v;
        result = same ∙ l;
        key_positive = rw same k;
        path_some = rw same p;
      }

  not_none :
      {o : Options} (b : Bool) (x : Option Options) → (if b then none else x) ≡ some o → x ≡ some o
  not_none true x e = absurd (cc e)
  not_none false x e = e

  paras_cmd-Accepts :
      (args : List Text) (o : Options) → paras_cmd atoi args ≡ some o → Accepts args o
  unfolding paras_cmd
  paras_cmd-Accepts args o e =
      loop-Accepts args o (paras_loop atoi args first_options) refl
        (not_none (ltb (suc (length args)) 3) _ e)

  some_flags :
      (flags : List Flag) (o : Options)
      → o ≡ applied flags first_options
      → leb_ℤ o.key (pos 0) ≡ false
      → 2 ≤ length (printed flags)
  some_flags [] o e h = absurd (cc (rw e at h))
  some_flags (key_is t ∷ flags) o e h = omega arith
  some_flags (path_is t ∷ flags) o e h = omega arith

  Accepts-paras_cmd :
      (args : List Text) (o : Options) → Accepts args o → paras_cmd atoi args ≡ some o
  unfolding paras_cmd
  Accepts-paras_cmd args o a =
      let many = some_flags a.flags o a.result a.key_positive in
      let enough : ltb (suc (length (printed a.flags))) 3 ≡ false = ground (arith, many) in
      rw
        (
          a.as_printed,
          enough,
          paras_loop-printed a.flags first_options a.valid,
          sym a.result,
          a.key_positive,
          a.path_some,
        )
        refl

  -- ParasCmd takes the arguments that are flags, each with its value, the keys above 0 and the paths
  -- not empty, with a key and a path among them, in any order and any number; and no others. It
  -- gives the last key and the last path, of which it keeps 1023 bytes.
  pub paras_cmd_iff :
      (args : List Text) (o : Options) → (paras_cmd atoi args ≡ some o) ↔ Accepts args o
  paras_cmd_iff args o = (paras_cmd-Accepts args o, Accepts-paras_cmd args o)
