-- ===== src/Strings/Values.antt =====
-- mystring.cpp: the texts that the objects stand for, and what a new block and a release keep.
use mathlib.Core.Path.{subst}
use cpp_study.Base.{
  ℕ, zero, suc, ◌≡◌, ◌≢◌, refl, sym, ap, ◌∙◌, List, [], ◌∷◌, ◌++◌, Bool, true, false, Option, none,
  some, arith, ◌==◌, if◌then◌else◌, length, set, drop, replicate,
}
use cpp_study.Base.Exec.{done}
use cpp_study.Ini.{Text}
use cpp_study.Strings.{Store, put, text_in, filled}

-- A text is one without 0.
abbrev pub IsText : Text → Type 0
IsText [] = Unit
IsText (c ∷ t) = (c ≢ 0) × IsText t

-- The texts of the objects that are alive.
abbrev pub Values : Type 0
Values = ℕ → Option Text

-- Each object that is alive has a block of its own with its text, and every block belongs to one.
pub record Represents (s : Store) (v : Values) : Type 0 where
  pub held :
      (o : ℕ) (t : Text)
      → v o ≡ some t
      → (p : ℕ) × (s.m_data o ≡ some p) × (s.blocks p ≡ some (t ++ 0 ∷ [])) × IsText t
  pub apart :
      (o u : ℕ) (x y : Text) (p : ℕ)
      → v o ≡ some x
      → v u ≡ some y
      → s.m_data o ≡ some p
      → s.m_data u ≡ some p
      → o ≡ u
  pub owned :
      (p : ℕ) (cells : List ℕ)
      → s.blocks p ≡ some cells
      → (o : ℕ) × (t : Text) × (v o ≡ some t) × (s.m_data o ≡ some p)

pub text_in-text : (t : Text) → IsText t → text_in (t ++ 0 ∷ []) ≡ done t
text_in-text [] h = refl
text_in-text (c ∷ t) (n, h) =
    let some_byte : (c == 0) ≡ false = ground (arith, n) in
    rw (text_in, some_byte, text_in-text t h) refl

filled_from : (junk : ℕ) (t : Text) → set (t ++ junk ∷ []) (length t) 0 ≡ t ++ 0 ∷ []
filled_from junk [] = refl
filled_from junk (c ∷ t) = ap (◌∷◌ c) (filled_from junk t)

drop-replicate : (n junk : ℕ) → drop n (replicate (suc n) junk) ≡ junk ∷ []
drop-replicate zero junk = refl
drop-replicate (suc n) junk = drop-replicate n junk

pub filled_text : (junk : ℕ) (t : Text) → filled junk t ≡ t ++ 0 ∷ []
filled_text junk t = rw (drop-replicate (length t) junk) (filled_from junk t)

pub put_same {ℓ} : {A : Type ℓ} (f : ℕ → A) (i : ℕ) (v : A) → put f i v i ≡ v
put_same f i v = let it : (i == i) ≡ true = ground arith in rw it refl

pub put_other {ℓ} : {A : Type ℓ} (f : ℕ → A) (i : ℕ) (v : A) (j : ℕ) → i ≢ j → put f i v j ≡ f j
put_other f i v j n = let it : (i == j) ≡ false = ground (arith, n) in rw it refl

-- A block with the text `t` at an address in no use, for an object that is not alive.
abbrev pub with_text : Store → ℕ → ℕ → Text → Store
with_text s o a t = record {
  blocks = put s.blocks a (some (t ++ 0 ∷ []));
  m_data = put s.m_data o (some a);
}

module _ (s : Store) (v : Values) (r : Represents s v) (o a : ℕ) (t : Text) (new : v o ≡ none)
    (free : s.blocks a ≡ none) (text : IsText t) where
  -- An object that is alive is another one, and its block stands elsewhere.
  other_object : (u : ℕ) (x : Text) → v u ≡ some x → o ≢ u
  other_object u x e same = absurd (cc (same, e, new))

  other_block : (p : ℕ) (cells : List ℕ) → s.blocks p ≡ some cells → a ≢ p
  other_block p cells e same = absurd (cc (same, e, free))

  held_by :
      (u : ℕ) (x : Text) (b : Bool)
      → (o == u) ≡ b
      → (if b then some t else v u) ≡ some x
      → (p : ℕ) × ((with_text s o a t).m_data u ≡ some p)
        × ((with_text s o a t).blocks p ≡ some (x ++ 0 ∷ []))
        × IsText x
  held_by u x true h e =
      let same : t ≡ x = cc e in
      (
        a,
        rw h refl,
        put_same s.blocks a (some (t ++ 0 ∷ [])) ∙ ap (λ y. some (y ++ 0 ∷ [])) same,
        subst IsText same text,
      )
  held_by u x false h e =
      let (p, d, c, w) = r.held u x e in
      (
        p,
        rw h d,
        put_other s.blocks a (some (t ++ 0 ∷ [])) p (other_block p (x ++ 0 ∷ []) c) ∙ c,
        w,
      )

  -- The block of an object that was alive before is not the new one.
  not_new : (u : ℕ) (x : Text) → v u ≡ some x → s.m_data u ≢ some a
  not_new u x e d =
      let (p, m, c, w) = r.held u x e in
      let same : p ≡ a = cc (m, d) in other_block p (x ++ 0 ∷ []) c (sym same)

  apart_by :
      (u w : ℕ) (x y : Text) (p : ℕ) (b c : Bool)
      → (o == u) ≡ b
      → (o == w) ≡ c
      → (if b then some t else v u) ≡ some x
      → (if c then some t else v w) ≡ some y
      → (if b then some a else s.m_data u) ≡ some p
      → (if c then some a else s.m_data w) ≡ some p
      → u ≡ w
  apart_by u w x y p true true h k e f m n = ground (arith, h, k)
  apart_by u w x y p true false h k e f m n = absurd (not_new w y f (cc (m, n)))
  apart_by u w x y p false true h k e f m n = absurd (not_new u x e (cc (m, n)))
  apart_by u w x y p false false h k e f m n = r.apart u w x y p e f m n

  owned_by :
      (p : ℕ) (cells : List ℕ) (b : Bool)
      → (a == p) ≡ b
      → (if b then some (t ++ 0 ∷ []) else s.blocks p) ≡ some cells
      → (u : ℕ) × (x : Text) × (put v o (some t) u ≡ some x)
        × ((with_text s o a t).m_data u ≡ some p)
  owned_by p cells true h e =
      let same : a ≡ p = ground (arith, h) in
      (o, t, put_same v o (some t), put_same s.m_data o (some a) ∙ ap some same)
  owned_by p cells false h e =
      let (u, x, f, d) = r.owned p cells e in
      let n = other_object u x f in
      (u, x, put_other v o (some t) u n ∙ f, put_other s.m_data o (some a) u n ∙ d)

  pub with_text-Represents : Represents (with_text s o a t) (put v o (some t))
  with_text-Represents = record {
    held = λ u x e. held_by u x (o == u) refl e;
    apart = λ u w x y p e f m n. apart_by u w x y p (o == u) (o == w) refl refl e f m n;
    owned = λ p cells e. owned_by p cells (a == p) refl e;
  }

-- The store without the block at `p`.
abbrev pub without_block : Store → ℕ → Store
without_block s p = record s { blocks = put s.blocks p none }

module _ (s : Store) (v : Values) (r : Represents s v) (o p : ℕ) (t : Text) (alive : v o ≡ some t)
    (pointer : s.m_data o ≡ some p) where
  kept_value :
      (u : ℕ) (x : Text) (b : Bool)
      → (o == u) ≡ b
      → (if b then none else v u) ≡ some x
      → (o ≢ u) × (v u ≡ some x)
  kept_value u x true h e = absurd (cc e)
  kept_value u x false h e = ((λ same. ground (arith, h, same)), e)

  still : (u : ℕ) (x : Text) → put v o none u ≡ some x → (o ≢ u) × (v u ≡ some x)
  still u x e = kept_value u x (o == u) refl e

  other_pointer : (u q : ℕ) (x : Text) → o ≢ u → v u ≡ some x → s.m_data u ≡ some q → p ≢ q
  other_pointer u q x n e d same = n (r.apart o u t x p alive e pointer (d ∙ ap some (sym same)))

  owned_still :
      (q : ℕ) (cells : List ℕ) (b : Bool)
      → (p == q) ≡ b
      → (if b then none else s.blocks q) ≡ some cells
      → (u : ℕ) × (x : Text) × (put v o none u ≡ some x) × (s.m_data u ≡ some q)
  owned_still q cells true h e = absurd (cc e)
  owned_still q cells false h e =
      let (u, x, f, d) = r.owned q cells e in
      let n : o ≢ u = λ same. not_freed q u h d same in (u, x, put_other v o none u n ∙ f, d)
    where
      not_freed : (q u : ℕ) → (p == q) ≡ false → s.m_data u ≡ some q → o ≢ u
      not_freed q u h d same =
          let both : s.m_data o ≡ some q = ap s.m_data same ∙ d in
          let equal : p ≡ q = cc (pointer, both) in ground (arith, h, equal)

  pub without_block-Represents : Represents (without_block s p) (put v o none)
  without_block-Represents = record {
    held = λ u x e.
        let (n, f) = still u x e in
        let (q, d, c, w) = r.held u x f in
        (q, d, put_other s.blocks p none q (other_pointer u q x n f d) ∙ c, w);
    apart = λ u w x y q e f m n. r.apart u w x y q (still u x e).1 (still w y f).1 m n;
    owned = λ q cells e. owned_still q cells (p == q) refl e;
  }
