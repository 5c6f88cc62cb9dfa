-- ===== src/Strings/Calls.antt =====
-- mystring.cpp: each call as one on the texts of the objects.
use mathlib.Core.Path.{subst}
use cpp_study.Base.{
  ℕ, ◌≡◌, ◌≢◌, ◌⊎◌, inl, inr, refl, sym, ap, ◌∙◌, List, [], ◌∷◌, ◌++◌, Bool, true, false, Option,
  none, some, arith, ◌==◌, if◌then◌else◌,
}
use cpp_study.Base.Exec.{done, Ends, ends}
use cpp_study.Ini.{Text}
use cpp_study.Strings.{
  Store, put, read_text, delete, new_text, mystring, copy, assign, destroy, Call, constructs,
  copies, assigns, destroys, run_call,
}
use cpp_study.Strings.Values.{
  IsText, Values, Represents, text_in-text, filled_text, put_same, put_other, with_text-Represents,
  without_block, without_block-Represents,
}

-- What a call makes of the texts: a copy and an assignment give the object the text of the other.
abbrev pub value_call : Values → Call → Values
value_call v (constructs o a none) = put v o (some [])
value_call v (constructs o a (some t)) = put v o (some t)
value_call v (copies o a src) = put v o (v src)
value_call v (assigns o a src) = if o == src then v else put v o (v src)
value_call v (destroys o) = put v o none

abbrev pub value_calls : List Call → Values → Values
value_calls [] v = v
value_calls (c ∷ cs) v = value_calls cs (value_call v c)

abbrev pub IsAlive : Values → ℕ → Type 0
IsAlive v o = (t : Text) × (v o ≡ some t)

-- An object is constructed once before it is used and destroyed, and `new` gives an address in no
-- use, which may be the one that the assignment has just released.
abbrev pub Allowed : Store → Values → Call → Type 0
Allowed s v (constructs o a none) = (v o ≡ none) × (s.blocks a ≡ none)
Allowed s v (constructs o a (some t)) = (v o ≡ none) × (s.blocks a ≡ none) × IsText t
Allowed s v (copies o a src) = (v o ≡ none) × (s.blocks a ≡ none) × IsAlive v src
Allowed s v (assigns o a src) =
    ((s.blocks a ≡ none) ⊎ (s.m_data o ≡ some a)) × IsAlive v o × IsAlive v src
Allowed s v (destroys o) = IsAlive v o

pub read_text-value :
    (s : Store) (v : Values) (o : ℕ) (t : Text)
    → Represents s v
    → v o ≡ some t
    → read_text s (s.m_data o) ≡ done t
unfolding read_text
read_text-value s v o t r e = let (p, d, c, w) = r.held o t e in rw (d, c, text_in-text t w) refl

-- The field of an object that is not alive does not matter.
forgotten :
    (s : Store) (v : Values)
    → Represents s v
    → (o : ℕ) (x : Option ℕ) → v o ≡ none
    → Represents (record s { m_data = put s.m_data o x }) v
forgotten s v r o x n = record {
  held = λ u t e.
      let (p, d, c, w) = r.held u t e in (p, put_other s.m_data o x u (another u t e) ∙ d, c, w);
  apart = λ u w y z p e f d m.
      r.apart u w y z p e f (sym (put_other s.m_data o x u (another u y e)) ∙ d)
        (sym (put_other s.m_data o x w (another w z f)) ∙ m);
  owned = λ p cells e.
      let (u, t, f, d) = r.owned p cells e in
      (u, t, f, put_other s.m_data o x u (another u t f) ∙ d);
}
  where
    another : (u : ℕ) (t : Text) → v u ≡ some t → o ≢ u
    another u t e same = absurd (cc (same, e, n))

put_twice : (v : Values) (o : ℕ) (x y : Option Text) → put (put v o x) o y ≡ put v o y
put_twice v o x y = λ i u. each u (o == u) refl i
  where
    each :
        (u : ℕ) (b : Bool)
        → (o == u) ≡ b
        → (if b then y else (if o == u then x else v u)) ≡ (if b then y else v u)
    each u true e = refl
    each u false e = rw e refl

new_text-Represents :
    (junk : ℕ) (s : Store) (v : Values)
    → Represents s v
    → (o a : ℕ) (t : Text) → v o ≡ none
    → s.blocks a ≡ none
    → IsText t
    → Represents (new_text junk s o a t) (put v o (some t))
unfolding new_text
new_text-Represents junk s v r o a t n f w =
    rw (new_text, filled_text junk t) (with_text-Represents s v r o a t n f w)

module _ (junk : ℕ) (s : Store) (v : Values) (r : Represents s v) where
  deleted :
      (o p : ℕ) (cells : List ℕ)
      → s.m_data o ≡ some p
      → s.blocks p ≡ some cells
      → delete s (s.m_data o) ≡ done (without_block s p)
  unfolding delete
  deleted o p cells d c = rw (d, c) refl

  destroy-Represents : (o : ℕ) → IsAlive v o → Ends (λ t. Represents t (put v o none)) (destroy s o)
  unfolding destroy
  destroy-Represents o (t, e) =
      let (p, d, c, w) = r.held o t e in
      let q = without_block-Represents s v r o p t e d in
      rw (deleted o p (t ++ 0 ∷ []) d c)
        (ends (forgotten (without_block s p) (put v o none) q o none (put_same v o none)))

  copy-Represents :
      (o a src : ℕ)
      → v o ≡ none
      → s.blocks a ≡ none
      → IsAlive v src
      → Ends (λ t. Represents t (put v o (v src))) (copy junk s o a src)
  unfolding copy
  copy-Represents o a src n f (t, e) =
      let (p, d, c, w) = r.held src t e in
      rw (copy, read_text-value s v src t r e, e)
        (ends (new_text-Represents junk s v r o a t n f w))

  freed_address :
      (o a p : ℕ)
      → (s.blocks a ≡ none) ⊎ (s.m_data o ≡ some a)
      → s.m_data o ≡ some p
      → put s.blocks p none a ≡ none
  freed_address o a p (inl f) d = by_place (p == a)
    where
      by_place : (b : Bool) → (if b then none else s.blocks a) ≡ none
      by_place true = refl
      by_place false = f
  freed_address o a p (inr m) d =
      let same : p ≡ a = cc (m, d) in ap (put s.blocks p none) (sym same) ∙ put_same s.blocks p none

  assign_by :
      (o a src : ℕ) (b : Bool)
      → (o == src) ≡ b
      → (s.blocks a ≡ none) ⊎ (s.m_data o ≡ some a)
      → IsAlive v o
      → IsAlive v src
      → Ends (λ t. Represents t (if b then v else put v o (v src))) (assign junk s o a src)
  unfolding assign
  assign_by o a src true h f x y = rw (assign, h) (ends r)
  assign_by o a src false h f (t, e) (u, g) =
      let (p, d, c, w) = r.held o t e in
      let freed = without_block s p in
      let q = without_block-Represents s v r o p t e d in
      let n : o ≢ src = λ same. ground (arith, h, same) in
      let still : put v o none src ≡ some u = put_other v o none src n ∙ g in
      let (k, m, l, text) = r.held src u g in
      rw
        (
          assign,
          h,
          deleted o p (t ++ 0 ∷ []) d c,
          read_text-value freed (put v o none) src u q still,
          g,
        )
        (ends (
          subst (λ x. Represents (new_text junk freed o a u) x) (put_twice v o none (some u))
            (new_text-Represents junk freed (put v o none) q o a u (put_same v o none)
              (freed_address o a p f d) text)))

pub run_call-Represents :
    (junk : ℕ) (s : Store) (v : Values) (c : Call)
    → Represents s v
    → Allowed s v c
    → Ends (λ t. Represents t (value_call v c)) (run_call junk s c)
unfolding run_call mystring
run_call-Represents junk s v (constructs o a none) r (n, f) =
    ends (with_text-Represents s v r o a [] n f tt)
run_call-Represents junk s v (constructs o a (some t)) r (n, f, w) =
    ends (new_text-Represents junk s v r o a t n f w)
run_call-Represents junk s v (copies o a src) r (n, f, x) = copy-Represents junk s v r o a src n f x
run_call-Represents junk s v (assigns o a src) r (f, x, y) =
    assign_by junk s v r o a src (o == src) refl f x y
run_call-Represents junk s v (destroys o) r x = destroy-Represents junk s v r o x
