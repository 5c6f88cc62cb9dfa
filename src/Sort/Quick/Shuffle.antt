-- ===== src/Sort/Quick/Shuffle.antt =====
-- Rearrangements of the cells `lo` to `hi`, one swap at a time. my_partition keeps its flag out of
-- the array: with the flag put back, a move of the open cell is a swap.
use mathlib.Core.List.Perm
use cpp_study.Base.{
  ℕ, zero, suc, ◌≤◌, ◌<◌, ◌≡◌, ◌≢◌, ◌⊎◌, inl, inr, refl, ap, ◌∙◌, List, [], ◌∷◌, Perm, arith, ◌==◌,
  ==_iff, if◌then◌else◌, length, set, get_or, Bool-cases,
}
use cpp_study.Base.Int.{ℤ, pos, ◌<ℤ◌}
use cpp_study.Base.Array.{swap, get_or-swap, swap-perm, get_or-set}
use cpp_study.Sort.Order.{at}

abbrev pub IsApart : ℤ → ℤ → Type 0
IsApart x y = (x <ℤ y) ⊎ (y <ℤ x)

-- No two of the cells `lo` to `hi` are equal.
abbrev pub IsDistinct : ℕ → ℕ → List ℤ → Type 0
IsDistinct lo hi a =
    (p q : ℕ) → lo ≤ p → p ≤ hi → lo ≤ q → q ≤ hi → p ≢ q → IsApart (at a p) (at a q)

-- A cell among `lo` to `hi` of `a` that holds the value `x`.
abbrev pub Source : ℕ → ℕ → List ℤ → ℤ → Type 0
Source lo hi a x = (q : ℕ) × (lo ≤ q) × (q ≤ hi) × (x ≡ at a q)

pub record IsShuffled (lo hi : ℕ) (a b : List ℤ) : Type 0 where
  pub same : Perm b a
  pub before : (p : ℕ) → p < lo → at b p ≡ at a p
  pub after : (p : ℕ) → hi < p → at b p ≡ at a p
  pub within : (p : ℕ) → lo ≤ p → p ≤ hi → Source lo hi a (at b p)
  pub distinct : IsDistinct lo hi a → IsDistinct lo hi b

pub IsShuffled-trans :
    {lo hi : ℕ} {a b c : List ℤ}
    → IsShuffled lo hi a b
    → IsShuffled lo hi b c
    → IsShuffled lo hi a c
IsShuffled-trans r s = record {
  same = Perm.trans s.same r.same;
  before = λ p h. s.before p h ∙ r.before p h;
  after = λ p h. s.after p h ∙ r.after p h;
  within = λ p h k.
      let (q, h', k', e) = s.within p h k in
      let (q', h'', k'', e') = r.within q h' k' in (q', h'', k'', e ∙ e');
  distinct = λ d. s.distinct (r.distinct d);
}

module _ (lo hi i j : ℕ) (a : List ℤ) (size : hi < length a) (lo_i : lo ≤ i) (i_hi : i ≤ hi)
    (lo_j : lo ≤ j) (j_hi : j ≤ hi) where
  swapped :
      (c : ℕ)
      → at (swap a i j (pos 0)) c ≡ (if j == c then at a i else if i == c then at a j else at a c)
  swapped c = get_or-swap a i j (pos 0) (omega arith) (omega arith) c

  -- The cell that the swap takes to `p`.
  origin : ℕ → ℕ
  origin p = if j == p then i else if i == p then j else p

  origin_lem : (p : ℕ) → at (swap a i j (pos 0)) p ≡ at a (origin p)
  unfolding origin
  origin_lem p = rw (swapped p) (ground arith)

  origin_within : (p : ℕ) → lo ≤ p → p ≤ hi → (lo ≤ origin p) × (origin p ≤ hi)
  unfolding origin
  origin_within p h k = ground arith

  origin_injective : (p q : ℕ) → p ≢ q → origin p ≢ origin q
  unfolding origin
  origin_injective p q h = ground arith

  pub IsShuffled-swap : IsShuffled lo hi a (swap a i j (pos 0))
  IsShuffled-swap = record {
    same = swap-perm a i j (pos 0) (omega arith) (omega arith);
    before = λ p h. ground (arith, swapped p);
    after = λ p h. ground (arith, swapped p);
    within = λ p h k. (origin p, (origin_within p h k).0, (origin_within p h k).1, origin_lem p);
    distinct = λ d p q h k h' k' n.
        rw (origin_lem p, origin_lem q)
          (d (origin p) (origin q) (origin_within p h k).0 (origin_within p h k).1
            (origin_within q h' k').0 (origin_within q h' k').1 (origin_injective p q n));
  }

set-set {ℓ} : {A : Type ℓ} (a : List A) (i : ℕ) (v w : A) → set (set a i v) i w ≡ set a i w
set-set [] i v w = refl
set-set (x ∷ a) zero v w = refl
set-set (x ∷ a) (suc i) v w = ap (◌∷◌ x) (set-set a i v w)

-- `arr[i] = arr[j]` moves the open cell from `i` to `j`.
pub move_open :
    (a : List ℤ) (i j : ℕ) (flag : ℤ)
    → i < length a
    → j < length a
    → set (set a i (at a j)) j flag ≡ swap (set a i flag) i j (pos 0)
unfolding swap
move_open a i j flag hi hj =
    let at_i : at (set a i flag) i ≡ flag = ground (arith, get_or-set a i i flag (pos 0) hi) in
    elim (Bool-cases (i == j)) [
      | inl t ↦ let e : i ≡ j = (==_iff i j).0 t in rw (← e) (simp (at_i, set-set))
      | inr t ↦
          let at_j : at (set a i flag) j ≡ at a j =
            ground (arith, get_or-set a i j flag (pos 0) hi) in
          simp (at_i, at_j, set-set)
    ]

set-get {ℓ} : {A : Type ℓ} (a : List A) (i : ℕ) (d : A) → i < length a → set a i (get_or a i d) ≡ a
set-get [] i d h = refl
set-get (x ∷ a) zero d h = refl
set-get (x ∷ a) (suc i) d h = ap (◌∷◌ x) (set-get a i d (omega arith))

-- To write back what a cell holds changes nothing.
pub IsShuffled-refl :
    (lo hi : ℕ) (a : List ℤ) (i : ℕ) → i < length a → IsShuffled lo hi a (set a i (at a i))
IsShuffled-refl lo hi a i h = rw (set-get a i (pos 0) h) (record {
  same = Perm.rfl;
  before = λ p u. refl;
  after = λ p u. refl;
  within = λ p u v. (p, u, v, refl);
  distinct = λ d. d;
})
