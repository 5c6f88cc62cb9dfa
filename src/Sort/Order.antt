-- ===== src/Sort/Order.antt =====
-- What a sort of the first `cnt` cells promises, and how a swap keeps it.
use mathlib.Core.List.Perm
use cpp_study.Base.{ℕ, ◌≤◌, ◌<◌, ◌≡◌, refl, ◌∙◌, List, Perm, arith, get_or}
use cpp_study.Base.Int.{ℤ, pos, ◌≤ℤ◌}
use cpp_study.Base.Array.{swap, get_or-swap, swap-perm}
use cpp_study.Base.{length}

abbrev pub at : List ℤ → ℕ → ℤ
at a i = get_or a i (pos 0)

-- The cells below `cnt` ascend.
abbrev pub IsSortedTo : ℕ → List ℤ → Type 0
IsSortedTo cnt a = (p q : ℕ) → p ≤ q → q < cnt → at a p ≤ℤ at a q

-- `b` holds the cells of `a` in another order, and from `cnt` on in the same one.
pub record IsRearranged (cnt : ℕ) (a b : List ℤ) : Type 0 where
  pub same : Perm b a
  pub beyond : (p : ℕ) → cnt ≤ p → at b p ≡ at a p

pub IsRearranged-refl : (cnt : ℕ) (a : List ℤ) → IsRearranged cnt a a
IsRearranged-refl cnt a = record { same = Perm.rfl; beyond = λ p h. refl }

pub IsRearranged-trans :
    {cnt : ℕ} {a b c : List ℤ} → IsRearranged cnt a b → IsRearranged cnt b c → IsRearranged cnt a c
IsRearranged-trans r s = record {
  same = Perm.trans s.same r.same;
  beyond = λ p h. s.beyond p h ∙ r.beyond p h;
}

pub IsRearranged-swap :
    (cnt : ℕ) (a : List ℤ) (i j : ℕ)
    → i < cnt
    → j < cnt
    → cnt ≤ length a
    → IsRearranged cnt a (swap a i j (pos 0))
IsRearranged-swap cnt a i j hi hj h = record {
  same = swap-perm a i j (pos 0) (omega arith) (omega arith);
  beyond = λ p k. ground (arith, get_or-swap a i j (pos 0) (omega arith) (omega arith) p);
}
