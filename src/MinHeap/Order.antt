-- ===== src/MinHeap/Order.antt =====
-- The heap order, and what a heap holds.
use mathlib.Core.List.Perm
use cpp_study.Base.{
  ℕ, zero, suc, ◌≤◌, ◌<◌, ◌≡◌, refl, List, Perm, arith, get_or, take, length, length-take,
}
use cpp_study.Base.Int.{ℤ, pos, ◌≤ℤ◌}
use cpp_study.Base.Array.{swap, swap-perm, take-swap, length-swap}
use cpp_study.MinHeap.{MinHeap, parent}

abbrev pub at : List ℤ → ℕ → ℤ
at a i = get_or a i (pos 0)

-- No cell among the first `n` is below its parent.
abbrev pub IsOrdered : ℕ → List ℤ → Type 0
IsOrdered n a = (c : ℕ) → 0 < c → c < n → at a (parent c) ≤ℤ at a c

pub record IsHeap (h : MinHeap) : Type 0 where
  pub ordered : IsOrdered h.size h.content
  pub fits : h.size ≤ h.capacity
  pub allocated : length h.content ≡ h.capacity

-- The values in the heap.
abbrev pub items : MinHeap → List ℤ
items h = take h.size h.content

-- `b` has the length of `a` and, in its first `n` cells, the same values.
pub record IsPermuted (n : ℕ) (a b : List ℤ) : Type 0 where
  pub long : length b ≡ length a
  pub same : Perm (take n b) (take n a)

pub IsPermuted-refl : (n : ℕ) (a : List ℤ) → IsPermuted n a a
IsPermuted-refl n a = record { long = refl; same = Perm.rfl }

pub IsPermuted-swap :
    (n : ℕ) (a b : List ℤ) (i j : ℕ)
    → i < n
    → j < n
    → n ≤ length a
    → IsPermuted n (swap a i j (pos 0)) b
    → IsPermuted n a b
IsPermuted-swap n a b i j hi hj size p = record {
  long = omega (arith, p.long, length-swap a i j (pos 0));
  same = Perm.trans p.same (
      rw (take-swap n a i j (pos 0) hi hj) (
        swap-perm (take n a) i j (pos 0) (omega (arith, length-take n a))
          (omega (arith, length-take n a))));
}

root_least_below : (k n : ℕ) (a : List ℤ) (i : ℕ) → IsOrdered n a → i < k → i < n → at a 0 ≤ℤ at a i
root_least_below zero n a i h f p = absurd (omega arith)
root_least_below (suc k) n a i h f p = ground (arith, h i, root_least_below k n a (parent i) h)

-- No cell of a heap is below the first.
pub root_least : (n : ℕ) (a : List ℤ) (i : ℕ) → IsOrdered n a → i < n → at a 0 ≤ℤ at a i
root_least n a i h p = root_least_below (suc i) n a i h (omega arith) p
