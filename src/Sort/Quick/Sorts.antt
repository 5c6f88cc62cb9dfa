-- ===== src/Sort/Quick/Sorts.antt =====
-- quick_sort on distinct values: it ends within fuel above the count of cells, and sorts.
use mathlib.Core.List.Perm
use cpp_study.Base.{
  ℕ, zero, suc, ◌+◌, ◌-◌, ◌≤◌, ◌<◌, ◌≡◌, inl, inr, refl, ◌∙◌, false, List, Perm, arith, ltb, length,
  length-perm, Bool-cases,
}
use cpp_study.Base.Int.{ℤ, ◌≤ℤ◌}
use cpp_study.Base.Exec.{Ends, ends, Ends-weaken, Ends-bind}
use cpp_study.Sort.Order.{at, IsSortedTo, IsRearranged}
use cpp_study.Sort.Quick.{my_quick_sort, quick_sort}
use cpp_study.Sort.Quick.Shuffle.{IsDistinct}
use cpp_study.Sort.Quick.Partition.{IsPartitioned, my_partition-splits}

-- `b` is `a` with the cells from `lo` up to, but without, `end` sorted among themselves.
record IsSortedBetween (lo end : ℕ) (a b : List ℤ) : Type 0 where
  same : Perm b a
  before : (p : ℕ) → p < lo → at b p ≡ at a p
  after : (p : ℕ) → end ≤ p → at b p ≡ at a p
  within : (p : ℕ) → lo ≤ p → p < end → (q : ℕ) × (lo ≤ q) × (q < end) × (at b p ≡ at a q)
  sorted : (p q : ℕ) → lo ≤ p → p ≤ q → q < end → at b p ≤ℤ at b q

IsSortedBetween-short : (lo end : ℕ) (a : List ℤ) → end ≤ lo + 1 → IsSortedBetween lo end a a
IsSortedBetween-short lo end a h = record {
  same = Perm.rfl;
  before = λ p u. refl;
  after = λ p u. refl;
  within = λ p u v. (p, u, v, refl);
  sorted = λ p q u v w. let e : p ≡ q = omega arith in rw e (omega arith);
}

-- A split whose two sides are sorted is sorted.
module _ (low high m : ℕ) (arr a b c : List ℤ) (s : IsPartitioned low high arr (m, a))
    (left : IsSortedBetween low m a b) (right : IsSortedBetween (m + 1) (high + 1) b c) where
  -- Where the value in cell `p` of the result stood after the split: on the same side of `m`.
  abbrev Tracked : ℕ → Type 0
  Tracked p =
      (q : ℕ) × (low ≤ q)
      × (q ≤ high)
      × (at c p ≡ at a q)
      × (p < m → q < m)
      × (p ≡ m → q ≡ m)
      × (m < p → m < q)

  tracked : (p : ℕ) → low ≤ p → p ≤ high → Tracked p
  tracked p u v = elim (Bool-cases (ltb p m)) [
    | inl t ↦
        let p_lt : p < m = ground arith in
        let (q, low_q, q_m, e) = left.within p u p_lt in
        (
          q,
          low_q,
          omega (arith, s.locate_hi),
          right.before p (omega arith) ∙ e,
          λ z. q_m,
          λ z. absurd (omega arith),
          λ z. absurd (omega arith),
        )
    | inr t ↦ elim (Bool-cases (ltb m p)) [
      | inl t' ↦
          let m_lt : m < p = ground arith in
          let (q, m_q, q_end, e) = right.within p (omega arith) (omega arith) in
          (
            q,
            omega (arith, s.lo_locate),
            omega arith,
            e ∙ left.after q (omega arith),
            λ z. absurd (omega arith),
            λ z. absurd (omega arith),
            λ z. omega arith,
          )
      | inr t' ↦
          let e : p ≡ m = ground arith in
          (
            p,
            u,
            v,
            right.before p (omega arith) ∙ left.after p (omega arith),
            λ z. absurd (omega arith),
            λ z. e,
            λ z. absurd (omega arith),
          )
    ]
  ]

  joined_ascends : (p q : ℕ) → low ≤ p → p ≤ q → q ≤ high → at c p ≤ℤ at c q
  joined_ascends p q u v w =
      let (p', low_p, p_high, e, p_left, p_mid, p_right) = tracked p u (omega arith) in
      let (q', low_q, q_high, e', q_left, q_mid, q_right) = tracked q (omega arith) w in
      ground (
        arith,
        left.sorted p q,
        right.before p,
        right.before q,
        right.sorted p q,
        s.lower p',
        s.upper q',
      )

  joined : IsSortedBetween low (high + 1) arr c
  joined = record {
    same = Perm.trans right.same (Perm.trans left.same s.shuffled.same);
    before = λ p u.
        right.before p (omega (arith, s.lo_locate)) ∙ left.before p u ∙ s.shuffled.before p u;
    after = λ p u.
        right.after p u
        ∙ left.after p (omega (arith, s.locate_hi))
        ∙ s.shuffled.after p (omega arith);
    within = λ p u v.
        let t = tracked p u (omega arith) in
        let (r, low_r, r_high, e) = s.shuffled.within t.0 t.1 t.2 in
        (r, low_r, omega arith, t.3 ∙ e);
    sorted = λ p q u v w. joined_ascends p q u v (omega arith);
  }

-- The call on the left part: with `locate` at 0 its range is one cell, and nothing is done.
left_part :
    (k low m : ℕ) (a : List ℤ)
    → 0 < k
    → low ≤ m
    → (0 < m → Ends (IsSortedBetween low (m - 1 + 1) a) (my_quick_sort k a low (m - 1)))
    → Ends (IsSortedBetween low m a) (my_quick_sort k a low (m - 1))
unfolding my_quick_sort
left_part zero low m a f l run = absurd (omega arith)
left_part (suc k) low zero a f l run =
    let e : ltb low 0 ≡ false = ground arith in
    rw e (ends (IsSortedBetween-short low 0 a (omega arith)))
left_part (suc k) low (suc m) a f l run =
    let e : suc m - 1 + 1 ≡ suc m = omega arith in rw e at (run (omega arith))

my_quick_sort-Ends :
    (k : ℕ) (arr : List ℤ) (low high : ℕ)
    → high < length arr
    → high + 1 - low < k
    → IsDistinct low high arr
    → Ends (IsSortedBetween low (high + 1) arr) (my_quick_sort k arr low high)
unfolding my_quick_sort
my_quick_sort-Ends zero arr low high size enough d = absurd (omega arith)
my_quick_sort-Ends (suc k) arr low high size enough d = elim (Bool-cases (ltb low high)) [
  | inr t ↦ rw t (ends (IsSortedBetween-short low (high + 1) arr (ground arith)))
  | inl t ↦
      let test : low < high = ground arith in
      rw t (
        Ends-bind (my_partition-splits (suc k) arr low high (omega arith) size (omega arith) d)
          λ r s.
            let (m, a) = r in
            Ends-bind
              (left_part k low m a (omega arith) s.lo_locate λ pos_m.
                my_quick_sort-Ends k a low (m - 1)
                  (omega (arith, s.locate_hi, length-perm s.shuffled.same))
                  (omega (arith, s.locate_hi, s.lo_locate))
                  (λ p q u v w x n.
                    s.shuffled.distinct d p q u (omega (arith, s.locate_hi)) w
                      (omega (arith, s.locate_hi)) n))
              λ b left.
                Ends-weaken (λ c right. joined low high m arr a b c s left right)
                  (my_quick_sort-Ends k b (m + 1) high (omega (arith, sizes m a b s left))
                    (omega (arith, s.lo_locate))
                    (λ p q u v w x n.
                      rw (left.after p (omega arith), left.after q (omega arith))
                        (s.shuffled.distinct d p q (omega (arith, s.lo_locate)) v
                          (omega (arith, s.lo_locate)) x n))))
]
  where
    sizes :
        (m : ℕ) (a b : List ℤ)
        → IsPartitioned low high arr (m, a)
        → IsSortedBetween low m a b
        → high < length b
    sizes m a b s left = omega (arith, length-perm left.same, length-perm s.shuffled.same)

-- quick_sort over the first `cnt` cells of an array that has them, at least one of them, with no two of these cells
-- equal, stays inside the array, ends with any fuel above `cnt`, and leaves those cells in
-- ascending order and the array a rearrangement of what it was, the cells from `cnt` on untouched.
pub quick_sort-sorts :
    (fuel : ℕ) (arr : List ℤ) (cnt : ℕ)
    → 0 < cnt
    → cnt ≤ length arr
    → cnt < fuel
    → IsDistinct 0 (cnt - 1) arr
    → Ends (λ b. IsSortedTo cnt b × IsRearranged cnt arr b) (quick_sort fuel arr cnt)
unfolding quick_sort
quick_sort-sorts fuel arr cnt some_cells size enough d =
    Ends-weaken
      (λ b s. (
        λ p q u v. s.sorted p q (omega arith) u (omega arith),
        record { same = s.same; beyond = λ p u. s.after p (omega arith) },
      ))
      (my_quick_sort-Ends fuel arr 0 (cnt - 1) (omega arith) (omega arith) d)
