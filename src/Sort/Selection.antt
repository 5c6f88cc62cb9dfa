-- ===== src/Sort/Selection.antt =====
-- selection_sort: after round `i` the first `i` cells hold the least values in order.
use cpp_study.Base.{
  ℕ, zero, suc, ◌+◌, ◌-◌, ◌≤◌, ◌<◌, ◌≡◌, List, arith, ◌==◌, if◌then◌else◌, length, length-perm,
  Bool-cases, inl, inr,
}
use cpp_study.Base.Int.{ℤ, pos, ◌≤ℤ◌, ltb_ℤ}
use cpp_study.Base.Exec.{Ends, ends, Ends-bind, Ends-weaken}
use cpp_study.Base.Array.{load-done, swap, swap_cells-done, get_or-swap}
use cpp_study.Sort.{select_least, selection_step, selection_rounds, selection_sort}
use cpp_study.Sort.Order.{
  at, IsSortedTo, IsRearranged, IsRearranged-refl, IsRearranged-trans, IsRearranged-swap,
}

-- Every cell before `m` is at most every cell after it.
abbrev IsSettled : ℕ → ℕ → List ℤ → Type 0
IsSettled cnt m a = (p q : ℕ) → p ≤ q → p < m → q < cnt → at a p ≤ℤ at a q

-- Cell `k` is a least one from `i` up to, but without, `j`.
abbrev IsLeast : ℕ → ℕ → ℕ → List ℤ → Type 0
IsLeast i j k a = (i ≤ k) × (k < j) × ((p : ℕ) → i ≤ p → p < j → at a k ≤ℤ at a p)

next_least : ℕ → ℕ → List ℤ → ℕ
next_least j k a = if ltb_ℤ (at a j) (at a k) then j else k

next_least-IsLeast :
    (i j k : ℕ) (a : List ℤ) → IsLeast i j k a → IsLeast i (j + 1) (next_least j k a) a
unfolding next_least
next_least-IsLeast i j k a h = elim (Bool-cases (ltb_ℤ (at a j) (at a k))) [
  | inl e ↦ rw e (omega arith, omega arith, λ p u v. ground (arith, h.2 p))
  | inr e ↦ rw e (omega arith, omega arith, λ p u v. ground (arith, h.2 p))
]

select_least-Ends :
    (cnt i n j k : ℕ) (a : List ℤ)
    → j + n ≡ cnt
    → cnt ≤ length a
    → IsLeast i j k a
    → Ends (λ r. IsLeast i cnt r a) (select_least n j k a)
unfolding select_least
select_least-Ends cnt i zero j k a e size least =
    let stop : j ≡ cnt = omega arith in ends (rw stop at least)
select_least-Ends cnt i (suc n) j k a e size least =
    rw (load-done a j (pos 0) (omega arith), load-done a k (pos 0) (omega arith))
      (select_least-Ends cnt i n (j + 1) _ a (omega arith) size
        (unfold next_least in (next_least-IsLeast i j k a least)))

-- What round `m` leaves.
record IsRound (cnt m : ℕ) (a b : List ℤ) : Type 0 where
  moved : IsRearranged cnt a b
  settled : IsSettled cnt m b

module _ (cnt i : ℕ) (a : List ℤ) (hi : i < cnt) (size : cnt ≤ length a) where
  swap-IsSettled :
      (k : ℕ) → IsLeast i cnt k a → IsSettled cnt i a → IsSettled cnt (i + 1) (swap a i k (pos 0))
  swap-IsSettled k least h p q p_le_q p_le q_lt =
      let get = get_or-swap a i k (pos 0) (omega arith) (omega arith) in
      ground (arith, h p q, h p i, h p k, least.2 q, least.2 i, get p, get q)

  selection_step-Ends : IsSettled cnt i a → Ends (IsRound cnt (i + 1) a) (selection_step i cnt a)
  unfolding selection_step
  selection_step-Ends h =
      Ends-bind
        (select_least-Ends cnt i (cnt - (i + 1)) (i + 1) i a (omega arith) size
          (omega arith, omega arith, λ p u v. let e : p ≡ i = omega arith in rw e (omega arith)))
        λ k least. elim (Bool-cases (i == k)) [
          | inl e ↦ rw e (
              ends (record {
                moved = IsRearranged-refl cnt a;
                settled = λ p q u v w. ground (arith, h p q, least.2 q);
              }))
          | inr e ↦
              rw (e, swap_cells-done a i k (pos 0) (omega arith) (omega arith))
                (ends (record {
                  moved = IsRearranged-swap cnt a i k hi (omega arith) size;
                  settled = swap-IsSettled k least h;
                }))
        ]

selection_rounds-Ends :
    (cnt n i : ℕ) (a : List ℤ)
    → i + n ≡ cnt
    → cnt ≤ length a
    → IsSettled cnt i a
    → Ends (IsRound cnt cnt a) (selection_rounds n i cnt a)
unfolding selection_rounds
selection_rounds-Ends cnt zero i a e size h =
    ends
      (record { moved = IsRearranged-refl cnt a; settled = λ p q u v w. h p q u (omega arith) w })
selection_rounds-Ends cnt (suc n) i a e size h =
    Ends-bind (selection_step-Ends cnt i a (omega arith) size h) λ b s.
      Ends-weaken
        (λ c t. record { moved = IsRearranged-trans s.moved t.moved; settled = t.settled })
        (selection_rounds-Ends cnt n (i + 1) b (omega arith)
          (omega (arith, length-perm s.moved.same)) s.settled)

-- selection_sort over the first `cnt` cells of an array that has them stays inside the array,
-- ends, and leaves those cells in ascending order and the array a rearrangement of what it was,
-- the cells from `cnt` on untouched.
pub selection_sort-sorts :
    (arr : List ℤ) (cnt : ℕ)
    → cnt ≤ length arr
    → Ends (λ b. IsSortedTo cnt b × IsRearranged cnt arr b) (selection_sort arr cnt)
unfolding selection_sort
selection_sort-sorts arr cnt size =
    Ends-weaken (λ b s. (λ p q h k. s.settled p q h (omega arith) k, s.moved))
      (selection_rounds-Ends cnt cnt 0 arr (omega arith) size (λ p q u v w. absurd (omega arith)))
