-- ===== src/Sort/Bubble.antt =====
-- bubble_sort: after round `i` the last `i` cells hold the largest values in order.
use cpp_study.Base.{
  ℕ, zero, suc, ◌+◌, ◌-◌, ◌≤◌, ◌<◌, ◌≡◌, List, arith, if◌then◌else◌, length, length-perm,
  Bool-cases, inl, inr,
}
use cpp_study.Base.Int.{ℤ, pos, ◌≤ℤ◌, ltb_ℤ}
use cpp_study.Base.Exec.{done, Ends, ends, Ends-bind, Ends-weaken}
use cpp_study.Base.Array.{load-done, swap, swap_cells-done, get_or-swap}
use cpp_study.Sort.{compare_swap, bubble_pass, bubble_rounds, bubble_sort}
use cpp_study.Sort.Order.{
  at, IsSortedTo, IsRearranged, IsRearranged-refl, IsRearranged-trans, IsRearranged-swap,
}

-- Every cell from `m` on is at least every cell before it.
abbrev IsTopped : ℕ → ℕ → List ℤ → Type 0
IsTopped cnt m a = (p q : ℕ) → p ≤ q → m ≤ q → q < cnt → at a p ≤ℤ at a q

-- Cell `j` is the largest so far.
abbrev IsPeak : ℕ → List ℤ → Type 0
IsPeak j a = (p : ℕ) → p ≤ j → at a p ≤ℤ at a j

exchange : List ℤ → ℕ → List ℤ
exchange a j = if ltb_ℤ (at a (j + 1)) (at a j) then swap a j (j + 1) (pos 0) else a

compare_swap-done : (a : List ℤ) (j : ℕ) → j + 1 < length a → compare_swap a j ≡ done (exchange a j)
unfolding compare_swap exchange
compare_swap-done a j h =
    rw (load-done a j (pos 0) (omega arith), load-done a (j + 1) (pos 0) h)
      (rw (swap_cells-done a j (j + 1) (pos 0) (omega arith) h) (ground arith))

module _ (cnt : ℕ) (a : List ℤ) (j : ℕ) (hj : j + 1 < cnt) (size : cnt ≤ length a) where
  exchange-IsRearranged : IsRearranged cnt a (exchange a j)
  unfolding exchange
  exchange-IsRearranged = elim (Bool-cases (ltb_ℤ (at a (j + 1)) (at a j))) [
    | inl e ↦ rw e (IsRearranged-swap cnt a j (j + 1) (omega arith) hj size)
    | inr e ↦ rw e (IsRearranged-refl cnt a)
  ]

  exchange-IsPeak : IsPeak j a → IsPeak (j + 1) (exchange a j)
  unfolding exchange
  exchange-IsPeak h p k =
      let get = get_or-swap a j (j + 1) (pos 0) (omega arith) (omega arith) in
      ground (arith, h p, get p, get (j + 1))

  exchange-IsTopped : (m : ℕ) → j + 1 < m → IsTopped cnt m a → IsTopped cnt m (exchange a j)
  unfolding exchange
  exchange-IsTopped m k h p q p_le_q m_le_q q_lt =
      let get = get_or-swap a j (j + 1) (pos 0) (omega arith) (omega arith) in
      ground (arith, h p q, h j q, h (j + 1) q, get p, get q)

length-rearranged : {cnt : ℕ} {a b : List ℤ} → IsRearranged cnt a b → length b ≡ length a
length-rearranged r = length-perm r.same

-- What a pass that fills cell `m` promises.
record IsPassed (cnt m : ℕ) (a b : List ℤ) : Type 0 where
  moved : IsRearranged cnt a b
  topped : IsTopped cnt m b

-- From cell `j` the pass carries the peak up to cell `m`.
bubble_pass-Ends :
    (cnt m n j : ℕ) (a : List ℤ)
    → j + n ≡ m
    → m < cnt
    → cnt ≤ length a
    → IsTopped cnt (m + 1) a
    → IsPeak j a
    → Ends (IsPassed cnt m a) (bubble_pass n j a)
unfolding bubble_pass
bubble_pass-Ends cnt m zero j a e hm size top peak = ends (record {
  moved = IsRearranged-refl cnt a;
  topped = λ p q h k l. ground (arith, top p q, peak p);
})
bubble_pass-Ends cnt m (suc n) j a e hm size top peak =
    let moved = exchange-IsRearranged cnt a j (omega arith) size in
    rw (compare_swap-done a j (omega arith)) (
      Ends-weaken (λ b s. record { moved = IsRearranged-trans moved s.moved; topped = s.topped })
        (bubble_pass-Ends cnt m n (j + 1) (exchange a j) (omega arith) hm
          (omega (arith, length-rearranged moved))
          (exchange-IsTopped cnt a j (omega arith) size (m + 1) (omega arith) top)
          (exchange-IsPeak cnt a j (omega arith) size peak)))

bubble_rounds-Ends :
    (cnt n i : ℕ) (a : List ℤ)
    → i + n ≡ cnt
    → cnt ≤ length a
    → IsTopped cnt n a
    → Ends (IsPassed cnt 0 a) (bubble_rounds n i cnt a)
unfolding bubble_rounds
bubble_rounds-Ends cnt zero i a e size top =
    ends (record { moved = IsRearranged-refl cnt a; topped = top })
bubble_rounds-Ends cnt (suc n) i a e size top =
    let target : cnt - i - 1 ≡ n = omega arith in
    let top' : IsTopped cnt (n + 1) a = λ p q h k l. top p q h (omega arith) l in
    rw target (
      Ends-bind
        (bubble_pass-Ends cnt n n 0 a (omega arith) (omega arith) size top'
          (λ p h. let z : p ≡ 0 = omega arith in rw z (omega arith)))
        λ b s.
          Ends-weaken
            (λ c t. record { moved = IsRearranged-trans s.moved t.moved; topped = t.topped })
            (bubble_rounds-Ends cnt n (i + 1) b (omega arith)
              (omega (arith, length-rearranged s.moved)) s.topped))

-- bubble_sort over the first `cnt` cells of an array that has them stays inside the array, ends,
-- and leaves those cells in ascending order and the array a rearrangement of what it was, the
-- cells from `cnt` on untouched.
pub bubble_sort-sorts :
    (arr : List ℤ) (cnt : ℕ)
    → cnt ≤ length arr
    → Ends (λ b. IsSortedTo cnt b × IsRearranged cnt arr b) (bubble_sort arr cnt)
unfolding bubble_sort
bubble_sort-sorts arr cnt size =
    Ends-weaken (λ b s. (λ p q h k. s.topped p q h (omega arith) k, s.moved))
      (bubble_rounds-Ends cnt cnt 0 arr (omega arith) size (λ p q h k l. absurd (omega arith)))
