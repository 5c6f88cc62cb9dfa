-- ===== src/Sort/Quick/Endless.antt =====
-- my_partition stops both inner loops at a cell that equals its flag, so that a second such cell
-- keeps the outer loop going for ever.
use cpp_study.Base.{
  ℕ, zero, suc, ◌+◌, ◌-◌, ◌≤◌, ◌<◌, ◌≡◌, refl, ap, ==_iff, List, true, arith, lt→ltb, ◌==◌, length,
  set, length-set, Bool-cases, inl, inr,
}
use cpp_study.Base.Int.{ℤ, pos, ltb_ℤ}
use cpp_study.Base.Exec.{timeout, Ends, ends, Ends-value, Ends-weaken}
use cpp_study.Base.Array.{load-done, store-done, get_or-set}
use cpp_study.Sort.Order.{at}
use cpp_study.Sort.Quick.{
  scan_high, scan_low, partition_loop, my_partition, my_quick_sort, quick_sort,
}

-- The scan from the right stops at or after a cell that is not above the flag.
scan_high-stops :
    (flag : ℤ) (low h p : ℕ) (a : List ℤ)
    → h < length a
    → low < p
    → p ≤ h
    → at a p ≡ flag
    → Ends (λ r. (p ≤ r) × (r ≤ h)) (scan_high flag low h a)
unfolding scan_high
scan_high-stops flag low zero p a size l e s = absurd (omega arith)
scan_high-stops flag low (suc h) p a size l e s =
    rw (lt→ltb low (suc h) (omega arith), load-done a (suc h) (pos 0) size)
      (elim (Bool-cases (ltb_ℤ flag (at a (suc h)))) [
        | inl above ↦
            let below : p ≤ h = ground arith in
            rw above (
              Ends-weaken (λ r t. (t.0, omega arith))
                (scan_high-stops flag low h p a (omega arith) l below s))
        | inr stop ↦ rw stop (ends (e, omega arith))
      ])

-- The scan from the left stops at or before a cell that is not below the flag.
scan_low-stops :
    (n : ℕ) (flag : ℤ) (low p : ℕ) (a : List ℤ)
    → low + n ≤ length a
    → low ≤ p
    → p < low + n
    → at a p ≡ flag
    → Ends (λ r. (low ≤ r) × (r ≤ p)) (scan_low n flag low a)
unfolding scan_low
scan_low-stops zero flag low p a size l e s = absurd (omega arith)
scan_low-stops (suc n) flag low p a size l e s =
    rw (load-done a low (pos 0) (omega arith)) (elim (Bool-cases (ltb_ℤ (at a low) flag)) [
      | inl below ↦
          let next : low + 1 ≤ p = ground arith in
          rw below (
            Ends-weaken (λ r t. (omega arith, t.1))
              (scan_low-stops n flag (low + 1) p a (omega arith) next (omega arith) s))
      | inr stop ↦ rw stop (ends (omega arith, l))
    ])

-- After `arr[low] = arr[high]` a cell before `h` equals the flag.
flagged_left :
    (flag : ℤ) (low p h : ℕ) (a : List ℤ)
    → h < length a
    → low < p
    → p ≤ h
    → at a p ≡ flag
    → (q : ℕ) × (low ≤ q) × (q < h) × (at (set a low (at a h)) q ≡ flag)
flagged_left flag low p h a size l e s =
    let get = get_or-set a low in
    elim (Bool-cases (h == p)) [
      | inl t ↦ (
        low,
        omega arith,
        omega arith,
        ground (arith, get low (at a h) (pos 0) (omega arith), eq_at h p a t),
      )
      | inr t ↦ (p, omega arith, ground arith, ground (arith, get p (at a h) (pos 0) (omega arith)))
    ]
  where
    eq_at : (i j : ℕ) (r : List ℤ) → (i == j) ≡ true → at r i ≡ at r j
    eq_at i j r t = ap (at r) ((==_iff i j).0 t)

-- After `arr[high] = arr[low]` a cell after `l` equals the flag.
flagged_right :
    (flag : ℤ) (l q h : ℕ) (b : List ℤ)
    → h < length b
    → l ≤ q
    → q < h
    → at b q ≡ flag
    → (p : ℕ) × (l < p) × (p ≤ h) × (at (set b h (at b l)) p ≡ flag)
flagged_right flag l q h b size l_le q_lt s =
    let get = get_or-set b h in
    elim (Bool-cases (l == q)) [
      | inl t ↦ (
        h,
        omega arith,
        omega arith,
        ground (arith, get h (at b l) (pos 0) size, ap (at b) ((==_iff l q).0 t)),
      )
      | inr t ↦ (q, ground arith, omega arith, ground (arith, get q (at b l) (pos 0) size))
    ]

partition_loop-endless :
    (k : ℕ) (flag : ℤ) (low high p : ℕ) (a : List ℤ)
    → high < length a
    → low < p
    → p ≤ high
    → at a p ≡ flag
    → partition_loop k flag low high a ≡ timeout
unfolding partition_loop
partition_loop-endless zero flag low high p a size l e s = refl
partition_loop-endless (suc k) flag low high p a size l e s =
    let (h, scanned, h_in) = Ends-value (scan_high-stops flag low high p a size l e s) in
    let b : List ℤ = set a low (at a h) in
    let size_b : length b ≡ length a = length-set a low (at a h) in
    let (q, low_le, q_lt, at_q) = flagged_left flag low p h a (omega arith) l h_in.0 s in
    let (r, passed, r_in) =
      Ends-value (scan_low-stops (h - low) flag low q b (omega arith) low_le (omega arith) at_q) in
    let (p', l', e', s') = flagged_right flag r q h b (omega arith) r_in.1 q_lt at_q in
    rw
      (
        lt→ltb low high (omega arith),
        scanned,
        load-done a h (pos 0) (omega arith),
        store-done a low (at a h) (omega arith),
        passed,
        load-done b r (pos 0) (omega arith),
        store-done b h (at b r) (omega arith),
      )
      (partition_loop-endless k flag r h p' (set b h (at b r))
        (omega (arith, length-set b h (at b r))) l' e' s')

-- my_partition never ends on cells `low` to `high` of an array that has them, if one of them after
-- the first equals the first: with any fuel it is still running.
pub my_partition-endless :
    (fuel : ℕ) (arr : List ℤ) (low high p : ℕ)
    → high < length arr
    → low < p
    → p ≤ high
    → at arr p ≡ at arr low
    → my_partition fuel arr low high ≡ timeout
unfolding my_partition
my_partition-endless fuel arr low high p size l e s = rw (
  load-done arr low (pos 0) (omega arith),
  partition_loop-endless fuel (at arr low) low high p arr size l e s,
)

my_quick_sort-endless :
    (fuel : ℕ) (arr : List ℤ) (low high p : ℕ)
    → high < length arr
    → low < p
    → p ≤ high
    → at arr p ≡ at arr low
    → my_quick_sort fuel arr low high ≡ timeout
unfolding my_quick_sort
my_quick_sort-endless zero arr low high p size l e s = refl
my_quick_sort-endless (suc k) arr low high p size l e s =
    rw (lt→ltb low high (omega arith), my_partition-endless (suc k) arr low high p size l e s)

-- quick_sort never ends on an array in which a later cell among the first `cnt` equals the first.
pub quick_sort-endless :
    (fuel : ℕ) (arr : List ℤ) (cnt p : ℕ)
    → cnt ≤ length arr
    → 0 < p
    → p < cnt
    → at arr p ≡ at arr 0
    → quick_sort fuel arr cnt ≡ timeout
unfolding quick_sort
quick_sort-endless fuel arr cnt p size l e s =
    my_quick_sort-endless fuel arr 0 (cnt - 1) p (omega arith) l (omega arith) s
