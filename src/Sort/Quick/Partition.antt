-- ===== src/Sort/Quick/Partition.antt =====
-- my_partition on distinct cells: it ends, and splits the cells around the first one.
use cpp_study.Base.{
  ℕ, zero, suc, ◌+◌, ◌-◌, ◌≤◌, ◌<◌, ◌≡◌, ◌≢◌, ◌==◌, inl, inr, refl, List, arith, ltb, if◌then◌else◌,
  length, set, length-set, Bool-cases,
}
use cpp_study.Base.Int.{ℤ, pos, ◌<ℤ◌, ltb_ℤ}
use cpp_study.Base.Exec.{Ends, ends, Ends-value, Ends-weaken, Ends-bind}
use cpp_study.Base.Array.{load-done, store-done, get_or-set}
use cpp_study.Sort.Order.{at}
use cpp_study.Sort.Quick.{scan_high, scan_low, partition_loop, my_partition}
use cpp_study.Sort.Quick.Shuffle.{
  IsApart, IsDistinct, IsShuffled, IsShuffled-trans, IsShuffled-swap, IsShuffled-refl, move_open,
}

scan_high-Ends :
    (flag : ℤ) (low h : ℕ) (a : List ℤ)
    → h < length a
    → low ≤ h
    → Ends
        (λ r.
          (low ≤ r)
          × (r ≤ h)
          × ((p : ℕ) → r < p → p ≤ h → flag <ℤ at a p)
          × (low < r → ¬ (flag <ℤ at a r)))
        (scan_high flag low h a)
unfolding scan_high
scan_high-Ends flag low zero a size l =
    ends (l, omega arith, λ p u v. absurd (omega arith), λ u. absurd (omega arith))
scan_high-Ends flag low (suc h) a size l = elim (Bool-cases (ltb low (suc h))) [
  | inr t ↦ rw t (ends (l, omega arith, λ p u v. absurd (omega arith), λ u. absurd (ground arith)))
  | inl t ↦
      rw (t, load-done a (suc h) (pos 0) size)
        (elim (Bool-cases (ltb_ℤ flag (at a (suc h)))) [
          | inl above ↦ rw above (
              Ends-weaken (λ r s. (s.0, omega arith, λ p u v. ground (arith, s.2 p), s.3))
                (scan_high-Ends flag low h a (omega arith) (ground arith)))
          | inr stop ↦
              rw stop (ends (l, omega arith, λ p u v. absurd (omega arith), λ u. ground arith))
        ])
]

scan_low-Ends :
    (n : ℕ) (flag : ℤ) (low high : ℕ) (a : List ℤ)
    → low + n ≡ high
    → high ≤ length a
    → Ends
        (λ r.
          (low ≤ r)
          × (r ≤ high)
          × ((p : ℕ) → low ≤ p → p < r → at a p <ℤ flag)
          × (r < high → ¬ (at a r <ℤ flag)))
        (scan_low n flag low a)
unfolding scan_low
scan_low-Ends zero flag low high a e size =
    ends (omega arith, omega arith, λ p u v. absurd (omega arith), λ u. absurd (omega arith))
scan_low-Ends (suc n) flag low high a e size =
    rw (load-done a low (pos 0) (omega arith)) (elim (Bool-cases (ltb_ℤ (at a low) flag)) [
      | inl below ↦ rw below (
          Ends-weaken (λ r s. (omega arith, s.1, λ p u v. ground (arith, s.2 p), s.3))
            (scan_low-Ends n flag (low + 1) high a (omega arith) size))
      | inr stop ↦
          rw stop
            (ends (omega arith, omega arith, λ p u v. absurd (omega arith), λ u. ground arith))
    ])

-- Between two rounds: cell `low` of `a` is open, and the flag belongs into it.
record IsSplit (lo hi : ℕ) (flag : ℤ) (arr : List ℤ) (low high : ℕ) (a : List ℤ) : Type 0 where
  size : length a ≡ length arr
  lo_low : lo ≤ low
  low_high : low ≤ high
  high_hi : high ≤ hi
  shuffled : IsShuffled lo hi arr (set a low flag)
  lower : (p : ℕ) → lo ≤ p → p < low → at a p <ℤ flag
  upper : (p : ℕ) → high < p → p ≤ hi → flag <ℤ at a p
  clear : (p : ℕ) → lo ≤ p → p ≤ hi → p ≢ low → IsApart (at a p) flag

-- One round, with the scans stopped at `h` and `l`.
module _ (lo hi : ℕ) (flag : ℤ) (arr : List ℤ) (hi_lt : hi < length arr) (low high : ℕ) (a : List ℤ)
    (s : IsSplit lo hi flag arr low high a) (h l : ℕ) (low_h : low ≤ h) (h_high : h ≤ high)
    (low_l : low ≤ l) (l_h : l ≤ h) where
  open_right : List ℤ
  open_right = set a low (at a h)

  open_left : List ℤ
  unfolding open_right
  open_left = set open_right h (at open_right l)

  at-open_right : (p : ℕ) → at open_right p ≡ (if low == p then at a h else at a p)
  unfolding open_right
  at-open_right p = get_or-set a low p (at a h) (pos 0) (omega (arith, s.size))

  at-open_left : (p : ℕ) → at open_left p ≡ (if h == p then at open_right l else at open_right p)
  unfolding open_left
  at-open_left p =
      get_or-set (set a low (at a h)) h p (at (set a low (at a h)) l) (pos 0)
        (omega (arith, s.size, length-set a low (at a h)))

  length-open_right : length open_right ≡ length arr
  unfolding open_right
  length-open_right = omega (arith, length-set a low (at a h), s.size)

  length-open_left : length open_left ≡ length arr
  unfolding open_left
  length-open_left = omega (
    arith,
    length-set (set a low (at a h)) h (at (set a low (at a h)) l),
    length-set a low (at a h),
    s.size,
  )

  open_left-IsShuffled : IsShuffled lo hi arr (set open_left l flag)
  unfolding open_left
  open_left-IsShuffled =
      let b = set a low (at a h) in
      let size_b : length b ≡ length arr = omega (arith, length-set a low (at a h), s.size) in
      let right : IsShuffled lo hi arr (set b h flag) =
        rw (move_open a low h flag (omega (arith, s.size)) (omega (arith, s.size))) (
          IsShuffled-trans s.shuffled (
            IsShuffled-swap lo hi low h (set a low flag)
              (omega (arith, s.size, length-set a low flag)) s.lo_low (omega arith) (omega arith)
              (omega arith))) in
      rw (move_open b h l flag (omega arith) (omega arith)) (
        IsShuffled-trans right (
          IsShuffled-swap lo hi h l (set b h flag) (omega (arith, length-set b h flag))
            (omega arith) (omega arith) (omega arith) (omega arith)))

  module _ (test : low < high) (above : (p : ℕ) → h < p → p ≤ high → flag <ℤ at a p)
      (stop_h : low < h → ¬ (flag <ℤ at a h))
      (below : (p : ℕ) → low ≤ p → p < l → at open_right p <ℤ flag)
      (stop_l : l < h → ¬ (at open_right l <ℤ flag)) where
    round-IsSplit : IsSplit lo hi flag arr l h open_left
    round-IsSplit = record {
      size = length-open_left;
      lo_low = omega arith;
      low_high = l_h;
      high_hi = omega arith;
      shuffled = open_left-IsShuffled;
      lower = λ p u v. ground (arith, at-open_left p, at-open_right p, below p, s.lower p);
      upper = λ p u v. ground (arith, at-open_left p, at-open_right p, above p, s.upper p);
      clear = λ p u v n. ground (
        arith,
        at-open_left p,
        at-open_right p,
        at-open_right l,
        s.clear h,
        s.clear l,
        s.clear p,
      );
    }

    round_narrows : h - l < high - low
    round_narrows =
        ground (arith, at-open_right l, s.clear high (omega arith) (omega arith), stop_h, stop_l)

-- What my_partition leaves: the flag at `locate`, smaller cells before it and larger ones after it.
pub record IsPartitioned (lo hi : ℕ) (arr : List ℤ) (r : ℕ × List ℤ) : Type 0 where
  pub lo_locate : lo ≤ r.0
  pub locate_hi : r.0 ≤ hi
  pub shuffled : IsShuffled lo hi arr r.1
  pub lower : (p : ℕ) → lo ≤ p → p < r.0 → at r.1 p <ℤ at r.1 r.0
  pub upper : (p : ℕ) → r.0 < p → p ≤ hi → at r.1 r.0 <ℤ at r.1 p

-- The outer loop closes the range: its result is a split at one cell.
partition_loop-Ends :
    (k lo hi : ℕ) (flag : ℤ) (arr : List ℤ)
    → hi < length arr
    → (low high : ℕ) (a : List ℤ) → high - low < k
    → IsSplit lo hi flag arr low high a
    → Ends (λ r. IsSplit lo hi flag arr r.0 r.0 r.1) (partition_loop k flag low high a)
unfolding partition_loop open_right open_left
partition_loop-Ends zero lo hi flag arr size low high a fuel s = absurd (omega arith)
partition_loop-Ends (suc k) lo hi flag arr size low high a fuel s =
    elim (Bool-cases (ltb low high)) [
      | inr t ↦ let e : high ≡ low = ground (arith, s.low_high) in rw t (ends (rw e at s))
      | inl t ↦
          let test : low < high = ground arith in
          let (h, scanned, (low_h, h_high, above, stop_h)) =
            Ends-value (scan_high-Ends flag low high a (omega (arith, s.size)) s.low_high) in
          let b : List ℤ = set a low (at a h) in
          let size_b : length b ≡ length a = length-set a low (at a h) in
          let (l, passed, (low_l, l_h, below, stop_l)) =
            Ends-value
              (scan_low-Ends (h - low) flag low h b (omega arith) (omega (arith, s.size))) in
          let next =
            round-IsSplit lo hi flag arr size low high a s h l low_h h_high low_l l_h test above
              stop_h below stop_l in
          let narrows =
            round_narrows lo hi flag arr size low high a s h l low_h h_high low_l l_h test above
              stop_h below stop_l in
          rw
            (
              t,
              scanned,
              load-done a h (pos 0) (omega (arith, s.size)),
              store-done a low (at a h) (omega (arith, s.size)),
              passed,
              load-done b l (pos 0) (omega (arith, s.size)),
              store-done b h (at b l) (omega (arith, s.size)),
            )
            (partition_loop-Ends k lo hi flag arr size l h (set b h (at b l)) (omega arith) next)
    ]

-- my_partition ends on distinct cells `low` to `high` of an array that has them. It returns the
-- place of the value that was first, with every smaller cell before it and every larger one after
-- it, moves cells within `low` to `high` only, and keeps them distinct.
pub my_partition-splits :
    (fuel : ℕ) (arr : List ℤ) (low high : ℕ)
    → low ≤ high
    → high < length arr
    → high - low < fuel
    → IsDistinct low high arr
    → Ends (IsPartitioned low high arr) (my_partition fuel arr low high)
unfolding my_partition
my_partition-splits fuel arr low high l size enough d =
    let flag = at arr low in
    let start : IsSplit low high flag arr low high arr = record {
      size = refl;
      lo_low = omega arith;
      low_high = l;
      high_hi = omega arith;
      shuffled = IsShuffled-refl low high arr low (omega arith);
      lower = λ p u v. absurd (omega arith);
      upper = λ p u v. absurd (omega arith);
      clear = λ p u v n. d p low u v (omega arith) l n;
    } in
    rw (load-done arr low (pos 0) (omega arith)) (
      Ends-bind (partition_loop-Ends fuel low high flag arr size low high arr enough start) λ r s.
        let at_place : (p : ℕ) → at (set r.1 r.0 flag) p ≡ (if r.0 == p then flag else at r.1 p) =
          λ p. get_or-set r.1 r.0 p flag (pos 0) (omega (arith, s.size, s.high_hi)) in
        rw (store-done r.1 r.0 flag (omega (arith, s.size, s.high_hi))) (
          ends (record {
            lo_locate = s.lo_low;
            locate_hi = s.high_hi;
            shuffled = s.shuffled;
            lower = λ p u v. ground (arith, at_place p, at_place r.0, s.lower p);
            upper = λ p u v. ground (arith, at_place p, at_place r.0, s.upper p);
          })))
