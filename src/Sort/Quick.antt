-- ===== src/Sort/Quick.antt =====
-- quick_sort, my_quick_sort and my_partition. The recursion and the outer loop of my_partition take
-- fuel; the inner loops recur on the cells that are left between `low` and `high`.
-- An index is a natural number: `locate - 1` and `cnt - 1` stop at 0 here, where the code has -1,
-- and with `low` at 0 both make the test `low < high` fail.
pub mod Endless
pub mod Shuffle
pub mod Partition
pub mod Sorts
use cpp_study.Base.{ℕ, zero, suc, ◌+◌, ◌-◌, List, ltb, if◌then◌else◌}
use cpp_study.Base.Int.{ℤ, ltb_ℤ}
use cpp_study.Base.Exec.{Exec, done, timeout, ◌>>=◌}
use cpp_study.Base.Array.{load, store}

-- `while (low < high && flag < arr[high]) high--;`
scan_high : ℤ → ℕ → ℕ → List ℤ → Exec ℕ
scan_high flag low zero a = done zero
scan_high flag low (suc h) a =
    let rest = scan_high flag low h a in
    let test = load a (suc h) >>= λ x. if ltb_ℤ flag x then rest else done (suc h) in
    if ltb low (suc h) then test else done (suc h)

-- `while (low < high && flag > arr[low]) low++;`, with `high - low` rounds left
scan_low : ℕ → ℤ → ℕ → List ℤ → Exec ℕ
scan_low zero flag low a = done low
scan_low (suc n) flag low a =
    let rest = scan_low n flag (low + 1) a in
    load a low >>= λ x. if ltb_ℤ x flag then rest else done low

-- The outer loop of my_partition, with the last `low` and the array that it leaves.
partition_loop : ℕ → ℤ → ℕ → ℕ → List ℤ → Exec (ℕ × List ℤ)
partition_loop zero flag low high a = timeout
partition_loop (suc k) flag low high a =
    let round : Exec (ℕ × List ℤ) = do
      h ← scan_high flag low high a
      x ← load a h
      b ← store a low x
      l ← scan_low (h - low) flag low b
      y ← load b l
      c ← store b h y
      partition_loop k flag l h c
    in if ltb low high then round else done (low, a)

pub my_partition : ℕ → List ℤ → ℕ → ℕ → Exec (ℕ × List ℤ)
my_partition fuel arr low high = do
  flag ← load arr low
  (l, a) ← partition_loop fuel flag low high arr
  b ← store a l flag
  done (l, b)

pub my_quick_sort : ℕ → List ℤ → ℕ → ℕ → Exec (List ℤ)
my_quick_sort zero arr low high = timeout
my_quick_sort (suc k) arr low high =
    let run : Exec (List ℤ) = do
      (locate, a) ← my_partition (suc k) arr low high
      b ← my_quick_sort k a low (locate - 1)
      my_quick_sort k b (locate + 1) high
    in if ltb low high then run else done arr

unfoldable pub quick_sort : ℕ → List ℤ → ℕ → Exec (List ℤ)
unfolding my_quick_sort my_partition partition_loop scan_low scan_high load store
quick_sort fuel arr cnt = my_quick_sort fuel arr 0 (cnt - 1)
