-- ===== src/Sort.antt =====
-- wzq_study/sort.cpp: three sorts of an `int` array in place. An array is a list of integers with
-- checked reads and writes; `cnt` is the count of its cells that are sorted. What the functions
-- print before and after is left out.
pub mod Order
pub mod Bubble
pub mod Selection
pub mod Quick
use cpp_study.Base.{ℕ, zero, suc, ◌+◌, ◌-◌, ◌<◌, List, arith, ltb, ◌==◌, ◌&&◌, if◌then◌else◌}
use cpp_study.Base.Int.{ℤ, ltb_ℤ}
use cpp_study.Base.Exec.{Exec, done, timeout, ◌>>=◌}
use cpp_study.Base.Array.{load, store, swap_cells}

-- The body of the inner loop of bubble_sort.
compare_swap : List ℤ → ℕ → Exec (List ℤ)
compare_swap a j = do
  x ← load a j
  y ← load a (j + 1)
  if ltb_ℤ y x then swap_cells a j (j + 1) else done a

-- The inner loop from `j`, with the rounds that are left.
bubble_pass : ℕ → ℕ → List ℤ → Exec (List ℤ)
bubble_pass zero j a = done a
bubble_pass (suc n) j a = compare_swap a j >>= bubble_pass n (j + 1)

-- The outer loop from `i`, with the rounds that are left.
bubble_rounds : ℕ → ℕ → ℕ → List ℤ → Exec (List ℤ)
bubble_rounds zero i cnt a = done a
bubble_rounds (suc n) i cnt a = bubble_pass (cnt - i - 1) 0 a >>= bubble_rounds n (i + 1) cnt

unfoldable pub bubble_sort : List ℤ → ℕ → Exec (List ℤ)
unfolding bubble_rounds bubble_pass compare_swap load store swap_cells
bubble_sort arr cnt = bubble_rounds cnt 0 cnt arr

-- The inner loop of selection_sort from `j`: the index of the least cell so far is `k`.
select_least : ℕ → ℕ → ℕ → List ℤ → Exec ℕ
select_least zero j k a = done k
select_least (suc n) j k a = do
  x ← load a j
  y ← load a k
  select_least n (j + 1) (if ltb_ℤ x y then j else k) a

-- One round of the outer loop of selection_sort.
selection_step : ℕ → ℕ → List ℤ → Exec (List ℤ)
selection_step i cnt a = do
  k ← select_least (cnt - (i + 1)) (i + 1) i a
  if i == k then done a else swap_cells a i k

selection_rounds : ℕ → ℕ → ℕ → List ℤ → Exec (List ℤ)
selection_rounds zero i cnt a = done a
selection_rounds (suc n) i cnt a = selection_step i cnt a >>= selection_rounds n (i + 1) cnt

unfoldable pub selection_sort : List ℤ → ℕ → Exec (List ℤ)
unfolding selection_rounds selection_step select_least load store swap_cells
selection_sort arr cnt = selection_rounds cnt 0 cnt arr
