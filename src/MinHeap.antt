-- ===== src/MinHeap.antt =====
-- wzq_study/minHeap.h: a growing min-heap of `int`. `pContent` is a list of `iCapacity` cells, and
-- NULL is the empty one; `new` returns memory. The loop of addItem and the recursion of refactor
-- take fuel. Indices stay below twice the capacity, so that `int` does not overflow.
-- The destructor and display are left out.
pub mod Order
pub mod Up
pub mod Down
use cpp_study.Base.{
  ℕ, zero, suc, ◌+◌, ◌-◌, ◌*◌, ◌/◌, List, [], ◌++◌, Bool, ltb, leb, ◌==◌, if◌then◌else◌, length,
  take, replicate,
}
use cpp_study.Base.Int.{ℤ, pos, ltb_ℤ}
use cpp_study.Base.Exec.{Exec, done, fault, timeout, ◌>>=◌}
use cpp_study.Base.Array.{load, store, swap_cells}

pub record MinHeap : Type 0 where
  pub size : ℕ
  pub capacity : ℕ
  pub content : List ℤ

abbrev pub empty : MinHeap
empty = record { size = 0; capacity = 0; content = [] }

-- The cells of the old array are copied to the front of the new one.
reserver : MinHeap → Exec MinHeap
reserver h =
    if leb (h.size + 1) h.capacity
    then done h
    else (let grown = 2 * h.size + 1 in
        if leb h.capacity grown
        then done (record h {
          capacity = grown;
          content = take h.capacity h.content ++ replicate (grown - h.capacity) (pos 0);
        })
        else fault)

abbrev pub parent : ℕ → ℕ
parent j = (j - 1) / 2

-- The loop of addItem: it runs up to the root, also where nothing is left to swap.
sift_up : ℕ → List ℤ → ℕ → Exec (List ℤ)
sift_up zero a j = timeout
sift_up (suc k) a j =
    let i = parent j in
    let round : Exec (List ℤ) = do
      x ← load a j
      y ← load a i
      b ← if ltb_ℤ x y then swap_cells a j i else done a
      sift_up k b i
    in if j == 0 then done a else round

unfoldable pub add_item : MinHeap → ℤ → Exec MinHeap
unfolding reserver sift_up load store swap_cells
add_item h value = do
  g ← if ltb h.capacity (h.size + 1) then reserver h else done h
  a ← store g.content g.size value
  b ← sift_up (g.size + 1) a g.size
  done (record g { size = g.size + 1; content = b })

-- The smaller of cell `small` and cell `child`, with `child <= iSize` as the code tests it.
smaller : List ℤ → ℕ → ℕ → ℕ → Exec ℕ
smaller a size child small =
    let test : Exec ℕ = do
      x ← load a child
      y ← load a small
      done (if ltb_ℤ x y then child else small)
    in if leb child size then test else done small

refactor : ℕ → ℕ → List ℤ → ℕ → Exec (List ℤ)
refactor zero size a index = timeout
refactor (suc k) size a index = do
  small ← smaller a size (2 * index + 1) index
  small ← smaller a size (2 * index + 2) small
  let sink : Exec (List ℤ) = swap_cells a small index >>= λ b. refactor k size b small
  if small == index then done a else sink

-- On an empty heap the code reads the cell before the array.
unfoldable pub top_item : MinHeap → Exec (ℤ × MinHeap)
unfolding refactor smaller load store swap_cells
top_item h =
    let run : Exec (ℤ × MinHeap) = do
      top ← load h.content 0
      last ← load h.content (h.size - 1)
      a ← store h.content 0 last
      b ← refactor (h.size + 1) (h.size - 1) a 0
      done (top, record h { size = h.size - 1; content = b })
    in if h.size == 0 then fault else run
