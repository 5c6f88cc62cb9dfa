-- ===== src/MinHeap/Up.antt =====
-- addItem.
use mathlib.Core.List.Perm
use mathlib.Core.List.{perm_middle, append-nil}
use cpp_study.Base.{
  ℕ, zero, suc, ◌+◌, ◌-◌, ◌*◌, ◌≤◌, ◌<◌, ◌≡◌, ◌≢◌, refl, sym, ap, ◌∙◌, List, [], ◌∷◌, ◌++◌, Perm,
  arith, ltb, leb, ◌==◌, if◌then◌else◌, length, length-append, length-take, length-replicate,
  length-set, replicate, take, set, Bool-cases, inl, inr, true, false,
}
use cpp_study.Base.Int.{ℤ, pos, ◌≤ℤ◌, ltb_ℤ}
use cpp_study.Base.Exec.{done, Ends, ends, Ends-bind, Ends-weaken}
use cpp_study.Base.Array.{
  load-done, store-done, swap, swap_cells-done, get_or-swap, length-swap, get_or-set, take-suc,
  take-set_beyond, take-append_left, get_or-take,
}
use cpp_study.MinHeap.{MinHeap, parent, reserver, sift_up, add_item}
use cpp_study.MinHeap.Order.{
  at, IsOrdered, IsHeap, items, IsPermuted, IsPermuted-refl, IsPermuted-swap,
}

-- Only the edge above `j` may be out of order, and the cells below `j` fit its parent.
record IsRising (n : ℕ) (a : List ℤ) (j : ℕ) : Type 0 where
  edges : (c : ℕ) → 0 < c → c < n → c ≢ j → at a (parent c) ≤ℤ at a c
  bridged : (c : ℕ) → 0 < c → c < n → parent c ≡ j → 0 < j → at a (parent j) ≤ℤ at a c

module _ (n : ℕ) (a : List ℤ) (j : ℕ) (pos_j : 0 < j) (j_n : j < n) (size : n ≤ length a)
    (r : IsRising n a j) where
  risen_swap :
      ltb_ℤ (at a j) (at a (parent j)) ≡ true → IsRising n (swap a j (parent j) (pos 0)) (parent j)
  risen_swap t =
      let get = get_or-swap a j (parent j) (pos 0) (omega arith) (omega arith) in
      record {
        edges = λ c p q u. ground (arith, get c, get (parent c), r.edges c, r.bridged c);
        bridged = λ c p q u v.
            ground
              (arith, get c, get (parent (parent j)), r.edges c, r.edges (parent j), r.bridged c);
      }

  risen_stay : ltb_ℤ (at a j) (at a (parent j)) ≡ false → IsRising n a (parent j)
  risen_stay t = record {
    edges = λ c p q u. ground (arith, r.edges c);
    bridged = λ c p q u v. ground (arith, r.edges c, r.edges (parent j));
  }

sift_up-Ends :
    (k n : ℕ) (a : List ℤ) (j : ℕ)
    → j < k
    → j < n
    → n ≤ length a
    → IsRising n a j
    → Ends (λ b. IsOrdered n b × IsPermuted n a b) (sift_up k a j)
unfolding sift_up
sift_up-Ends zero n a j f h size r = absurd (omega arith)
sift_up-Ends (suc k) n a j f h size r = elim (Bool-cases (j == 0)) [
  | inl root ↦ rw root (ends (λ c p q. r.edges c p q (ground arith), IsPermuted-refl n a))
  | inr below ↦
      let pos_j : 0 < j = ground arith in
      rw (below, load-done a j (pos 0) (omega arith), load-done a (parent j) (pos 0) (omega arith))
        (elim (Bool-cases (ltb_ℤ (at a j) (at a (parent j)))) [
          | inl t ↦
              rw (t, swap_cells-done a j (parent j) (pos 0) (omega arith) (omega arith))
                (Ends-weaken
                  (λ b s. (s.0, IsPermuted-swap n a b j (parent j) h (omega arith) size s.1))
                  (sift_up-Ends k n (swap a j (parent j) (pos 0)) (parent j) (omega arith)
                    (omega arith) (omega (arith, length-swap a j (parent j) (pos 0)))
                    (risen_swap n a j pos_j h size r t)))
          | inr t ↦ rw t (
              sift_up-Ends k n a (parent j) (omega arith) (omega arith) size
                (risen_stay n a j pos_j h size r t))
        ])
]

-- What addItem has before it stores: room for one more value, and the old ones.
record IsReserved (h g : MinHeap) : Type 0 where
  same_size : g.size ≡ h.size
  room : g.size < g.capacity
  allocated : length g.content ≡ g.capacity
  kept : items g ≡ items h

reserve-Ends :
    (h : MinHeap)
    → IsHeap h
    → Ends (IsReserved h) (if ltb h.capacity (h.size + 1) then reserver h else done h)
unfolding reserver
reserve-Ends h v = elim (Bool-cases (ltb h.capacity (h.size + 1))) [
  | inr t ↦ rw t (
      ends (record { same_size = refl; room = ground arith; allocated = v.allocated; kept = refl }))
  | inl t ↦
      let full : h.size ≡ h.capacity = ground (arith, v.fits) in
      let test : leb (h.size + 1) h.capacity ≡ false = ground arith in
      let grows : leb h.capacity (2 * h.size + 1) ≡ true = ground arith in
      let extra = replicate (2 * h.size + 1 - h.capacity) (pos 0) in
      rw (t, test, grows)
        (ends (record {
          same_size = refl;
          room = omega arith;
          allocated = omega (
            arith,
            length-append (take h.capacity h.content) extra,
            length-take h.capacity h.content,
            length-replicate {A = ℤ} (2 * h.size + 1 - h.capacity) (pos 0),
            v.allocated,
          );
          kept =
              take-append_left h.size (take h.capacity h.content) extra
                (omega (arith, length-take h.capacity h.content, v.allocated))
              ∙ rw (← full) (take-take h.size h.content);
        }))
]
  where
    take-take : (n : ℕ) (a : List ℤ) → take n (take n a) ≡ take n a
    take-take zero a = refl
    take-take (suc n) [] = refl
    take-take (suc n) (x ∷ a) = ap (◌∷◌ x) (take-take n a)

-- The new value stands behind the old ones, and may have to rise.
module _ (h g : MinHeap) (value : ℤ) (v : IsHeap h) (r : IsReserved h g) where
  abbrev stored : List ℤ
  stored = set g.content g.size value

  at-stored : (c : ℕ) → c < h.size → at stored c ≡ at h.content c
  at-stored c p =
      let written =
        get_or-set g.content g.size c value (pos 0) (omega (arith, r.allocated, r.room)) in
      let old : at g.content c ≡ at h.content c =
        sym (get_or-take g.size g.content c (pos 0) (omega (arith, r.same_size)))
        ∙ ap (λ l. at l c) r.kept
        ∙ get_or-take h.size h.content c (pos 0) p in
      ground (arith, written, old, r.same_size)

  stored-IsRising : IsRising (g.size + 1) stored g.size
  stored-IsRising = record {
    edges = λ c p q n. ground (arith, r.same_size, at-stored c, at-stored (parent c), v.ordered c);
    bridged = λ c p q e u. absurd (omega arith);
  }

  stored-perm : Perm (take (g.size + 1) stored) (value ∷ items h)
  stored-perm =
      let one : g.size + 1 ≡ suc g.size = omega arith in
      let inside : g.size < length g.content = omega (arith, r.allocated, r.room) in
      let last : at stored g.size ≡ value =
        ground (arith, get_or-set g.content g.size g.size value (pos 0) inside) in
      let longer : g.size < length stored = omega (arith, length-set g.content g.size value) in
      let split : take (suc g.size) stored ≡ items h ++ value ∷ [] = rw (
        take-suc g.size stored (pos 0) longer,
        last,
        take-set_beyond g.size g.content g.size value (omega arith),
        r.kept,
      ) in
      rw (one, split) (rw (append-nil (items h)) at (perm_middle {a = value} (items h) []))

-- addItem on a heap stays inside its array and ends. It leaves a heap with one more item, that
-- holds the value beside the values of the old one.
pub add_item-IsHeap :
    (h : MinHeap) (value : ℤ)
    → IsHeap h
    → Ends
        (λ g. IsHeap g × (g.size ≡ h.size + 1) × Perm (items g) (value ∷ items h))
        (add_item h value)
unfolding add_item
add_item-IsHeap h value v = Ends-bind (reserve-Ends h v) λ g r.
    let size_stored = length-set g.content g.size value in
    rw (store-done g.content g.size value (omega (arith, r.allocated, r.room))) (
      Ends-bind
        (sift_up-Ends (g.size + 1) (g.size + 1) (stored h g value v r) g.size (omega arith)
          (omega arith) (omega (arith, size_stored, r.allocated, r.room))
          (stored-IsRising h g value v r))
        λ b s. ends (
          record {
            ordered = s.0;
            fits = omega (arith, r.room);
            allocated = omega (arith, s.1.long, size_stored, r.allocated);
          },
          omega (arith, r.same_size),
          Perm.trans s.1.same (stored-perm h g value v r),
        ))
