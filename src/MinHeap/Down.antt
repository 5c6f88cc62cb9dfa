-- ===== src/MinHeap/Down.antt =====
-- topItem. refactor tests `child <= iSize` where the heap ends before `iSize`: the cell behind the
-- end holds the value that sinks, so that the test on it fails.
use mathlib.Core.List.Perm
use mathlib.Core.List.{perm_middle, append-nil}
use cpp_study.Base.{
  ℕ, zero, suc, ◌+◌, ◌-◌, ◌*◌, ◌≤◌, ◌<◌, ◌≡◌, ◌≢◌, ap, List, [], ◌∷◌, ◌++◌, Perm, arith, leb, ◌==◌,
  ==_iff, if◌then◌else◌, length, length-take, length-set, take, set, get_or, Bool-cases, inl, inr,
  false, ◌&&◌,
}
use cpp_study.Base.Int.{ℤ, pos, ◌≤ℤ◌, ltb_ℤ}
use cpp_study.Base.Exec.{done, fault, Ends, ends, Ends-bind, Ends-weaken}
use cpp_study.Base.Array.{
  load-done, store-done, swap, swap_cells-done, get_or-swap, length-swap, get_or-set, take-suc,
  set-perm, take-set, get_or-take,
}
use cpp_study.MinHeap.{MinHeap, parent, smaller, refactor, top_item}
use cpp_study.MinHeap.Order.{
  at, IsOrdered, IsHeap, items, IsPermuted, IsPermuted-refl, IsPermuted-swap, root_least,
}

-- Only the edges below `i` may be out of order, the cells below `i` fit its parent, and the cell
-- behind the first `n` holds the value in `i`.
record IsSinking (n : ℕ) (a : List ℤ) (i : ℕ) : Type 0 where
  inside : i ≤ n
  spare : n < length a
  stale : at a n ≡ at a i
  edges : (c : ℕ) → 0 < c → c < n → parent c ≢ i → at a (parent c) ≤ℤ at a c
  bridged : (c : ℕ) → 0 < c → c < n → parent c ≡ i → 0 < i → at a (parent i) ≤ℤ at a c

smaller-done :
    (n : ℕ) (a : List ℤ) (child small : ℕ)
    → n < length a
    → small ≤ n
    → smaller a n child small
      ≡ done (if leb child n && ltb_ℤ (at a child) (at a small) then child else small)
unfolding smaller
smaller-done n a child small size h = elim (Bool-cases (leb child n)) [
  | inr t ↦ rw t
  | inl t ↦
      let child_n : child ≤ n = ground arith in
      rw (t, load-done a child (pos 0) (omega arith), load-done a small (pos 0) (omega arith))
        (ground arith)
]

abbrev least_of : ℕ → List ℤ → ℕ → ℕ → ℕ
least_of n a child small = if leb child n && ltb_ℤ (at a child) (at a small) then child else small

-- The index that refactor picks.
least_child : ℕ → List ℤ → ℕ → ℕ
least_child n a i = least_of n a (2 * i + 2) (least_of n a (2 * i + 1) i)

-- It is `i`, where both edges below `i` are in order, or a child of `i` below it and its sibling.
record IsPick (n : ℕ) (a : List ℤ) (i p : ℕ) : Type 0 where
  within : p ≢ i → (i < p) × (p < n) × (parent p ≡ i) × (0 < p)
  least : (c : ℕ) → 0 < c → c < n → parent c ≡ i → at a p ≤ℤ at a c
  below : at a p ≤ℤ at a i

least_child-IsPick :
    (n : ℕ) (a : List ℤ) (i : ℕ) → IsSinking n a i → IsPick n a i (least_child n a i)
unfolding least_child
least_child-IsPick n a i s =
    let one = 2 * i + 1 in
    let two = 2 * i + 2 in
    let at_eq : (x y : ℕ) → x ≡ y → at a x ≡ at a y = λ x y e. ap (at a) e in
    record {
      within = λ h. ground (arith, s.stale, at_eq one n, at_eq two n, s.inside);
      least = λ c p q e. ground (arith, s.stale, at_eq c one, at_eq c two);
      below = ground arith;
    }

module _ (n : ℕ) (a : List ℤ) (i p : ℕ) (s : IsSinking n a i) (k : IsPick n a i p) where
  sunk_swap : p ≢ i → IsSinking n (swap a p i (pos 0)) p
  sunk_swap h =
      let (i_p, p_n, child, pos_p) = k.within h in
      let at_eq : (x y : ℕ) → x ≡ y → at a x ≡ at a y = λ x y e. ap (at a) e in
      let get = get_or-swap a p i (pos 0) (omega (arith, s.spare)) (omega (arith, s.spare)) in
      record {
        inside = omega arith;
        spare = omega (arith, s.spare, length-swap a p i (pos 0));
        stale = ground (arith, get n, get p, s.stale);
        edges = λ c u v w. ground (
          arith,
          get c,
          get (parent c),
          s.edges c,
          s.bridged p,
          k.least c,
          k.below,
          at_eq (parent c) (parent i),
        );
        bridged = λ c u v w x. ground (arith, get c, get (parent p), s.edges c, k.least p);
      }

  settled : p ≡ i → IsOrdered n a
  settled e c u v = elim (Bool-cases (parent c == i)) [
    | inl t ↦
        let below_i : parent c ≡ i = (==_iff (parent c) i).0 t in
        rw below_i (rw e at (k.least c u v below_i))
    | inr t ↦ s.edges c u v (ground arith)
  ]

refactor-Ends :
    (k n : ℕ) (a : List ℤ) (i : ℕ)
    → n < i + k
    → IsSinking n a i
    → Ends (λ b. IsOrdered n b × IsPermuted n a b) (refactor k n a i)
unfolding refactor least_child
refactor-Ends zero n a i f s = absurd (omega (arith, s.inside))
refactor-Ends (suc k) n a i f s =
    let p = least_child n a i in
    let pick = least_child-IsPick n a i s in
    let first = least_of n a (2 * i + 1) i in
    rw
      (
        smaller-done n a (2 * i + 1) i s.spare s.inside,
        smaller-done n a (2 * i + 2) first s.spare (ground (arith, s.inside)),
      )
      (elim (Bool-cases (p == i)) [
        | inl t ↦ rw t (ends (settled n a i p s pick ((==_iff p i).0 t), IsPermuted-refl n a))
        | inr t ↦
            let moved : p ≢ i = ground arith in
            let (i_p, p_n, child, pos_p) = pick.within moved in
            rw (t, swap_cells-done a p i (pos 0) (omega (arith, s.spare)) (omega (arith, s.spare)))
              (Ends-weaken
                (λ b r.
                  (r.0, IsPermuted-swap n a b p i p_n (omega arith) (omega (arith, s.spare)) r.1))
                (refactor-Ends k n (swap a p i (pos 0)) p (omega arith)
                  (sunk_swap n a i p s pick moved)))
      ])

-- What topItem returns from a heap: a value that none in the heap is below, and a heap of the rest.
pub record IsTopped (h : MinHeap) (r : ℤ × MinHeap) : Type 0 where
  pub heap : IsHeap r.1
  pub shrunk : r.1.size + 1 ≡ h.size
  pub same : Perm (r.0 ∷ items r.1) (items h)
  pub least : (i : ℕ) → i < h.size → r.0 ≤ℤ at h.content i

-- The last value is written into the root, and the size lowered to `n`.
module _ (h : MinHeap) (n : ℕ) (size : h.size ≡ suc n) (v : IsHeap h) where
  abbrev cut : List ℤ
  cut = set h.content 0 (at h.content n)

  at-cut : (c : ℕ) → at cut c ≡ (if 0 == c then at h.content n else at h.content c)
  at-cut c = get_or-set h.content 0 c (at h.content n) (pos 0) (omega (arith, v.fits, v.allocated))

  cut-IsSinking : IsSinking n cut 0
  cut-IsSinking = record {
    inside = omega arith;
    spare = omega (arith, length-set h.content 0 (at h.content n), v.fits, v.allocated);
    stale = ground (arith, at-cut n, at-cut 0);
    edges = λ c p q e. ground (arith, at-cut c, at-cut (parent c), v.ordered c);
    bridged = λ c p q e u. absurd (omega arith);
  }

  items_split : items h ≡ take n h.content ++ at h.content n ∷ []
  items_split = rw size (take-suc n h.content (pos 0) (omega (arith, v.fits, v.allocated)))

-- With the root written over, the root's old value and the first `n` cells are the old items.
cut-perm :
    (h : MinHeap) (n : ℕ) (size : h.size ≡ suc n) (v : IsHeap h)
    → Perm (at h.content 0 ∷ take n (cut h n size v)) (items h)
cut-perm h zero size v = rw (items_split h zero size v) Perm.rfl
cut-perm h (suc n) size v =
    let front = take (suc n) h.content in
    let last = at h.content (suc n) in
    let size_front : 0 < length front =
      omega (arith, length-take (suc n) h.content, v.fits, v.allocated) in
    let head : get_or front 0 (pos 0) ≡ at h.content 0 =
      get_or-take (suc n) h.content 0 (pos 0) (omega arith) in
    let swapped = rw head at (set-perm front 0 last (pos 0) size_front) in
    rw (items_split h (suc n) size v, take-set (suc n) h.content 0 last)
      (Perm.trans swapped (Perm.symm (rw (append-nil front) at (perm_middle {a = last} front []))))

-- topItem on a heap that is not empty stays inside its array and ends; it returns a least value
-- and leaves a heap of the others, one item shorter.
pub top_item-IsTopped : (h : MinHeap) → IsHeap h → 0 < h.size → Ends (IsTopped h) (top_item h)
unfolding top_item
top_item-IsTopped h v some_items =
    let n = h.size - 1 in
    let size : h.size ≡ suc n = omega arith in
    let filled : (h.size == 0) ≡ false = ground arith in
    rw
      (
        filled,
        load-done h.content 0 (pos 0) (omega (arith, v.fits, v.allocated)),
        load-done h.content n (pos 0) (omega (arith, v.fits, v.allocated)),
        store-done h.content 0 (at h.content n) (omega (arith, v.fits, v.allocated)),
      )
      (Ends-bind
        (refactor-Ends (h.size + 1) n (cut h n size v) 0 (omega arith) (cut-IsSinking h n size v))
        λ b s. ends (record {
          heap = record {
            ordered = s.0;
            fits = omega (arith, v.fits);
            allocated =
                omega (arith, s.1.long, length-set h.content 0 (at h.content n), v.allocated);
          };
          shrunk = omega arith;
          same = Perm.trans (Perm.cons _ s.1.same) (cut-perm h n size v);
          least = λ i p. root_least h.size h.content i v.ordered p;
        }))

-- topItem on an empty heap reads the cell before its array.
pub top_item_empty : (h : MinHeap) → h.size ≡ 0 → top_item h ≡ fault
unfolding top_item
top_item_empty h e = rw e
