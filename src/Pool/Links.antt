-- ===== src/Pool/Links.antt =====
-- pthread_pool.cpp: the macros LIST_ADD and LIST_REMOVE, on the links of the jobs and of the workers.
use mathlib.Core.Path.{subst}
use cpp_study.Base.{
  ℕ, ◌≡◌, ◌≢◌, ◌==◌, refl, sym, List, [], ◌∷◌, Bool, false, Option, some, none, arith,
  if◌then◌else◌,
}

pub record Node : Type 0 where
  pub prev : Option ℕ
  pub next : Option ℕ

-- The nodes by their addresses; NULL is `none`.
abbrev pub Nodes : Type 0
Nodes = ℕ → Node

abbrev pub with_prev : Nodes → ℕ → Option ℕ → Nodes
with_prev mem i v j = if i == j then record (mem j) { prev = v } else mem j

abbrev pub with_next : Nodes → ℕ → Option ℕ → Nodes
with_next mem i v j = if i == j then record (mem j) { next = v } else mem j

-- `if (list) list->prev = v`
abbrev pub with_prev_of : Nodes → Option ℕ → Option ℕ → Nodes
with_prev_of mem none v = mem
with_prev_of mem (some i) v = with_prev mem i v

-- `if (list) list->next = v`
abbrev pub with_next_of : Nodes → Option ℕ → Option ℕ → Nodes
with_next_of mem none v = mem
with_next_of mem (some i) v = with_next mem i v

abbrev pub points_to : Option ℕ → ℕ → Bool
points_to none i = false
points_to (some j) i = i == j

-- The nodes and the list behind LIST_ADD(item, list).
unfoldable pub list_add : Nodes → ℕ → Option ℕ → Nodes × Option ℕ
list_add mem item list =
    let alone = with_next (with_prev mem item none) item list in
    (with_prev_of alone list (some item), some item)

-- The nodes and the list behind LIST_REMOVE(item, list).
unfoldable pub list_remove : Nodes → ℕ → Option ℕ → Nodes × Option ℕ
list_remove mem item list =
    let mem1 = with_next_of mem (mem item).prev (mem item).next in
    let mem2 = with_prev_of mem1 (mem1 item).next (mem1 item).prev in
    let list' = if points_to list item then (mem2 item).next else list in
    (with_next (with_prev mem2 item none) item none, list')

-- The list `h`, behind the node `p`, has the items `xs`.
abbrev pub Linked : Nodes → Option ℕ → Option ℕ → List ℕ → Type 0
Linked mem p h [] = h ≡ none
Linked mem p h (x ∷ xs) = (h ≡ some x) × ((mem x).prev ≡ p) × Linked mem (some x) (mem x).next xs

abbrev pub Without : ℕ → List ℕ → Type 0
Without x [] = Unit
Without x (y ∷ ys) = (x ≢ y) × Without x ys

abbrev pub Distinct : List ℕ → Type 0
Distinct [] = Unit
Distinct (x ∷ xs) = Without x xs × Distinct xs

abbrev pub IsList : Nodes → Option ℕ → List ℕ → Type 0
IsList mem h xs = Linked mem none h xs × Distinct xs

-- The node of each item is the same.
abbrev Same : Nodes → Nodes → List ℕ → Type 0
Same mem mem' [] = Unit
Same mem mem' (x ∷ xs) = (mem' x ≡ mem x) × Same mem mem' xs

Linked-Same :
    (mem mem' : Nodes) (p h : Option ℕ) (xs : List ℕ)
    → Same mem mem' xs
    → Linked mem p h xs
    → Linked mem' p h xs
Linked-Same mem mem' p h [] s l = l
Linked-Same mem mem' p h (x ∷ xs) (e, s) (at, back, l) =
    (at, rw e back, rw e (Linked-Same mem mem' (some x) (mem x).next xs s l))

-- The nodes behind each macro, where the list has a first item, or a second one.
module _ (mem : Nodes) (item i : ℕ) (apart : item ≢ i) where
  abbrev added : Nodes
  added = (list_add mem item (some i)).0

  added_item : (added item).next ≡ some i
  unfolding list_add
  added_item = ground arith

  added_alone : (added item).prev ≡ none
  unfolding list_add
  added_alone = ground arith

  added_head : (added i).prev ≡ some item
  unfolding list_add
  added_head = ground arith

  added_next : (added i).next ≡ (mem i).next
  unfolding list_add
  added_next = ground arith

  added_Same : (xs : List ℕ) → Without item xs → Without i xs → Same mem added xs
  unfolding list_add
  added_Same [] w v = tt
  added_Same (x ∷ xs) (h, w) (g, v) = (ground arith, added_Same xs w v)

module _ (mem : Nodes) (item i : ℕ) (apart : item ≢ i) (first : (mem item).prev ≡ none)
    (second : (mem item).next ≡ some i) where
  abbrev removed : Nodes × Option ℕ
  removed = list_remove mem item (some item)

  removed_list : removed.1 ≡ some i
  unfolding list_remove
  removed_list = rw (first, second) (ground (arith, second))

  removed_head : (removed.0 i).prev ≡ none
  unfolding list_remove
  removed_head = rw (first, second) (ground (arith, first, second))

  removed_next : (removed.0 i).next ≡ (mem i).next
  unfolding list_remove
  removed_next = rw (first, second) (ground (arith, first, second))

  removed_item : removed.0 item ≡ record { prev = none; next = none }
  unfolding list_remove
  removed_item = rw (first, second) (ground (arith, first, second))

  removed_Same : (xs : List ℕ) → Without item xs → Without i xs → Same mem removed.0 xs
  unfolding list_remove
  removed_Same [] w v = tt
  removed_Same (x ∷ xs) (h, w) (g, v) =
      (rw (first, second) (ground (arith, first, second)), removed_Same xs w v)

list_add-empty :
    (mem : Nodes) (item : ℕ)
    → let (mem', list') = list_add mem item none in IsList mem' list' (item ∷ [])
unfolding list_add
list_add-empty mem item = ((refl, ground arith, ground arith), (tt, tt))

list_add-more :
    (mem : Nodes) (item x : ℕ) (xs : List ℕ)
    → Without item (x ∷ xs)
    → IsList mem (some x) (x ∷ xs)
    → let (mem', list') = list_add mem item (some x) in IsList mem' list' (item ∷ x ∷ xs)
unfolding list_add
list_add-more mem item x xs (h, w) ((e, back, l), (v, d)) =
    let mem' = added mem item x h in
    let kept = Linked-Same mem mem' (some x) (mem x).next xs (added_Same mem item x h xs w v) l in
    (
      (
        refl,
        added_alone mem item x h,
        (added_item mem item x h, added_head mem item x h, rw (added_next mem item x h) kept),
      ),
      ((h, w), (v, d)),
    )

pub list_add-IsList :
    (mem : Nodes) (item : ℕ) (list : Option ℕ) (xs : List ℕ)
    → Without item xs
    → IsList mem list xs
    → let (mem', list') = list_add mem item list in IsList mem' list' (item ∷ xs)
list_add-IsList mem item list [] w (e, d) =
    subst (λ list. let (mem', list') = list_add mem item list in IsList mem' list' (item ∷ []))
      (sym e) (list_add-empty mem item)
list_add-IsList mem item list (x ∷ xs) w ((e, b, r), d) =
    subst (λ list. let (mem', list') = list_add mem item list in IsList mem' list' (item ∷ x ∷ xs))
      (sym e) (list_add-more mem item x xs w ((refl, b, r), d))

list_remove-last :
    (mem : Nodes) (item : ℕ)
    → (mem item).prev ≡ none
    → (mem item).next ≡ none
    → let (mem', list') = list_remove mem item (some item) in
      (list' ≡ none) × (mem' item ≡ record { prev = none; next = none })
unfolding list_remove
list_remove-last mem item first last =
    (rw (first, last) (ground (arith, last)), rw (first, last) (ground (arith, first, last)))

list_remove-more :
    (mem : Nodes) (item x : ℕ) (xs : List ℕ)
    → IsList mem (some item) (item ∷ x ∷ xs)
    → let (mem', list') = list_remove mem item (some item) in
      IsList mem' list' (x ∷ xs) × (mem' item ≡ record { prev = none; next = none })
list_remove-more mem item x xs ((e, first, (l, back, r)), ((h, w), (v, d))) =
    let mem' = (removed mem item x h first l).0 in
    let kept =
      Linked-Same mem mem' (some x) (mem x).next xs (removed_Same mem item x h first l xs w v) r in
    (
      (
        (
          removed_list mem item x h first l,
          removed_head mem item x h first l,
          rw (removed_next mem item x h first l) kept,
        ),
        (v, d),
      ),
      removed_item mem item x h first l,
    )

list_remove-some :
    (mem : Nodes) (item : ℕ) (xs : List ℕ)
    → IsList mem (some item) (item ∷ xs)
    → let (mem', list') = list_remove mem item (some item) in
      IsList mem' list' xs × (mem' item ≡ record { prev = none; next = none })
list_remove-some mem item [] ((e, first, l), d) =
    let (gone, alone) = list_remove-last mem item first l in ((gone, tt), alone)
list_remove-some mem item (x ∷ xs) l = list_remove-more mem item x xs l

pub list_remove-IsList :
    (mem : Nodes) (item : ℕ) (list : Option ℕ) (xs : List ℕ)
    → IsList mem list (item ∷ xs)
    → let (mem', list') = list_remove mem item list in
      IsList mem' list' xs × (mem' item ≡ record { prev = none; next = none })
list_remove-IsList mem item list xs ((e, b, r), d) =
    subst
      (λ list.
        let (mem', list') = list_remove mem item list in
        IsList mem' list' xs × (mem' item ≡ record { prev = none; next = none }))
      (sym e) (list_remove-some mem item xs ((refl, b, r), d))

-- Where the links of a list are right and an item is not in it, LIST_ADD makes it the first item of
-- the list, with the others behind it in their order and the links right both ways. LIST_REMOVE
-- of that item then gives the list from before, its links right again, and leaves both links of
-- the item NULL.
pub list_add-list_remove :
    (mem : Nodes) (item : ℕ) (list : Option ℕ) (xs : List ℕ)
    → Without item xs
    → IsList mem list xs
    → let (mem1, list1) = list_add mem item list in
      let (mem2, list2) = list_remove mem1 item list1 in
      IsList mem1 list1 (item ∷ xs)
      × IsList mem2 list2 xs
      × (mem2 item ≡ record { prev = none; next = none })
list_add-list_remove mem item list xs w l =
    let longer = list_add-IsList mem item list xs w l in
    let (mem1, list1) = list_add mem item list in
    let (shorter, alone) = list_remove-IsList mem1 item list1 xs longer in (longer, shorter, alone)
