-- ===== src/Avl/Depth.antt =====
-- The recorded depths.
use cpp_study.Base.{
  ℕ, ◌+◌, ◌≡◌, refl, ap, ◌∙◌, inl, inr, List, [], ◌∷◌, false, arith, max, length, Bool-cases,
}
use cpp_study.Base.Int.{ℤ, pos, ◌<ℤ◌, ◌+ℤ◌, leb_ℤ}
use cpp_study.Avl.{
  Tree, null, node, Frame, on_left, on_right, get_depth, update_depth, insert_into_tree,
  recover_avl, insert, insert_all,
}

abbrev pub height : Tree → ℕ
height null = 0
height (node x d l r) = max (height l) (height r) + 1

-- Every node records its height.
abbrev pub IsDeep : Tree → Type 0
IsDeep null = Unit
IsDeep (node x d l r) = (d ≡ max (height l) (height r) + 1) × IsDeep l × IsDeep r

get_depth-height : (t : Tree) → IsDeep t → get_depth t ≡ height t
get_depth-height null h = refl
get_depth-height (node x d l r) (h, hl, hr) = h

-- The children record their heights; the node may not.
abbrev BelowDeep : Tree → Type 0
BelowDeep null = Unit
BelowDeep (node x d l r) = IsDeep l × IsDeep r

abbrev FramesDeep : List Frame → Type 0
FramesDeep [] = Unit
FramesDeep (on_left x d r ∷ up) = IsDeep r × FramesDeep up
FramesDeep (on_right x d l ∷ up) = IsDeep l × FramesDeep up

update_depth-IsDeep : (t : Tree) → BelowDeep t → IsDeep (update_depth t)
unfolding update_depth
update_depth-IsDeep null h = tt
update_depth-IsDeep (node x d l r) (hl, hr) =
    (ground (arith, get_depth-height l hl, get_depth-height r hr), hl, hr)

recover_avl-IsDeep :
    (t : Tree) (up : List Frame) → BelowDeep t → FramesDeep up → IsDeep (recover_avl t up)
unfolding recover_avl
recover_avl-IsDeep t [] h u = update_depth-IsDeep t h
recover_avl-IsDeep t (on_left x d r ∷ up) h (hr, u) =
    recover_avl-IsDeep (node x d (update_depth t) r) up (update_depth-IsDeep t h, hr) u
recover_avl-IsDeep t (on_right x d l ∷ up) h (hl, u) =
    recover_avl-IsDeep (node x d l (update_depth t)) up (hl, update_depth-IsDeep t h) u

insert_into_tree-FramesDeep :
    (t : Tree) (e : ℤ) (up : List Frame)
    → IsDeep t
    → FramesDeep up
    → FramesDeep (insert_into_tree t e up)
unfolding insert_into_tree
insert_into_tree-FramesDeep null e up h u = u
insert_into_tree-FramesDeep (node x d l r) e up (h, hl, hr) u = elim (Bool-cases (leb_ℤ e x)) [
  | inl k ↦ rw k (insert_into_tree-FramesDeep l e (on_left x d r ∷ up) hl (hr, u))
  | inr k ↦ rw k (insert_into_tree-FramesDeep r e (on_right x d l ∷ up) hr (hl, u))
]

-- In a tree whose every node records its height, all nodes do so again behind an insert: the walk
-- from the new node to the root updates every depth that changes.
pub insert-IsDeep : (t : Tree) (e : ℤ) → IsDeep t → IsDeep (insert t e)
unfolding insert
insert-IsDeep t e h =
    recover_avl-IsDeep (node e 1 null null) (insert_into_tree t e []) (tt, tt)
      (insert_into_tree-FramesDeep t e [] h tt)

-- Every left child is null, and the elements are below `b`.
abbrev IsChain : ℤ → Tree → Type 0
IsChain b null = Unit
IsChain b (node x d l r) = (x <ℤ b) × (l ≡ null) × IsChain b r

abbrev FramesChain : ℤ → List Frame → Type 0
FramesChain b [] = Unit
FramesChain b (on_left x d r ∷ up) = ⊥
FramesChain b (on_right x d l ∷ up) = (x <ℤ b) × (l ≡ null) × FramesChain b up

-- Each element is below the next.
abbrev pub AllAbove : ℤ → List ℤ → Type 0
AllAbove e [] = Unit
AllAbove e (x ∷ xs) = (e <ℤ x) × AllAbove e xs

abbrev pub IsIncreasing : List ℤ → Type 0
IsIncreasing [] = Unit
IsIncreasing (x ∷ xs) = AllAbove x xs × IsIncreasing xs

update_depth-IsChain :
    (b : ℤ) (t : Tree)
    → IsChain b t
    → IsChain b (update_depth t) × (height (update_depth t) ≡ height t)
unfolding update_depth
update_depth-IsChain b null h = (tt, refl)
update_depth-IsChain b (node x d l r) h = (h, refl)

recover_avl-IsChain :
    (b : ℤ) (t : Tree) (up : List Frame)
    → IsChain b t
    → FramesChain b up
    → IsChain b (recover_avl t up) × (height (recover_avl t up) ≡ height t + length up)
unfolding recover_avl
recover_avl-IsChain b t [] h u = let (c, e) = update_depth-IsChain b t h in (c, omega (arith, e))
recover_avl-IsChain b t (on_left x d r ∷ up) h u = absurd u
recover_avl-IsChain b t (on_right x d l ∷ up) h (k, n, u) =
    let (c, e) = update_depth-IsChain b t h in
    let (c', e') = recover_avl-IsChain b (node x d l (update_depth t)) up (k, n, c) u in
    (c', omega (arith, e, e', ap height n))

insert_into_tree-chain :
    (b e : ℤ) (t : Tree) (up : List Frame)
    → e <ℤ b
    → IsChain e t
    → FramesChain b up
    → FramesChain b (insert_into_tree t e up)
      × (length (insert_into_tree t e up) ≡ height t + length up)
unfolding insert_into_tree
insert_into_tree-chain b e null up h c u = (u, omega arith)
insert_into_tree-chain b e (node x d l r) up h (k, n, c) u =
    let (f, g) = insert_into_tree-chain b e r (on_right x d l ∷ up) h c (omega arith, n, u) in
    let right : leb_ℤ e x ≡ false = ground arith in rw right (f, omega (arith, g, ap height n))

insert-IsChain :
    (b e : ℤ) (t : Tree)
    → e <ℤ b
    → IsChain e t
    → IsChain b (insert t e) × (height (insert t e) ≡ height t + 1)
unfolding insert
insert-IsChain b e t h c =
    let (f, g) = insert_into_tree-chain b e t [] h c tt in
    let (k, l) =
      recover_avl-IsChain b (node e 1 null null) (insert_into_tree t e []) (h, refl, tt) f in
    (k, omega (arith, g, l))

above : (e : ℤ) → e <ℤ (e +ℤ pos 1)
unfolding ◌+ℤ◌
above e = ground arith

insert_all-chain :
    (t : Tree) (e : ℤ) (es : List ℤ)
    → IsDeep t
    → IsChain e t
    → IsIncreasing (e ∷ es)
    → get_depth (insert_all t (e ∷ es)) ≡ height t + length (e ∷ es)
unfolding insert insert_all
insert_all-chain t e [] h c i =
    let (k, l) = insert-IsChain (e +ℤ pos 1) e t (above e) c in
    omega (arith, get_depth-height (insert t e) (insert-IsDeep t e h), l)
insert_all-chain t e (b ∷ es) h c ((eb, ae), i) =
    let (k, l) = insert-IsChain b e t eb c in
    omega (arith, l, insert_all-chain (insert t e) b es (insert-IsDeep t e h) k i)

-- There is no rebalancing: the tree into which elements are inserted in increasing order is as deep
-- as there are elements.
pub insert_all-depth : (es : List ℤ) → IsIncreasing es → get_depth (insert_all null es) ≡ length es
unfolding insert_all
insert_all-depth [] i = refl
insert_all-depth (e ∷ es) i = insert_all-chain null e es tt tt i ∙ omega arith
