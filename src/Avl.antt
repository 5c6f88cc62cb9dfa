-- ===== src/Avl.antt =====
-- wzq_study/avltree.h and avltree.cpp: a search tree that records the depth of every node. A
-- node's pointer to its parent is the list of frames from the node up to the root.
use cpp_study.Base.{ℕ, ◌+◌, ◌-◌, List, [], ◌∷◌, ◌++◌, Bool, leb, if◌then◌else◌}
use cpp_study.Base.Int.{ℤ, pos, leb_ℤ, sub_ℕ}
pub mod Order
pub mod Depth

-- The null pointer, or a node: its element, its depth and its children.
pub data Tree : Type 0 where
  null : Tree
  node : ℤ → ℕ → Tree → Tree → Tree

-- A parent, seen from one of its children: its element, its depth and its other child.
pub data Frame : Type 0 where
  on_left : ℤ → ℕ → Tree → Frame
  on_right : ℤ → ℕ → Tree → Frame

-- What the three walks display: each node's element and depth.
unfoldable pub plr_sort : Tree → List (ℤ × ℕ)
plr_sort null = []
plr_sort (node x d l r) = (x, d) ∷ (plr_sort l ++ plr_sort r)

unfoldable pub lpr_sort : Tree → List (ℤ × ℕ)
lpr_sort null = []
lpr_sort (node x d l r) = lpr_sort l ++ ((x, d) ∷ lpr_sort r)

unfoldable pub lrp_sort : Tree → List (ℤ × ℕ)
lrp_sort null = []
lrp_sort (node x d l r) = lrp_sort l ++ lrp_sort r ++ ((x, d) ∷ [])

abbrev pub get_depth : Tree → ℕ
get_depth null = 0
get_depth (node x d l r) = d

unfoldable pub update_depth : Tree → Tree
update_depth null = null
update_depth (node x d l r) =
    let ldepth = get_depth l in
    let rdepth = get_depth r in node x ((if leb rdepth ldepth then ldepth else rdepth) + 1) l r

unfoldable pub depth_diff : Tree → ℤ
depth_diff null = pos 0
depth_diff (node x d l r) = sub_ℕ (get_depth l) (get_depth r)

-- The frames above the new node, where `up` are those above the tree.
unfoldable pub insert_into_tree : Tree → ℤ → List Frame → List Frame
insert_into_tree null e up = up
insert_into_tree (node x d l r) e up =
    let left = insert_into_tree l e (on_left x d r ∷ up) in
    let right = insert_into_tree r e (on_right x d l ∷ up) in if leb_ℤ e x then left else right

abbrev pub plug : Frame → Tree → Tree
plug (on_left x d r) t = node x d t r
plug (on_right x d l) t = node x d l t

-- The loop from a node up to the root, and the tree below the root when it ends. The source's
-- branches on depth_diff hold no statement that changes the tree.
unfoldable pub recover_avl : Tree → List Frame → Tree
unfolding update_depth
recover_avl t [] = update_depth t
recover_avl t (f ∷ up) = recover_avl (plug f (update_depth t)) up

unfoldable pub insert : Tree → ℤ → Tree
unfolding insert_into_tree recover_avl
insert t e = recover_avl (node e 1 null null) (insert_into_tree t e [])

unfoldable pub insert_all : Tree → List ℤ → Tree
unfolding insert
insert_all t [] = t
insert_all t (e ∷ es) = insert_all (insert t e) es
