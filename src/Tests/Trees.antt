-- ===== src/Tests/Trees.antt =====
-- The tree of wzq_study/avltree.cpp.
use cpp_study.Base.{◌≡◌, [], ◌∷◌, Perm, arith}
use cpp_study.Base.Int.{pos}
use cpp_study.Avl.{Tree, lpr_sort, null, node, insert, insert_all}
use cpp_study.Avl.Order.{IsAscending, shown, place, insert-shown, insert_all-sorts}
use cpp_study.Avl.Depth.{IsDeep, insert-IsDeep}

abbrev some_tree : Tree
some_tree = node (pos 50) 2 (node (pos 30) 1 null null) (node (pos 80) 1 null null)

some_tree-shown : IsAscending (shown some_tree)
unfolding lpr_sort
some_tree-shown = ((omega arith, (omega arith, tt)), ((omega arith, tt), (tt, tt)))

insert-shown_example :
    (shown (insert some_tree (pos 40)) ≡ place (pos 40) (shown some_tree))
    × IsAscending (shown (insert some_tree (pos 40)))
insert-shown_example = insert-shown some_tree (pos 40) some_tree-shown

insert_all-sorts_example :
    IsAscending (shown (insert_all null (pos 50 ∷ pos 80 ∷ pos 70 ∷ [])))
    × Perm (shown (insert_all null (pos 50 ∷ pos 80 ∷ pos 70 ∷ []))) (pos 50 ∷ pos 80 ∷ pos 70 ∷ [])
insert_all-sorts_example = insert_all-sorts (pos 50 ∷ pos 80 ∷ pos 70 ∷ [])

insert-IsDeep_example : IsDeep (insert some_tree (pos 40))
insert-IsDeep_example =
    insert-IsDeep some_tree (pos 40) (omega arith, (omega arith, tt, tt), (omega arith, tt, tt))
