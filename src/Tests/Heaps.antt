-- ===== src/Tests/Heaps.antt =====
-- The heap of wzq_study/minHeap.h with three values in four cells.
use cpp_study.Base.{zero, suc, ◌≡◌, [], ◌∷◌, Perm, arith}
use cpp_study.Base.Int.{pos, negsuc}
use cpp_study.Base.Exec.{Ends}
use cpp_study.MinHeap.{MinHeap, add_item, top_item}
use cpp_study.MinHeap.Order.{IsOrdered, IsHeap, items}
use cpp_study.MinHeap.Up.{add_item-IsHeap}
use cpp_study.MinHeap.Down.{IsTopped, top_item-IsTopped}

abbrev three : MinHeap
three = record { size = 3; capacity = 4; content = pos 1 ∷ pos 4 ∷ pos 2 ∷ pos 0 ∷ [] }

three-IsOrdered : IsOrdered 3 (pos 1 ∷ pos 4 ∷ pos 2 ∷ pos 0 ∷ [])
three-IsOrdered zero p q = absurd (omega arith)
three-IsOrdered (suc zero) p q = omega arith
three-IsOrdered (suc (suc zero)) p q = omega arith
three-IsOrdered (suc (suc (suc c))) p q = absurd (omega arith)

three-IsHeap : IsHeap three
three-IsHeap = record { ordered = three-IsOrdered; fits = omega arith; allocated = omega arith }

add_item-IsHeap_example :
    Ends
      (λ g. IsHeap g × (g.size ≡ 4) × Perm (items g) (negsuc 6 ∷ items three))
      (add_item three (negsuc 6))
add_item-IsHeap_example = add_item-IsHeap three (negsuc 6) three-IsHeap

top_item-IsTopped_example : Ends (IsTopped three) (top_item three)
top_item-IsTopped_example = top_item-IsTopped three three-IsHeap (omega arith)
