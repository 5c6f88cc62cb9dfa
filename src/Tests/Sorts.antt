-- ===== src/Tests/Sorts.antt =====
-- The sorts of wzq_study/sort.cpp on arrays of four cells.
use cpp_study.Base.{zero, suc, ◌≡◌, refl, List, [], ◌∷◌, arith}
use cpp_study.Base.Int.{ℤ, pos, negsuc}
use cpp_study.Base.Exec.{Ends, timeout}
use cpp_study.Sort.{bubble_sort, selection_sort}
use cpp_study.Sort.Order.{IsSortedTo, IsRearranged}
use cpp_study.Sort.Bubble.{bubble_sort-sorts}
use cpp_study.Sort.Selection.{selection_sort-sorts}
use cpp_study.Sort.Quick.{my_partition, quick_sort}
use cpp_study.Sort.Quick.Endless.{quick_sort-endless}
use cpp_study.Sort.Quick.Partition.{IsPartitioned, my_partition-splits}
use cpp_study.Sort.Quick.Shuffle.{IsDistinct}
use cpp_study.Sort.Quick.Sorts.{quick_sort-sorts}

abbrev mixed : List ℤ
mixed = pos 5 ∷ negsuc 2 ∷ pos 9 ∷ pos 9 ∷ []

-- The value 5 stands twice.
abbrev twice : List ℤ
twice = pos 5 ∷ negsuc 2 ∷ pos 5 ∷ pos 1 ∷ []

bubble_sort-sorts_example :
    Ends (λ b. IsSortedTo 4 b × IsRearranged 4 mixed b) (bubble_sort mixed 4)
bubble_sort-sorts_example = bubble_sort-sorts mixed 4 (omega arith)

selection_sort-sorts_example :
    Ends (λ b. IsSortedTo 3 b × IsRearranged 3 mixed b) (selection_sort mixed 3)
selection_sort-sorts_example = selection_sort-sorts mixed 3 (omega arith)

mixed-IsDistinct : IsDistinct 0 2 mixed
mixed-IsDistinct zero zero a b c d n = absurd (n refl)
mixed-IsDistinct zero (suc zero) a b c d n = ground arith
mixed-IsDistinct zero (suc (suc zero)) a b c d n = ground arith
mixed-IsDistinct zero (suc (suc (suc y))) a b c d n = absurd (omega arith)
mixed-IsDistinct (suc zero) zero a b c d n = ground arith
mixed-IsDistinct (suc zero) (suc zero) a b c d n = absurd (n refl)
mixed-IsDistinct (suc zero) (suc (suc zero)) a b c d n = ground arith
mixed-IsDistinct (suc zero) (suc (suc (suc y))) a b c d n = absurd (omega arith)
mixed-IsDistinct (suc (suc zero)) zero a b c d n = ground arith
mixed-IsDistinct (suc (suc zero)) (suc zero) a b c d n = ground arith
mixed-IsDistinct (suc (suc zero)) (suc (suc zero)) a b c d n = absurd (n refl)
mixed-IsDistinct (suc (suc zero)) (suc (suc (suc y))) a b c d n = absurd (omega arith)
mixed-IsDistinct (suc (suc (suc x))) y a b c d n = absurd (omega arith)

my_partition-splits_example : Ends (IsPartitioned 0 2 mixed) (my_partition 3 mixed 0 2)
my_partition-splits_example =
    my_partition-splits 3 mixed 0 2 (omega arith) (omega arith) (omega arith) mixed-IsDistinct

quick_sort-sorts_example :
    Ends (λ b. IsSortedTo 3 b × IsRearranged 3 mixed b) (quick_sort 4 mixed 3)
quick_sort-sorts_example =
    quick_sort-sorts 4 mixed 3 (omega arith) (omega arith) (omega arith) mixed-IsDistinct

quick_sort-endless_example : quick_sort 1000 twice 4 ≡ timeout
quick_sort-endless_example =
    quick_sort-endless 1000 twice 4 2 (omega arith) (omega arith) (omega arith) refl
