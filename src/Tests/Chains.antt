-- ===== src/Tests/Chains.antt =====
-- A list of six nodes that is built, reversed and released.
use cpp_study.Base.{ℕ, ◌+◌, false, none, arith, refl}
use cpp_study.Base.Exec.{Ends}
use cpp_study.Reverse.Build.{Memory, list_main}
use cpp_study.Reverse.Chain.{IsFresh}
use cpp_study.Reverse.Whole.{IsWhole, list_main-IsWhole}

-- Nodes at the addresses from 10 on.
abbrev address : ℕ → ℕ
address i = i + 10

abbrev blank : Memory
blank = record { next = λ a. none; node_data = λ a. 0; live = λ a. false }

blank-IsFresh : IsFresh address blank
blank-IsFresh = record { apart = λ i j h e. omega (arith, h, e); unused = λ i. refl }

list_main-IsWhole_example : Ends (λ r. IsWhole address 6 blank r) (list_main address 6 blank)
list_main-IsWhole_example = list_main-IsWhole address blank blank-IsFresh 5
