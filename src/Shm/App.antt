-- ===== src/Shm/App.antt =====
-- wzq_project/src/application/app_shm.cpp: a process that writes a fixed message, reads messages, or does
-- both in turn. `atoi` is an argument, and what readInt gives as the size is a number.
pub mod Steady
use cpp_study.Base.{
  ℕ, zero, suc, ◌+◌, ◌≤◌, ◌<◌, ◌≡◌, refl, sym, ap, ◌∙◌, List, [], ◌∷◌, ◌++◌, Bool, true, false, not,
  ◌&&◌, ◌||◌, Option, none, some, arith, if◌then◌else◌, length, replicate, Bool-cases, ◌⊎◌, inl,
  inr,
}
use cpp_study.Base.Int.{ℤ, pos, eqb_ℤ}
use cpp_study.Base.Exec.{Exec, done, Ends, ends, Ends-bind, ◌>>=◌}
use cpp_study.Shm.{ResultCode, rs_success, rs_common, rs_alloc, rs_no_shm, Shm, Os, get_shm}
use cpp_study.Shm.Ring.{
  DataHead, ShareMemory, Segment, head_size, init, write_data, read_data, after_detach,
}
use cpp_study.Shm.Ring.Queue.{Message, IsMessage, Represents, head_of}
use cpp_study.Shm.Ring.Put.{message}
use cpp_study.Shm.Ring.Write.{Written, has_room, write_data-refines}
use cpp_study.Shm.Ring.Read.{FirstFits, Taken, read_data-refines}

-- "test-data-wzq", in a buffer of BUFFER_MAX_SIZE bytes that are 0 behind it.
abbrev pub test_content : List ℕ
test_content = 116 ∷ 101 ∷ 115 ∷ 116 ∷ 45 ∷ 100 ∷ 97 ∷ 116 ∷ 97 ∷ 45 ∷ 119 ∷ 122 ∷ 113 ∷ []

abbrev pub test_head : DataHead
test_head = record { flag = 0; size = 13 }

abbrev pub buffer_size : ℕ
buffer_size = 1024

-- The process ends with a code, or it goes on.
pub data Status : Type 0 where
  running : Status
  returned : ResultCode → Status

abbrev pub is_success : ResultCode → Bool
is_success rs_success = true
is_success rs_common = false
is_success rs_alloc = false
is_success rs_no_shm = false

-- `iType == k || iType == 0`
abbrev pub acts : ℤ → ℕ → Bool
acts kind k = eqb_ℤ kind (pos k) || eqb_ℤ kind (pos 0)

unfoldable pub app_write : ℤ → ShareMemory → Os → Exec (ResultCode × ShareMemory)
app_write kind m os =
    let call = write_data m os test_head test_content in
    if acts kind 1 then call else done (rs_success, m)

unfoldable pub app_read :
    ℤ → ShareMemory → Os → Exec (ResultCode × Option (DataHead × List ℕ) × ShareMemory)
app_read kind m os =
    let call = read_data m os buffer_size in
    if acts kind 2 then call else done (rs_success, none, m)

-- One pass of the loop, and what it read.
unfoldable pub app_round :
    ℤ → ShareMemory → Os → Os → Exec (Status × Option (DataHead × List ℕ) × ShareMemory)
unfolding app_write app_read
app_round kind m os os' = do
  (code, m1) ← app_write kind m os
  let second : Exec (Status × Option (DataHead × List ℕ) × ShareMemory) = do
    (code', got, m2) ← app_read kind m1 os'
    done (if is_success code' then running else returned code', got, m2)
  if is_success code then second else done (returned code, none, m1)

abbrev pub read_so_far : Option (DataHead × List ℕ) → List (DataHead × List ℕ)
read_so_far none = []
read_so_far (some x) = x ∷ []

-- The loop, for as many passes as the system answers.
unfoldable pub app_loop :
    ℤ → ShareMemory → List (Os × Os) → Exec (Status × List (DataHead × List ℕ) × ShareMemory)
unfolding app_round
app_loop kind m [] = done (running, [], m)
app_loop kind m ((os, os') ∷ rest) = do
  (status, got, m1) ← app_round kind m os os'
  let go_on : Exec (Status × List (DataHead × List ℕ) × ShareMemory) = do
    (status', more, m2) ← app_loop kind m1 rest
    done (status', read_so_far got ++ more, m2)
  elim status [ running ↦ go_on | returned code ↦ done (returned code, read_so_far got, m1) ]

-- Without an argument the kind is 0. Any other than 1 and 2 is refused.
abbrev pub kind_of : Option ℤ → Option ℤ
kind_of none = some (pos 0)
kind_of (some n) = if not (eqb_ℤ n (pos 1)) && not (eqb_ℤ n (pos 2)) then none else some n

unfoldable pub app_main :
    Option ℤ
    → ℕ
    → ShareMemory
    → Os
    → List (Os × Os)
    → Exec (Status × List (DataHead × List ℕ) × ShareMemory)
unfolding app_loop
app_main argument size m os rest =
    let (code, m1) = init m os 1 size in
    elim (kind_of argument) [
      | none ↦ done (returned rs_success, [], m)
      | some kind ↦ if is_success code then app_loop kind m1 rest else done (returned code, [], m1)
    ]
