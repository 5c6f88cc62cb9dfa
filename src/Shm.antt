-- ===== src/Shm.antt =====
-- wzq_project/src/component/shm.h and shm.cpp: the class Shm over the System V calls, and below it
-- the class ShareMemory, a ring of messages in the shared segment.
-- What shmget, shmat, shmdt and shmctl return at a call is an argument of the method that calls it.
pub mod Bytes
pub mod Ring
pub mod Attach
pub mod Trace
pub mod App
use cpp_study.Base.{ℕ, List, Bool, true, false, ◌&&◌, if◌then◌else◌}
use cpp_study.Base.Int.{ℤ, pos, ltb_ℤ, leb_ℤ, eqb_ℤ}

-- The enum ResultCode of common.h.
pub data ResultCode : Type 0 where
  rs_success rs_common rs_alloc rs_no_shm : ResultCode

pub record Shm : Type 0 where
  pub shm_id : ℤ
  pub shm_key : ℤ
  pub shm_size : ℤ

-- What the system returns: the id of shmget, whether shmat gives an address, where shmat then puts
-- the segment, which depends on the addresses at which the process has it already, and the codes of
-- shmdt and shmctl.
pub record Os : Type 0 where
  pub shmget : ℤ
  pub shmat : Bool
  pub place : List ℕ → ℕ
  pub shmdt : ℤ
  pub shmctl : ℤ

unfoldable pub new_shm : Shm
new_shm = record { shm_id = pos 0; shm_key = pos 0; shm_size = pos 0 }

unfoldable pub init_shm : Shm → ℤ → ℤ → Shm
init_shm s key size = record s { shm_key = key; shm_size = size }

-- On an error of shmget the method returns RS_SUCCESS, the number 0.
unfoldable pub get_shm_id : Shm → Os → ℤ × Shm
get_shm_id s os =
    if ltb_ℤ (pos 0) s.shm_id
    then (s.shm_id, s)
    else ((if ltb_ℤ os.shmget (pos 0) then pos 0 else os.shmget), record s { shm_id = os.shmget })

-- Whether the method returns an address, and not NULL.
unfoldable pub get_addr : Shm → Os → Bool
get_addr s os = if leb_ℤ s.shm_id (pos 0) then false else os.shmat

unfoldable pub get_shm : Shm → Os → Bool × Shm
unfolding get_shm_id get_addr
get_shm s os =
    let (id, s') = get_shm_id s os in if leb_ℤ id (pos 0) then (false, s') else (get_addr s' os, s')

-- `addr` says whether the address is not NULL. Any code of shmdt but 0 is passed on.
unfoldable pub detach : Bool → Os → Bool
detach addr os = addr && eqb_ℤ os.shmdt (pos 0)

-- The code of shmctl is not looked at: the second test is on the id again.
unfoldable pub del_shm : Shm → Os → ResultCode
del_shm s os = if leb_ℤ s.shm_id (pos 0) then rs_common else rs_success
