-- ===== src/Shm/Ring/Views.antt =====
-- Where the calls of shm.cpp leave m_shmCtrl, through which readData prints before it sets it.
use cpp_study.Base.{ℕ, ◌≡◌, List, ◌∷◌, Bool, true, false, arith}
use cpp_study.Base.Int.{pos, ◌<ℤ◌}
use cpp_study.Shm.{Shm, Os, get_shm, get_shm_id, get_addr}
use cpp_study.Shm.Ring.{View, is_mapped, leave}
use cpp_study.Shm.Ring.Read.{Printable}

-- The system gives an id above 0 and an address, which is the one that `place` says.
abbrev pub Answers : (List ℕ → ℕ) → Os → Type 0
Answers place os =
    (pos 0 <ℤ os.shmget) × (os.shmat ≡ true) × ((at : List ℕ) → os.place at ≡ place at)

pub get_shm_answers :
    (place : List ℕ → ℕ) (s : Shm) (os : Os) → Answers place os → (get_shm s os).0 ≡ true
unfolding get_shm get_shm_id get_addr
get_shm_answers place s os (id, addr, placed) = ground arith

-- m_shmCtrl holds an address at which the segment is, or at which it is put next.
abbrev pub Points : (List ℕ → ℕ) → View → Type 0
Points place v = is_mapped v.ctrl_addr (place v.mapped ∷ v.mapped) ≡ true

pub Points-Printable :
    (place : List ℕ → ℕ) (os : Os) (v : View) → Answers place os → Points place v → Printable os v
Points-Printable place os v (id, addr, placed) h = rw (placed v.mapped) h

-- A call that attaches the segment leaves such an address, whether it detaches it or not.
pub Points-leave :
    (place : List ℕ → ℕ) (gone : Bool) (os : Os) (v : View)
    → Answers place os
    → Points place (leave gone os v)
unfolding leave is_mapped
Points-leave place true os v (id, addr, placed) = rw (placed v.mapped) (ground arith)
Points-leave place false os v (id, addr, placed) = ground arith
