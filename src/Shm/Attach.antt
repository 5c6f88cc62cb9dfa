-- ===== src/Shm/Attach.antt =====
-- Attaching, detaching and removing the segment, and the set-up of a fresh one.
use cpp_study.Base.{ℕ, ◌≤◌, ◌<◌, ◌^◌, ◌≡◌, ◌≢◌, refl, [], true, false, arith, ◌==◌}
use cpp_study.Base.Int.{pos, ◌≤ℤ◌, ◌<ℤ◌}
use cpp_study.Shm.{Shm, Os, get_shm, del_shm, init_shm, detach}
use cpp_study.Shm.Bytes.{Clean}
use cpp_study.Shm.Ring.{ShareMemory, control_size, leave, init, after_detach}
use cpp_study.Shm.Ring.Queue.{Represents, straight}

-- getShm after a call whose shmget failed asks the system again: with an id above 0 and an address
-- it succeeds, keeps that id, and later calls use the id whatever shmget would return.
pub get_shm_retries :
    (s : Shm) (failed os later : Os)
    → s.shm_id ≤ℤ pos 0
    → failed.shmget <ℤ pos 0
    → pos 0 <ℤ os.shmget
    → os.shmat ≡ true
    → later.shmat ≡ true
    → let next = (get_shm s failed).1 in
      let final = (get_shm next os).1 in
      ((get_shm s failed).0 ≡ false)
      × ((get_shm next os).0 ≡ true)
      × (final.shm_id ≡ os.shmget)
      × (get_shm final later ≡ (true, final))
unfolding get_shm
get_shm_retries s failed os later unset bad good address address' =
    (ground arith, ground arith, ground arith, ground arith)

-- getShm refuses the id 0, which shmget can return for a segment: it gives no address for it,
-- whatever shmat would do.
pub get_shm_zero :
    (s : Shm) (os : Os) → s.shm_id ≤ℤ pos 0 → os.shmget ≡ pos 0 → (get_shm s os).0 ≡ false
unfolding get_shm
get_shm_zero s os unset zero_id = ground arith

-- delShm returns the same code whatever shmctl returned.
pub del_shm_ignores : (s : Shm) (os os' : Os) → del_shm s os ≡ del_shm s os'
unfolding del_shm
del_shm_ignores s os os' = refl

-- ShareMemory::init on a segment that it can attach, whose flag is not 1, whose bytes behind the
-- control block are 0, and which has at least the `size` bytes that are asked for, where these are at
-- least the 24 of the control block and fewer than 2^30: the segment then holds no message, m_shmCtrl is where it was attached, and a further init, with any size, leaves it as it is.
pub init-Represents :
    (m : ShareMemory) (os os' : Os) (key size size' : ℕ)
    → (get_shm (init_shm m.shm (pos key) (pos size)) os).0 ≡ true
    → m.seg.ctrl.init_flag ≢ 1
    → control_size ≤ size
    → size < 2 ^ 30
    → size ≤ m.seg.bytes
    → Clean m.seg.mem control_size size
    → let r = init m os key size in
      (r.0 ≡ after_detach os)
      × Represents r.1.seg []
      × (r.1.view ≡ leave (detach true os) os m.view)
      × ((init r.1 os' key size').1.seg ≡ r.1.seg)
unfolding init
init-Represents m os os' key size size' attached fresh room small inside clean =
    let unset : (m.seg.ctrl.init_flag == 1) ≡ false = ground arith in
    (
      rw attached,
      rw (attached, unset)
          (straight (record {
            forward = refl;
            start_read = omega arith;
            write_end = room;
            bounded = small;
            inside = inside;
            stored = refl;
            clean_before = λ i u v. absurd (omega arith);
            clean_after = clean;
          })),
      rw attached refl,
      ground (arith, attached),
    )
