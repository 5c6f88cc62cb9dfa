-- ===== src/Shm/Ring.antt =====
-- ShareMemory: messages in the segment behind its control block, which takes the first 24 bytes.
-- Positions are natural numbers below 2^31. The `int` sums of judegeWrite wrap around; its other sums
-- are of `size_t`. A size is any 32-bit pattern. What display prints is left out; that readData calls it
-- through the pointer that the call before has left is not.
pub mod Queue
pub mod Put
pub mod Write
pub mod Read
pub mod Views
use cpp_study.Base.{
  ℕ, ◌+◌, ◌-◌, ◌%◌, ◌^◌, ◌++◌, List, [], ◌∷◌, Bool, true, false, ◌&&◌, ◌||◌, ltb, leb, ◌==◌,
  if◌then◌else◌, length, replicate, take, Option, none, some,
}
use cpp_study.Base.Int.{ℤ, pos, negsuc, ltb_ℤ, leb_ℤ, eqb_ℤ, ◌-ℤ◌}
use cpp_study.Base.Exec.{Exec, done, fault, ◌>>=◌}
use cpp_study.Shm.{
  ResultCode, rs_success, rs_common, rs_no_shm, Shm, Os, new_shm, init_shm, get_shm, detach,
}
use cpp_study.Shm.Bytes.{Memory, write_bytes, read_bytes, int_bytes, int_at}

-- SHM_CONTROL
pub record Control : Type 0 where
  pub init_flag : ℕ
  pub dir : ℤ
  pub start_pos : ℕ
  pub end_pos : ℕ
  pub read_pos : ℕ
  pub write_pos : ℕ

-- SHM_DATA_HEAD
pub record DataHead : Type 0 where
  pub flag : ℕ
  pub size : ℕ

-- The shared segment: the control block, the count of its bytes, and the bytes.
pub record Segment : Type 0 where
  pub ctrl : Control
  pub bytes : ℕ
  pub mem : Memory

-- The two fields of a head, as they stand in memory.
abbrev pub head_bytes : DataHead → List ℕ
head_bytes head = int_bytes head.flag ++ int_bytes head.size

-- sizeof(SHM_CONTROL) and sizeof(SHM_DATA_HEAD)
abbrev pub control_size : ℕ
control_size = 24

abbrev pub head_size : ℕ
head_size = 8

-- The signed reading of a 32-bit pattern is above 0.
abbrev pub is_positive : ℕ → Bool
is_positive n = ltb 0 n && ltb n (2 ^ 31)

-- `iDir *= -1`
abbrev pub turn : ℤ → ℤ
turn d = pos 0 -ℤ d

-- The `int` with the low 32 bits of a number.
unfoldable pub int_of : ℕ → ℤ
int_of n = let low = n % 2 ^ 32 in if ltb low (2 ^ 31) then pos low else negsuc (2 ^ 32 - low - 1)

-- `writePos + iSize <= limit`, in `int`.
unfoldable pub within : ℕ → ℕ → ℕ → Bool
unfolding int_of
within p need limit = leb_ℤ (int_of (p + need)) (pos limit)

-- The second part of judegeWrite: room before the reader.
judge_below : ℕ → Control → Bool × Control
judge_below need c = (ltb c.write_pos c.read_pos && within c.write_pos need c.read_pos, c)

unfoldable pub judge_write : ℕ → Control → Bool × Control
unfolding judge_below
judge_write size c =
    let need = size + head_size in
    if ltb c.read_pos c.write_pos || (ltb_ℤ (pos 0) c.dir && c.write_pos == c.read_pos)
    then (if within c.write_pos need c.end_pos
        then (true, c)
        else judge_below need (record c { write_pos = c.start_pos; dir = turn c.dir }))
    else judge_below need c

-- The last part of judegeRead.
judge_above : Control → Bool × Control
judge_above c = (ltb c.read_pos c.write_pos, c)

unfoldable pub judge_read : Memory → Control → Bool × Control
unfolding judge_above
judge_read mem c =
    let back = record c { read_pos = c.start_pos; dir = turn c.dir } in
    if ltb c.write_pos c.read_pos || (ltb_ℤ c.dir (pos 0) && c.write_pos == c.read_pos)
    then (if ltb (c.read_pos + head_size) c.end_pos
        then (let size = int_at mem (c.read_pos + 4) in
            if is_positive size && leb (c.read_pos + head_size + size) c.end_pos
            then (true, c)
            else judge_above back)
        else judge_above back)
    else judge_above c

-- `memcpy(m_addr + p, from, n)`, with `n` bytes at `from`
copy_in : Segment → ℕ → List ℕ → Exec Segment
copy_in s p from =
    if leb (p + length from) s.bytes
    then done (record s { mem = write_bytes s.mem p from })
    else fault

-- `memcpy(to, m_addr + p, n)`, with room for `room` bytes at `to`
copy_out : Segment → ℕ → ℕ → ℕ → Exec (List ℕ)
copy_out s p n room =
    if leb (p + n) s.bytes && leb n room then done (read_bytes s.mem p n) else fault

-- The first `n` bytes of the caller's buffer.
content_bytes : List ℕ → ℕ → Exec (List ℕ)
content_bytes content n = if leb n (length content) then done (take n content) else fault

-- The writes of writeData.
pub put_message : Segment → DataHead → List ℕ → Exec Segment
unfolding copy_in content_bytes
put_message s head content =
    let c = s.ctrl in
    do
      s' ← copy_in s c.write_pos (head_bytes head)
      from ← content_bytes content head.size
      s' ← copy_in s' (c.write_pos + head_size) from
      done (record s' { ctrl = record c { write_pos = c.write_pos + (head_size + head.size) } })

-- The reads of readData: the head, the content, and the segment with them cleared.
pub take_message : Segment → ℕ → Exec (DataHead × List ℕ × Segment)
unfolding copy_in copy_out
take_message s room =
    let c = s.ctrl in
    let head : DataHead = record {
      flag = int_at s.mem c.read_pos;
      size = int_at s.mem (c.read_pos + 4);
    } in
    do
      _ ← copy_out s c.read_pos head_size head_size
      content ← copy_out s (c.read_pos + head_size) head.size room
      s' ← copy_in s c.read_pos (replicate (head_size + head.size) 0)
      done (
        head,
        content,
        record s' { ctrl = record c { read_pos = c.read_pos + (head_size + head.size) } },
      )

-- m_shmCtrl, which is NULL or an address, and the addresses at which the process has the segment.
pub record View : Type 0 where
  pub ctrl_addr : Option ℕ
  pub mapped : List ℕ

-- The object ShareMemory, beside the segment that it is attached to.
pub record ShareMemory : Type 0 where
  pub shm : Shm
  pub seg : Segment
  pub view : View

-- `m_shmCtrl->display()`: whether the pointer leads to the segment.
unfoldable pub is_mapped : Option ℕ → List ℕ → Bool
is_mapped none as' = false
is_mapped (some a) [] = false
is_mapped (some a) (b ∷ as') = let rest = is_mapped (some a) as' in if a == b then true else rest

-- m_shmCtrl has been set to the address of shmat, which has been detached or has not.
unfoldable pub leave : Bool → Os → View → View
leave gone os v =
    let a = os.place v.mapped in
    record { ctrl_addr = some a; mapped = if gone then v.mapped else a ∷ v.mapped }

-- A fresh control block, where the flag is not yet 1.
unfoldable pub init_control : Control → ℕ → Control
init_control c size = if c.init_flag == 1 then c else record {
  init_flag = 1;
  dir = pos 1;
  start_pos = control_size;
  end_pos = size;
  read_pos = control_size;
  write_pos = control_size;
}

-- The code that a method returns after it has detached.
unfoldable pub after_detach : Os → ResultCode
after_detach os = if detach true os then rs_success else rs_common

unfoldable pub init : ShareMemory → Os → ℕ → ℕ → ResultCode × ShareMemory
unfolding init_control after_detach leave
init m os key size =
    let (attached, shm') = get_shm (init_shm m.shm (pos key) (pos size)) os in
    if attached
    then (
      after_detach os,
      record {
        shm = shm';
        seg = record (m.seg) { ctrl = init_control m.seg.ctrl size };
        view = leave (detach true os) os m.view;
      },
    )
    else (rs_common, record m { shm = shm' })

-- The part of writeData between attaching and detaching: whether judegeWrite lets it write.
unfoldable pub write_segment : Segment → DataHead → List ℕ → Exec (Bool × Segment)
unfolding judge_write put_message
write_segment s head content =
    let (room, c) = judge_write head.size s.ctrl in
    let s' : Segment = record s { ctrl = c } in
    let filled = put_message s' head content >>= λ t. done (true, t) in
    if room then filled else done (false, s')

unfoldable pub write_data : ShareMemory → Os → DataHead → List ℕ → Exec (ResultCode × ShareMemory)
unfolding leave
write_data m os head content =
    let (attached, shm') = get_shm m.shm os in
    let run : Exec (ResultCode × ShareMemory) = do
      (room, s) ← write_segment m.seg head content
      done (
        (if room then after_detach os else rs_no_shm),
        record { shm = shm'; seg = s; view = leave (room && detach true os) os m.view },
      )
    in if attached then run else done (rs_common, record m { shm = shm' })

-- The part of readData between attaching and detaching: the message, if judegeRead finds one.
unfoldable pub read_segment : Segment → ℕ → Exec (Option (DataHead × List ℕ) × Segment)
unfolding judge_read take_message
read_segment s room =
    let (ready, c) = judge_read s.mem s.ctrl in
    let s' : Segment = record s { ctrl = c } in
    let emptied = take_message s' room >>= λ (head, content, t). done (some (head, content), t) in
    if ready then emptied else done (none, s')

abbrev pub has_value {ℓ} : {A : Type ℓ} → Option A → Bool
has_value none = false
has_value (some x) = true

-- The message that was read, if any, beside the code. The first display is through the pointer of
-- the call before.
unfoldable pub read_data :
    ShareMemory → Os → ℕ → Exec (ResultCode × Option (DataHead × List ℕ) × ShareMemory)
unfolding leave is_mapped
read_data m os room =
    let (attached, shm') = get_shm m.shm os in
    let run : Exec (ResultCode × Option (DataHead × List ℕ) × ShareMemory) = do
      (got, s) ← read_segment m.seg room
      done (
        (if has_value got then after_detach os else rs_no_shm),
        got,
        record { shm = shm'; seg = s; view = leave (has_value got && detach true os) os m.view },
      )
    in let printed = is_mapped m.view.ctrl_addr (os.place m.view.mapped ∷ m.view.mapped) in
      let shown = if printed then run else fault in
      if attached then shown else done (rs_common, none, record m { shm = shm' })
