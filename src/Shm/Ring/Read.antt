-- ===== src/Shm/Ring/Read.antt =====
-- readData takes the first message of the queue.
use cpp_study.Base.{
  ℕ, ◌+◌, ◌≤◌, ◌<◌, ◌≡◌, refl, ◌∙◌, List, [], ◌∷◌, Bool, true, false, arith, ltb, if◌then◌else◌,
  length, replicate, length-replicate, Bool-cases, ◌⊎◌, inl, inr, Option, none, some,
}
use cpp_study.Base.Int.{◌-ℤ◌}
use cpp_study.Base.Exec.{Exec, done, Ends, ends, Ends-bind, ◌>>=◌}
use cpp_study.Shm.{ResultCode, rs_no_shm, Os, get_shm, detach}
use cpp_study.Shm.Bytes.{write_bytes, write_bytes_outside, write_zeros, int_at}
use cpp_study.Shm.Ring.{
  Control, Segment, DataHead, ShareMemory, head_size, judge_above, judge_read, turn, copy_in,
  copy_out, take_message, View, is_mapped, leave, after_detach, read_segment, read_data,
}
use cpp_study.Shm.Ring.Queue.{
  Message, Stored, Stored-agrees, Straight, Wrapped, Represents, straight, wrapped, width, head_of,
  Stored-le, first_flag, first_size, first_content,
}

-- The segment once the message at the reader is cleared.
abbrev taken : Segment → Message → Segment
taken s m = record s {
  mem = write_bytes s.mem s.ctrl.read_pos (replicate (width m) 0);
  ctrl = record (s.ctrl) { read_pos = s.ctrl.read_pos + width m };
}

module _ (s : Segment) (m : Message) (room : ℕ) (fits : length m.content ≤ room) where
  cleared_outside :
      (i : ℕ)
      → (i < s.ctrl.read_pos) ⊎ (s.ctrl.read_pos + width m ≤ i)
      → (taken s m).mem i ≡ s.mem i
  cleared_outside i out =
      write_bytes_outside s.mem s.ctrl.read_pos (replicate (width m) 0) i
        (omega (arith, length-replicate {A = ℕ} (width m) 0))

  cleared_inside :
      (i : ℕ) → s.ctrl.read_pos ≤ i → i < s.ctrl.read_pos + width m → (taken s m).mem i ≡ 0
  cleared_inside i u v = write_zeros s.mem s.ctrl.read_pos (width m) i u v

  take_message-done :
      (q : List Message) (e : ℕ)
      → Stored s.mem s.ctrl.read_pos (m ∷ q) e
      → e ≤ s.bytes
      → take_message s room ≡ done (head_of m, m.content, taken s m)
  unfolding take_message copy_out copy_in
  take_message-done q e (valid, held, rest) inside =
      let end = Stored-le s.mem (s.ctrl.read_pos + width m) q e rest in
      rw
        (
          first_flag s.mem s.ctrl.read_pos m valid held,
          first_size s.mem s.ctrl.read_pos m valid held,
          first_content s.mem s.ctrl.read_pos m valid held,
        )
        (ground (arith, length-replicate {A = ℕ} (head_size + length m.content) 0))

  take-Straight : (q : List Message) → Straight s (m ∷ q) → Straight (taken s m) q
  take-Straight q r =
      let rest = r.stored.2 in
      let end = Stored-le s.mem (s.ctrl.read_pos + width m) q s.ctrl.write_pos rest in
      record {
        forward = r.forward;
        start_read = omega (arith, r.start_read);
        write_end = r.write_end;
        bounded = r.bounded;
        inside = r.inside;
        stored =
            Stored-agrees s.mem (taken s m).mem (s.ctrl.read_pos + width m) q s.ctrl.write_pos
              (λ i u v. cleared_outside i (inr u)) rest;
        clean_before = λ i u v. elim (Bool-cases (ltb i s.ctrl.read_pos)) [
          | inl t ↦ cleared_outside i (inl (ground arith)) ∙ r.clean_before i u (ground arith)
          | inr t ↦ cleared_inside i (ground arith) v
        ];
        clean_after = λ i u v. cleared_outside i (inr (omega arith)) ∙ r.clean_after i u v;
      }

  take-Wrapped :
      (old new : List Message) (gap : ℕ)
      → Wrapped s (m ∷ old) new gap
      → Wrapped (taken s m) old new gap
  take-Wrapped old new gap r =
      let rest = r.stored_old.2 in
      let mem' = (taken s m).mem in
      let end = Stored-le s.mem (s.ctrl.read_pos + width m) old gap rest in
      record {
        backward = r.backward;
        write_read = omega (arith, r.write_read);
        gap_end = r.gap_end;
        bounded = r.bounded;
        inside = r.inside;
        stored_old =
            Stored-agrees s.mem mem' (s.ctrl.read_pos + width m) old gap
              (λ i u v. cleared_outside i (inr u)) rest;
        stored_new =
            Stored-agrees s.mem mem' s.ctrl.start_pos new s.ctrl.write_pos
              (λ i u v. cleared_outside i (inl (omega (arith, r.write_read)))) r.stored_new;
        clean_between = λ i u v. elim (Bool-cases (ltb i s.ctrl.read_pos)) [
          | inl t ↦ cleared_outside i (inl (ground arith)) ∙ r.clean_between i u (ground arith)
          | inr t ↦ cleared_inside i (ground arith) v
        ];
        clean_after = λ i u v. cleared_outside i (inr (omega arith)) ∙ r.clean_after i u v;
      }

-- The first message, if any, fits the caller's buffer.
abbrev pub FirstFits : List Message → ℕ → Type 0
FirstFits [] room = Unit
FirstFits (m ∷ q) room = length m.content ≤ room

-- The control block once the reader has turned back.
abbrev turned : Control → Control
turned c = record c { read_pos = c.start_pos; dir = turn c.dir }

turned-Straight :
    (s : Segment) (new : List Message) (gap : ℕ)
    → Wrapped s [] new gap
    → Straight (record s { ctrl = turned s.ctrl }) new
unfolding ◌-ℤ◌
turned-Straight s new gap r = record {
  forward = rw r.backward;
  start_read = omega arith;
  write_end = omega (arith, r.write_read, r.gap_end, r.stored_old);
  bounded = r.bounded;
  inside = r.inside;
  stored = r.stored_new;
  clean_before = λ i u v. absurd (omega arith);
  clean_after = λ i u v. elim (Bool-cases (ltb i s.ctrl.read_pos)) [
    | inl t ↦ r.clean_between i u (ground arith)
    | inr t ↦ r.clean_after i (ground (arith, r.stored_old)) v
  ];
}

judge-Straight :
    (s : Segment) (q : List Message) → Straight s q → judge_read s.mem s.ctrl ≡ judge_above s.ctrl
unfolding judge_read
judge-Straight s q r =
    ground (arith, r.forward, Stored-le s.mem s.ctrl.read_pos q s.ctrl.write_pos r.stored)

judge_old :
    (s : Segment) (m : Message) (old new : List Message) (gap : ℕ)
    → Wrapped s (m ∷ old) new gap
    → judge_read s.mem s.ctrl ≡ (true, s.ctrl)
unfolding judge_read
judge_old s m old new gap r =
    let (valid, held, rest) = r.stored_old in
    let end = Stored-le s.mem (s.ctrl.read_pos + width m) old gap rest in
    ground (
      arith,
      r.backward,
      r.write_read,
      r.gap_end,
      valid.filled,
      valid.sized,
      first_size s.mem s.ctrl.read_pos m valid held,
    )

judge_gap :
    (s : Segment) (new : List Message) (gap : ℕ)
    → Wrapped s [] new gap
    → judge_read s.mem s.ctrl ≡ judge_above (turned s.ctrl)
unfolding judge_read int_at
judge_gap s new gap r =
    let r' = s.ctrl.read_pos in
    let zero_at = λ (i : ℕ). r.clean_after i in
    ground (
      arith,
      r.backward,
      r.write_read,
      r.stored_old,
      zero_at (r' + 4),
      zero_at (r' + 4 + 1),
      zero_at (r' + 4 + 2),
      zero_at (r' + 4 + 3),
    )

-- What a call of readData returns and does to the queue and to the addresses of the process.
abbrev pub Taken :
    Os → View → List Message → ResultCode × Option (DataHead × List ℕ) × ShareMemory → Type 0
Taken os v [] r =
    (r.0 ≡ rs_no_shm) × (r.1 ≡ none) × Represents r.2.seg [] × (r.2.view ≡ leave false os v)
Taken os v (m ∷ q) r =
    (r.0 ≡ after_detach os)
    × (r.1 ≡ some (head_of m, m.content))
    × Represents r.2.seg q
    × (r.2.view ≡ leave (detach true os) os v)

-- The address that the call before has left in m_shmCtrl leads to the segment once it is attached.
abbrev pub Printable : Os → View → Type 0
Printable os v = is_mapped v.ctrl_addr (os.place v.mapped ∷ v.mapped) ≡ true

module _ (room : ℕ) where
  -- What is left to do once judegeRead has answered.
  abbrev Finish : Segment → Bool × Control → Exec (Option (DataHead × List ℕ) × Segment)
  Finish s (ready, c) =
      let s' : Segment = record s { ctrl = c } in
      let emptied = take_message s' room >>= λ (head, content, t). done (some (head, content), t) in
      if ready then emptied else done (none, s')

  abbrev Finished : List Message → Option (DataHead × List ℕ) × Segment → Type 0
  Finished [] r = (r.0 ≡ none) × Represents r.1 []
  Finished (m ∷ q) r = (r.0 ≡ some (head_of m, m.content)) × Represents r.1 q

  finish-Straight :
      (s : Segment) (q : List Message)
      → FirstFits q room
      → Straight s q
      → Ends (Finished q) (Finish s (judge_above s.ctrl))
  unfolding judge_above
  finish-Straight s [] fits r =
      let still : ltb s.ctrl.read_pos s.ctrl.write_pos ≡ false = ground (arith, r.stored) in
      rw still (ends (refl, straight r))
  finish-Straight s (m ∷ q) fits r =
      let end = Stored-le s.mem (s.ctrl.read_pos + width m) q s.ctrl.write_pos (r.stored.2) in
      let ready : ltb s.ctrl.read_pos s.ctrl.write_pos ≡ true = ground arith in
      rw
        (
          ready,
          take_message-done s m room fits q s.ctrl.write_pos r.stored
              (omega (arith, r.inside, r.write_end)),
        )
        (ends (refl, straight (take-Straight s m room fits q r)))

  finish :
      (s : Segment) (q : List Message)
      → FirstFits q room
      → Represents s q
      → Ends (Finished q) (Finish s (judge_read s.mem s.ctrl))
  finish s q fits (straight r) = rw (judge-Straight s q r) (finish-Straight s q fits r)
  finish s q fits (wrapped [] new gap r e) =
      rw (judge_gap s new gap r, e)
        (finish-Straight (record s { ctrl = turned s.ctrl }) new (rw e at fits)
          (turned-Straight s new gap r))
  finish s q fits (wrapped (m ∷ old) new gap r e) =
      rw
        (
          judge_old s m old new gap r,
          e,
          take_message-done s m room (rw e at fits) old gap r.stored_old
              (omega (arith, r.inside, r.gap_end)),
        )
        (ends (refl, wrapped old new gap (take-Wrapped s m room (rw e at fits) old new gap r) refl))

  -- readData on a segment that holds the messages `q` and that it can attach, with room for the
  -- first message in the caller's buffer, stays inside the segment and ends. It hands out the head
  -- and the content of the first message, the segment then holds the others, and the code is that
  -- of the detaching: RS_SUCCESS, or RS_COMMON where it failed. With no message the code is
  -- RS_NO_SHM, the segment still holds none, and the process keeps it attached. The call prints
  -- through the pointer of the call before, which must lead to the segment: its old address is still
  -- attached, or it is the one where the segment is put again. The segment has less than 2^30 bytes.
  pub read_data-refines :
      (m : ShareMemory) (os : Os) (q : List Message)
      → (get_shm m.shm os).0 ≡ true
      → Printable os m.view
      → FirstFits q room
      → Represents m.seg q
      → Ends (Taken os m.view q) (read_data m os room)
  unfolding read_data read_segment
  read_data-refines m os [] attached shown fits r =
      rw (attached, shown)
        (Ends-bind (finish m.seg [] fits r) λ t f. ends (rw f.0, f.0, f.1, rw f.0))
  read_data-refines m os (n ∷ q) attached shown fits r =
      rw (attached, shown)
        (Ends-bind (finish m.seg (n ∷ q) fits r) λ t f. ends (rw f.0, f.0, f.1, rw f.0))
