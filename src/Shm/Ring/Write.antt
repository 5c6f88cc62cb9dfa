-- ===== src/Shm/Ring/Write.antt =====
-- writeData adds a message to the queue exactly where there is room for it.
use cpp_study.Base.{
  ℕ, ◌+◌, ◌%◌, ◌^◌, ◌≤◌, ◌<◌, length-take, ◌≡◌, refl, List, [], ◌∷◌, ◌++◌, Bool, true, false, ◌||◌,
  ◌&&◌, arith, ltb, leb, if◌then◌else◌, length, Bool-cases, inl, inr,
}
use mathlib.Core.List.{append-nil, append_assoc}
use cpp_study.Base.Int.{pos, ltb_ℤ, ◌-ℤ◌}
use cpp_study.Base.Exec.{Exec, done, Ends, ends, Ends-bind, ◌>>=◌}
use cpp_study.Shm.{ResultCode, rs_no_shm, Os, get_shm, detach}
use cpp_study.Shm.Ring.{
  Control, Segment, DataHead, ShareMemory, head_size, int_of, within, judge_below, judge_write,
  View, leave, turn, put_message, after_detach, write_segment, write_data,
}
use cpp_study.Shm.Ring.Queue.{
  Message, IsMessage, Straight, Wrapped, Represents, straight, wrapped, Stored-le,
}
use cpp_study.Shm.Ring.Put.{message, put_message-done, put-Straight, put-Wrapped}

-- Where there is room for `need` bytes: behind the writer or, once it turns back, before the
-- reader.
abbrev pub has_room : Control → ℕ → Bool
has_room c need =
    if ltb_ℤ (pos 0) c.dir
    then leb (c.write_pos + need) c.end_pos || leb (c.start_pos + need) c.read_pos
    else leb (c.write_pos + need) c.read_pos

-- The control block once the writer has turned back.
abbrev turned : Control → Control
turned c = record c { write_pos = c.start_pos; dir = turn c.dir }

within-leb : (p need limit : ℕ) → p + need < 2 ^ 31 → within p need limit ≡ leb (p + need) limit
unfolding within int_of
within-leb p need limit small =
    let low : (p + need) % 2 ^ 32 ≡ p + need = omega arith in
    let it : ltb ((p + need) % 2 ^ 32) (2 ^ 31) ≡ true = rw low (ground arith) in
    rw (low, (rw low at it)) (ground arith)

judge-Straight :
    (s : Segment) (q : List Message) (size : ℕ)
    → size + head_size ≤ 2 ^ 30
    → Straight s q
    → judge_write size s.ctrl ≡ (
        if leb (s.ctrl.write_pos + (size + head_size)) s.ctrl.end_pos
        then (true, s.ctrl)
        else judge_below (size + head_size) (turned s.ctrl))
unfolding judge_write
judge-Straight s q size small r =
    let sum =
      within-leb s.ctrl.write_pos (size + head_size) s.ctrl.end_pos
        (omega (arith, r.write_end, r.bounded)) in
    rw sum (ground (arith, r.forward, Stored-le s.mem s.ctrl.read_pos q s.ctrl.write_pos r.stored))

judge-Wrapped :
    (s : Segment) (old new : List Message) (gap size : ℕ)
    → Wrapped s old new gap
    → judge_write size s.ctrl ≡ judge_below (size + head_size) s.ctrl
unfolding judge_write
judge-Wrapped s old new gap size r = ground (arith, r.backward, r.write_read)

turned-Wrapped :
    (s : Segment) (q : List Message)
    → Straight s q
    → Wrapped (record s { ctrl = turned s.ctrl }) q [] s.ctrl.write_pos
unfolding ◌-ℤ◌
turned-Wrapped s q r = record {
  backward = rw r.forward;
  write_read = r.start_read;
  gap_end = r.write_end;
  bounded = r.bounded;
  inside = r.inside;
  stored_old = r.stored;
  stored_new = refl;
  clean_between = r.clean_before;
  clean_after = r.clean_after;
}

-- What a call of writeData returns and does to the queue and to the addresses of the process.
abbrev pub Written : Os → View → List Message → Message → Bool → ResultCode × ShareMemory → Type 0
Written os v q msg room r =
    (r.0 ≡ (if room then after_detach os else rs_no_shm))
    × Represents r.1.seg (if room then q ++ msg ∷ [] else q)
    × (r.1.view ≡ leave (room && detach true os) os v)

module _ (head : DataHead) (content : List ℕ) (sized : head.size ≤ length content)
    (valid : IsMessage (message head content)) where
  small_message : head.size + head_size ≤ 2 ^ 30
  small_message = omega (arith, valid.sized, length-take head.size content)

  -- What is left to do once judegeWrite has answered.
  abbrev Finish : Segment → Bool × Control → Exec (Bool × Segment)
  Finish s (ok, c) =
      let s' : Segment = record s { ctrl = c } in
      let filled = put_message s' head content >>= λ t. done (true, t) in
      if ok then filled else done (false, s')

  abbrev Finished : List Message → Bool → Bool × Segment → Type 0
  Finished q room r =
      (r.0 ≡ room) × Represents r.1 (if room then q ++ message head content ∷ [] else q)

  finish-Wrapped :
      (s : Segment) (old new : List Message) (gap : ℕ)
      → Wrapped s old new gap
      → Ends
          (Finished (old ++ new) (leb (s.ctrl.write_pos + (head.size + head_size)) s.ctrl.read_pos))
          (Finish s (judge_below (head.size + head_size) s.ctrl))
  unfolding judge_below
  finish-Wrapped s old new gap r =
      let old_part = Stored-le s.mem s.ctrl.read_pos old gap r.stored_old in
      let small = small_message in
      let sum =
        within-leb s.ctrl.write_pos (head.size + head_size) s.ctrl.read_pos
          (omega (arith, r.write_read, r.gap_end, r.bounded)) in
      elim (Bool-cases (leb (s.ctrl.write_pos + (head.size + head_size)) s.ctrl.read_pos)) [
        | inl t ↦
            let fits : s.ctrl.write_pos + (head_size + head.size) ≤ s.ctrl.read_pos =
              ground arith in
            let before : ltb s.ctrl.write_pos s.ctrl.read_pos ≡ true = ground arith in
            rw
              (
                sum,
                t,
                before,
                put_message-done head content sized s (omega (arith, r.inside, r.gap_end)),
              )
              (ends (
                refl,
                wrapped old (new ++ message head content ∷ []) gap
                    (put-Wrapped head content sized valid s old new gap r fits)
                    (append_assoc old new (message head content ∷ [])),
              ))
        | inr t ↦
            let shut : (ltb s.ctrl.write_pos s.ctrl.read_pos
                  && leb (s.ctrl.write_pos + (head.size + head_size)) s.ctrl.read_pos)
                ≡ false =
              ground arith in
            rw (sum, shut, t) (ends (refl, wrapped old new gap r refl))
      ]

  finish :
      (s : Segment) (q : List Message)
      → Represents s q
      → Ends
          (Finished q (has_room s.ctrl (head.size + head_size)))
          (Finish s (judge_write head.size s.ctrl))
  finish s q (wrapped old new gap r e) =
      let back : has_room s.ctrl (head.size + head_size)
          ≡ leb (s.ctrl.write_pos + (head.size + head_size)) s.ctrl.read_pos =
        ground (arith, r.backward) in
      rw (judge-Wrapped s old new gap head.size r, e, back) (finish-Wrapped s old new gap r)
  finish s q (straight r) =
      let need = head.size + head_size in
      let ahead : has_room s.ctrl need
          ≡ leb (s.ctrl.write_pos + need) s.ctrl.end_pos
            || leb (s.ctrl.start_pos + need) s.ctrl.read_pos =
        ground (arith, r.forward) in
      rw (judge-Straight s q head.size small_message r, ahead)
        (elim (Bool-cases (leb (s.ctrl.write_pos + need) s.ctrl.end_pos)) [
          | inl t ↦
              let fits : s.ctrl.write_pos + (head_size + head.size) ≤ s.ctrl.end_pos =
                ground arith in
              rw (t, put_message-done head content sized s (omega (arith, r.inside)))
                (ends (refl, straight (put-Straight head content sized valid s q r fits)))
          | inr t ↦ rw t (
              rw (append-nil q) at (
                finish-Wrapped (record s { ctrl = turned s.ctrl }) q [] s.ctrl.write_pos
                  (turned-Wrapped s q r)))
        ])

  -- writeData on a segment that holds the messages `q` and that it can attach stays inside the
  -- segment and ends. Where there is room for the head and the content, the segment then holds the
  -- message behind those of `q`, and the code is that of the detaching: RS_SUCCESS, or RS_COMMON
  -- where it failed. Else the code is RS_NO_SHM, the segment still holds `q`, and the process keeps it
  -- attached. The segment has less than 2^30 bytes; the message has at least one byte and with its head
  -- at most 2^30, so that no `int` sum wraps around, its flag fits an `int`, and the caller's buffer
  -- has all its bytes.
  pub write_data-refines :
      (m : ShareMemory) (os : Os) (q : List Message)
      → (get_shm m.shm os).0 ≡ true
      → Represents m.seg q
      → Ends
          (Written os m.view q (message head content) (has_room m.seg.ctrl (head.size + head_size)))
          (write_data m os head content)
  unfolding write_data write_segment
  write_data-refines m os q attached r =
      rw attached (Ends-bind (finish m.seg q r) λ t f. ends (rw f.0, f.1, rw f.0))
