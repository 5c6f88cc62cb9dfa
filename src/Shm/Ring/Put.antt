-- ===== src/Shm/Ring/Put.antt =====
-- A message that the two memcpy calls of writeData put behind the writer.
use cpp_study.Base.{
  ℕ, ◌+◌, ◌≤◌, ◌<◌, ◌≡◌, ◌∙◌, List, [], ◌∷◌, ◌++◌, arith, length, length-take, take, ◌⊎◌, inl,
}
use cpp_study.Base.Exec.{done}
use cpp_study.Shm.Bytes.{
  Memory, Holds, Holds-Agrees, Holds-append, Holds-write_bytes, write_bytes, write_bytes_outside,
}
use cpp_study.Shm.Ring.{
  Segment, DataHead, head_bytes, head_size, copy_in, content_bytes, put_message,
}
use cpp_study.Shm.Ring.Queue.{
  Message, IsMessage, Stored-agrees, Stored-snoc, Straight, Wrapped, message_bytes, Stored-le,
}

-- The message that a call of writeData hands over.
abbrev pub message : DataHead → List ℕ → Message
message head content = record { flag = head.flag; content = take head.size content }

-- What the two memcpy calls leave.
pub written : Memory → ℕ → DataHead → List ℕ → Memory
written mem p head content =
    write_bytes (write_bytes mem p (head_bytes head)) (p + head_size) (take head.size content)

abbrev pub put : Segment → DataHead → List ℕ → Segment
put s head content = record s {
  mem = written s.mem s.ctrl.write_pos head content;
  ctrl = record (s.ctrl) { write_pos = s.ctrl.write_pos + (head_size + head.size) };
}

module _ (head : DataHead) (content : List ℕ) (sized : head.size ≤ length content) where
  length-taken : length (take head.size content) ≡ head.size
  length-taken = omega (arith, length-take head.size content)

  pub put_message-done :
      (s : Segment)
      → s.ctrl.write_pos + (head_size + head.size) ≤ s.bytes
      → put_message s head content ≡ done (put s head content)
  unfolding put_message written copy_in content_bytes
  put_message-done s fits = ground (arith, length-taken)

  written_agrees :
      (mem : Memory) (p i : ℕ)
      → (i < p) ⊎ (p + (head_size + head.size) ≤ i)
      → written mem p head content i ≡ mem i
  unfolding written
  written_agrees mem p i out =
      let head_part = write_bytes mem p (head_bytes head) in
      write_bytes_outside head_part (p + head_size) (take head.size content) i
        (omega (arith, length-taken))
      ∙ write_bytes_outside mem p (head_bytes head) i (omega arith)

  written-Holds :
      (mem : Memory) (p : ℕ)
      → Holds (written mem p head content) p (message_bytes (message head content))
  unfolding written
  written-Holds mem p =
      let first = write_bytes mem p (head_bytes head) in
      let taken = take head.size content in
      let second = write_bytes first (p + head_size) taken in
      rw length-taken (
        Holds-append second p (head_bytes head) taken
          (Holds-Agrees first second p (head_bytes head)
            (λ i u v. write_bytes_outside first (p + head_size) taken i (omega arith))
            (Holds-write_bytes mem p (head_bytes head)))
          (Holds-write_bytes first (p + head_size) taken))

-- A message that fits before the end, or before the reader, joins the end of the queue.
module _ (head : DataHead) (content : List ℕ) (sized : head.size ≤ length content)
    (valid : IsMessage (message head content)) where
  abbrev wide : ℕ
  wide = head_size + head.size

  pub put-Straight :
      (s : Segment) (q : List Message)
      → Straight s q
      → s.ctrl.write_pos + wide ≤ s.ctrl.end_pos
      → Straight (put s head content) (q ++ message head content ∷ [])
  put-Straight s q r fits =
      let w = s.ctrl.write_pos in
      let old_part = Stored-le s.mem s.ctrl.read_pos q w r.stored in
      let keeps = written_agrees head content sized s.mem w in
      let same = length-taken head content sized in
      record {
        forward = r.forward;
        start_read = r.start_read;
        write_end = fits;
        bounded = r.bounded;
        inside = r.inside;
        stored = rw same at (
            Stored-snoc (written s.mem w head content) s.ctrl.read_pos q w (message head content)
              (Stored-agrees s.mem (written s.mem w head content) s.ctrl.read_pos q w
                (λ i u v. keeps i (inl v)) r.stored)
              valid (written-Holds head content sized s.mem w));
        clean_before = λ i u v. keeps i (omega arith) ∙ r.clean_before i u v;
        clean_after = λ i u v. keeps i (omega arith) ∙ r.clean_after i (omega arith) v;
      }

  pub put-Wrapped :
      (s : Segment) (old new : List Message) (gap : ℕ)
      → Wrapped s old new gap
      → s.ctrl.write_pos + wide ≤ s.ctrl.read_pos
      → Wrapped (put s head content) old (new ++ message head content ∷ []) gap
  put-Wrapped s old new gap r fits =
      let w = s.ctrl.write_pos in
      let old_part = Stored-le s.mem s.ctrl.read_pos old gap r.stored_old in
      let new_part = Stored-le s.mem s.ctrl.start_pos new w r.stored_new in
      let mem' = written s.mem w head content in
      let keeps = written_agrees head content sized s.mem w in
      let same = length-taken head content sized in
      record {
        backward = r.backward;
        write_read = fits;
        gap_end = r.gap_end;
        bounded = r.bounded;
        inside = r.inside;
        stored_old =
            Stored-agrees s.mem mem' s.ctrl.read_pos old gap (λ i u v. keeps i (omega arith))
              r.stored_old;
        stored_new = rw same at (
            Stored-snoc mem' s.ctrl.start_pos new w (message head content)
              (Stored-agrees s.mem mem' s.ctrl.start_pos new w (λ i u v. keeps i (inl v))
                r.stored_new)
              valid (written-Holds head content sized s.mem w));
        clean_between = λ i u v. keeps i (omega arith) ∙ r.clean_between i (omega arith) v;
        clean_after = λ i u v. keeps i (omega arith) ∙ r.clean_after i u v;
      }
