-- ===== src/Shm/Ring/Queue.antt =====
-- The ring as a queue of messages: where the messages stand in the segment, and that every byte
-- that holds none is 0, by which judegeRead finds the place where the writer turned back.
use cpp_study.Base.{ℕ, ◌+◌, ◌^◌, ◌≤◌, ◌<◌, ◌≡◌, refl, List, [], ◌∷◌, ◌++◌, arith, length}
use cpp_study.Base.Int.{pos, negsuc}
use cpp_study.Shm.Bytes.{
  Memory, Holds, Clean, Agrees, Holds-Agrees, Holds-append_left, Holds-append_right, int_bytes,
  int_at, int_at-Holds, read_bytes, read_bytes-Holds,
}
use cpp_study.Shm.Ring.{Segment, DataHead, head_bytes, head_size}

pub record Message : Type 0 where
  pub flag : ℕ
  pub content : List ℕ

abbrev pub head_of : Message → DataHead
head_of m = record { flag = m.flag; size = length m.content }

abbrev pub message_bytes : Message → List ℕ
message_bytes m = head_bytes (head_of m) ++ m.content

abbrev pub width : Message → ℕ
width m = head_size + length m.content

-- A message of at least one byte and at most 2^30 with its head, whose flag fits its integer.
pub record IsMessage (m : Message) : Type 0 where
  pub filled : 0 < length m.content
  pub sized : length m.content + head_size ≤ 2 ^ 30
  pub flagged : m.flag < 2 ^ 32

-- The messages stand one behind the other from `p` up to `e`.
abbrev pub Stored : Memory → ℕ → List Message → ℕ → Type 0
Stored mem p [] e = p ≡ e
Stored mem p (m ∷ ms) e =
    IsMessage m × Holds mem p (message_bytes m) × Stored mem (p + width m) ms e

-- The writer is ahead of the reader.
pub record Straight (s : Segment) (q : List Message) : Type 0 where
  pub forward : s.ctrl.dir ≡ pos 1
  pub start_read : s.ctrl.start_pos ≤ s.ctrl.read_pos
  pub write_end : s.ctrl.write_pos ≤ s.ctrl.end_pos
  pub bounded : s.ctrl.end_pos < 2 ^ 30
  pub inside : s.ctrl.end_pos ≤ s.bytes
  pub stored : Stored s.mem s.ctrl.read_pos q s.ctrl.write_pos
  pub clean_before : Clean s.mem s.ctrl.start_pos s.ctrl.read_pos
  pub clean_after : Clean s.mem s.ctrl.write_pos s.ctrl.end_pos

-- The writer has turned back: `old` stands from the reader up to `gap`, `new` before the writer.
pub record Wrapped (s : Segment) (old new : List Message) (gap : ℕ) : Type 0 where
  pub backward : s.ctrl.dir ≡ negsuc 0
  pub write_read : s.ctrl.write_pos ≤ s.ctrl.read_pos
  pub gap_end : gap ≤ s.ctrl.end_pos
  pub bounded : s.ctrl.end_pos < 2 ^ 30
  pub inside : s.ctrl.end_pos ≤ s.bytes
  pub stored_old : Stored s.mem s.ctrl.read_pos old gap
  pub stored_new : Stored s.mem s.ctrl.start_pos new s.ctrl.write_pos
  pub clean_between : Clean s.mem s.ctrl.write_pos s.ctrl.read_pos
  pub clean_after : Clean s.mem gap s.ctrl.end_pos

-- The segment, of less than 2^30 bytes, holds the messages `q`, the next one to be read first.
pub data Represents (s : Segment) (q : List Message) : Type 0 where
  straight : Straight s q → Represents s q
  wrapped :
      (old new : List Message) (gap : ℕ) → Wrapped s old new gap → q ≡ old ++ new → Represents s q

pub length-message_bytes : (m : Message) → length (message_bytes m) ≡ width m
length-message_bytes m = omega arith

pub Stored-le : (mem : Memory) (p : ℕ) (q : List Message) (e : ℕ) → Stored mem p q e → p ≤ e
Stored-le mem p [] e h = omega arith
Stored-le mem p (m ∷ q) e (_, _, h) = omega (arith, Stored-le mem (p + width m) q e h)

pub Stored-agrees :
    (mem mem' : Memory) (p : ℕ) (q : List Message) (e : ℕ)
    → Agrees mem' mem p e
    → Stored mem p q e
    → Stored mem' p q e
Stored-agrees mem mem' p [] e a h = h
Stored-agrees mem mem' p (m ∷ q) e a (valid, held, h) =
    let end = Stored-le mem (p + width m) q e h in
    (
      valid,
      Holds-Agrees mem mem' p (message_bytes m)
          (λ i u v. a i u (omega (arith, length-message_bytes m))) held,
      Stored-agrees mem mem' (p + width m) q e (λ i u v. a i (omega arith) v) h,
    )

pub Stored-snoc :
    (mem : Memory) (p : ℕ) (q : List Message) (e : ℕ) (m : Message)
    → Stored mem p q e
    → IsMessage m
    → Holds mem e (message_bytes m)
    → Stored mem p (q ++ m ∷ []) (e + width m)
Stored-snoc mem p [] e m h valid held = rw h (valid, held, refl)
Stored-snoc mem p (n ∷ q) e m (valid', held', h) valid held =
    (valid', held', Stored-snoc mem (p + width n) q e m h valid held)

-- The head and the content of the first message, as readData finds them.
module _ (mem : Memory) (p : ℕ) (m : Message) (valid : IsMessage m)
    (held : Holds mem p (message_bytes m)) where
  head_held : Holds mem p (head_bytes (head_of m))
  head_held = Holds-append_left mem p (head_bytes (head_of m)) m.content held

  pub first_flag : int_at mem p ≡ m.flag
  first_flag =
      int_at-Holds mem p m.flag valid.flagged
        (Holds-append_left mem p (int_bytes m.flag) (int_bytes (length m.content)) head_held)

  pub first_size : int_at mem (p + 4) ≡ length m.content
  first_size =
      int_at-Holds mem (p + 4) (length m.content) (omega (arith, valid.sized))
        (Holds-append_right mem p (int_bytes m.flag) (int_bytes (length m.content)) head_held)

  pub first_content : read_bytes mem (p + head_size) (length m.content) ≡ m.content
  first_content =
      read_bytes-Holds mem (p + head_size) m.content
        (Holds-append_right mem p (head_bytes (head_of m)) m.content held)
