-- ===== src/Shm/Trace.antt =====
-- A writer and a reader of one segment: each has its own object of the class ShareMemory, and their
-- calls come in any order.
use mathlib.Core.List.{append-nil, append_assoc}
use cpp_study.Base.{
  ℕ, ◌+◌, ◌≤◌, ◌≡◌, refl, sym, ap, ◌∙◌, List, [], ◌∷◌, ◌++◌, Bool, true, false, Option, none, some,
  arith, if◌then◌else◌, length, length-take,
}
use cpp_study.Base.Exec.{Exec, done, Ends, ends, Ends-bind, ◌>>=◌}
use cpp_study.Shm.{ResultCode, rs_success, rs_common, rs_alloc, rs_no_shm, Shm, Os, detach}
use cpp_study.Shm.Ring.{
  DataHead, Segment, ShareMemory, View, head_size, after_detach, write_data, read_data,
}
use cpp_study.Shm.Ring.Queue.{Message, IsMessage, Represents}
use cpp_study.Shm.Ring.Put.{message}
use cpp_study.Shm.Ring.Write.{Written, has_room, write_data-refines}
use cpp_study.Shm.Ring.Read.{FirstFits, Taken, read_data-refines}
use cpp_study.Shm.Ring.Views.{Answers, get_shm_answers, Points, Points-Printable, Points-leave}

-- A call of the writer's writeData, or one of the reader's readData, with what the system answers
-- to it.
pub data Call : Type 0 where
  write_call : Os → DataHead → List ℕ → Call
  read_call : Os → ℕ → Call

pub record Pair : Type 0 where
  pub writer : Shm
  pub writer_view : View
  pub reader : Shm
  pub reader_view : View
  pub seg : Segment

-- The messages that writeData took and that readData handed out.
pub record Passed : Type 0 where
  pub taken_in : List Message
  pub handed_out : List Message

abbrev pub accepted : ResultCode → Bool
accepted rs_success = true
accepted rs_common = true
accepted rs_alloc = true
accepted rs_no_shm = false

abbrev pub handed : Option (DataHead × List ℕ) → List Message
handed none = []
handed (some (head, content)) = record { flag = head.flag; content = content } ∷ []

unfoldable pub run_call : Call → Pair → Exec (Passed × Pair)
run_call (write_call os head content) p = do
  (code, m) ←
      write_data (record { shm = p.writer; seg = p.seg; view = p.writer_view }) os head content
  done (
    record { taken_in = if accepted code then message head content ∷ [] else []; handed_out = [] },
    record p { writer = m.shm; writer_view = m.view; seg = m.seg },
  )
run_call (read_call os room) p = do
  (code, got, m) ← read_data (record { shm = p.reader; seg = p.seg; view = p.reader_view }) os room
  done (
    record { taken_in = []; handed_out = handed got },
    record p { reader = m.shm; reader_view = m.view; seg = m.seg },
  )

unfoldable pub run_calls : List Call → Pair → Exec (Passed × Pair)
unfolding run_call
run_calls [] p = done (record { taken_in = []; handed_out = [] }, p)
run_calls (c ∷ calls) p = do
  (now, p1) ← run_call c p
  (later, p2) ← run_calls calls p1
  done (
    record {
      taken_in = now.taken_in ++ later.taken_in;
      handed_out = now.handed_out ++ later.handed_out;
    },
    p2,
  )

-- A call is in order if the system answers it, its message is one, of at most `limit` bytes, and its
-- buffer holds that message, or has room for `limit` bytes.
abbrev pub InOrder : (List ℕ → ℕ) → ℕ → Call → Type 0
InOrder place limit (write_call os head content) =
    Answers place os
    × (head.size ≤ length content)
    × (head.size ≤ limit)
    × IsMessage (message head content)
InOrder place limit (read_call os room) = Answers place os × (limit ≤ room)

abbrev pub AllInOrder : (List ℕ → ℕ) → ℕ → List Call → Type 0
AllInOrder place limit [] = Unit
AllInOrder place limit (c ∷ calls) = InOrder place limit c × AllInOrder place limit calls

-- The messages of the queue have at most `limit` bytes.
abbrev pub Fit : ℕ → List Message → Type 0
Fit limit [] = Unit
Fit limit (m ∷ q) = (length m.content ≤ limit) × Fit limit q

-- What went in follows the queue from before; what came out stands in front of the one behind.
pub record Fifo (place : List ℕ → ℕ) (limit : ℕ) (q : List Message) (r : Passed × Pair)
    : Type 0 where
  pub left : List Message
  pub represents : Represents r.1.seg left
  pub fit : Fit limit left
  pub points : Points place r.1.reader_view
  pub in_order : q ++ r.0.taken_in ≡ r.0.handed_out ++ left

Fit-append : (limit : ℕ) (q r : List Message) → Fit limit q → Fit limit r → Fit limit (q ++ r)
Fit-append limit [] r f g = g
Fit-append limit (m ∷ q) r (h, f) g = (h, Fit-append limit q r f g)

FirstFits-Fit : (limit room : ℕ) (q : List Message) → limit ≤ room → Fit limit q → FirstFits q room
FirstFits-Fit limit room [] h f = tt
FirstFits-Fit limit room (m ∷ q) h (l, f) = omega arith

accepted_after : (os : Os) → accepted (after_detach os) ≡ true
unfolding after_detach
accepted_after os = ground arith

module _ (place : List ℕ → ℕ) (limit : ℕ) (q : List Message) (f : Fit limit q) where
  write_outcome :
      (room : Bool) (os : Os) (w : View) (msg : Message) (shm : Shm) (v : View)
      (r : ResultCode × ShareMemory)
      → length msg.content ≤ limit
      → Points place v
      → Written os w q msg room r
      → Fifo place limit q (
        record { taken_in = if accepted r.0 then msg ∷ [] else []; handed_out = [] },
        record {
          writer = r.1.shm;
          writer_view = r.1.view;
          reader = shm;
          reader_view = v;
          seg = r.1.seg;
        },
      )
  write_outcome true os w msg shm v r small h (code, rep, moved) =
      let taken = ap accepted code ∙ accepted_after os in
      record {
        left = q ++ (msg ∷ []);
        represents = rep;
        fit = Fit-append limit q (msg ∷ []) f (small, tt);
        points = h;
        in_order = rw taken refl;
      }
  write_outcome false os w msg shm v r small h (code, rep, moved) = record {
    left = q;
    represents = rep;
    fit = f;
    points = h;
    in_order = rw code (append-nil q);
  }

read_outcome :
    (place : List ℕ → ℕ) (limit : ℕ) (q : List Message) (os : Os) (v : View) (shm : Shm) (w : View)
    (r : ResultCode × Option (DataHead × List ℕ) × ShareMemory)
    → Answers place os
    → Fit limit q
    → Taken os v q r
    → Fifo place limit q (
      record { taken_in = []; handed_out = handed r.1 },
      record {
        writer = shm;
        writer_view = w;
        reader = r.2.shm;
        reader_view = r.2.view;
        seg = r.2.seg;
      },
    )
read_outcome place limit [] os v shm w r ok f (code, got, rep, moved) = record {
  left = [];
  represents = rep;
  fit = tt;
  points = rw moved (Points-leave place false os v ok);
  in_order = rw got refl;
}
read_outcome place limit (m ∷ q) os v shm w r ok (l, f) (code, got, rep, moved) = record {
  left = q;
  represents = rep;
  fit = f;
  points = rw moved (Points-leave place (detach true os) os v ok);
  in_order = rw got (append-nil (m ∷ q));
}

run_call-Fifo :
    (place : List ℕ → ℕ) (limit : ℕ) (c : Call) (p : Pair) (q : List Message)
    → InOrder place limit c
    → Fit limit q
    → Points place p.reader_view
    → Represents p.seg q
    → Ends (Fifo place limit q) (run_call c p)
unfolding run_call
run_call-Fifo place limit (write_call os head content) p q (ok, sized, small, valid) f h r =
    Ends-bind
      (write_data-refines head content sized valid
        (record { shm = p.writer; seg = p.seg; view = p.writer_view }) os q
        (get_shm_answers place p.writer os ok) r)
      λ a w. ends (
        write_outcome place limit q f (has_room p.seg.ctrl (head.size + head_size)) os p.writer_view
          (message head content) p.reader p.reader_view a
          (omega (arith, length-take head.size content)) h w)
run_call-Fifo place limit (read_call os room) p q (ok, wide) f h r =
    Ends-bind
      (read_data-refines room (record { shm = p.reader; seg = p.seg; view = p.reader_view }) os q
        (get_shm_answers place p.reader os ok) (Points-Printable place os p.reader_view ok h)
        (FirstFits-Fit limit room q wide f) r)
      λ a t. ends (read_outcome place limit q os p.reader_view p.writer p.writer_view a ok f t)

-- One outcome behind another.
Fifo-trans :
    (place : List ℕ → ℕ) (limit : ℕ) (q : List Message) (now later : Passed) (p1 p2 : Pair)
    (a : Fifo place limit q (now, p1))
    → Fifo place limit (a.left) (later, p2)
    → Fifo place limit q (
      record {
        taken_in = now.taken_in ++ later.taken_in;
        handed_out = now.handed_out ++ later.handed_out;
      },
      p2,
    )
Fifo-trans place limit q now later p1 p2 a b = record {
  left = b.left;
  represents = b.represents;
  fit = b.fit;
  points = b.points;
  in_order =
      sym (append_assoc q now.taken_in later.taken_in)
      ∙ ap (λ l. l ++ later.taken_in) a.in_order
      ∙ append_assoc now.handed_out a.left later.taken_in
      ∙ ap (λ l. now.handed_out ++ l) b.in_order
      ∙ sym (append_assoc now.handed_out later.handed_out b.left);
}

-- writeData and readData in any order, by a writer and a reader of one segment, on calls that are in
-- order: every call stays inside the segment and ends. The messages that the reader is handed are
-- the messages that the segment held before, followed by those that writeData took, each once and
-- in the same order, but for the last ones, which the segment then holds. The segment has less than
-- 2^30 bytes. Where shmat puts the segment depends only on the addresses at which the process has it
-- already, and the reader's m_shmCtrl is one of these or the next one, as init leaves it.
pub run_calls-Fifo :
    (place : List ℕ → ℕ) (limit : ℕ) (calls : List Call) (p : Pair) (q : List Message)
    → AllInOrder place limit calls
    → Fit limit q
    → Points place p.reader_view
    → Represents p.seg q
    → Ends (Fifo place limit q) (run_calls calls p)
unfolding run_calls
run_calls-Fifo place limit [] p q h f v r =
    ends (record { left = q; represents = r; fit = f; points = v; in_order = append-nil q })
run_calls-Fifo place limit (c ∷ calls) p q (h, hs) f v r =
    Ends-bind (run_call-Fifo place limit c p q h f v r) λ (now, p1) a.
      Ends-bind (run_calls-Fifo place limit calls p1 a.left hs a.fit a.points a.represents)
        λ (later, p2) b. ends (Fifo-trans place limit q now later p1 p2 a b)
