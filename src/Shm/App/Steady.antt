-- ===== src/Shm/App/Steady.antt =====
-- The process on a segment that holds copies of its own message.
use cpp_study.Base.{
  ℕ, zero, suc, ◌+◌, ◌≤◌, ◌≡◌, refl, ap, List, [], ◌∷◌, ◌++◌, Bool, true, false, Option, arith,
  length, replicate,
}
use cpp_study.Base.Int.{ℤ}
use cpp_study.Base.Exec.{Exec, Ends, ends, Ends-bind, Ends-weaken, Ends-if}
use cpp_study.Shm.{ResultCode, Os, detach}
use cpp_study.Shm.Ring.{DataHead, ShareMemory, View, head_size}
use cpp_study.Shm.Ring.Queue.{Message, IsMessage, Represents}
use cpp_study.Shm.Ring.Put.{message}
use cpp_study.Shm.Ring.Write.{Written, has_room, write_data-refines}
use cpp_study.Shm.Ring.Read.{FirstFits, Taken, read_data-refines}
use cpp_study.Shm.Ring.Views.{Answers, get_shm_answers, Points, Points-Printable, Points-leave}
use cpp_study.Shm.App.{
  test_content, test_head, buffer_size, Status, running, returned, is_success, acts, app_write,
  app_read, app_round, read_so_far, app_loop,
}

abbrev pub test_message : Message
test_message = message test_head test_content

abbrev pub Copies : ℕ → ShareMemory → Type 0
Copies n m = Represents m.seg (replicate n test_message)

-- That, and m_shmCtrl leads to the segment once it is attached.
abbrev pub Held : (List ℕ → ℕ) → ℕ → ShareMemory → Type 0
Held place n m = Copies n m × Points place m.view

test_message-IsMessage : IsMessage test_message
test_message-IsMessage = record { filled = omega arith; sized = omega arith; flagged = omega arith }

replicate-snoc {ℓ} : {A : Type ℓ} (n : ℕ) (x : A) → replicate n x ++ (x ∷ []) ≡ replicate (suc n) x
replicate-snoc zero x = refl
replicate-snoc (suc n) x = ap (◌∷◌ x) (replicate-snoc n x)

-- At most one copy more than `n`.
Grown : (List ℕ → ℕ) → ℕ → ResultCode × ShareMemory → Type 0
Grown place n r = (k : ℕ) × (k ≤ n + 1) × Held place k r.1

Grown-by :
    (place : List ℕ → ℕ) (n : ℕ) (os : Os) (v : View) (room : Bool) (r : ResultCode × ShareMemory)
    → Answers place os
    → Written os v (replicate n test_message) test_message room r
    → Grown place n r
unfolding Grown
Grown-by place n os v true r ok (code, rep, moved) = (
  suc n,
  omega arith,
  ((rw replicate-snoc at rep), rw moved (Points-leave place (detach true os) os v ok)),
)
Grown-by place n os v false r ok (code, rep, moved) =
    (n, omega arith, (rep, rw moved (Points-leave place false os v ok)))

app_write-Grown :
    (place : List ℕ → ℕ) (kind : ℤ) (m : ShareMemory) (os : Os) (n : ℕ)
    → Answers place os
    → Held place n m
    → Ends (Grown place n) (app_write kind m os)
unfolding app_write Grown
app_write-Grown place kind m os n ok (c, h) =
    Ends-if (acts kind 1)
      (λ _.
        Ends-weaken
          (λ r. Grown-by place n os m.view (has_room m.seg.ctrl (test_head.size + head_size)) r ok)
          (write_data-refines test_head test_content (omega arith) test_message-IsMessage m os
            (replicate n test_message) (get_shm_answers place m.shm os ok) c))
      λ _. ends (n, omega arith, (c, h))

-- What was read is the program's own message.
abbrev pub IsOwn : DataHead × List ℕ → Type 0
IsOwn x = x ≡ (test_head, test_content)

abbrev pub AllOwn : List (DataHead × List ℕ) → Type 0
AllOwn [] = Unit
AllOwn (x ∷ xs) = IsOwn x × AllOwn xs

-- At most `n` copies are left, and what was read is the message.
Shrunk : (List ℕ → ℕ) → ℕ → ResultCode × Option (DataHead × List ℕ) × ShareMemory → Type 0
Shrunk place n r = (k : ℕ) × (k ≤ n) × Held place k r.2 × AllOwn (read_so_far r.1)

copies-FirstFits : (n : ℕ) → FirstFits (replicate n test_message) buffer_size
copies-FirstFits zero = tt
copies-FirstFits (suc n) = omega arith

Shrunk-by :
    (place : List ℕ → ℕ) (n : ℕ) (os : Os) (v : View)
    (r : ResultCode × Option (DataHead × List ℕ) × ShareMemory)
    → Answers place os
    → Taken os v (replicate n test_message) r
    → Shrunk place n r
unfolding Shrunk
Shrunk-by place zero os v r ok (code, got, rep, moved) =
    (zero, omega arith, (rep, rw moved (Points-leave place false os v ok)), rw got tt)
Shrunk-by place (suc n) os v r ok (code, got, rep, moved) = (
  n,
  omega arith,
  (rep, rw moved (Points-leave place (detach true os) os v ok)),
  rw got (refl, tt),
)

app_read-Shrunk :
    (place : List ℕ → ℕ) (kind : ℤ) (m : ShareMemory) (os : Os) (n : ℕ)
    → Answers place os
    → Held place n m
    → Ends (Shrunk place n) (app_read kind m os)
unfolding app_read Shrunk
app_read-Shrunk place kind m os n ok (c, h) =
    Ends-if (acts kind 2)
      (λ _.
        Ends-weaken (λ r. Shrunk-by place n os m.view r ok)
          (read_data-refines buffer_size m os (replicate n test_message)
            (get_shm_answers place m.shm os ok) (Points-Printable place os m.view ok h)
            (copies-FirstFits n) c))
      λ _. ends (n, omega arith, (c, h), tt)

-- At most `n` copies stand in the segment, and everything that was read is the message.
abbrev pub Steady : (List ℕ → ℕ) → ℕ → List (DataHead × List ℕ) × ShareMemory → Type 0
Steady place n r = ((k : ℕ) × (k ≤ n) × Held place k r.1) × AllOwn r.0

app_round-Steady :
    (place : List ℕ → ℕ) (kind : ℤ) (m : ShareMemory) (os os' : Os) (n : ℕ)
    → Answers place os
    → Answers place os'
    → Held place n m
    → Ends (λ r. Steady place (n + 1) (read_so_far r.1, r.2)) (app_round kind m os os')
unfolding app_round Grown Shrunk
app_round-Steady place kind m os os' n ok ok' c =
    Ends-bind (app_write-Grown place kind m os n ok c) λ (code, m1) (k, le, grown).
      Ends-if (is_success code)
        (λ _.
          Ends-bind (app_read-Shrunk place kind m1 os' k ok' grown)
            λ (code', got, m2) (j, le', left, own). ends ((j, omega arith, left), own))
        λ _. ends ((k, le, grown), tt)

module _ {A : Type 0} {P : A → Type 0} where
  Ends-status :
      {go_on : Exec A} {stop : ResultCode → Exec A} (status : Status)
      → Ends P go_on
      → ((code : ResultCode) → Ends P (stop code))
      → Ends P (elim status [ running ↦ go_on | returned code ↦ stop code ])
  Ends-status running g h = g
  Ends-status (returned code) g h = h code

AllOwn-append : (xs ys : List (DataHead × List ℕ)) → AllOwn xs → AllOwn ys → AllOwn (xs ++ ys)
AllOwn-append [] ys f g = g
AllOwn-append (x ∷ xs) ys (h, f) g = (h, AllOwn-append xs ys f g)

abbrev pub AllAnswer : (List ℕ → ℕ) → List (Os × Os) → Type 0
AllAnswer place [] = Unit
AllAnswer place ((os, os') ∷ rest) = Answers place os × Answers place os' × AllAnswer place rest

-- The loop of app_shm on a segment that holds `n` copies of its message, on a system that answers
-- every call, whatever the kind: each pass ends without an access outside the segment. Everything
-- that it reads is the message that it writes, with its 13 bytes, and the segment holds copies of
-- the message again, at most one more for each pass. The segment has less than 2^30 bytes. Where shmat
-- puts the segment depends only on the addresses at which the process has it already, and m_shmCtrl is
-- one of these or the next one, as init leaves it.
pub app_loop-Steady :
    (place : List ℕ → ℕ) (kind : ℤ) (m : ShareMemory) (rest : List (Os × Os)) (n : ℕ)
    → AllAnswer place rest
    → Held place n m
    → Ends (λ r. Steady place (n + length rest) (r.1, r.2)) (app_loop kind m rest)
unfolding app_loop
app_loop-Steady place kind m [] n ok c = ends ((n, omega arith, c), tt)
app_loop-Steady place kind m ((os, os') ∷ rest) n (a, a', ok) c =
    Ends-bind (app_round-Steady place kind m os os' n a a' c)
      λ (status, got, m1) ((k, le, copies), own).
        Ends-status status
          (Ends-bind (app_loop-Steady place kind m1 rest k ok copies)
            λ (status', more, m2) ((j, le', copies'), own').
              ends ((j, omega arith, copies'), AllOwn-append (read_so_far got) more own own'))
          λ code. ends ((k, omega arith, copies), own)
