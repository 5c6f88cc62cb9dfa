-- ===== src/Tests/Segments.antt =====
-- A shared segment of 64 bytes, and a message of three bytes.
use cpp_study.Base.{ℕ, ◌+◌, length, ◌≡◌, refl, List, [], ◌∷◌, true, arith, inr, none, ◌*◌}
use cpp_study.Base.Int.{pos, negsuc}
use cpp_study.Base.Exec.{Ends}
use cpp_study.Shm.{Os, detach, init_shm, get_shm, get_shm_id, get_addr}
use cpp_study.Shm.Bytes.{Memory, write_bytes, write_bytes_outside}
use cpp_study.Shm.Ring.{
  DataHead, Segment, ShareMemory, after_detach, is_mapped, leave, init, write_data, read_data,
}
use cpp_study.Shm.Ring.Queue.{IsMessage, Represents, straight}
use cpp_study.Shm.Ring.Put.{message}
use cpp_study.Shm.Ring.Write.{Written, has_room, write_data-refines}
use cpp_study.Shm.Ring.Read.{Taken, Printable, read_data-refines}
use cpp_study.Shm.Ring.Views.{Answers}
use cpp_study.Shm.Trace.{Call, write_call, read_call, Pair, Fifo, run_calls, run_calls-Fifo}
use cpp_study.Shm.App.{app_loop}
use cpp_study.Shm.App.Steady.{Steady, app_loop-Steady}
use cpp_study.Shm.Attach.{init-Represents}

-- The first free one of the pages.
abbrev place : List ℕ → ℕ
place at = 4096 * (1 + length at)

abbrev os : Os
os = record { shmget = pos 7; shmat = true; place = place; shmdt = pos 0; shmctl = pos 0 }

abbrev failing : Os
failing = record { shmget = negsuc 0; shmat = true; place = place; shmdt = pos 0; shmctl = pos 0 }

abbrev zeros : Memory
zeros i = 0

abbrev fresh : Segment
fresh = record {
  ctrl = record {
    init_flag = 0;
    dir = pos 0;
    start_pos = 0;
    end_pos = 0;
    read_pos = 0;
    write_pos = 0;
  };
  bytes = 64;
  mem = zeros;
}

abbrev start : ShareMemory
start = record {
  shm = record { shm_id = pos 0; shm_key = pos 0; shm_size = pos 0 };
  seg = fresh;
  view = record { ctrl_addr = none; mapped = [] };
}

init-Represents_example :
    let r = init start os 1 64 in
    (r.0 ≡ after_detach os)
    × Represents r.1.seg []
    × (r.1.view ≡ leave (detach true os) os start.view)
    × ((init r.1 failing 1 32).1.seg ≡ r.1.seg)
unfolding get_shm get_shm_id get_addr init_shm
init-Represents_example =
    init-Represents start os failing 1 64 32 refl (λ e. omega arith) (omega arith) (omega arith)
      (omega arith) (λ i p q. refl)

-- The object once the segment is initialised.
abbrev ready : ShareMemory
ready = (init start os 1 64).1

abbrev head : DataHead
head = record { flag = 1; size = 3 }

abbrev content : List ℕ
content = 65 ∷ 66 ∷ 67 ∷ []

head-IsMessage : IsMessage (message head content)
head-IsMessage = record { filled = omega arith; sized = omega arith; flagged = omega arith }

ready_attached : (get_shm ready.shm os).0 ≡ true
unfolding init get_shm get_shm_id get_addr init_shm
ready_attached = refl

ready-Represents : Represents ready.seg []
unfolding get_shm get_shm_id get_addr init_shm
ready-Represents =
    (init-Represents start os failing 1 64 32 refl (λ e. omega arith) (omega arith) (omega arith)
      (omega arith) (λ i p q. refl)).1

write_data-refines_example :
    Ends
      (Written os ready.view [] (message head content) (has_room ready.seg.ctrl 11))
      (write_data ready os head content)
write_data-refines_example =
    write_data-refines head content (omega arith) head-IsMessage ready os [] ready_attached
      ready-Represents

-- The segment with that message in it.
abbrev loaded : ShareMemory
loaded = record ready {
  seg = record {
    ctrl = record {
      init_flag = 1;
      dir = pos 1;
      start_pos = 24;
      end_pos = 64;
      read_pos = 24;
      write_pos = 35;
    };
    bytes = 64;
    mem = write_bytes zeros 24 (1 ∷ 0 ∷ 0 ∷ 0 ∷ 3 ∷ 0 ∷ 0 ∷ 0 ∷ content);
  };
}

loaded-Represents : Represents loaded.seg (message head content ∷ [])
unfolding write_bytes
loaded-Represents = straight (record {
  forward = refl;
  start_read = omega arith;
  write_end = omega arith;
  bounded = omega arith;
  inside = omega arith;
  stored = (
    head-IsMessage,
    (refl, (refl, (refl, (refl, (refl, (refl, (refl, (refl, (refl, (refl, (refl, tt))))))))))),
    omega arith,
  );
  clean_before = λ i p q. absurd (omega arith);
  clean_after =
      λ i p q. write_bytes_outside zeros 24 (1 ∷ 0 ∷ 0 ∷ 0 ∷ 3 ∷ 0 ∷ 0 ∷ 0 ∷ content) i (inr p);
})

loaded_attached : (get_shm loaded.shm os).0 ≡ true
unfolding init get_shm get_shm_id get_addr init_shm
loaded_attached = refl

loaded_shown : Printable os loaded.view
unfolding detach init leave is_mapped get_shm get_shm_id get_addr init_shm
loaded_shown = refl

read_data-refines_example :
    Ends (Taken os loaded.view (message head content ∷ [])) (read_data loaded os 16)
read_data-refines_example =
    read_data-refines 16 loaded os (message head content ∷ []) loaded_attached loaded_shown
      (omega arith) loaded-Represents

abbrev calls : List Call
calls = write_call os head content ∷ read_call os 16 ∷ read_call os 16 ∷ []

abbrev both : Pair
both = record {
  writer = ready.shm;
  writer_view = ready.view;
  reader = ready.shm;
  reader_view = ready.view;
  seg = ready.seg;
}

os-Answers : Answers place os
os-Answers = (omega arith, refl, λ at. refl)

run_calls-Fifo_example : Ends (Fifo place 16 []) (run_calls calls both)
run_calls-Fifo_example =
    run_calls-Fifo place 16 calls both []
      (
        (os-Answers, omega arith, omega arith, head-IsMessage),
        ((os-Answers, omega arith), ((os-Answers, omega arith), tt)),
      )
      tt loaded_shown ready-Represents

abbrev one_pass : List (Os × Os)
one_pass = (os, os) ∷ []

app_loop-Steady_example :
    Ends (λ r. Steady place (0 + length one_pass) (r.1, r.2)) (app_loop (pos 0) ready one_pass)
app_loop-Steady_example =
    app_loop-Steady place (pos 0) ready one_pass 0 (os-Answers, os-Answers, tt)
      (ready-Represents, loaded_shown)
