-- ===== src/Tests/Programs.antt =====
-- A server with one client, which fails, and a client whose servers all end.
use cpp_study.Base.{ℕ, ◌+◌, List, [], ◌∷◌, true, refl, replicate, arith}
use cpp_study.Base.Int.{ℤ, pos}
use cpp_study.Base.Exec.{Ends}
use cpp_study.Http.{Received, ended, broken, Event, Batch, wait_failed, ready}
use cpp_study.Ports.{Opening, no_peers, server_size, server_main, client_main}
use cpp_study.Ports.Runs.{Stands, listeners, events_of, server_main-Stands}
use cpp_study.Ports.Client.{waits, wait_of, IsExited, client_main-Exits}
use mathlib.Core.List.{◌++◌}

abbrev opening : ℕ → Opening
opening i = record { made = pos (3 + i); bound = pos 0; listening = pos 0; connected = pos 0 }

abbrev event : ℤ → Received → Event
event fd received = record {
  fd = fd;
  readable = true;
  writable = true;
  connection = pos 20;
  received = received;
}

abbrev batches : List Batch
batches = ready (event (pos 4) ended ∷ event (pos 20) broken ∷ []) ∷ wait_failed ∷ []

server_main-Stands_example :
    Ends
      (λ u. Stands true (listeners server_size 0 opening []) (events_of batches) no_peers u)
      (server_main (pos 30) opening batches)
server_main-Stands_example =
    server_main-Stands (pos 30) opening batches refl
      (refl, (refl, (refl, (refl, (refl, (refl, (refl, (refl, (refl, (refl, tt))))))))))
      ((tt, (tt, tt)), tt)

abbrev all_end : List (List Event)
all_end = replicate 10 (event (pos 3) ended) ∷ []

client_main-Exits_example :
    Ends IsExited (client_main (pos 30) opening (waits all_end ++ wait_of [] ∷ []))
client_main-Exits_example =
    client_main-Exits (pos 30) opening all_end [] refl
      (refl, (refl, (refl, (refl, (refl, (refl, (refl, (refl, (refl, (refl, tt))))))))))
      ((tt, (tt, (tt, (tt, (tt, (tt, (tt, (tt, (tt, (tt, tt)))))))))), tt) (omega arith)
