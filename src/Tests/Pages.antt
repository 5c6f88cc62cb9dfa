-- ===== src/Tests/Pages.antt =====
-- A client that sends a request for the form and ends its connection, before a wait fails.
use cpp_study.Base.{List, [], ◌∷◌, true, refl}
use cpp_study.Base.Int.{ℤ, pos}
use cpp_study.Base.Exec.{Ends}
use cpp_study.Base.Chars.{codes}
use cpp_study.Ini.{Text}
use cpp_study.Http.{deal_recv, Received, got, ended, Event, Batch, wait_failed, ready, Start, run}
use cpp_study.Http.Answers.{Answered, deal_recv-Answered}
use cpp_study.Http.Serving.{Stands, new_server, events_of, run-Stands}

abbrev request : Text
request = codes "GET / HTTP/1.0\r\n"

deal_recv-Answered_example : Answered request (deal_recv request)
deal_recv-Answered_example = deal_recv-Answered request

abbrev event : ℤ → Received → Event
event fd received = record {
  fd = fd;
  readable = true;
  writable = true;
  connection = pos 5;
  received = received;
}

abbrev batches : List Batch
batches =
    ready (event (pos 3) ended ∷ [])
    ∷ ready (event (pos 5) (got request) ∷ [])
    ∷ ready (event (pos 5) ended ∷ [])
    ∷ wait_failed
    ∷ []

abbrev start : Start
start = record { made = pos 3; bound = pos 0; listening = pos 0; poller = pos 4 }

run-Stands_example :
    Ends (λ u. Stands true (pos 3) (events_of batches) (new_server (pos 3)) u) (run start batches)
run-Stands_example = run-Stands start batches refl ((tt, tt), ((refl, tt), ((tt, tt), tt)))
