-- ===== src/Tests/Events.antt =====
-- A server on descriptor 3 with a client that comes, is written to and leaves.
use cpp_study.Base.{List, [], ◌∷◌, true, false}
use cpp_study.Base.Int.{pos}
use cpp_study.Epoll.{Event, got, ended, Batch, idle, ready, Start}

abbrev start : Start
start = record { socket = pos 3; bind = pos 0; listen = pos 0; connect = pos 0; added = pos 0 }

abbrev comes : Event
comes = record {
  fd = pos 3;
  readable = true;
  writable = false;
  accepted = pos 5;
  added = pos 0;
  received = got;
}

abbrev asks : Event
asks = record {
  fd = pos 5;
  readable = false;
  writable = true;
  accepted = pos 0;
  added = pos 0;
  received = got;
}

abbrev goes : Event
goes = record {
  fd = pos 5;
  readable = true;
  writable = false;
  accepted = pos 0;
  added = pos 0;
  received = ended;
}

abbrev batches : List Batch
batches = ready (comes ∷ []) ∷ idle ∷ ready (asks ∷ goes ∷ []) ∷ []
