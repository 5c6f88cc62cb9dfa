-- ===== src/Tests/Chats.antt =====
-- A table of two clients, of which the first hangs up while a third one comes.
use cpp_study.Base.{[], ◌∷◌, true, some, none, arith, if◌then◌else◌, ◌==◌}
use cpp_study.Base.Exec.{Ends}
use cpp_study.Poll.{Mask, User, Server, ended, Round, no_bits, new_slot, serve_round, serve_all}
use cpp_study.Poll.Rounds.{Served, polled, serve_round-Served, IsAccounted, serve_all-IsAccounted}

abbrev quiet : User
quiet = record { write_buf = none; buf = [] }

abbrev two : Server
two = record {
  slots = new_slot 4 ∷ new_slot 5 ∷ [];
  users = λ fd. quiet;
  accepted = 5 ∷ 4 ∷ [];
  closed = [];
  sent = [];
}

abbrev hung_up : Mask
hung_up = record no_bits { m_rdhup = true }

abbrev round : Round
round = record {
  ready = true;
  connection = some 6;
  revents_of = λ fd. if fd == 4 then hung_up else no_bits;
  received = λ fd. ended;
}

serve_round-Served_example : Ends (Served round (polled round two)) (serve_round 6 round two)
serve_round-Served_example = serve_round-Served 6 round two (omega arith) (omega arith)

two-IsAccounted : IsAccounted two
two-IsAccounted = record { within = omega arith; kept = λ d. omega arith }

serve_all-IsAccounted_example : Ends IsAccounted (serve_all 6 (some round ∷ none ∷ []) two)
serve_all-IsAccounted_example =
    serve_all-IsAccounted 6 (some round ∷ none ∷ []) two (omega arith) two-IsAccounted
