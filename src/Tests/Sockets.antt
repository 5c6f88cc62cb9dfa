-- ===== src/Tests/Sockets.antt =====
-- A server on select with one client, which hangs up while another one comes.
use cpp_study.Base.{[], ◌∷◌, true, arith, refl}
use cpp_study.Base.Int.{pos, negsuc}
use cpp_study.Base.Exec.{Ends}
use cpp_study.Slots.{Server, Round, Opening, serve_round, as_server}
use cpp_study.Slots.Rounds.{IsAccounted, IsRound, serve_round-IsRound}
use cpp_study.Slots.Start.{Outcome, as_server-Outcome}

abbrev one : Server
one = record {
  object = record { socket_id = pos 4; old_socket_id = pos 3 };
  listener = pos 3;
  client_ids = pos 4 ∷ negsuc 0 ∷ pos 0 ∷ pos 0 ∷ pos 0 ∷ [];
  accepted = pos 4 ∷ pos 7 ∷ [];
  closed = pos 7 ∷ [];
  sent = [];
}

abbrev round : Round
round = record { ready = λ fd. true; connection = pos 5; got = λ fd. pos 0; written = λ fd. pos 9 }

one-IsAccounted : IsAccounted one
one-IsAccounted = record { size = refl; kept = λ d. ground arith }

serve_round-IsRound_example : Ends (λ t. IsRound round one t) (serve_round round one)
serve_round-IsRound_example = serve_round-IsRound round one one-IsAccounted

abbrev opening : Opening
opening = record { made = pos 3; bound = pos 0; listening = pos 0; connected = pos 0 }

as_server-Outcome_example : Ends (λ r. Outcome opening r) (as_server opening (round ∷ round ∷ []))
as_server-Outcome_example = as_server-Outcome opening (round ∷ round ∷ [])
