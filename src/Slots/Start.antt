-- ===== src/Slots/Start.antt =====
-- mysocket.cpp: AsServer from its start.
use cpp_study.Base.{◌≡◌, refl, List, [], Bool, true, false, arith, if◌then◌else◌, not, replicate}
use cpp_study.Base.Int.{pos, negsuc, ltb_ℤ, leb_ℤ}
use cpp_study.Base.Exec.{Ends, ends, Ends-bind}
use cpp_study.Slots.{
  connect_num, Server, Round, Opening, Result, running, returned, as_server, listen,
}
use cpp_study.Slots.Rounds.{IsAccounted, came, serve_rounds-IsAccounted}

-- The calls of the start succeed, on a descriptor other than 0.
abbrev pub starts : Opening → Bool
starts a =
    if leb_ℤ a.made (pos 0)
    then false
    else if ltb_ℤ a.bound (pos 0)
    then false
    else not (ltb_ℤ a.listening (pos 0))

abbrev pub Outcome : Opening → Result Server → Type 0
Outcome a (running s) = IsAccounted s × (starts a ≡ true)
Outcome a (returned n) = (n ≡ negsuc 0) × (starts a ≡ false)

first_server : Opening → Server
first_server a = record {
  object = record { socket_id = negsuc 0; old_socket_id = a.made };
  listener = a.made;
  client_ids = replicate connect_num (pos 0);
  accepted = [];
  closed = [];
  sent = [];
}

first_server-IsAccounted : (a : Opening) → IsAccounted (first_server a)
unfolding first_server
first_server-IsAccounted a = record { size = refl; kept = λ d. ground arith }

-- AsServer from its start: it returns -1 exactly where a call of the start fails or gives the
-- descriptor 0. Else it runs on, over any rounds, with no access outside its array, and each
-- descriptor that accept gave is as often in one of the five places or closed.
pub as_server-Outcome :
    (a : Opening) (rounds : List Round) → Ends (λ r. Outcome a r) (as_server a rounds)
unfolding as_server listen first_server
as_server-Outcome a rounds =
    by_calls (leb_ℤ a.made (pos 0)) (ltb_ℤ a.made (pos 0)) (ltb_ℤ a.bound (pos 0))
      (ltb_ℤ a.listening (pos 0)) refl refl refl refl
  where
    by_calls :
        (none_made negative unbound silent : Bool)
        → leb_ℤ a.made (pos 0) ≡ none_made
        → ltb_ℤ a.made (pos 0) ≡ negative
        → ltb_ℤ a.bound (pos 0) ≡ unbound
        → ltb_ℤ a.listening (pos 0) ≡ silent
        → Ends (λ r. Outcome a r) (as_server a rounds)
    by_calls true true u l h n p q = rw n (ends (refl, rw h refl))
    by_calls true false true l h n p q = rw (n, p) (ends (refl, rw h refl))
    by_calls true false false true h n p q = rw (n, p, q) (ends (refl, rw h refl))
    by_calls true false false false h n p q = rw (n, p, q, h) (ends (refl, rw h refl))
    by_calls false n true l h m p q = rw (came a.made h, p) (ends (refl, rw (h, p) refl))
    by_calls false n false true h m p q = rw (came a.made h, p, q) (ends (refl, rw (h, p, q) refl))
    by_calls false n false false h m p q =
        rw (came a.made h, p, q, h)
          (Ends-bind (serve_rounds-IsAccounted rounds (first_server a) (first_server-IsAccounted a))
            λ t i. ends (i, rw (h, p, q) refl))
