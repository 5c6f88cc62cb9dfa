-- ===== src/Http.antt =====
-- wzq_http/http.cpp: a server on epoll that answers each request with one of three pages.
--
-- What a system call returns is an argument, and a run is followed for as many waits as are given.
-- A page is written whole. The descriptors are those that accept gave and those that were closed.
pub mod Pages
pub mod Answers
pub mod Counts
pub mod Serving
use cpp_study.Base.{
  ℕ, suc, ◌+◌, List, [], ◌∷◌, Bool, true, false, not, ◌&&◌, ◌==◌, ltb, leb, if◌then◌else◌, length,
}
use cpp_study.Base.Int.{ℤ, pos, negsuc, ltb_ℤ, eqb_ℤ}
use cpp_study.Base.Exec.{Exec, done, fault, ◌>>=◌}
use cpp_study.Base.Chars.{codes, has_key}
use cpp_study.Ini.{Text}
use Pages.{buffer_size, default_html, result_fmt, hello_text, page, send_buffer}

-- The bytes before the first 0, and whether there is a 0 among them.
abbrev pub c_text : List ℕ → Text
c_text [] = []
c_text (b ∷ bytes) = let rest = c_text bytes in if b == 0 then [] else b ∷ rest

abbrev pub has_zero : List ℕ → Bool
has_zero [] = false
has_zero (b ∷ bytes) = let rest = has_zero bytes in if b == 0 then true else rest

-- A buffer of BUFFER_SIZE bytes, cleared before recv, that is filled without a 0: strstr reads past
-- its end.
abbrev pub is_unended : List ℕ → Bool
is_unended bytes = leb buffer_size (length bytes) && not (has_zero bytes)

-- DealRecv: what it writes to the client.
unfoldable pub deal_recv : List ℕ → Exec Text
unfolding send_buffer page
deal_recv bytes =
    if is_unended bytes
    then fault
    else if not (has_key (codes "GET ") (c_text bytes))
    then send_buffer hello_text
    else if not (has_key (codes "msisdn") (c_text bytes))
    then send_buffer (page default_html)
    else send_buffer (page result_fmt)

-- What recv answers: bytes, the end, EINTR or another error.
pub data Received : Type 0 where
  got : List ℕ → Received
  ended : Received
  interrupted : Received
  broken : Received

-- An entry of `events`, with what accept or recv answers on its descriptor.
pub record Event : Type 0 where
  pub fd : ℤ
  pub readable : Bool
  pub writable : Bool
  pub connection : ℤ
  pub received : Received

-- The locals of Run, the descriptors that accept gave and those that were closed, and what was
-- sent, the newest first.
pub record HttpServer : Type 0 where
  pub sockfd : ℤ
  pub icnt : ℕ
  pub accepted : List ℤ
  pub closed : List ℤ
  pub sent : List (ℤ × Text)

-- The branch for the listener.
unfoldable pub accept_client : HttpServer → ℤ → HttpServer
accept_client s fd =
    if ltb_ℤ fd (pos 0) then s else record s { icnt = suc s.icnt; accepted = fd ∷ s.accepted }

-- The branch for a client, once recv has answered.
unfoldable pub on_received : HttpServer → ℤ → Received → Exec HttpServer
unfolding deal_recv
on_received s fd (got bytes) = do
  text ← deal_recv bytes
  done (record s { sent = (fd, text) ∷ s.sent })
on_received s fd ended = done s
on_received s fd interrupted = done s
on_received s fd broken = done (record s { closed = fd ∷ s.closed })

-- The body of the loop over the events; DealSend, for EPOLLOUT, is empty.
unfoldable pub serve_event : HttpServer → Event → Exec HttpServer
unfolding accept_client on_received
serve_event s ev =
    if ev.readable
    then (if eqb_ℤ ev.fd s.sockfd
        then done (accept_client s ev.connection)
        else on_received s ev.fd ev.received)
    else done s

unfoldable pub serve_events : List Event → HttpServer → Exec HttpServer
unfolding serve_event
serve_events [] s = done s
serve_events (ev ∷ evs) s = do t ← serve_event s ev; serve_events evs t

-- A return of epoll_wait.
pub data Batch : Type 0 where
  wait_failed : Batch
  ready : List Event → Batch

-- How a run stands: it goes on, or it has called exit.
pub data Status : Type 0 where
  running : HttpServer → Status
  exited : HttpServer → Status

unfoldable pub wait_loop : List Batch → HttpServer → Exec Status
unfolding serve_events
wait_loop [] s = done (running s)
wait_loop (wait_failed ∷ bs) s = done (exited s)
wait_loop (ready evs ∷ bs) s = do t ← serve_events evs s; wait_loop bs t

-- What socket, bind, listen and epoll_create answer.
pub record Start : Type 0 where
  pub made : ℤ
  pub bound : ℤ
  pub listening : ℤ
  pub poller : ℤ

-- Run
unfoldable pub run : Start → List Batch → Exec Status
unfolding wait_loop
run a bs =
    let s : HttpServer = record {
      sockfd = a.made;
      icnt = 0;
      accepted = [];
      closed = [];
      sent = [];
    } in
    let loop = wait_loop bs s in
    if eqb_ℤ a.made (negsuc 0)
    then done (exited s)
    else if ltb_ℤ a.bound (pos 0)
    then done (exited s)
    else if ltb_ℤ a.listening (pos 0)
    then done (exited s)
    else if eqb_ℤ a.poller (negsuc 0)
    then done (exited s)
    else loop
