-- ===== src/Ports.antt =====
-- wzq_project/src/component/epoll_server.cpp and epoll_client.cpp: a server that listens on ten
-- ports, and a client that connects to ten, both on epoll.
--
-- What a system call returns is an argument, and a run is followed for as many waits as are given.
-- The two programs handle a client, or a server, by the same code but for one word.
pub mod Client
pub mod Events
pub mod Runs
use cpp_study.Base.{
  ℕ, zero, suc, ◌+◌, List, [], ◌∷◌, ◌++◌, Bool, true, false, not, ◌&&◌, ◌==◌, ltb, leb,
  if◌then◌else◌, length, take, drop, replicate,
}
use cpp_study.Base.Int.{ℤ, pos, negsuc, ◌+ℤ◌, ◌-ℤ◌, ltb_ℤ, eqb_ℤ}
use cpp_study.Base.Exec.{Exec, done, fault, ◌>>=◌}
use cpp_study.Base.Chars.{codes, decimal}
use cpp_study.Ini.{Text}
use cpp_study.Slots.{among}
use cpp_study.Http.{
  Received, got, ended, interrupted, broken, Event, Batch, wait_failed, ready, has_zero,
}

-- SERVER_SIZE of the server, and CLIENT_SIZE of the client.
abbrev pub server_size : ℕ
server_size = 10

abbrev pub client_size : ℕ
client_size = 10

-- The size of `buffer`.
abbrev pub buffer_len : ℕ
buffer_len = 256

-- icnt, the descriptors that accept or connect gave and those that were closed, and what was sent,
-- the newest first.
pub record Peer : Type 0 where
  pub icnt : ℤ
  pub taken : List ℤ
  pub closed : List ℤ
  pub sent : List (ℤ × List ℕ)

-- `buffer` once recv has written `bytes` to it.
abbrev pub buffer_of : List ℕ → List ℕ
buffer_of bytes = take buffer_len (bytes ++ replicate buffer_len 0)

-- "%d" of a descriptor
abbrev pub number_text : ℤ → Text
number_text (pos n) = decimal n
number_text (negsuc n) = codes "-" ++ decimal (suc n)

-- "hello ,I am server " or "hello ,I am client ", written over `buffer`, all of which is sent.
unfoldable pub hello_over : Text → ℤ → List ℕ → List ℕ
hello_over who fd buffer =
    let text = codes "hello ,I am " ++ (who ++ (codes " " ++ number_text fd)) in
    text ++ 0 ∷ drop (suc (length text)) buffer

-- printf shows the buffer as a text, and reads past it where it has no 0.
abbrev pub is_unended : List ℕ → Bool
is_unended bytes = leb buffer_len (length bytes) && not (has_zero bytes)

-- The branch for EPOLLIN: whether EPOLLOUT is looked at, the state and the bytes in the buffer.
unfoldable pub on_readable : Peer → ℤ → Received → Exec (Bool × Peer × List ℕ)
on_readable s fd (got bytes) = if is_unended bytes then fault else done (true, s, bytes)
on_readable s fd ended =
    done (true, record s { icnt = s.icnt -ℤ pos 1; closed = fd ∷ s.closed }, [])
on_readable s fd interrupted = done (false, s, [])
on_readable s fd broken = done (true, record s { closed = fd ∷ s.closed }, [])

-- The branch for EPOLLOUT.
unfoldable pub write_if : Text → Bool → ℤ → Peer → List ℕ → Peer
unfolding hello_over
write_if who writable fd s bytes =
    if writable then record s { sent = (fd, hello_over who fd (buffer_of bytes)) ∷ s.sent } else s

-- An event of a client, or of a server.
unfoldable pub serve_peer : Text → Peer → Event → Exec Peer
unfolding on_readable write_if
serve_peer who s ev =
    let both : Exec Peer = do
      (go_on, t, bytes) ← on_readable s ev.fd ev.received
      done (write_if who (go_on && ev.writable) ev.fd t bytes)
    in if ev.readable then both else done (write_if who ev.writable ev.fd s [])

-- A new client of one of the listeners, which gets "connected" with its 0.
unfoldable pub accept_peer : Peer → ℤ → Peer
accept_peer s fd = if ltb_ℤ fd (pos 0) then s else record s {
  icnt = s.icnt +ℤ pos 1;
  taken = fd ∷ s.taken;
  sent = (fd, codes "connected" ++ 0 ∷ []) ∷ s.sent;
}

-- An event of the server, whose listeners are `socks`.
unfoldable pub serve_event : List ℤ → Peer → Event → Exec Peer
unfolding serve_peer accept_peer
serve_event socks s ev =
    if ev.readable && among ev.fd socks
    then done (accept_peer s ev.connection)
    else serve_peer (codes "server") s ev

unfoldable pub serve_events : List ℤ → List Event → Peer → Exec Peer
unfolding serve_event
serve_events socks [] s = done s
serve_events socks (ev ∷ evs) s = do t ← serve_event socks s ev; serve_events socks evs t

-- How a run stands: it goes on, or it has called exit.
pub data Status : Type 0 where
  running : Peer → Status
  exited : Peer → Status

unfoldable pub server_loop : List ℤ → List Batch → Peer → Exec Status
unfolding serve_events
server_loop socks [] s = done (running s)
server_loop socks (wait_failed ∷ bs) s = done (exited s)
server_loop socks (ready evs ∷ bs) s = do t ← serve_events socks evs s; server_loop socks bs t

-- What socket, bind, listen and connect answer for the port `port + i`.
pub record Opening : Type 0 where
  pub made : ℤ
  pub bound : ℤ
  pub listening : ℤ
  pub connected : ℤ

abbrev pub no_peers : Peer
no_peers = record { icnt = pos 0; taken = []; closed = []; sent = [] }

-- The loop that opens the listeners, of which `socks` are open.
unfoldable pub server_start : ℕ → ℕ → (ℕ → Opening) → List ℤ → List Batch → Exec Status
unfolding server_loop
server_start zero i opening socks bs = server_loop socks bs no_peers
server_start (suc n) i opening socks bs =
    let a = opening i in
    let rest = server_start n (suc i) opening (a.made ∷ socks) bs in
    if eqb_ℤ a.made (negsuc 0)
    then done (exited no_peers)
    else if ltb_ℤ a.bound (pos 0)
    then done (exited no_peers)
    else if ltb_ℤ a.listening (pos 0)
    then done (exited no_peers)
    else rest

-- main of the server, `poller` being what epoll_create returns.
unfoldable pub server_main : ℤ → (ℕ → Opening) → List Batch → Exec Status
unfolding server_start
server_main poller opening bs =
    if eqb_ℤ poller (negsuc 0)
    then done (exited no_peers)
    else server_start server_size 0 opening [] bs

unfoldable pub client_events : List Event → Peer → Exec Peer
unfolding serve_peer
client_events [] s = done s
client_events (ev ∷ evs) s = do t ← serve_peer (codes "client") s ev; client_events evs t

-- The loop of the client: epoll_wait is asked for icnt events.
unfoldable pub client_loop : List (ℤ → Batch) → Peer → Exec Status
unfolding client_events
client_loop [] s = done (running s)
client_loop (w ∷ ws) s = elim (w s.icnt) [
  | wait_failed ↦ done (exited s)
  | ready evs ↦ do t ← client_events evs s; client_loop ws t
]

unfoldable pub client_start : ℕ → ℕ → (ℕ → Opening) → Peer → List (ℤ → Batch) → Exec Status
unfolding client_loop
client_start zero i opening s ws = client_loop ws s
client_start (suc n) i opening s ws =
    let a = opening i in
    let t : Peer = record s { icnt = s.icnt +ℤ pos 1; taken = a.made ∷ s.taken } in
    let rest = client_start n (suc i) opening t ws in
    if eqb_ℤ a.made (negsuc 0)
    then done (exited s)
    else if ltb_ℤ a.connected (pos 0)
    then done (exited s)
    else rest

unfoldable pub client_main : ℤ → (ℕ → Opening) → List (ℤ → Batch) → Exec Status
unfolding client_start
client_main poller opening ws =
    if eqb_ℤ poller (negsuc 0)
    then done (exited no_peers)
    else client_start client_size 0 opening no_peers ws
