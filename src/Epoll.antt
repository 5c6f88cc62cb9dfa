-- ===== src/Epoll.antt =====
-- wzq_project/src/component/epoll_socket.h and epoll_socket.cpp: a server, or a client, on epoll.
--
-- What a system call returns is an argument. The descriptors that are open and those that epoll
-- watches are part of the state; to close a descriptor ends the watch on it. A program that runs
-- on is followed for as many waits as are given.
pub mod Clients
pub mod Serving
use cpp_study.Base.{ℕ, zero, suc, ◌+◌, List, [], ◌∷◌, Bool, true, false, ◌&&◌, ◌||◌, if◌then◌else◌}
use cpp_study.Base.Int.{ℤ, pos, negsuc, ltb_ℤ, leb_ℤ, eqb_ℤ}
use cpp_study.Ini.{Text}
use cpp_study.Shm.{ResultCode, rs_success, rs_common}
use cpp_study.Shm.App.{Status, running, returned, is_success}

-- "connection establishment successful!", and "hello ,I am " with the socket and the number.
pub data Message : Type 0 where
  greeting : Message
  hello : ℤ → ℕ → Message

-- EpollSocket, with iMsgNO, the open descriptors, the watched ones and what was sent, the newest
-- first.
pub record EpollSocket : Type 0 where
  pub ip : Text
  pub port : ℤ
  pub is_server : Bool
  pub server_sock_id : ℤ
  pub epoll_fd : ℤ
  pub watched : List ℤ
  pub opened : List ℤ
  pub msg_no : ℕ
  pub sent : List (ℤ × Message)

-- What recv answers: bytes, the end, EINTR or another error.
pub data Received : Type 0 where
  got : Received
  ended : Received
  interrupted : Received
  broken : Received

-- An entry of `events`, with what accept or recv answers on its descriptor,
-- and what epoll_ctl answers for the accepted one.
pub record Event : Type 0 where
  pub fd : ℤ
  pub readable : Bool
  pub writable : Bool
  pub accepted : ℤ
  pub added : ℤ
  pub received : Received

-- A return of epoll_wait.
pub data Batch : Type 0 where
  wait_failed : Batch
  idle : Batch
  ready : List Event → Batch

-- What the calls of the start answer.
pub record Start : Type 0 where
  pub socket : ℤ
  pub bind : ℤ
  pub listen : ℤ
  pub connect : ℤ
  pub added : ℤ

abbrev pub new_socket : EpollSocket
new_socket = record {
  ip = [];
  port = pos 0;
  is_server = true;
  server_sock_id = pos 0;
  epoll_fd = pos 0;
  watched = [];
  opened = [];
  msg_no = 0;
  sent = [];
}

-- SetNonblock, on what the two calls of fcntl answer.
abbrev pub set_nonblock : ℤ → ℤ → ℤ
set_nonblock flags answer =
    if ltb_ℤ flags (pos 0) then flags else if ltb_ℤ answer (pos 0) then negsuc 0 else pos 0

-- Write and Read, on what write or read answers.
abbrev pub write : EpollSocket → ℤ → ℤ
write s answer = if leb_ℤ s.server_sock_id (pos 0) then negsuc 0 else answer

abbrev pub read : EpollSocket → ℤ → ℤ
read s answer = if leb_ℤ s.server_sock_id (pos 0) then negsuc 0 else answer

unfoldable pub init : EpollSocket → Text → ℤ → ℤ → ℤ → ResultCode × EpollSocket
init s ip port proc_type created =
    let t : EpollSocket = record s {
      ip = ip;
      port = port;
      is_server = eqb_ℤ proc_type (pos 0);
      epoll_fd = created;
    } in
    (if ltb_ℤ created (pos 0) then rs_common else rs_success, t)

abbrev pub without : ℤ → List ℤ → List ℤ
without fd [] = []
without fd (x ∷ fds) = let rest = without fd fds in if eqb_ℤ x fd then rest else x ∷ rest

-- epoll_ctl with EPOLL_CTL_ADD, on a descriptor that has just been opened. What it answers is not
-- looked at: without a descriptor of epoll, or on an error, nothing is watched.
unfoldable pub add_fd : EpollSocket → ℤ → ℤ → EpollSocket
add_fd s fd answer = record s {
  watched = if ltb_ℤ s.epoll_fd (pos 0) || ltb_ℤ answer (pos 0) then s.watched else fd ∷ s.watched;
  opened = fd ∷ s.opened;
}

unfoldable pub close_fd : EpollSocket → ℤ → EpollSocket
close_fd s fd = record s { watched = without fd s.watched; opened = without fd s.opened }

-- The branch for the listener.
unfoldable pub accept_client : EpollSocket → ℤ → ℤ → ResultCode × EpollSocket
unfolding add_fd
accept_client s fd answer =
    if ltb_ℤ fd (pos 0)
    then (rs_common, s)
    else (rs_success, record (add_fd s fd answer) { sent = (fd, greeting) ∷ s.sent })

-- The branch for EPOLLIN: whether EPOLLOUT is looked at, and the state.
abbrev pub on_readable : Received → EpollSocket → ℤ → Bool × EpollSocket
on_readable got s fd = (true, s)
on_readable ended s fd = (true, close_fd s fd)
on_readable interrupted s fd = (false, s)
on_readable broken s fd = (true, close_fd s fd)

-- The branch for EPOLLOUT.
unfoldable pub on_writable : EpollSocket → ℤ → EpollSocket
on_writable s fd = record s {
  msg_no = suc s.msg_no;
  sent = (fd, hello s.server_sock_id s.msg_no) ∷ s.sent;
}

abbrev pub write_if : Bool → Bool × EpollSocket → ℤ → EpollSocket
write_if writable (go_on, s) fd = if go_on && writable then on_writable s fd else s

unfoldable pub serve_event : EpollSocket → Event → EpollSocket
unfolding close_fd on_writable
serve_event s ev =
    let first : Bool × EpollSocket =
      if ev.readable then on_readable ev.received s ev.fd else (true, s) in
    write_if ev.writable first ev.fd

unfoldable pub handle_event : EpollSocket → Event → ResultCode × EpollSocket
unfolding accept_client serve_event
handle_event s ev =
    if s.is_server && eqb_ℤ ev.fd s.server_sock_id
    then accept_client s ev.accepted ev.added
    else (rs_success, serve_event s ev)

unfoldable pub handle_events : List Event → EpollSocket → ResultCode × EpollSocket
unfolding handle_event
handle_events [] s = (rs_success, s)
handle_events (ev ∷ evs) s =
    let (code, t) = handle_event s ev in
    let rest = handle_events evs t in if is_success code then rest else (code, t)

-- EpollWait
unfoldable pub epoll_wait : Batch → EpollSocket → ResultCode × EpollSocket
unfolding handle_events
epoll_wait wait_failed s = (rs_common, s)
epoll_wait idle s = (rs_success, s)
epoll_wait (ready evs) s = handle_events evs s

-- The loop of RunAsServer and of RunAsClient.
unfoldable pub wait_loop : List Batch → EpollSocket → Status × EpollSocket
unfolding epoll_wait
wait_loop [] s = (running, s)
wait_loop (b ∷ bs) s =
    let (code, t) = epoll_wait b s in
    let rest = wait_loop bs t in if is_success code then rest else (returned code, t)

unfoldable pub run_as_server : EpollSocket → Start → List Batch → Status × EpollSocket
unfolding add_fd wait_loop
run_as_server s a bs =
    let t : EpollSocket = record s { server_sock_id = a.socket } in
    let left : EpollSocket = record t { opened = a.socket ∷ t.opened } in
    if ltb_ℤ a.socket (pos 0)
    then (returned rs_common, t)
    else if ltb_ℤ a.bind (pos 0)
    then (returned rs_common, left)
    else if ltb_ℤ a.listen (pos 0)
    then (returned rs_common, left)
    else wait_loop bs (add_fd t a.socket a.added)

unfoldable pub run_as_client : EpollSocket → Start → List Batch → Status × EpollSocket
unfolding add_fd wait_loop
run_as_client s a bs =
    let t : EpollSocket = record s { server_sock_id = a.socket } in
    let left : EpollSocket = record t { opened = a.socket ∷ t.opened } in
    if ltb_ℤ a.socket (pos 0)
    then (returned rs_common, t)
    else if ltb_ℤ a.connect (pos 0)
    then (returned rs_common, left)
    else wait_loop bs (add_fd t a.socket a.added)

unfoldable pub execute : EpollSocket → Start → List Batch → Status × EpollSocket
unfolding run_as_server run_as_client
execute s a bs = if s.is_server then run_as_server s a bs else run_as_client s a bs

-- main, with its arguments read: what Init returns is not looked at.
unfoldable pub epoll_main : Text → ℤ → ℤ → ℤ → Start → List Batch → Status × EpollSocket
unfolding init execute
epoll_main ip port proc_type created a bs =
    execute ((init new_socket ip port proc_type created).1) a bs
