-- ===== src/Poll.antt =====
-- socket/network/poll_chat_server.cpp: a chat server on poll, for five users at most.
--
-- What poll, accept and recv answer is an argument. The table of the clients is fds[1] to
-- fds[user_counter]: what stands behind it is written before it is read. Descriptors are below
-- FD_LIMIT.
pub mod Table
pub mod Passes
pub mod Loop
pub mod Rounds
use cpp_study.Base.{
  ℕ, zero, suc, ◌+◌, List, [], ◌∷◌, ◌++◌, map, Bool, true, false, Option, none, some, ◌==◌, ltb,
  leb, if◌then◌else◌, length, get_elem?, set,
}
use cpp_study.Base.Exec.{Exec, done, timeout, ◌>>=◌}

-- POLLIN, POLLOUT, POLLRDHUP, POLLERR and the other bits of a mask.
pub record Mask : Type 0 where
  pub m_in : Bool
  pub m_out : Bool
  pub m_rdhup : Bool
  pub m_err : Bool
  pub m_rest : Bool

-- pollfd
pub record Slot : Type 0 where
  pub fd : ℕ
  pub events : Mask
  pub revents : Mask

-- client_data: write_buf points to the `buf` of another user, or it is NULL.
pub record User : Type 0 where
  pub write_buf : Option ℕ
  pub buf : List ℕ

-- The table, `users`, the descriptors that accept gave and those that were closed, and what was
-- sent to whom.
pub record Server : Type 0 where
  pub slots : List Slot
  pub users : ℕ → User
  pub accepted : List ℕ
  pub closed : List ℕ
  pub sent : List (ℕ × List ℕ)

abbrev pub user_limit : ℕ
user_limit = 5

-- What recv answers: bytes, the end, EAGAIN or another error.
pub data Received : Type 0 where
  got : List ℕ → Received
  ended : Received
  again : Received
  broken : Received

-- A return of poll: whether the listener is ready, what accept then answers, the revents of each
-- descriptor and what recv answers on it.
pub record Round : Type 0 where
  pub ready : Bool
  pub connection : Option ℕ
  pub revents_of : ℕ → Mask
  pub received : ℕ → Received

abbrev pub no_bits : Mask
no_bits = record { m_in = false; m_out = false; m_rdhup = false; m_err = false; m_rest = false }

-- `POLLIN | POLLRDHUP | POLLERR`
abbrev pub first_events : Mask
first_events = record { m_in = true; m_out = false; m_rdhup = true; m_err = true; m_rest = false }

-- `events |= ~POLLIN; events |= POLLOUT;`
abbrev pub to_write : Mask → Mask
to_write m = record { m_in = m.m_in; m_out = true; m_rdhup = true; m_err = true; m_rest = true }

-- `events |= ~POLLOUT; events |= POLLIN;`
abbrev pub to_read : Mask → Mask
to_read m = record { m_in = true; m_out = m.m_out; m_rdhup = true; m_err = true; m_rest = true }

abbrev pub put_user : (ℕ → User) → ℕ → User → ℕ → User
put_user users fd u d = if fd == d then u else users d

-- "too many users"
abbrev pub refusal : List ℕ
refusal = 116 ∷ 111 ∷ 111 ∷ 32 ∷ 109 ∷ 97 ∷ 110 ∷ 121 ∷ 32 ∷ 117 ∷ 115 ∷ 101 ∷ 114 ∷ 115 ∷ []

abbrev pub new_slot : ℕ → Slot
new_slot fd = record { fd = fd; events = first_events; revents = no_bits }

-- The branch for the listener.
unfoldable pub accept_user : Server → Option ℕ → Server
accept_user s none = s
accept_user s (some fd) =
    let taken = record s { accepted = fd ∷ s.accepted } in
    if leb user_limit (length s.slots)
    then record taken { sent = (fd, refusal) ∷ s.sent; closed = fd ∷ s.closed }
    else record taken { slots = s.slots ++ new_slot fd ∷ [] }

abbrev pub last_or : List Slot → Slot → Slot
last_or [] c = c
last_or (x ∷ xs) c = last_or xs x

abbrev pub but_last : List Slot → List Slot
but_last [] = []
but_last (x ∷ []) = []
but_last (x ∷ y ∷ xs) = x ∷ but_last (y ∷ xs)

-- `users[fds[i].fd] = users[fds[user_counter].fd]; close(fds[i].fd); fds[i] = fds[user_counter];
-- user_counter--;`
unfoldable pub drop_user : Server → ℕ → Slot → Server
drop_user s i c =
    let last = last_or s.slots c in
    record s {
      slots = but_last (set s.slots i last);
      users = put_user s.users c.fd (s.users last.fd);
      closed = c.fd ∷ s.closed;
    }

-- `memset(users[connfd].buf, 0, BUFFER_SIZE_MAX)` and recv
unfoldable pub fill_buf : Server → ℕ → List ℕ → Server
fill_buf s fd bytes = record s { users = put_user s.users fd (record (s.users fd) { buf = bytes }) }

-- The loop over the other clients: their masks, and their write_buf.
abbrev pub raised : ℕ → Slot → Slot
raised fd c = if c.fd == fd then c else record c { events = to_write c.events }

abbrev pub raise_others : ℕ → List Slot → List Slot
raise_others fd [] = []
raise_others fd (c ∷ cs) = raised fd c ∷ raise_others fd cs

abbrev pub point_others : ℕ → List Slot → (ℕ → User) → ℕ → User
point_others fd [] users = users
point_others fd (c ∷ cs) users =
    let pointed = put_user users c.fd (record (users c.fd) { write_buf = some fd }) in
    point_others fd cs (if c.fd == fd then users else pointed)

unfoldable pub broadcast : Server → ℕ → Server
broadcast s fd = record s {
  slots = raise_others fd s.slots;
  users = point_others fd s.slots s.users;
}

-- The bytes before the first 0.
abbrev pub c_string : List ℕ → List ℕ
c_string [] = []
c_string (b ∷ bytes) = let rest = c_string bytes in if b == 0 then [] else b ∷ rest

-- The branch for POLLOUT, once write_buf is read.
abbrev pub write_from : Option ℕ → Server → ℕ → Slot → Server
write_from none s i c = s
write_from (some from) s i c = record s {
  slots = set s.slots i (record c { events = to_read c.events });
  users = put_user s.users c.fd (record (s.users c.fd) { write_buf = none });
  sent = (c.fd, c_string (s.users from).buf) ∷ s.sent;
}

unfoldable pub write_out : Server → ℕ → Slot → Server
write_out s i c = write_from (s.users c.fd).write_buf s i c

-- The branch for POLLIN, once recv has answered: the server, and whether the place is to be looked
-- at once more.
unfoldable pub on_received : Received → Server → ℕ → Slot → Bool × Server
unfolding drop_user fill_buf broadcast
on_received (got bytes) s i c = (false, broadcast (fill_buf s c.fd bytes) c.fd)
on_received ended s i c = (false, fill_buf s c.fd [])
on_received again s i c = (false, fill_buf s c.fd [])
on_received broken s i c = (true, drop_user (fill_buf s c.fd []) i c)

-- The branches for a client.
unfoldable pub serve_client : Round → Server → ℕ → Slot → Bool × Server
unfolding drop_user on_received write_out
serve_client r s i c =
    if c.revents.m_err
    then (false, s)
    else if c.revents.m_rdhup
    then (true, drop_user s i c)
    else if c.revents.m_in
    then on_received (r.received c.fd) s i c
    else if c.revents.m_out
    then (false, write_out s i c)
    else (false, s)

-- The loop over the clients, from fds[i + 1] on.
unfoldable pub serve_loop : ℕ → Round → Server → ℕ → Exec Server
unfolding serve_client
serve_loop zero r s i = timeout
serve_loop (suc fuel) r s i = elim (get_elem? s.slots i) [
  | none ↦ done s
  | some c ↦ let (same, t) = serve_client r s i c in serve_loop fuel r t (if same then i else suc i)
]

-- The revents that poll writes.
abbrev pub with_revents : (ℕ → Mask) → List Slot → List Slot
with_revents f [] = []
with_revents f (c ∷ cs) = record c { revents = f c.fd } ∷ with_revents f cs

-- One pass of the outer loop.
unfoldable pub serve_round : ℕ → Round → Server → Exec Server
unfolding serve_loop accept_user
serve_round fuel r s =
    let polled = record s { slots = with_revents r.revents_of s.slots } in
    serve_loop fuel r (if r.ready then accept_user polled r.connection else polled) 0

-- The outer loop, until poll fails.
unfoldable pub serve_all : ℕ → List (Option Round) → Server → Exec Server
unfolding serve_round
serve_all fuel [] s = done s
serve_all fuel (none ∷ rounds) s = done s
serve_all fuel (some r ∷ rounds) s = do t ← serve_round fuel r s; serve_all fuel rounds t
