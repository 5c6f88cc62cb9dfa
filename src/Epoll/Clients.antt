-- ===== src/Epoll/Clients.antt =====
-- epoll_socket.cpp: what one event of a client does to the server.
use cpp_study.Base.{
  ℕ, suc, ◌≡◌, refl, ap, List, [], ◌∷◌, Bool, true, false, ◌||◌, arith, if◌then◌else◌,
}
use cpp_study.Base.Int.{ℤ, pos, ltb_ℤ, eqb_ℤ}
use cpp_study.Epoll.{
  Message, greeting, hello, EpollSocket, Received, got, ended, interrupted, broken, Event, without,
  close_fd, on_readable, on_writable, write_if, serve_event,
}

abbrev pub among : ℤ → List ℤ → Bool
among fd [] = false
among fd (x ∷ fds) = let rest = among fd fds in eqb_ℤ x fd || rest

-- The messages but the greetings come from the socket and are numbered from 0 on, `n` of them.
abbrev pub Numbered : ℤ → ℕ → List (ℤ × Message) → Type 0
Numbered sock n [] = n ≡ 0
Numbered sock n ((fd, greeting) ∷ sent) = Numbered sock n sent
Numbered sock n ((fd, hello from k) ∷ sent) = (n ≡ suc k) × (from ≡ sock) × Numbered sock k sent

pub record IsServing (sock : ℤ) (s : EpollSocket) : Type 0 where
  pub serves : s.is_server ≡ true
  pub listener : s.server_sock_id ≡ sock
  pub polls : ltb_ℤ s.epoll_fd (pos 0) ≡ false
  pub same : s.watched ≡ s.opened
  pub listens : among sock s.opened ≡ true
  pub numbered : Numbered sock s.msg_no s.sent

not_both : (x fd sock : ℤ) → eqb_ℤ fd sock ≡ false → eqb_ℤ x fd ≡ true → eqb_ℤ x sock ≡ true → ⊥
not_both x fd sock n e h = ground arith

without_one :
    (sock fd x : ℤ) (fds : List ℤ) (dropped it : Bool)
    → eqb_ℤ fd sock ≡ false
    → eqb_ℤ x fd ≡ dropped
    → eqb_ℤ x sock ≡ it
    → (among sock fds ≡ true → among sock (without fd fds) ≡ true)
    → it || among sock fds ≡ true
    → among sock (if dropped then without fd fds else x ∷ without fd fds) ≡ true
without_one sock fd x fds true true n e h next a = absurd (not_both x fd sock n e h)
without_one sock fd x fds true false n e h next a = next a
without_one sock fd x fds false true n e h next a = rw (among, h) refl
without_one sock fd x fds false false n e h next a = rw (among, h) (next a)

among-without :
    (sock fd : ℤ) (fds : List ℤ)
    → eqb_ℤ fd sock ≡ false
    → among sock fds ≡ true
    → among sock (without fd fds) ≡ true
among-without sock fd [] n h = h
among-without sock fd (x ∷ fds) n h =
    without_one sock fd x fds (eqb_ℤ x fd) (eqb_ℤ x sock) n refl refl (among-without sock fd fds n)
      h

module _ (sock : ℤ) where
  close_fd-IsServing :
      (s : EpollSocket) (fd : ℤ)
      → eqb_ℤ fd sock ≡ false
      → IsServing sock s
      → IsServing sock (close_fd s fd)
  unfolding close_fd
  close_fd-IsServing s fd n h = record {
    serves = h.serves;
    listener = h.listener;
    polls = h.polls;
    same = ap (without fd) h.same;
    listens = among-without sock fd s.opened n h.listens;
    numbered = h.numbered;
  }

  on_readable-IsServing :
      (a : Received) (s : EpollSocket) (fd : ℤ)
      → eqb_ℤ fd sock ≡ false
      → IsServing sock s
      → IsServing sock (on_readable a s fd).1
  on_readable-IsServing got s fd n h = h
  on_readable-IsServing ended s fd n h = close_fd-IsServing s fd n h
  on_readable-IsServing interrupted s fd n h = h
  on_readable-IsServing broken s fd n h = close_fd-IsServing s fd n h

  write_if-IsServing :
      (writable : Bool) (p : Bool × EpollSocket) (fd : ℤ)
      → IsServing sock p.1
      → IsServing sock (write_if writable p fd)
  unfolding on_writable
  write_if-IsServing true (true, s) fd h = record {
    serves = h.serves;
    listener = h.listener;
    polls = h.polls;
    same = h.same;
    listens = h.listens;
    numbered = (refl, h.listener, h.numbered);
  }
  write_if-IsServing false (true, s) fd h = h
  write_if-IsServing writable (false, s) fd h = h

  first_part :
      (readable : Bool) (a : Received) (s : EpollSocket) (fd : ℤ)
      → eqb_ℤ fd sock ≡ false
      → IsServing sock s
      → IsServing sock (if readable then on_readable a s fd else (true, s)).1
  first_part true a s fd n h = on_readable-IsServing a s fd n h
  first_part false a s fd n h = h

  pub serve_event-IsServing :
      (s : EpollSocket) (ev : Event)
      → eqb_ℤ ev.fd sock ≡ false
      → IsServing sock s
      → IsServing sock (serve_event s ev)
  unfolding serve_event
  serve_event-IsServing s ev n h =
      write_if-IsServing ev.writable _ ev.fd (first_part ev.readable ev.received s ev.fd n h)
