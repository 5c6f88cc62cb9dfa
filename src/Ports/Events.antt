-- ===== src/Ports/Events.antt =====
-- epoll_server.cpp and epoll_client.cpp: what events do to the count of the peers and to the closed
-- descriptors.
use mathlib.Core.Path.{subst}
use cpp_study.Base.{
  ℕ, ◌+◌, ◌≡◌, refl, sym, List, [], ◌∷◌, Bool, true, false, ◌&&◌, arith, if◌then◌else◌,
}
use cpp_study.Base.Int.{ℤ, pos, pos_part, neg_part, ◌+ℤ◌, ◌-ℤ◌, ltb_ℤ, eqb_ℤ}
use cpp_study.Base.Exec.{Exec, done, ◌>>=◌, Ends, ends, Ends-bind, Ends-weaken}
use cpp_study.Base.Chars.{codes}
use cpp_study.Ini.{Text}
use cpp_study.Slots.{among}
use cpp_study.Slots.Cells.{times}
use cpp_study.Http.{Received, got, ended, interrupted, broken, Event}
use cpp_study.Ports.{
  Peer, is_unended, on_readable, write_if, serve_peer, accept_peer, serve_event, serve_events,
}

-- 1 for the end of a connection; for the end or an error.
abbrev pub ends_one : Received → ℕ
ends_one (got bytes) = 0
ends_one ended = 1
ends_one interrupted = 0
ends_one broken = 0

abbrev pub closes_one : Received → ℕ
closes_one (got bytes) = 0
closes_one ended = 1
closes_one interrupted = 0
closes_one broken = 1

-- No bytes fill the buffer without a 0.
abbrev pub IsShort : Received → Type 0
IsShort (got bytes) = is_unended bytes ≡ false
IsShort ended = Unit
IsShort interrupted = Unit
IsShort broken = Unit

abbrev pub AllShort : List Event → Type 0
AllShort [] = Unit
AllShort (ev ∷ evs) = IsShort ev.received × AllShort evs

-- What an event ends, closes and brings; `listener` tells whether it is one of a listener.
abbrev pub quits : Bool → Event → ℕ
quits listener ev = if ev.readable then (if listener then 0 else ends_one ev.received) else 0

abbrev pub closes : Bool → ℤ → Event → ℕ
closes listener d ev =
    if ev.readable
    then (if listener then 0 else if eqb_ℤ ev.fd d then closes_one ev.received else 0)
    else 0

abbrev pub comes : Bool → Event → ℕ
comes listener ev =
    if ev.readable
    then (if listener then (if ltb_ℤ ev.connection (pos 0) then 0 else 1) else 0)
    else 0

-- The sums over events, `socks` being the listeners.
abbrev pub all_quits : List ℤ → List Event → ℕ
all_quits socks [] = 0
all_quits socks (ev ∷ evs) = quits (among ev.fd socks) ev + all_quits socks evs

abbrev pub all_closes : List ℤ → ℤ → List Event → ℕ
all_closes socks d [] = 0
all_closes socks d (ev ∷ evs) = closes (among ev.fd socks) d ev + all_closes socks d evs

abbrev pub all_comes : List ℤ → List Event → ℕ
all_comes socks [] = 0
all_comes socks (ev ∷ evs) = comes (among ev.fd socks) ev + all_comes socks evs

-- icnt grows by `came` and falls by `quit`, and `d` is closed `closed_ones d` times.
pub record Step (came quit : ℕ) (closed_ones : ℤ → ℕ) (s t : Peer) : Type 0 where
  pub balance : pos_part t.icnt + quit + neg_part s.icnt ≡ pos_part s.icnt + came + neg_part t.icnt
  pub closings : (d : ℤ) → times d t.closed ≡ closed_ones d + times d s.closed

pub Step-none : (s : Peer) → Step 0 0 (λ d. 0) s s
Step-none s = record { balance = omega arith; closings = λ d. omega arith }

pub Step-then :
    {a q b r : ℕ} {c e f : ℤ → ℕ} {s t u : Peer}
    → Step a q c s t
    → Step b r e t u
    → ((d : ℤ) → f d ≡ c d + e d)
    → Step (a + b) (q + r) f s u
Step-then x y h = record {
  balance = omega (arith, x.balance, y.balance);
  closings = λ d. omega (arith, x.closings d, y.closings d, h d);
}

write_if-Step :
    (who : Text) (b : Bool) (fd : ℤ) (bytes : List ℕ) (q : ℕ) (c : ℤ → ℕ) (s t : Peer)
    → Step 0 q c s t
    → Step 0 q c s (write_if who b fd t bytes)
unfolding write_if
write_if-Step who true fd bytes q c s t h = record { balance = h.balance; closings = h.closings }
write_if-Step who false fd bytes q c s t h = h

one_less : (x : ℤ) → pos_part (x -ℤ pos 1) + 1 + neg_part x ≡ pos_part x + 0 + neg_part (x -ℤ pos 1)
unfolding ◌-ℤ◌
one_less x = ground arith

pub one_more :
    (x : ℤ) → pos_part (x +ℤ pos 1) + 0 + neg_part x ≡ pos_part x + 1 + neg_part (x +ℤ pos 1)
unfolding ◌+ℤ◌
one_more x = ground arith

on_readable-Step :
    (s : Peer) (fd : ℤ) (a : Received)
    → IsShort a
    → Ends
        (λ r. Step 0 (ends_one a) (λ d. if eqb_ℤ fd d then closes_one a else 0) s r.1)
        (on_readable s fd a)
unfolding on_readable
on_readable-Step s fd (got bytes) h =
    rw (on_readable, h) (ends (record { balance = omega arith; closings = λ d. ground arith }))
on_readable-Step s fd ended h =
    ends (record { balance = one_less s.icnt; closings = λ d. ground arith })
on_readable-Step s fd interrupted h =
    ends (record { balance = omega arith; closings = λ d. ground arith })
on_readable-Step s fd broken h =
    ends (record { balance = omega arith; closings = λ d. ground arith })

peer_by :
    (who : Text) (s : Peer) (ev : Event) (b : Bool)
    → ev.readable ≡ b
    → IsShort ev.received
    → Ends (λ t. Step 0 (quits false ev) (λ d. closes false d ev) s t) (serve_peer who s ev)
unfolding serve_peer
peer_by who s ev true g h =
    let both : Exec Peer = do
      (go_on, t, bytes) ← on_readable s ev.fd ev.received
      done (write_if who (go_on && ev.writable) ev.fd t bytes)
    in let it : serve_peer who s ev ≡ both = rw (serve_peer, g) refl in
      subst (λ m. Ends (λ t. Step 0 (quits false ev) (λ d. closes false d ev) s t) m) (sym it)
        (Ends-bind (on_readable-Step s ev.fd ev.received h) λ (go_on, t, bytes) p. ends (
          write_if-Step who (go_on && ev.writable) ev.fd bytes (quits false ev)
            (λ d. closes false d ev) s t
            (record { balance = rw g p.balance; closings = λ d. rw g (p.closings d) })))
peer_by who s ev false g h =
    let it : serve_peer who s ev ≡ done (write_if who ev.writable ev.fd s []) =
      rw (serve_peer, g) refl in
    subst (λ m. Ends (λ t. Step 0 (quits false ev) (λ d. closes false d ev) s t) m) (sym it)
      (ends (
        write_if-Step who ev.writable ev.fd [] (quits false ev) (λ d. closes false d ev) s s
          (record { balance = rw g (omega arith); closings = λ d. rw g (omega arith) })))

pub serve_peer-Step :
    (who : Text) (s : Peer) (ev : Event)
    → IsShort ev.received
    → Ends (λ t. Step 0 (quits false ev) (λ d. closes false d ev) s t) (serve_peer who s ev)
serve_peer-Step who s ev h = peer_by who s ev ev.readable refl h

-- A listener that can be read.
accept_by :
    (s : Peer) (ev : Event) (failed : Bool)
    → ev.readable ≡ true
    → ltb_ℤ ev.connection (pos 0) ≡ failed
    → Step (comes true ev) (quits true ev) (λ d. closes true d ev) s (accept_peer s ev.connection)
unfolding accept_peer
accept_by s ev true g f =
    rw (accept_peer, f)
      (record { balance = rw g (omega arith); closings = λ d. rw g (omega arith) })
accept_by s ev false g f =
    rw (accept_peer, f)
      (record { balance = rw g (one_more s.icnt); closings = λ d. rw g (omega arith) })

no_comes : (ev : Event) → comes false ev ≡ 0
no_comes ev = ground arith

module _ (socks : List ℤ) where
  event_by :
      (s : Peer) (ev : Event) (readable listener : Bool)
      → ev.readable ≡ readable
      → among ev.fd socks ≡ listener
      → IsShort ev.received
      → Ends
          (λ t. Step (comes listener ev) (quits listener ev) (λ d. closes listener d ev) s t)
          (serve_event socks s ev)
  unfolding serve_event
  event_by s ev true true g l h =
      let it : serve_event socks s ev ≡ done (accept_peer s ev.connection) =
        rw (serve_event, g, l) refl in
      subst (λ m. Ends (λ t. Step (comes true ev) (quits true ev) (λ d. closes true d ev) s t) m)
        (sym it) (ends (accept_by s ev (ltb_ℤ ev.connection (pos 0)) g refl))
  event_by s ev true false g l h =
      let it : serve_event socks s ev ≡ serve_peer (codes "server") s ev =
        rw (serve_event, g, l) refl in
      subst (λ m. Ends (λ t. Step (comes false ev) (quits false ev) (λ d. closes false d ev) s t) m)
        (sym it) (rw (no_comes ev) (serve_peer-Step (codes "server") s ev h))
  event_by s ev false listener g l h =
      let it : serve_event socks s ev ≡ serve_peer (codes "server") s ev =
        rw (serve_event, g) refl in
      subst
        (λ m.
          Ends (λ t. Step (comes listener ev) (quits listener ev) (λ d. closes listener d ev) s t)
            m)
        (sym it)
        (Ends-weaken
          (λ t p.
            let b : pos_part t.icnt + 0 + neg_part s.icnt ≡ pos_part s.icnt + 0 + neg_part t.icnt =
              rw g at p.balance in
            record { balance = rw g b; closings = λ d. rw g (rw g at (p.closings d)) })
          (serve_peer-Step (codes "server") s ev h))

  pub serve_events-Step :
      (evs : List Event) (s : Peer)
      → AllShort evs
      → Ends
          (λ t. Step (all_comes socks evs) (all_quits socks evs) (λ d. all_closes socks d evs) s t)
          (serve_events socks evs s)
  unfolding serve_events
  serve_events-Step [] s h = ends (Step-none s)
  serve_events-Step (ev ∷ evs) s (h, hs) =
      Ends-bind (event_by s ev ev.readable (among ev.fd socks) refl refl h)
        λ t p. Ends-weaken (λ u q. Step-then p q (λ d. refl)) (serve_events-Step evs t hs)
