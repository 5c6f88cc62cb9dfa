-- ===== src/Http/Counts.antt =====
-- http.cpp: what events do to the descriptors and the requests of the server.
use mathlib.Core.Path.{subst}
use cpp_study.Base.{
  ℕ, ◌+◌, ◌≡◌, refl, sym, ap, ◌∙◌, List, [], ◌∷◌, ◌++◌, Bool, true, false, arith, if◌then◌else◌,
  length, one_if,
}
use cpp_study.Base.Int.{ℤ, pos, ltb_ℤ, eqb_ℤ}
use cpp_study.Base.Exec.{done, Ends, ends, Ends-bind, Ends-weaken}
use cpp_study.Slots.Cells.{times}
use cpp_study.Http.{
  is_unended, Received, got, ended, interrupted, broken, Event, HttpServer, accept_client,
  on_received, serve_event, serve_events,
}
use cpp_study.Http.Answers.{deal_recv-Ends}

-- 1 for what recv answers with bytes, or with an error.
abbrev pub asks : Received → ℕ
asks (got bytes) = 1
asks ended = 0
asks interrupted = 0
asks broken = 0

abbrev pub fails : Received → ℕ
fails (got bytes) = 0
fails ended = 0
fails interrupted = 0
fails broken = 1

-- How many of the events are requests; are failures of the client `d`; are connections that accept
-- gives as `d`. `sock` is the listener.
abbrev pub requests : ℤ → List Event → ℕ
requests sock [] = 0
requests sock (ev ∷ evs) =
    (if ev.readable then (if eqb_ℤ ev.fd sock then 0 else asks ev.received) else 0)
    + requests sock evs

abbrev pub failures : ℤ → ℤ → List Event → ℕ
failures sock d [] = 0
failures sock d (ev ∷ evs) =
    (if ev.readable
      then (if eqb_ℤ ev.fd sock then 0 else if eqb_ℤ ev.fd d then fails ev.received else 0)
      else 0)
    + failures sock d evs

abbrev pub arrivals : ℤ → ℤ → List Event → ℕ
arrivals sock d [] = 0
arrivals sock d (ev ∷ evs) =
    (if ev.readable
      then (if eqb_ℤ ev.fd sock
          then (if ltb_ℤ ev.connection (pos 0) then 0 else one_if (eqb_ℤ ev.connection d))
          else 0)
      else 0)
    + arrivals sock d evs

-- No request fills the buffer without a 0.
abbrev pub IsShort : Received → Type 0
IsShort (got bytes) = is_unended bytes ≡ false
IsShort ended = Unit
IsShort interrupted = Unit
IsShort broken = Unit

abbrev pub AllShort : List Event → Type 0
AllShort [] = Unit
AllShort (ev ∷ evs) = IsShort ev.received × AllShort evs

-- What the events make of a server.
pub record Counted (sock : ℤ) (evs : List Event) (s t : HttpServer) : Type 0 where
  pub listener : t.sockfd ≡ sock
  pub taken : (d : ℤ) → times d t.accepted ≡ arrivals sock d evs + times d s.accepted
  pub dropped : (d : ℤ) → times d t.closed ≡ failures sock d evs + times d s.closed
  pub answered : length t.sent ≡ requests sock evs + length s.sent
  pub counted : t.icnt + length s.accepted ≡ s.icnt + length t.accepted

module _ (sock : ℤ) where
  abbrev One : Event → HttpServer → HttpServer → Type 0
  One ev s t = Counted sock (ev ∷ []) s t

  on_received-Counted :
      (s : HttpServer) (ev : Event) (a : Received)
      → s.sockfd ≡ sock
      → ev.received ≡ a
      → IsShort a
      → ev.readable ≡ true
      → eqb_ℤ ev.fd sock ≡ false
      → Ends (λ t. One ev s t) (on_received s ev.fd a)
  unfolding on_received
  on_received-Counted s ev (got bytes) e r h g n = Ends-bind (deal_recv-Ends bytes h) λ t answer.
      ends (record {
        listener = e;
        taken = λ d. rw (g, n) (omega arith);
        dropped = λ d. rw (g, n, r) (ground arith);
        answered = rw (g, n, r) (omega arith);
        counted = omega arith;
      })
  on_received-Counted s ev ended e r h g n = ends (record {
    listener = e;
    taken = λ d. rw (g, n) (omega arith);
    dropped = λ d. rw (g, n, r) (ground arith);
    answered = rw (g, n, r) (omega arith);
    counted = omega arith;
  })
  on_received-Counted s ev interrupted e r h g n = ends (record {
    listener = e;
    taken = λ d. rw (g, n) (omega arith);
    dropped = λ d. rw (g, n, r) (ground arith);
    answered = rw (g, n, r) (omega arith);
    counted = omega arith;
  })
  on_received-Counted s ev broken e r h g n = ends (record {
    listener = e;
    taken = λ d. rw (g, n) (omega arith);
    dropped = λ d. rw (g, n, r) (ground arith);
    answered = rw (g, n, r) (omega arith);
    counted = omega arith;
  })

  accept_by :
      (s : HttpServer) (ev : Event) (failed : Bool)
      → s.sockfd ≡ sock
      → ev.readable ≡ true
      → eqb_ℤ ev.fd sock ≡ true
      → ltb_ℤ ev.connection (pos 0) ≡ failed
      → One ev s (accept_client s ev.connection)
  unfolding accept_client
  accept_by s ev true e g l f =
      rw (accept_client, f)
        (record {
          listener = e;
          taken = λ d. rw (g, l, f) (omega arith);
          dropped = λ d. rw (g, l) (omega arith);
          answered = rw (g, l) (omega arith);
          counted = omega arith;
        })
  accept_by s ev false e g l f =
      rw (accept_client, f)
        (record {
          listener = e;
          taken = λ d. rw (g, l, f) (omega arith);
          dropped = λ d. rw (g, l) (omega arith);
          answered = rw (g, l) (omega arith);
          counted = omega arith;
        })

  event_by :
      (s : HttpServer) (ev : Event) (readable listener : Bool)
      → s.sockfd ≡ sock
      → IsShort ev.received
      → ev.readable ≡ readable
      → eqb_ℤ ev.fd sock ≡ listener
      → Ends (λ t. One ev s t) (serve_event s ev)
  unfolding serve_event
  event_by s ev false listener e h g l =
      let it : serve_event s ev ≡ done s = rw (serve_event, g) refl in
      subst (λ m. Ends (λ t. One ev s t) m) (sym it)
        (ends (record {
          listener = e;
          taken = λ d. rw g (omega arith);
          dropped = λ d. rw g (omega arith);
          answered = rw g (omega arith);
          counted = omega arith;
        }))
  event_by s ev true true e h g l =
      let same : eqb_ℤ ev.fd s.sockfd ≡ true = ap (eqb_ℤ ev.fd) e ∙ l in
      let it : serve_event s ev ≡ done (accept_client s ev.connection) =
        rw (serve_event, g, same) refl in
      subst (λ m. Ends (λ t. One ev s t) m) (sym it)
        (ends (accept_by s ev (ltb_ℤ ev.connection (pos 0)) e g l refl))
  event_by s ev true false e h g l =
      let other : eqb_ℤ ev.fd s.sockfd ≡ false = ap (eqb_ℤ ev.fd) e ∙ l in
      let it : serve_event s ev ≡ on_received s ev.fd ev.received =
        rw (serve_event, g, other) refl in
      subst (λ m. Ends (λ t. One ev s t) m) (sym it)
        (on_received-Counted s ev ev.received e refl h g l)

  requests-append :
      (evs more : List Event) → requests sock (evs ++ more) ≡ requests sock evs + requests sock more
  requests-append [] more = omega arith
  requests-append (ev ∷ evs) more = omega (arith, requests-append evs more)

  failures-append :
      (d : ℤ) (evs more : List Event)
      → failures sock d (evs ++ more) ≡ failures sock d evs + failures sock d more
  failures-append d [] more = omega arith
  failures-append d (ev ∷ evs) more = omega (arith, failures-append d evs more)

  arrivals-append :
      (d : ℤ) (evs more : List Event)
      → arrivals sock d (evs ++ more) ≡ arrivals sock d evs + arrivals sock d more
  arrivals-append d [] more = omega arith
  arrivals-append d (ev ∷ evs) more = omega (arith, arrivals-append d evs more)

  pub then_Counted :
      (evs more : List Event) (s t u : HttpServer)
      → Counted sock evs s t
      → Counted sock more t u
      → Counted sock (evs ++ more) s u
  then_Counted evs more s t u p q = record {
    listener = q.listener;
    taken = λ d. omega (arith, p.taken d, q.taken d, arrivals-append d evs more);
    dropped = λ d. omega (arith, p.dropped d, q.dropped d, failures-append d evs more);
    answered = omega (arith, p.answered, q.answered, requests-append evs more);
    counted = omega (arith, p.counted, q.counted);
  }

  pub nothing : (s : HttpServer) → s.sockfd ≡ sock → Counted sock [] s s
  nothing s e = record {
    listener = e;
    taken = λ d. omega arith;
    dropped = λ d. omega arith;
    answered = omega arith;
    counted = omega arith;
  }

  pub serve_events-Counted :
      (evs : List Event) (s : HttpServer)
      → s.sockfd ≡ sock
      → AllShort evs
      → Ends (λ t. Counted sock evs s t) (serve_events evs s)
  unfolding serve_events
  serve_events-Counted [] s e h = ends (nothing s e)
  serve_events-Counted (ev ∷ evs) s e (h, hs) =
      Ends-bind (event_by s ev ev.readable (eqb_ℤ ev.fd sock) e h refl refl) λ t p.
        Ends-weaken (λ u q. then_Counted (ev ∷ []) evs s t u p q)
          (serve_events-Counted evs t p.listener hs)
