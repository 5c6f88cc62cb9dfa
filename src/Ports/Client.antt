-- ===== src/Ports/Client.antt =====
-- epoll_client.cpp: the client comes to its end.
use cpp_study.Base.{
  ℕ, zero, suc, ◌+◌, ◌≤◌, ◌≡◌, refl, List, [], ◌∷◌, ◌++◌, Bool, true, false, not, arith,
  if◌then◌else◌,
}
use cpp_study.Base.Int.{ℤ, pos, negsuc, pos_part, neg_part, ◌+ℤ◌, ltb_ℤ, leb_ℤ, eqb_ℤ}
use cpp_study.Base.Exec.{Exec, done, Ends, ends, Ends-bind, Ends-weaken}
use cpp_study.Base.Chars.{codes}
use cpp_study.Http.{Event, Batch, wait_failed, ready}
use cpp_study.Ports.{
  Peer, Status, running, exited, Opening, no_peers, client_events, client_loop, client_start,
  client_main, client_size,
}
use cpp_study.Ports.Events.{
  AllShort, all_quits, all_closes, Step, Step-none, Step-then, one_more, serve_peer-Step,
}

-- epoll_wait fails where it is asked for no event, and else gives the events.
abbrev pub wait_of : List Event → ℤ → Batch
wait_of evs n = if leb_ℤ n (pos 0) then wait_failed else ready evs

abbrev pub waits : List (List Event) → List (ℤ → Batch)
waits [] = []
waits (evs ∷ evss) = wait_of evs ∷ waits evss

-- How many connections the servers end.
abbrev pub all_ends : List (List Event) → ℕ
all_ends [] = 0
all_ends (evs ∷ evss) = all_quits [] evs + all_ends evss

abbrev pub EachShort : List (List Event) → Type 0
EachShort [] = Unit
EachShort (evs ∷ evss) = AllShort evs × EachShort evss

abbrev pub IsExited : Status → Type 0
IsExited (running s) = ⊥
IsExited (exited s) = Unit

client_events-Step :
    (evs : List Event) (s : Peer)
    → AllShort evs
    → Ends (λ t. Step 0 (all_quits [] evs) (λ d. all_closes [] d evs) s t) (client_events evs s)
unfolding client_events
client_events-Step [] s h = ends (Step-none s)
client_events-Step (ev ∷ evs) s (h, hs) =
    Ends-bind (serve_peer-Step (codes "client") s ev h)
      λ t p. Ends-weaken (λ u q. Step-then p q (λ d. refl)) (client_events-Step evs t hs)

exits_at :
    (evs : List Event) (ws : List (ℤ → Batch)) (s : Peer)
    → leb_ℤ s.icnt (pos 0) ≡ true
    → Ends IsExited (client_loop (wait_of evs ∷ ws) s)
unfolding client_loop
exits_at evs ws s h = rw (client_loop, h) (ends tt)

client_loop-Exits :
    (evss : List (List Event)) (last : List Event) (s : Peer)
    → pos_part s.icnt ≤ neg_part s.icnt + all_ends evss
    → EachShort evss
    → Ends IsExited (client_loop (waits evss ++ wait_of last ∷ []) s)
unfolding client_loop
client_loop-Exits [] last s h short = exits_at last [] s (ground (arith, h))
client_loop-Exits (evs ∷ evss) last s h (hs, short) =
    by_count (leb_ℤ s.icnt (pos 0)) refl
      λ t p. client_loop-Exits evss last t (omega (arith, h, p.balance)) short
  where
    by_count :
        (b : Bool)
        → leb_ℤ s.icnt (pos 0) ≡ b
        → ((t : Peer)
            → Step 0 (all_quits [] evs) (λ d. all_closes [] d evs) s t
            → Ends IsExited (client_loop (waits evss ++ wait_of last ∷ []) t))
        → Ends IsExited (client_loop (wait_of evs ∷ (waits evss ++ wait_of last ∷ [])) s)
    by_count true e next = exits_at evs (waits evss ++ wait_of last ∷ []) s e
    by_count false e next = rw (client_loop, e) (Ends-bind (client_events-Step evs s hs) next)

-- The calls for a connection succeed.
abbrev pub connects : Opening → Bool
connects a = if eqb_ℤ a.made (negsuc 0) then false else not (ltb_ℤ a.connected (pos 0))

abbrev pub AllConnect : ℕ → ℕ → (ℕ → Opening) → Type 0
AllConnect zero i opening = Unit
AllConnect (suc n) i opening = (connects (opening i) ≡ true) × AllConnect n (suc i) opening

past_connect :
    (P : Exec Status → Type 0) (x y : Bool) (e m : Exec Status)
    → (if x then false else not y) ≡ true
    → P m
    → P (if x then e else if y then e else m)
past_connect P true y e m h p = absurd (cc h)
past_connect P false true e m h p = absurd (cc h)
past_connect P false false e m h p = p

client_start-Exits :
    (n i : ℕ) (opening : ℕ → Opening) (s : Peer) (evss : List (List Event)) (last : List Event)
    → pos_part s.icnt + n ≤ neg_part s.icnt + all_ends evss
    → AllConnect n i opening
    → EachShort evss
    → Ends IsExited (client_start n i opening s (waits evss ++ wait_of last ∷ []))
unfolding client_start
client_start-Exits zero i opening s evss last h a short =
    client_loop-Exits evss last s (omega (arith, h)) short
client_start-Exits (suc n) i opening s evss last h (c, a) short =
    let t : Peer = record s { icnt = s.icnt +ℤ pos 1; taken = (opening i).made ∷ s.taken } in
    past_connect (λ m. Ends IsExited m) (eqb_ℤ (opening i).made (negsuc 0))
      (ltb_ℤ (opening i).connected (pos 0)) (done (exited s)) _ c
      (client_start-Exits n (suc i) opening t evss last (omega (arith, h, one_more s.icnt)) a short)

-- The client, where its ten connections succeed, epoll_wait fails exactly where it is asked for no
-- event, and no bytes fill its buffer without a 0: once the servers have ended ten connections, in
-- any number of waits, it exits at the next wait at the latest.
pub client_main-Exits :
    (poller : ℤ) (opening : ℕ → Opening) (evss : List (List Event)) (last : List Event)
    → eqb_ℤ poller (negsuc 0) ≡ false
    → AllConnect client_size 0 opening
    → EachShort evss
    → client_size ≤ all_ends evss
    → Ends IsExited (client_main poller opening (waits evss ++ wait_of last ∷ []))
unfolding client_main
client_main-Exits poller opening evss last p a short h =
    rw (client_main, p)
      (client_start-Exits client_size 0 opening no_peers evss last (omega (arith, h)) a short)
