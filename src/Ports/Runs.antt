-- ===== src/Ports/Runs.antt =====
-- epoll_server.cpp and epoll_client.cpp: the two programs over their waits.
use cpp_study.Base.{
  ℕ, zero, suc, ◌+◌, ◌≡◌, refl, List, [], ◌∷◌, ◌++◌, Bool, true, false, not, arith, if◌then◌else◌,
}
use cpp_study.Base.Int.{ℤ, pos, negsuc, ltb_ℤ, eqb_ℤ}
use cpp_study.Base.Exec.{Exec, done, Ends, ends, Ends-bind, Ends-weaken}
use cpp_study.Http.{Event, Batch, wait_failed, ready}
use cpp_study.Ports.{
  Peer, Status, running, exited, Opening, no_peers, server_loop, server_start, server_main,
  server_size,
}
use cpp_study.Ports.Events.{
  AllShort, all_quits, all_closes, all_comes, Step, Step-none, Step-then, serve_events-Step,
}

-- The events up to a wait that fails, and whether one does.
abbrev pub events_of : List Batch → List Event
events_of [] = []
events_of (wait_failed ∷ bs) = []
events_of (ready evs ∷ bs) = evs ++ events_of bs

abbrev pub some_fails : List Batch → Bool
some_fails [] = false
some_fails (wait_failed ∷ bs) = true
some_fails (ready evs ∷ bs) = some_fails bs

abbrev pub AllBatchesShort : List Batch → Type 0
AllBatchesShort [] = Unit
AllBatchesShort (wait_failed ∷ bs) = Unit
AllBatchesShort (ready evs ∷ bs) = AllShort evs × AllBatchesShort bs

-- The server with the listeners `socks`, after the events `evs`.
abbrev pub Counted : List ℤ → List Event → Peer → Peer → Type 0
Counted socks evs s t =
    Step (all_comes socks evs) (all_quits socks evs) (λ d. all_closes socks d evs) s t

abbrev pub Stands : Bool → List ℤ → List Event → Peer → Status → Type 0
Stands failed socks evs s (running t) = Counted socks evs s t × (failed ≡ false)
Stands failed socks evs s (exited t) = Counted socks evs s t × (failed ≡ true)

module _ (socks : List ℤ) where
  quits-append :
      (evs more : List Event)
      → all_quits socks (evs ++ more) ≡ all_quits socks evs + all_quits socks more
  quits-append [] more = omega arith
  quits-append (ev ∷ evs) more = omega (arith, quits-append evs more)

  comes-append :
      (evs more : List Event)
      → all_comes socks (evs ++ more) ≡ all_comes socks evs + all_comes socks more
  comes-append [] more = omega arith
  comes-append (ev ∷ evs) more = omega (arith, comes-append evs more)

  closes-append :
      (d : ℤ) (evs more : List Event)
      → all_closes socks d (evs ++ more) ≡ all_closes socks d evs + all_closes socks d more
  closes-append d [] more = omega arith
  closes-append d (ev ∷ evs) more = omega (arith, closes-append d evs more)

  then_Counted :
      (evs more : List Event) (s t u : Peer)
      → Counted socks evs s t
      → Counted socks more t u
      → Counted socks (evs ++ more) s u
  then_Counted evs more s t u p q =
      rw (comes-append evs more, quits-append evs more)
        (Step-then p q (λ d. closes-append d evs more))

  then_Stands :
      (failed : Bool) (evs more : List Event) (s t : Peer) (u : Status)
      → Counted socks evs s t
      → Stands failed socks more t u
      → Stands failed socks (evs ++ more) s u
  then_Stands failed evs more s t (running u) p (q, e) = (then_Counted evs more s t u p q, e)
  then_Stands failed evs more s t (exited u) p (q, e) = (then_Counted evs more s t u p q, e)

  server_loop-Stands :
      (bs : List Batch) (s : Peer)
      → AllBatchesShort bs
      → Ends (λ u. Stands (some_fails bs) socks (events_of bs) s u) (server_loop socks bs s)
  unfolding server_loop
  server_loop-Stands [] s h = ends (Step-none s, refl)
  server_loop-Stands (wait_failed ∷ bs) s h = ends (Step-none s, refl)
  server_loop-Stands (ready evs ∷ bs) s (h, hs) = Ends-bind (serve_events-Step socks evs s h) λ t p.
      Ends-weaken (λ u q. then_Stands (some_fails bs) evs (events_of bs) s t u p q)
        (server_loop-Stands bs t hs)

-- The calls for a listener succeed.
abbrev pub opens : Opening → Bool
opens a =
    if eqb_ℤ a.made (negsuc 0)
    then false
    else if ltb_ℤ a.bound (pos 0)
    then false
    else not (ltb_ℤ a.listening (pos 0))

abbrev pub AllOpen : ℕ → ℕ → (ℕ → Opening) → Type 0
AllOpen zero i opening = Unit
AllOpen (suc n) i opening = (opens (opening i) ≡ true) × AllOpen n (suc i) opening

-- The listeners that are opened, the last one first.
abbrev pub listeners : ℕ → ℕ → (ℕ → Opening) → List ℤ → List ℤ
listeners zero i opening socks = socks
listeners (suc n) i opening socks = listeners n (suc i) opening ((opening i).made ∷ socks)

past_opening :
    (P : Exec Status → Type 0) (x y z : Bool) (e m : Exec Status)
    → (if x then false else if y then false else not z) ≡ true
    → P m
    → P (if x then e else if y then e else if z then e else m)
past_opening P true y z e m h p = absurd (cc h)
past_opening P false true z e m h p = absurd (cc h)
past_opening P false false true e m h p = absurd (cc h)
past_opening P false false false e m h p = p

server_start-Stands :
    (n i : ℕ) (opening : ℕ → Opening) (socks : List ℤ) (bs : List Batch)
    → AllOpen n i opening
    → AllBatchesShort bs
    → Ends
        (λ u. Stands (some_fails bs) (listeners n i opening socks) (events_of bs) no_peers u)
        (server_start n i opening socks bs)
unfolding server_start
server_start-Stands zero i opening socks bs a h = server_loop-Stands socks bs no_peers h
server_start-Stands (suc n) i opening socks bs (o, a) h =
    let s = (opening i).made ∷ socks in
    past_opening
      (λ m.
        Ends (λ u. Stands (some_fails bs) (listeners n (suc i) opening s) (events_of bs) no_peers u)
          m)
      (eqb_ℤ (opening i).made (negsuc 0)) (ltb_ℤ (opening i).bound (pos 0))
      (ltb_ℤ (opening i).listening (pos 0)) (done (exited no_peers)) _ o
      (server_start-Stands n (suc i) opening s bs a h)

-- The server on its ten listeners, where the calls of its start succeed and no bytes fill its buffer
-- without a 0, over any returns of epoll_wait: it goes on until a wait fails, and then exits. Up to
-- there icnt is the number of connections that were accepted less the number of clients that ended
-- theirs, and a client is closed once for each end and each error other than EINTR: icnt still
-- counts the clients that an error has closed.
pub server_main-Stands :
    (poller : ℤ) (opening : ℕ → Opening) (bs : List Batch)
    → eqb_ℤ poller (negsuc 0) ≡ false
    → AllOpen server_size 0 opening
    → AllBatchesShort bs
    → Ends
        (λ u. Stands (some_fails bs) (listeners server_size 0 opening []) (events_of bs) no_peers u)
        (server_main poller opening bs)
unfolding server_main
server_main-Stands poller opening bs p a h =
    rw (server_main, p) (server_start-Stands server_size 0 opening [] bs a h)
