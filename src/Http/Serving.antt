-- ===== src/Http/Serving.antt =====
-- http.cpp: what a run of the server does with the descriptors and the requests.
use cpp_study.Base.{◌≡◌, refl, List, [], ◌∷◌, ◌++◌, Bool, true, false, not, if◌then◌else◌}
use cpp_study.Base.Int.{ℤ, pos, negsuc, ltb_ℤ, eqb_ℤ}
use cpp_study.Base.Exec.{Exec, done, Ends, ends, Ends-bind, Ends-weaken}
use cpp_study.Http.{
  Event, HttpServer, Batch, wait_failed, ready, Status, running, exited, wait_loop, Start, run,
}
use cpp_study.Http.Counts.{AllShort, Counted, then_Counted, nothing, serve_events-Counted}

-- The events up to a wait that fails, and whether one does.
abbrev pub events_of : List Batch → List Event
events_of [] = []
events_of (wait_failed ∷ bs) = []
events_of (ready evs ∷ bs) = evs ++ events_of bs

abbrev pub some_fails : List Batch → Bool
some_fails [] = false
some_fails (wait_failed ∷ bs) = true
some_fails (ready evs ∷ bs) = some_fails bs

abbrev pub Stands : Bool → ℤ → List Event → HttpServer → Status → Type 0
Stands failed sock evs s (running t) = Counted sock evs s t × (failed ≡ false)
Stands failed sock evs s (exited t) = Counted sock evs s t × (failed ≡ true)

abbrev pub AllBatchesShort : List Batch → Type 0
AllBatchesShort [] = Unit
AllBatchesShort (wait_failed ∷ bs) = Unit
AllBatchesShort (ready evs ∷ bs) = AllShort evs × AllBatchesShort bs

module _ (sock : ℤ) where
  then_Stands :
      (failed : Bool) (evs more : List Event) (s t : HttpServer) (u : Status)
      → Counted sock evs s t
      → Stands failed sock more t u
      → Stands failed sock (evs ++ more) s u
  then_Stands failed evs more s t (running u) p (q, e) = (then_Counted sock evs more s t u p q, e)
  then_Stands failed evs more s t (exited u) p (q, e) = (then_Counted sock evs more s t u p q, e)

  wait_loop-Stands :
      (bs : List Batch) (s : HttpServer)
      → s.sockfd ≡ sock
      → AllBatchesShort bs
      → Ends (λ u. Stands (some_fails bs) sock (events_of bs) s u) (wait_loop bs s)
  unfolding wait_loop
  wait_loop-Stands [] s e h = ends (nothing sock s e, refl)
  wait_loop-Stands (wait_failed ∷ bs) s e h = ends (nothing sock s e, refl)
  wait_loop-Stands (ready evs ∷ bs) s e (h, hs) =
      Ends-bind (serve_events-Counted sock evs s e h) λ t p.
        Ends-weaken (λ u q. then_Stands (some_fails bs) evs (events_of bs) s t u p q)
          (wait_loop-Stands bs t p.listener hs)

-- The calls of the start succeed.
abbrev pub starts : Start → Bool
starts a =
    if eqb_ℤ a.made (negsuc 0)
    then false
    else if ltb_ℤ a.bound (pos 0)
    then false
    else if ltb_ℤ a.listening (pos 0)
    then false
    else not (eqb_ℤ a.poller (negsuc 0))

abbrev pub new_server : ℤ → HttpServer
new_server sock = record { sockfd = sock; icnt = 0; accepted = []; closed = []; sent = [] }

past_start :
    (P : Exec Status → Type 0) (x y z w : Bool) (e m : Exec Status)
    → (if x then false else if y then false else if z then false else not w) ≡ true
    → P m
    → P (if x then e else if y then e else if z then e else if w then e else m)
past_start P true y z w e m h p = absurd (cc h)
past_start P false true z w e m h p = absurd (cc h)
past_start P false false true w e m h p = absurd (cc h)
past_start P false false false true e m h p = absurd (cc h)
past_start P false false false false e m h p = p

-- The server, where the calls of its start succeed and no request fills its buffer without a 0,
-- over any returns of epoll_wait: it goes on until a wait fails, and then exits. Up to there it has
-- taken each connection that accept gave and counted it, has sent one text for each request, and
-- has closed a client as often as recv failed on it with another error than EINTR. A client
-- that ends its connection is not closed for that.
pub run-Stands :
    (a : Start) (bs : List Batch)
    → starts a ≡ true
    → AllBatchesShort bs
    → Ends (λ u. Stands (some_fails bs) a.made (events_of bs) (new_server a.made) u) (run a bs)
unfolding run
run-Stands a bs h short =
    past_start
      (λ m. Ends (λ u. Stands (some_fails bs) a.made (events_of bs) (new_server a.made) u) m)
      (eqb_ℤ a.made (negsuc 0)) (ltb_ℤ a.bound (pos 0)) (ltb_ℤ a.listening (pos 0))
      (eqb_ℤ a.poller (negsuc 0)) (done (exited (new_server a.made))) _ h
      (wait_loop-Stands a.made bs (new_server a.made) refl short)
