-- ===== src/Epoll/Serving.antt =====
-- epoll_socket.cpp: what holds of the server however its events come.
use cpp_study.Base.{◌≡◌, List, [], ◌∷◌, Bool, true, false, ◌&&◌, ◌||◌, if◌then◌else◌}
use cpp_study.Base.Int.{ℤ, pos, ltb_ℤ, eqb_ℤ}
use cpp_study.Shm.{ResultCode, rs_success, rs_common}
use cpp_study.Shm.App.{Status, running, returned}
use cpp_study.Epoll.{EpollSocket, Event, Batch, wait_failed, idle, ready, Start}
use cpp_study.Epoll.Clients.{IsServing}

-- The event, or the return of epoll_wait, ends the server.
abbrev pub event_fails : ℤ → Event → Bool
event_fails sock ev = eqb_ℤ ev.fd sock && ltb_ℤ ev.accepted (pos 0)

abbrev pub some_event_fails : ℤ → List Event → Bool
some_event_fails sock [] = false
some_event_fails sock (ev ∷ evs) =
    let rest = some_event_fails sock evs in event_fails sock ev || rest

abbrev pub batch_fails : ℤ → Batch → Bool
batch_fails sock wait_failed = true
batch_fails sock idle = false
batch_fails sock (ready evs) = some_event_fails sock evs

abbrev pub some_batch_fails : ℤ → List Batch → Bool
some_batch_fails sock [] = false
some_batch_fails sock (b ∷ bs) = let rest = some_batch_fails sock bs in batch_fails sock b || rest

-- epoll_ctl adds every accepted descriptor.
abbrev pub Adds : List Event → Type 0
Adds [] = Unit
Adds (ev ∷ evs) = (ltb_ℤ ev.added (pos 0) ≡ false) × Adds evs

abbrev pub AllAdd : List Batch → Type 0
AllAdd [] = Unit
AllAdd (wait_failed ∷ bs) = AllAdd bs
AllAdd (idle ∷ bs) = AllAdd bs
AllAdd (ready evs ∷ bs) = Adds evs × AllAdd bs

abbrev BatchAdds : Batch → Type 0
BatchAdds wait_failed = Unit
BatchAdds idle = Unit
BatchAdds (ready evs) = Adds evs

module _ (sock : ℤ) where
  -- The code tells whether something failed.
  abbrev Answered : Bool → ResultCode × EpollSocket → Type 0
  Answered failed p = IsServing sock p.1 × (p.0 ≡ (if failed then rs_common else rs_success))

  abbrev pub Served : Bool → Status × EpollSocket → Type 0
  Served failed p = IsServing sock p.1 × (p.0 ≡ (if failed then returned rs_common else running))

-- The code that the start of the server gives, before its first wait.
abbrev pub start_fails : Start → Bool
start_fails a = ltb_ℤ a.socket (pos 0) || ltb_ℤ a.bind (pos 0) || ltb_ℤ a.listen (pos 0)
