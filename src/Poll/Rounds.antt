-- ===== src/Poll/Rounds.antt =====
-- poll_chat_server.cpp: the descriptors of the server over its rounds.
use cpp_study.Base.{
  ℕ, suc, ◌+◌, ◌≤◌, ◌<◌, ◌≡◌, refl, ap, List, [], ◌∷◌, Bool, true, false, Option, none, some, arith,
  ◌==◌, leb, if◌then◌else◌, length, length-append, one_if, count,
}
use cpp_study.Base.Exec.{Ends, ends, Ends-bind, Ends-weaken}
use cpp_study.Poll.{
  Mask, Slot, Server, user_limit, Round, new_slot, accept_user, serve_loop, with_revents,
  serve_round, serve_all,
}
use cpp_study.Poll.Table.{total, leaves, is_it, it_stays, it_leaves, total-append}
use cpp_study.Poll.Loop.{serve_loop-Passed}

-- 1 if the descriptor is the one that the listener takes into the table, or the one that it closes
-- at once.
abbrev pub entered : Bool → Server → Option ℕ → ℕ → ℕ
entered ready s none d = 0
entered ready s (some fd) d =
    if ready then (if leb user_limit (length s.slots) then 0 else one_if (fd == d)) else 0

abbrev pub refused : Bool → Server → Option ℕ → ℕ → ℕ
refused ready s none d = 0
refused ready s (some fd) d =
    if ready then (if leb user_limit (length s.slots) then one_if (fd == d) else 0) else 0

-- What a round makes of a table with the revents that poll has written.
pub record Served (r : Round) (s t : Server) : Type 0 where
  pub table :
      (d : ℕ)
      → total (is_it d) t.slots ≡ total (it_stays r d) s.slots + entered r.ready s r.connection d
  pub closed_ones :
      (d : ℕ)
      → count d t.closed
        ≡ count d s.closed + total (it_leaves r d) s.slots + refused r.ready s r.connection d
  pub accepted_ones :
      (d : ℕ)
      → count d t.accepted
        ≡ count d s.accepted + entered r.ready s r.connection d + refused r.ready s r.connection d
  pub size : length t.slots ≤ user_limit

-- The server once the listener is done with, where it takes a descriptor or closes it.
record Entered (r : Round) (s u : Server) (taken closed : ℕ → ℕ) : Type 0 where
  stays : (d : ℕ) → total (it_stays r d) u.slots ≡ total (it_stays r d) s.slots + taken d
  leaving : (d : ℕ) → total (it_leaves r d) u.slots ≡ total (it_leaves r d) s.slots
  closed_ones : (d : ℕ) → count d u.closed ≡ count d s.closed + closed d
  accepted_ones : (d : ℕ) → count d u.accepted ≡ count d s.accepted + taken d + closed d
  small : length u.slots ≤ user_limit

abbrev nothing : ℕ → ℕ
nothing d = 0

unchanged : (r : Round) (s : Server) → length s.slots ≤ user_limit → Entered r s s nothing nothing
unchanged r s h = record {
  stays = λ d. omega arith;
  leaving = λ d. refl;
  closed_ones = λ d. omega arith;
  accepted_ones = λ d. omega arith;
  small = h;
}

accept_by :
    (r : Round) (s : Server) (fd : ℕ) (full : Bool)
    → leb user_limit (length s.slots) ≡ full
    → length s.slots ≤ user_limit
    → Entered r s
        (accept_user s (some fd))
        (λ d. if full then 0 else one_if (fd == d))
        (λ d. if full then one_if (fd == d) else 0)
unfolding accept_user
accept_by r s fd true f h =
    rw (accept_user, f)
      (record {
        stays = λ d. omega arith;
        leaving = λ d. refl;
        closed_ones = λ d. omega arith;
        accepted_ones = λ d. omega arith;
        small = h;
      })
accept_by r s fd false f h =
    rw (accept_user, f)
      (record {
        stays = λ d. omega (arith, total-append (it_stays r d) s.slots (new_slot fd ∷ []));
        leaving = λ d. omega (arith, total-append (it_leaves r d) s.slots (new_slot fd ∷ []));
        closed_ones = λ d. omega arith;
        accepted_ones = λ d. omega arith;
        small =
            let below : length s.slots < user_limit = ground (arith, f) in
            omega (arith, below, length-append s.slots (new_slot fd ∷ []));
      })

listened :
    (r : Round) (s : Server) (ready : Bool) (to : Option ℕ)
    → length s.slots ≤ user_limit
    → Entered r s (if ready then accept_user s to else s) (entered ready s to) (refused ready s to)
unfolding accept_user
listened r s false none h = unchanged r s h
listened r s true none h = unchanged r s h
listened r s false (some fd) h = unchanged r s h
listened r s true (some fd) h = accept_by r s fd (leb user_limit (length s.slots)) refl h

-- The loop over the clients behind the listener's branch, on more fuel than the table may have
-- entries.
polled-Served :
    (fuel : ℕ) (r : Round) (s : Server)
    → length s.slots ≤ user_limit
    → user_limit < fuel
    → Ends (Served r s) (serve_loop fuel r (if r.ready then accept_user s r.connection else s) 0)
polled-Served fuel r s h enough =
    let u = if r.ready then accept_user s r.connection else s in
    let a = listened r s r.ready r.connection h in
    Ends-weaken
      (λ t p. record {
        table = λ d. omega (arith, p.table d, a.stays d);
        closed_ones = λ d. omega (arith, p.closed_ones d, a.leaving d, a.closed_ones d);
        accepted_ones = λ d. omega (arith, ap (count d) p.accepted_same, a.accepted_ones d);
        size = omega (arith, p.size, a.small);
      })
      (serve_loop-Passed fuel r u [] u.slots refl (omega (arith, a.small, enough)))

-- The table as poll leaves it.
abbrev pub polled : Round → Server → Server
polled r s = record s { slots = with_revents r.revents_of s.slots }

length-with_revents : (f : ℕ → Mask) (cs : List Slot) → length (with_revents f cs) ≡ length cs
length-with_revents f [] = refl
length-with_revents f (c ∷ cs) = ap suc (length-with_revents f cs)

-- A round on a table of five clients at most, on more fuel than that: it ends. Exactly the clients for
-- which poll reports POLLRDHUP without POLLERR, or POLLIN without these two where recv fails with
-- another error than EAGAIN, leave the table, also where the last one takes the place
-- of another that left; each of them is closed once, and no other. A new connection enters the
-- table where it has fewer than five clients, and is closed where it has five. At most five are in
-- the table.
pub serve_round-Served :
    (fuel : ℕ) (r : Round) (s : Server)
    → length s.slots ≤ user_limit
    → user_limit < fuel
    → Ends (Served r (polled r s)) (serve_round fuel r s)
unfolding serve_round
serve_round-Served fuel r s h enough =
    polled-Served fuel r (polled r s) (omega (arith, h, length-with_revents r.revents_of s.slots))
      enough

total-with_revents :
    (f : ℕ → Mask) (d : ℕ) (cs : List Slot)
    → total (is_it d) (with_revents f cs) ≡ total (is_it d) cs
total-with_revents f d [] = refl
total-with_revents f d (c ∷ cs) = omega (arith, total-with_revents f d cs)

stays_or_leaves :
    (r : Round) (d : ℕ) (cs : List Slot)
    → total (it_stays r d) cs + total (it_leaves r d) cs ≡ total (is_it d) cs
stays_or_leaves r d [] = omega arith
stays_or_leaves r d (c ∷ cs) =
    omega (arith, stays_or_leaves r d cs, one_way (leaves r c.fd c.revents) (one_if (c.fd == d)))
  where
    one_way : (b : Bool) (n : ℕ) → (if b then 0 else n) + (if b then n else 0) ≡ n
    one_way true n = omega arith
    one_way false n = omega arith

-- At most five clients, and each descriptor that accept gave is as often in the table or closed.
pub record IsAccounted (s : Server) : Type 0 where
  pub within : length s.slots ≤ user_limit
  pub kept : (d : ℕ) → count d s.accepted ≡ total (is_it d) s.slots + count d s.closed

-- The server over any rounds, from a table of five clients at most on which each descriptor that
-- accept gave is once in the table or closed: it ends where poll fails or the rounds end, no table
-- has more than five clients, and no descriptor is lost, closed twice, or closed while it is in
-- the table, however clients come, write, hang up and fail.
pub serve_all-IsAccounted :
    (fuel : ℕ) (rounds : List (Option Round)) (s : Server)
    → user_limit < fuel
    → IsAccounted s
    → Ends IsAccounted (serve_all fuel rounds s)
unfolding serve_all
serve_all-IsAccounted fuel [] s enough h = ends h
serve_all-IsAccounted fuel (none ∷ rounds) s enough h = ends h
serve_all-IsAccounted fuel (some r ∷ rounds) s enough h =
    Ends-bind (serve_round-Served fuel r s h.within enough) λ t p.
      serve_all-IsAccounted fuel rounds t enough (record {
        within = p.size;
        kept = λ d. omega (
          arith,
          p.table d,
          p.closed_ones d,
          p.accepted_ones d,
          stays_or_leaves r d (with_revents r.revents_of s.slots),
          total-with_revents r.revents_of d s.slots,
          h.kept d,
        );
      })
