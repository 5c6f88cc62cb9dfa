-- ===== src/Slots/Rounds.antt =====
-- mysocket.cpp: the descriptors of the server over its rounds.
use mathlib.Core.Path.{subst}
use cpp_study.Base.{
  ℕ, suc, ◌+◌, ◌≡◌, refl, sym, ap, ◌∙◌, List, [], ◌∷◌, Bool, true, false, arith, if◌then◌else◌,
  length, one_if,
}
use cpp_study.Base.Int.{ℤ, pos, ltb_ℤ, leb_ℤ, eqb_ℤ}
use cpp_study.Base.Exec.{
  Exec, done, fault, timeout, ◌>>=◌, Ends, ends, Ends-bind, Ends-weaken, Ends-if,
}
use cpp_study.Slots.{
  connect_num, Server, Round, is_set, accept, MySocket, free_place, take_place, enter, serve_round,
  serve_rounds, serve_places, watch_loop,
}
use cpp_study.Slots.Cells.{
  times, watch_all, watch_loop-all, placed, is_full, search, search-placed, with_client,
}
use cpp_study.Slots.Passes.{after_all, held, serve_places-Passed}

-- The set that select is given.
abbrev pub watched_by : Server → List ℤ
watched_by s = watch_all s.client_ids (s.listener ∷ [])

-- The array behind a round: where a connection is there and accept fails, it stays as it is; else
-- the new client takes the first free place, if there is one, and the clients are served.
abbrev pub ids_after : Round → Server → List ℤ
ids_after r s =
    let w = watched_by s in
    if is_set r w s.listener
    then (if leb_ℤ r.connection (pos 0)
        then s.client_ids
        else after_all r w (placed r.connection s.client_ids))
    else after_all r w s.client_ids

-- Five places, and each descriptor that accept gave is as often in a place or closed.
pub record IsAccounted (s : Server) : Type 0 where
  pub size : length s.client_ids ≡ connect_num
  pub kept : (d : ℕ) → times (pos (suc d)) s.accepted ≡ held d s

pub record IsRound (r : Round) (s t : Server) : Type 0 where
  pub ids : t.client_ids ≡ ids_after r s
  pub accounted : IsAccounted t
  pub same_listener : t.listener ≡ s.listener

length-placed : (fd : ℤ) (ids : List ℤ) → length (placed fd ids) ≡ length ids
length-placed fd [] = refl
length-placed fd (x ∷ ids) = ground (arith, length-placed fd ids)

length-after : (r : Round) (w ids : List ℤ) → length (after_all r w ids) ≡ length ids
length-after r w [] = refl
length-after r w (x ∷ ids) = ap suc (length-after r w ids)

free_apart : (x : ℤ) (d : ℕ) → leb_ℤ x (pos 0) ≡ true → eqb_ℤ x (pos (suc d)) ≡ false
free_apart x d h = ground arith

-- A client that comes in is in a place or closed.
times-placed :
    (d : ℕ) (fd : ℤ) (ids closed : List ℤ)
    → times (pos (suc d)) (placed fd ids)
        + times (pos (suc d)) (if is_full ids then fd ∷ closed else closed)
      ≡ one_if (eqb_ℤ fd (pos (suc d))) + (times (pos (suc d)) ids + times (pos (suc d)) closed)
times-placed d fd [] closed = omega arith
times-placed d fd (x ∷ ids) closed = by_place (leb_ℤ x (pos 0)) refl (times-placed d fd ids closed)
  where
    by_place :
        (b : Bool)
        → leb_ℤ x (pos 0) ≡ b
        → times (pos (suc d)) (placed fd ids)
            + times (pos (suc d)) (if is_full ids then fd ∷ closed else closed)
          ≡ one_if (eqb_ℤ fd (pos (suc d))) + (times (pos (suc d)) ids + times (pos (suc d)) closed)
        → times (pos (suc d)) (placed fd (x ∷ ids))
            + times (pos (suc d)) (if is_full (x ∷ ids) then fd ∷ closed else closed)
          ≡ one_if (eqb_ℤ fd (pos (suc d)))
            + (times (pos (suc d)) (x ∷ ids) + times (pos (suc d)) closed)
    by_place true h rest = rw (h, free_apart x d h) (omega arith)
    by_place false h rest = rw h (omega (arith, rest))

-- The array and the closed descriptors once the clients of `s` are served.
served_all :
    (r : Round) (s : Server) (w : List ℤ)
    → IsAccounted s
    → Ends
        (λ t.
          (t.client_ids ≡ after_all r w s.client_ids) × IsAccounted t × (t.listener ≡ s.listener))
        (serve_places connect_num 0 r w s)
served_all r s w h =
    subst
      (λ n.
        Ends
          (λ t.
            (t.client_ids ≡ after_all r w s.client_ids) × IsAccounted t × (t.listener ≡ s.listener))
          (serve_places n 0 r w s))
      h.size
      (Ends-weaken
        (λ t p. (
          p.ids,
          record {
            size = ap length p.ids ∙ length-after r w s.client_ids ∙ h.size;
            kept = λ d. ap (times (pos (suc d))) p.same_accepted ∙ h.kept d ∙ sym (p.same_held d);
          },
          p.same_listener,
        ))
        (serve_places-Passed r w [] s.client_ids s refl))

all_watched :
    (s : Server)
    → length s.client_ids ≡ connect_num
    → watch_loop connect_num 0 s.client_ids (s.listener ∷ []) ≡ done (watched_by s)
all_watched s e =
    subst (λ n. watch_loop n 0 s.client_ids (s.listener ∷ []) ≡ done (watched_by s)) e
      (watch_loop-all [] s.client_ids (s.listener ∷ []))

-- The server with a new client, in the array or closed.
abbrev joined : Server → ℤ → Server
joined s fd =
    with_client
      (record s { object = record s.object { socket_id = fd }; accepted = fd ∷ s.accepted }) fd []
      s.client_ids

joined-IsAccounted : (s : Server) (fd : ℤ) → IsAccounted s → IsAccounted (joined s fd)
joined-IsAccounted s fd h = record {
  size = length-placed fd s.client_ids ∙ h.size;
  kept = λ d. omega (arith, h.kept d, times-placed d fd s.client_ids s.closed);
}

pub came : (c : ℤ) → leb_ℤ c (pos 0) ≡ false → ltb_ℤ c (pos 0) ≡ false
came c h = ground arith

Ends-assoc {ℓ κ} :
    {A B C : Type ℓ} {P : C → Type κ} (m : Exec A) (f : A → Exec B) (g : B → Exec C)
    → Ends P (m >>= f >>= g)
    → Ends P (m >>= λ a. f a >>= g)
Ends-assoc (done a) f g h = h
Ends-assoc fault f g h = h
Ends-assoc timeout f g h = h

module _ (r : Round) (s : Server) (h : IsAccounted s) where
  -- Where accept gives no client, the round ends.
  no_client :
      (o : MySocket)
      → leb_ℤ r.connection (pos 0) ≡ true
      → is_set r (watched_by s) s.listener ≡ true
      → IsRound r s (record s { object = o })
  no_client o c w = record {
    ids = rw (w, c) refl;
    accounted = record { size = h.size; kept = h.kept };
    same_listener = refl;
  }

  enter-IsRound :
      (none_came failed : Bool)
      → leb_ℤ r.connection (pos 0) ≡ none_came
      → ltb_ℤ r.connection (pos 0) ≡ failed
      → is_set r (watched_by s) s.listener ≡ true
      → Ends (λ t. IsRound r s t) (enter r (watched_by s) s)
  unfolding enter accept
  enter-IsRound true true c f w = rw (enter, accept, f) (ends (no_client s.object c w))
  enter-IsRound true false c f w =
      rw (enter, accept, f, c) (ends (no_client (record s.object { socket_id = r.connection }) c w))
  enter-IsRound false failed c f w =
      let t = joined s r.connection in
      let start : Server = record s {
        object = record s.object { socket_id = r.connection };
        accepted = r.connection ∷ s.accepted;
      } in
      let found =
        subst (λ n. search start r.connection n 0 s.client_ids ≡ done t) h.size
          (search-placed start r.connection [] s.client_ids (omega (arith, h.size))) in
      let serve : Server → Exec Server = λ u. serve_places connect_num 0 r (watched_by s) u in
      let all =
        Ends-weaken (λ u (i, a, l). record { ids = rw (w, c) i; accounted = a; same_listener = l })
          (served_all r t (watched_by s) (joined-IsAccounted s r.connection h)) in
      rw (enter, accept, came r.connection c, c)
        (Ends-assoc (free_place connect_num 0 s.client_ids) (λ i. take_place start r.connection i)
          serve (subst (λ m. Ends (λ t. IsRound r s t) (m >>= serve)) (sym found) all))

  -- A round of a server with five places, in which each descriptor that accept gave is as often in
  -- a place or closed: no access is out of bounds, and the round ends. Each client that select
  -- reports and from which read gives no byte leaves its place, and all the others keep theirs; a
  -- new client takes the first free place, and is closed where all are taken. Where a connection
  -- waits and accept fails, no client is served. The accounts still hold.
  pub serve_round-IsRound : Ends (λ t. IsRound r s t) (serve_round r s)
  unfolding serve_round
  serve_round-IsRound =
      let w = watched_by s in
      rw (serve_round, all_watched s h.size)
        (Ends-if (is_set r w s.listener)
          (λ e. enter-IsRound (leb_ℤ r.connection (pos 0)) (ltb_ℤ r.connection (pos 0)) refl refl e)
          λ e.
            Ends-weaken (λ t (i, a, l). record { ids = rw e i; accounted = a; same_listener = l })
              (served_all r s w h))

-- The server over any rounds, from five places in which each descriptor that accept gave is as
-- often held or closed: it never reads or writes outside the array, and no descriptor is lost, or
-- closed while it is in a place, however clients come, write, hang up and fail.
pub serve_rounds-IsAccounted :
    (rounds : List Round) (s : Server)
    → IsAccounted s
    → Ends (λ t. IsAccounted t) (serve_rounds rounds s)
unfolding serve_rounds
serve_rounds-IsAccounted [] s h = ends h
serve_rounds-IsAccounted (r ∷ rounds) s h =
    Ends-bind (serve_round-IsRound r s h) λ t p. serve_rounds-IsAccounted rounds t p.accounted
