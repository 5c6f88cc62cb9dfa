-- ===== src/Slots/Passes.antt =====
-- mysocket.cpp: what serving the places of the array does to the descriptors.
use mathlib.Core.List.{append_assoc}
use mathlib.Core.Path.{subst}
use cpp_study.Base.{
  ℕ, suc, ◌+◌, ◌≡◌, refl, sym, ap, ◌∙◌, List, [], ◌∷◌, ◌++◌, Bool, true, false, ◌&&◌, arith,
  if◌then◌else◌, length, one_if,
}
use cpp_study.Base.Int.{ℤ, pos, negsuc, ltb_ℤ, leb_ℤ, eqb_ℤ}
use cpp_study.Base.Exec.{done, Ends, ends, Ends-bind, Ends-weaken}
use cpp_study.Base.Array.{load, store}
use cpp_study.Slots.{
  Server, Round, is_set, answer_client, serve_place, serve_places, read_from, write_to,
}
use cpp_study.Slots.Cells.{times, times-append, load-middle, store-middle, longer}

-- A place once its client is served: it is free where read gives no byte.
abbrev pub after : Round → List ℤ → ℤ → ℤ
after r watched fd =
    if ltb_ℤ (pos 0) fd && is_set r watched fd
    then (if leb_ℤ (r.got fd) (pos 0) then negsuc 0 else fd)
    else fd

abbrev pub after_all : Round → List ℤ → List ℤ → List ℤ
after_all r watched [] = []
after_all r watched (fd ∷ fds) = after r watched fd ∷ after_all r watched fds

-- How often a descriptor is in the array or closed does not change.
abbrev pub held : ℕ → Server → ℕ
held d s = times (pos (suc d)) s.client_ids + times (pos (suc d)) s.closed

-- What serving the cells `rest` behind `front` makes of a server.
pub record Passed (r : Round) (watched front rest : List ℤ) (s t : Server) : Type 0 where
  pub ids : t.client_ids ≡ front ++ after_all r watched rest
  pub same_held : (d : ℕ) → held d t ≡ held d s
  pub same_accepted : t.accepted ≡ s.accepted
  pub same_listener : t.listener ≡ s.listener

-- One place: its cell becomes what `after` says.
record Placed (r : Round) (watched front : List ℤ) (x : ℤ) (rest : List ℤ) (s t : Server)
    : Type 0 where
  ids : t.client_ids ≡ front ++ after r watched x ∷ rest
  same_held : (d : ℕ) → held d t ≡ held d s
  same_accepted : t.accepted ≡ s.accepted
  same_listener : t.listener ≡ s.listener

positive : (x : ℤ) → ltb_ℤ (pos 0) x ≡ true → leb_ℤ x (pos 0) ≡ false
positive x h = ground arith

not_minus : (d : ℕ) → eqb_ℤ (negsuc 0) (pos (suc d)) ≡ false
not_minus d = ground arith

module _ (r : Round) (watched : List ℤ) (front : List ℤ) (x : ℤ) (rest : List ℤ) where
  dropped_held :
      (d n : ℕ)
      → times (pos (suc d)) (front ++ negsuc 0 ∷ rest) + (one_if (eqb_ℤ x (pos (suc d))) + n)
        ≡ times (pos (suc d)) (front ++ x ∷ rest) + n
  dropped_held d n =
      let a = times-append (pos (suc d)) front (negsuc 0 ∷ rest) in
      let b = times-append (pos (suc d)) front (x ∷ rest) in omega (arith, rw (not_minus d) at a, b)

  unchanged :
      (s t : Server)
      → s.client_ids ≡ front ++ x ∷ rest
      → after r watched x ≡ x
      → t.client_ids ≡ s.client_ids
      → t.closed ≡ s.closed
      → t.accepted ≡ s.accepted
      → t.listener ≡ s.listener
      → Placed r watched front x rest s t
  unchanged s t e a i c b l = record {
    ids = i ∙ e ∙ ap (λ y. front ++ y ∷ rest) (sym a);
    same_held = λ d. rw (i, c) refl;
    same_accepted = b;
    same_listener = l;
  }

  answer_by :
      (s : Server) (none_read none_sent : Bool)
      → ltb_ℤ (pos 0) x ≡ true
      → is_set r watched x ≡ true
      → leb_ℤ (r.got x) (pos 0) ≡ none_read
      → leb_ℤ (r.written x) (pos 0) ≡ none_sent
      → s.client_ids ≡ front ++ x ∷ rest
      → Ends (λ t. Placed r watched front x rest s t) (answer_client r s (length front) x)
  unfolding answer_client read_from write_to
  answer_by s true none_sent p w g h e =
      let stored : store s.client_ids (length front) (negsuc 0) ≡ done (front ++ negsuc 0 ∷ rest) =
        ap (λ ids. store ids (length front) (negsuc 0)) e ∙ store-middle front x (negsuc 0) rest in
      rw (answer_client, read_from, positive x p, g, stored)
        (ends (record {
          ids = rw (p, w, g) refl;
          same_held = λ d. rw e (dropped_held d (times (pos (suc d)) s.closed));
          same_accepted = refl;
          same_listener = refl;
        }))
  answer_by s false true p w g h e =
      let kept : after r watched x ≡ x = rw (p, w, g) refl in
      rw (answer_client, read_from, write_to, positive x p, g, h)
        (ends (unchanged s s e kept refl refl refl refl))
  answer_by s false false p w g h e =
      let kept : after r watched x ≡ x = rw (p, w, g) refl in
      rw (answer_client, read_from, write_to, positive x p, g, h)
        (ends (unchanged s _ e kept refl refl refl refl))

  read_here :
      (s : Server) → s.client_ids ≡ front ++ x ∷ rest → load s.client_ids (length front) ≡ done x
  read_here s e = ap (λ ids. load ids (length front)) e ∙ load-middle front x rest

  serve_by :
      (s : Server) (p w : Bool)
      → ltb_ℤ (pos 0) x ≡ p
      → is_set r watched x ≡ w
      → s.client_ids ≡ front ++ x ∷ rest
      → Ends (λ t. Placed r watched front x rest s t) (serve_place r watched s (length front))
  unfolding serve_place
  serve_by s true true p w e =
      let here = read_here s e in
      rw (serve_place, here, p, w)
        (answer_by s (leb_ℤ (r.got x) (pos 0)) (leb_ℤ (r.written x) (pos 0)) p w refl refl e)
  serve_by s true false p w e =
      let here = read_here s e in
      let kept : after r watched x ≡ x = rw (p, w) refl in
      rw (serve_place, here, p, w) (ends (unchanged s s e kept refl refl refl refl))
  serve_by s false w p v e =
      let here = read_here s e in
      let kept : after r watched x ≡ x = rw p refl in
      rw (serve_place, here, p) (ends (unchanged s s e kept refl refl refl refl))

module _ (r : Round) (watched : List ℤ) where
  then_Passed :
      (front : List ℤ) (x : ℤ) (rest : List ℤ) (s t u : Server)
      → Placed r watched front x rest s t
      → Passed r watched (front ++ after r watched x ∷ []) rest t u
      → Passed r watched front (x ∷ rest) s u
  then_Passed front x rest s t u p q = record {
    ids = q.ids ∙ append_assoc front (after r watched x ∷ []) (after_all r watched rest);
    same_held = λ d. q.same_held d ∙ p.same_held d;
    same_accepted = q.same_accepted ∙ p.same_accepted;
    same_listener = q.same_listener ∙ p.same_listener;
  }

  -- The loop over the cells behind `front`.
  pub serve_places-Passed :
      (front rest : List ℤ) (s : Server)
      → s.client_ids ≡ front ++ rest
      → Ends
          (λ t. Passed r watched front rest s t)
          (serve_places (length rest) (length front) r watched s)
  unfolding serve_places
  serve_places-Passed front [] s e =
      ends (record { ids = e; same_held = λ d. refl; same_accepted = refl; same_listener = refl })
  serve_places-Passed front (x ∷ rest) s e =
      Ends-bind
        (serve_by r watched front x rest s (ltb_ℤ (pos 0) x) (is_set r watched x) refl refl e)
        λ t p.
          let y = after r watched x in
          let next =
            serve_places-Passed (front ++ y ∷ []) rest t
              (p.ids ∙ sym (append_assoc front (y ∷ []) rest)) in
          Ends-weaken (λ u q. then_Passed front x rest s t u p q)
            (subst
              (λ i.
                Ends (λ u. Passed r watched (front ++ y ∷ []) rest t u)
                  (serve_places (length rest) i r watched t))
              (longer front y) next)
