-- ===== src/Poll/Loop.antt =====
-- poll_chat_server.cpp: the loop over the clients to its end.
use mathlib.Core.Path.{subst}
use mathlib.Core.List.{append_assoc, append-nil}
use cpp_study.Base.{
  ℕ, zero, suc, ◌+◌, ◌≤◌, ◌<◌, ◌≡◌, refl, sym, ap, ◌∙◌, List, [], ◌∷◌, ◌++◌, Bool, true, false,
  none, some, arith, ◌==◌, if◌then◌else◌, length, length-append, get_elem?, one_if, count,
}
use cpp_study.Base.Exec.{Ends, ends, Ends-weaken}
use cpp_study.Poll.{Slot, Server, Round, serve_client, serve_loop}
use cpp_study.Poll.Table.{
  total, leaves, is_it, it_stays, it_leaves, total-append, total-rotated, length-rotated, get_at,
  get_end, rotated,
}
use cpp_study.Poll.Passes.{Outcome, Stays, Left, serve_client-Outcome}

-- What the loop leaves of the clients `rest` from its place on, `front` being before it.
pub record Passed (r : Round) (s : Server) (front rest : List Slot) (t : Server) : Type 0 where
  pub table : (d : ℕ) → total (is_it d) t.slots ≡ total (is_it d) front + total (it_stays r d) rest
  pub closed_ones : (d : ℕ) → count d t.closed ≡ count d s.closed + total (it_leaves r d) rest
  pub accepted_same : t.accepted ≡ s.accepted
  pub size : length t.slots ≤ length front + length rest

abbrev pub Continues : ℕ → Round → Type 0
Continues fuel r =
    (u : Server) (front rest : List Slot)
    → u.slots ≡ front ++ rest
    → length rest < fuel
    → Ends (Passed r u front rest) (serve_loop fuel r u (length front))

pub stay_weight :
    (r : Round) (d : ℕ) (c : Slot)
    → leaves r c.fd c.revents ≡ false
    → (it_stays r d c.fd c.revents ≡ is_it d c.fd c.revents) × (it_leaves r d c.fd c.revents ≡ 0)
stay_weight r d c l = (rw l refl, rw l refl)

pub leave_weight :
    (r : Round) (d : ℕ) (c : Slot)
    → leaves r c.fd c.revents ≡ true
    → (it_stays r d c.fd c.revents ≡ 0) × (it_leaves r d c.fd c.revents ≡ is_it d c.fd c.revents)
leave_weight r d c l = (rw l refl, rw l refl)

module _ (r : Round) (s : Server) (front rest : List Slot) (c : Slot) where
  passed_on :
      (t u : Server) (o : Stays r s front rest c t)
      → Passed r t (o.front' ++ o.c' ∷ []) (o.rest') u
      → Passed r s front (c ∷ rest) u
  passed_on t u o p = record {
    table = λ d. omega (
      arith,
      p.table d,
      total-append (is_it d) (o.front') (o.c' ∷ []),
      o.front_same (is_it d),
      o.c_same (is_it d),
      o.rest_same (it_stays r d),
      (stay_weight r d c o.c_stays).0,
    );
    closed_ones = λ d.
        let same : count d t.closed ≡ count d s.closed = ap (count d) o.closed_same in
        omega (
          arith,
          p.closed_ones d,
          same,
          o.rest_same (it_leaves r d),
          (stay_weight r d c o.c_stays).1,
        );
    accepted_same = p.accepted_same ∙ o.accepted_same;
    size = omega (arith, p.size, length-append (o.front') (o.c' ∷ []), o.front_size, o.rest_size);
  }

  passed_without :
      (t u : Server)
      → Left r s front rest c t
      → Passed r t front (rotated rest) u
      → Passed r s front (c ∷ rest) u
  passed_without t u o p = record {
    table = λ d.
        omega
          (arith, p.table d, total-rotated (it_stays r d) rest, (leave_weight r d c o.c_leaves).0);
    closed_ones = λ d.
        let one : count d t.closed ≡ one_if (c.fd == d) + count d s.closed =
          ap (count d) o.closed_it in
        omega (
          arith,
          p.closed_ones d,
          one,
          total-rotated (it_leaves r d) rest,
          (leave_weight r d c o.c_leaves).1,
        );
    accepted_same = p.accepted_same ∙ o.accepted_same;
    size = omega (arith, p.size, length-rotated rest);
  }

  after_client :
      (fuel : ℕ) (p : Bool × Server)
      → Continues fuel r
      → length rest < fuel
      → Outcome r s front rest c p
      → Ends
          (Passed r s front (c ∷ rest))
          (serve_loop fuel r p.1 (if p.0 then length front else suc (length front)))
  after_client fuel (false, t) next h o =
      let longer : length (o.front' ++ o.c' ∷ []) ≡ suc (length front) =
        omega (arith, length-append (o.front') (o.c' ∷ []), o.front_size) in
      let split : t.slots ≡ (o.front' ++ o.c' ∷ []) ++ o.rest' =
        o.table ∙ sym (append_assoc (o.front') (o.c' ∷ []) (o.rest')) in
      subst (λ i. Ends (Passed r s front (c ∷ rest)) (serve_loop fuel r t i)) longer
        (Ends-weaken (λ u p. passed_on t u o p)
          (next t (o.front' ++ o.c' ∷ []) (o.rest') split (omega (arith, o.rest_size))))
  after_client fuel (true, t) next h o =
      Ends-weaken (λ u p. passed_without t u o p)
        (next t front (rotated rest) o.table (omega (arith, length-rotated rest)))

pub serve_loop-Passed : (fuel : ℕ) (r : Round) → Continues fuel r
unfolding serve_loop
serve_loop-Passed zero r s front rest e h = absurd (omega arith)
serve_loop-Passed (suc fuel) r s front [] e h =
    let here : get_elem? s.slots (length front) ≡ none =
      ap (λ cs. get_elem? cs (length front)) e ∙ get_end front in
    let whole : s.slots ≡ front = e ∙ append-nil front in
    rw (serve_loop, here)
      (ends (record {
        table = λ d. omega (arith, ap (total (is_it d)) whole);
        closed_ones = λ d. omega arith;
        accepted_same = refl;
        size = omega (arith, ap length whole);
      }))
serve_loop-Passed (suc fuel) r s front (c ∷ rest) e h =
    let here : get_elem? s.slots (length front) ≡ some c =
      ap (λ cs. get_elem? cs (length front)) e ∙ get_at front rest c in
    rw (serve_loop, here)
      (after_client r s front rest c fuel (serve_client r s (length front) c)
        (serve_loop-Passed fuel r) (omega arith) (serve_client-Outcome r s front rest c e))
