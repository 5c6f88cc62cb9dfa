-- ===== src/HeartBeat/Server.antt =====
-- ExecServer: two listening sockets, and one round for each return of select, with the exchange of
-- every listener that is readable.
use mathlib.Core.List.{append_assoc}
use cpp_study.Base.{
  ◌≡◌, inl, inr, refl, sym, ap, ◌∙◌, List, [], ◌∷◌, ◌++◌, false, Option, none, some, if◌then◌else◌,
  arith,
}
use cpp_study.Base.Int.{ℤ, pos, negsuc, ◌<ℤ◌}
use cpp_study.HeartBeat.Socket.{
  Dog, Answers, new_dog, listen, serve, opened, is_negative, not_positive, serve_leaves,
}

-- What socket, bind and listen answer.
pub record Listening : Type 0 where
  pub socket : ℤ
  pub bound : ℤ
  pub listened : ℤ

unfoldable pub serve_ready : Dog → Option Answers → List ℤ → Dog × List ℤ
serve_ready d none fds = (d, fds)
serve_ready d (some a) fds = serve d a fds

-- The rounds of the loop, which has no end of its own.
unfoldable pub serve_rounds :
    Dog → Dog → List (Option Answers × Option Answers) → List ℤ → Dog × Dog × List ℤ
unfolding serve_ready
serve_rounds d e [] fds = (d, e, fds)
serve_rounds d e ((a, b) ∷ rounds) fds =
    let (d1, fds1) = serve_ready d a fds in
    let (e1, fds2) = serve_ready e b fds1 in serve_rounds d1 e1 rounds fds2

-- The two listeners, or none where ExecServer returns -1 before its loop.
unfoldable pub start_server : Listening → Listening → List ℤ → Option (Dog × Dog) × List ℤ
unfolding new_dog listen
start_server l m fds =
    let fds1 = opened l.socket fds in
    let fds2 = opened m.socket fds1 in
    let (d, fd) = listen new_dog l.socket l.bound l.listened in
    let (e, fd') = listen new_dog m.socket m.bound m.listened in
    if not_positive fd
    then (none, fds1)
    else if not_positive fd'
    then (none, fds2)
    else (some (d, e), fds2)

-- The loop, if it is reached.
pub serve_from :
    List (Option Answers × Option Answers)
    → Option (Dog × Dog) × List ℤ
    → Option (Dog × Dog) × List ℤ
unfolding serve_rounds
serve_from rounds (none, fds) = (none, fds)
serve_from rounds (some (d, e), fds) =
    let (d1, e1, fds1) = serve_rounds d e rounds fds in (some (d1, e1), fds1)

-- What ExecServer has reached: none if it has returned -1, or its listeners.
unfoldable pub exec_server :
    Listening
    → Listening
    → List (Option Answers × Option Answers)
    → List ℤ
    → Option (Dog × Dog) × List ℤ
unfolding start_server serve_from
exec_server l m rounds fds = serve_from rounds (start_server l m fds)

-- The descriptors of `after` are those of `fds` behind some more.
abbrev pub Extends : List ℤ → List ℤ → Type 0
Extends fds after = (extra : List ℤ) × (after ≡ extra ++ fds)

opened-Extends : (fd : ℤ) (fds : List ℤ) → Extends fds (opened fd fds)
opened-Extends (pos n) fds = (pos n ∷ [], refl)
opened-Extends (negsuc n) fds = ([], refl)

Extends-trans : (a b c : List ℤ) → Extends a b → Extends b c → Extends a c
Extends-trans a b c (x, e) (y, f) = (y ++ x, f ∙ ap (λ l. y ++ l) e ∙ sym (append_assoc y x a))

serve_ready_keeps :
    (d : Dog) (a : Option Answers) (fds : List ℤ)
    → ((serve_ready d a fds).0.old_socket_id ≡ d.old_socket_id)
      × Extends fds (serve_ready d a fds).1
unfolding serve_ready
serve_ready_keeps d none fds = (refl, ([], refl))
serve_ready_keeps d (some a) fds =
    let (same, left) = serve_leaves d a fds in
    (
      same,
      elim left [
        | inl (ok, e) ↦ ([], e)
        | inr (bad, e) ↦ let (x, f) = opened-Extends a.socket fds in (x, e ∙ f)
      ],
    )

-- Over any rounds the listeners stay the same, and no descriptor that was open is closed.
serve_rounds_keeps :
    (d e : Dog) (rounds : List (Option Answers × Option Answers)) (fds : List ℤ)
    → ((serve_rounds d e rounds fds).0.old_socket_id ≡ d.old_socket_id)
      × ((serve_rounds d e rounds fds).1.old_socket_id ≡ e.old_socket_id)
      × Extends fds (serve_rounds d e rounds fds).2
unfolding serve_rounds
serve_rounds_keeps d e [] fds = (refl, refl, ([], refl))
serve_rounds_keeps d e ((a, b) ∷ rounds) fds =
    let one = serve_ready d a fds in
    let two = serve_ready e b one.1 in
    let (p, x) = serve_ready_keeps d a fds in
    let (q, y) = serve_ready_keeps e b one.1 in
    let (s, t, z) = serve_rounds_keeps one.0 two.0 rounds two.1 in
    (
      s ∙ p,
      t ∙ q,
      Extends-trans fds two.1 (serve_rounds one.0 two.0 rounds two.1).2
          (Extends-trans fds one.1 two.1 x y) z,
    )

-- All three calls succeed, with a descriptor other than 0.
abbrev pub Listens : Listening → Type 0
Listens l = (pos 0 <ℤ l.socket) × (is_negative l.bound ≡ false) × (is_negative l.listened ≡ false)

not_negative : (n : ℤ) → pos 0 <ℤ n → (is_negative n ≡ false) × (not_positive n ≡ false)
not_negative n p = ground arith

start_server_lem :
    (l m : Listening) (fds : List ℤ)
    → Listens l
    → Listens m
    → start_server l m fds ≡ (
      some (
        record new_dog { old_socket_id = l.socket },
        record new_dog { old_socket_id = m.socket },
      ),
      m.socket ∷ l.socket ∷ fds,
    )
unfolding start_server listen
start_server_lem l m fds p q =
    let (a, b) = not_negative l.socket p.0 in
    let (a', b') = not_negative m.socket q.0 in
    rw (start_server, a, p.1, p.2, a', q.1, q.2, b, b') refl

-- If both sockets are opened, bound and set to listen, ExecServer is still serving after any rounds,
-- with the two listeners that it opened, and whatever fails in its exchanges it has closed neither
-- of the two nor a descriptor that was open before.
pub exec_server_keeps :
    (l m : Listening) (rounds : List (Option Answers × Option Answers)) (fds : List ℤ)
    → Listens l
    → Listens m
    → (d : Dog) × (e : Dog) × (after : List ℤ) × (exec_server l m rounds fds ≡ (some (d, e), after))
      × (d.old_socket_id ≡ l.socket)
      × (e.old_socket_id ≡ m.socket)
      × Extends (m.socket ∷ l.socket ∷ fds) after
unfolding exec_server serve_from
exec_server_keeps l m rounds fds p q =
    let d : Dog = record new_dog { old_socket_id = l.socket } in
    let e : Dog = record new_dog { old_socket_id = m.socket } in
    let open2 = m.socket ∷ l.socket ∷ fds in
    let (s, t, x) = serve_rounds_keeps d e rounds open2 in
    let r = serve_rounds d e rounds open2 in
    (r.0, r.1, r.2, ap (serve_from rounds) (start_server_lem l m fds p q), s, t, x)
