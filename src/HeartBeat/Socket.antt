-- ===== src/HeartBeat/Socket.antt =====
-- The class HeartBeat, one exchange of the client and one of the server. The numbers that the
-- system calls return are arguments, and `fds` is the list of the descriptors that the process
-- holds open.
use cpp_study.Base.{
  ℕ, ◌+◌, ◌≡◌, ◌⊎◌, inl, inr, refl, List, [], ◌∷◌, Bool, true, false, not, arith, if◌then◌else◌,
  length,
}
use cpp_study.Base.Int.{ℤ, pos, negsuc, ◌<ℤ◌, leb_ℤ, eqb_ℤ}

pub record Dog : Type 0 where
  pub socket_id : ℤ
  pub old_socket_id : ℤ

unfoldable pub new_dog : Dog
new_dog = record { socket_id = negsuc 0; old_socket_id = negsuc 0 }

abbrev pub is_negative : ℤ → Bool
is_negative (pos n) = false
is_negative (negsuc n) = true

-- `n <= 0`
abbrev pub not_positive : ℤ → Bool
not_positive n = leb_ℤ n (pos 0)

unfoldable pub listen : Dog → ℤ → ℤ → ℤ → Dog × ℤ
listen d socket bind listened =
    if is_negative socket
    then (d, negsuc 0)
    else if is_negative bind
    then (d, negsuc 0)
    else if is_negative listened
    then (d, negsuc 0)
    else (record d { old_socket_id = socket }, socket)

unfoldable pub accept : Dog → ℤ → Dog × ℤ
accept d accepted =
    if is_negative accepted then (d, negsuc 0) else (record d { socket_id = accepted }, accepted)

unfoldable pub connect : Dog → ℤ → ℤ → Dog × ℤ
connect d socket connected =
    if is_negative socket
    then (d, negsuc 0)
    else if not (eqb_ℤ connected (pos 0))
    then (d, negsuc 0)
    else (record d { socket_id = socket }, socket)

unfoldable pub write : Dog → ℤ → ℤ
write d written = if not_positive (d.socket_id) then negsuc 0 else written

unfoldable pub read : Dog → ℤ → ℤ
read d got = if not_positive (d.socket_id) then negsuc 0 else got

-- A descriptor that a call returned, unless the call failed.
abbrev pub opened : ℤ → List ℤ → List ℤ
opened fd fds = if is_negative fd then fds else fd ∷ fds

unfoldable pub close : ℤ → List ℤ → List ℤ
close fd [] = []
close fd (x ∷ fds) = let rest = close fd fds in if eqb_ℤ x fd then fds else x ∷ rest

-- What the system calls of one exchange answer.
pub record Answers : Type 0 where
  pub socket : ℤ
  pub connected : ℤ
  pub written : ℤ
  pub got : ℤ

unfoldable pub exec_client : Answers → List ℤ → ℤ × List ℤ
unfolding new_dog connect write read close
exec_client a fds =
    let open1 = opened (a.socket) fds in
    let (dog, fd) = connect new_dog (a.socket) (a.connected) in
    if not_positive fd
    then (negsuc 0, open1)
    else if not_positive (write dog (a.written))
    then (negsuc 0, open1)
    else if not_positive (read dog (a.got))
    then (negsuc 0, open1)
    else (pos 0, close fd open1)

-- One listener that select found readable; `socket` is what accept answers.
unfoldable pub serve : Dog → Answers → List ℤ → Dog × List ℤ
unfolding accept write read close
serve d a fds =
    let open1 = opened (a.socket) fds in
    let (dog, fd) = accept d (a.socket) in
    if not_positive fd
    then (dog, open1)
    else if not_positive (read dog (a.got))
    then (dog, open1)
    else if not_positive (write dog (a.written))
    then (dog, open1)
    else (dog, close fd open1)

-- Exchanges one after another, and how many of them returned 0.
unfoldable pub exec_clients : List Answers → List ℤ → List ℤ × ℕ
unfolding exec_client
exec_clients [] fds = (fds, 0)
exec_clients (a ∷ rest) fds =
    let (code, open1) = exec_client a fds in
    let (open2, good) = exec_clients rest open1 in
    (open2, if eqb_ℤ code (pos 0) then good + 1 else good)

unfoldable pub serves : Dog → List Answers → List ℤ → Dog × List ℤ
unfolding serve
serves d [] fds = (d, fds)
serves d (a ∷ rest) fds = let (d1, open1) = serve d a fds in serves d1 rest open1

-- The calls of an exchange all succeed, on a descriptor other than 0.
abbrev pub Succeeds : Answers → Type 0
Succeeds a = (pos 0 <ℤ a.socket) × (a.connected ≡ pos 0) × (pos 0 <ℤ a.written) × (pos 0 <ℤ a.got)

-- Which descriptors are open behind an exchange that returned the code in `r`: those from before
-- if it succeeded, and the new one as well if it did not.
abbrev pub Leaves : Answers → List ℤ → ℤ × List ℤ → Type 0
Leaves a fds r =
    (Succeeds a × (r ≡ (pos 0, fds))) ⊎ ((¬ Succeeds a) × (r ≡ (negsuc 0, opened (a.socket) fds)))

close-head : (fd : ℤ) (fds : List ℤ) → close fd (fd ∷ fds) ≡ fds
unfolding close
close-head (pos n) fds = ground arith
close-head (negsuc n) fds = ground arith

succeeds : (a : Answers) (fds : List ℤ) → Succeeds a → exec_client a fds ≡ (pos 0, fds)
unfolding exec_client new_dog connect write read
succeeds a fds (p, q, d, e) = rw q (ground (arith, close-head a.socket fds))

-- An exchange of the client returns 0 if every call succeeds and -1 in every other case. It closes
-- the descriptor that socket gave it if it returns 0, and keeps it open if it returns -1.
pub exec_client-Leaves : (a : Answers) (fds : List ℤ) → Leaves a fds (exec_client a fds)
unfolding exec_client new_dog connect write read
exec_client-Leaves a fds = ground (arith, succeeds a fds)

-- The calls of one exchange of the server all succeed, on a descriptor other than 0.
abbrev pub Served : Answers → Type 0
Served a = (pos 0 <ℤ a.socket) × (pos 0 <ℤ a.got) × (pos 0 <ℤ a.written)

served : (d : Dog) (a : Answers) (fds : List ℤ) → Served a → (serve d a fds).1 ≡ fds
unfolding serve accept write read
served d a fds (p, q, e) = ground (arith, close-head a.socket fds)

-- The server closes the descriptor of an exchange if accept, read and write succeed. If one of them
-- fails, it keeps open what accept gave it. Its listening socket stays as it was.
pub serve_leaves :
    (d : Dog) (a : Answers) (fds : List ℤ)
    → ((serve d a fds).0.old_socket_id ≡ d.old_socket_id)
      × ((Served a × ((serve d a fds).1 ≡ fds))
          ⊎ ((¬ Served a) × ((serve d a fds).1 ≡ opened a.socket fds)))
unfolding serve accept write read
serve_leaves d a fds = (ground arith, ground (arith, served d a fds))

-- socket gives a descriptor to every exchange.
abbrev pub AllSockets : List Answers → Type 0
AllSockets [] = Unit
AllSockets (a ∷ rest) = (is_negative a.socket ≡ false) × AllSockets rest

-- Over any number of exchanges of the client, one descriptor is left open for every exchange that
-- does not return 0, if socket gives a descriptor to each.
pub exec_clients-length :
    (exchanges : List Answers) (fds : List ℤ)
    → AllSockets exchanges
    → length (exec_clients exchanges fds).0 + (exec_clients exchanges fds).1
      ≡ length fds + length exchanges
unfolding exec_clients
exec_clients-length [] fds h = refl
exec_clients-length (a ∷ rest) fds (s, h) = elim (exec_client-Leaves a fds) [
  | inl (ok, e) ↦ rw e (ground (arith, exec_clients-length rest fds h))
  | inr (bad, e) ↦ rw (e, s) (ground (arith, exec_clients-length rest (a.socket ∷ fds) h))
]
