-- ===== src/Slots.antt =====
-- wzq_study/mysocket.cpp and mysocket.h: a class for sockets, a server on select that holds its
-- clients in an array of five places, and a client.
--
-- What a system call returns is an argument. Descriptors stay below FD_SETSIZE, and a server or a
-- client that runs on is followed for as many rounds as are given.
pub mod Cells
pub mod Passes
pub mod Rounds
pub mod Start
use cpp_study.Base.{
  ℕ, zero, suc, ◌+◌, List, [], ◌∷◌, ◌++◌, Bool, true, false, not, ◌&&◌, ◌||◌, ◌==◌, if◌then◌else◌,
  replicate,
}
use cpp_study.Base.Int.{ℤ, pos, negsuc, ltb_ℤ, leb_ℤ, eqb_ℤ}
use cpp_study.Base.Exec.{Exec, done, ◌>>=◌}
use cpp_study.Base.Array.{load, store}
use cpp_study.Base.Chars.{codes}
use cpp_study.Ini.{Text}

abbrev pub connect_num : ℕ
connect_num = 5

-- m_iSocketId and m_iOldSocketId
pub record MySocket : Type 0 where
  pub socket_id : ℤ
  pub old_socket_id : ℤ

abbrev pub new_socket : MySocket
new_socket = record { socket_id = negsuc 0; old_socket_id = negsuc 0 }

-- What socket, bind, listen and connect answer.
pub record Opening : Type 0 where
  pub made : ℤ
  pub bound : ℤ
  pub listening : ℤ
  pub connected : ℤ

unfoldable pub listen : MySocket → Opening → ℤ × MySocket
listen s a =
    if ltb_ℤ a.made (pos 0)
    then (negsuc 0, s)
    else if ltb_ℤ a.bound (pos 0)
    then (negsuc 0, s)
    else if ltb_ℤ a.listening (pos 0)
    then (negsuc 0, s)
    else (a.made, record s { old_socket_id = a.made })

unfoldable pub accept : MySocket → ℤ → ℤ × MySocket
accept s answer =
    if ltb_ℤ answer (pos 0) then (negsuc 0, s) else (answer, record s { socket_id = answer })

unfoldable pub connect : MySocket → Opening → ℤ × MySocket
connect s a =
    if ltb_ℤ a.made (pos 0)
    then (negsuc 0, s)
    else if not (eqb_ℤ a.connected (pos 0))
    then (negsuc 0, s)
    else (a.made, record s { socket_id = a.made })

-- Write and Read on a descriptor, `answer` being what the system call returns; on the object they
-- take its own.
unfoldable pub write_to : ℤ → ℤ → ℤ
write_to fd answer = if leb_ℤ fd (pos 0) then negsuc 0 else answer

unfoldable pub read_from : ℤ → ℤ → ℤ
read_from fd answer = if leb_ℤ fd (pos 0) then negsuc 0 else answer

unfoldable pub write : MySocket → ℤ → ℤ
unfolding write_to
write s answer = write_to s.socket_id answer

unfoldable pub read : MySocket → ℤ → ℤ
unfolding read_from
read s answer = read_from s.socket_id answer

-- The locals of AsServer, the descriptors that accept gave and those that were closed, and what was
-- sent, the newest first.
pub record Server : Type 0 where
  pub object : MySocket
  pub listener : ℤ
  pub client_ids : List ℤ
  pub accepted : List ℤ
  pub closed : List ℤ
  pub sent : List (ℤ × Text)

-- A round: which descriptors select leaves in the set, and what accept, read and write answer.
pub record Round : Type 0 where
  pub ready : ℤ → Bool
  pub connection : ℤ
  pub got : ℤ → ℤ
  pub written : ℤ → ℤ

-- The loop with FD_SET, from the place `i` on.
abbrev pub watch_loop : ℕ → ℕ → List ℤ → List ℤ → Exec (List ℤ)
watch_loop zero i ids watched = done watched
watch_loop (suc n) i ids watched = do
  fd ← load ids i
  watch_loop n (suc i) ids (if ltb_ℤ (pos 0) fd then fd ∷ watched else watched)

abbrev pub among : ℤ → List ℤ → Bool
among fd [] = false
among fd (x ∷ fds) = let rest = among fd fds in eqb_ℤ x fd || rest

-- `FD_ISSET(fd, &rfds)`: select leaves descriptors in the set that were put into it.
abbrev pub is_set : Round → List ℤ → ℤ → Bool
is_set r watched fd = r.ready fd && among fd watched

-- `for (i = 0; i < CONNECT_NUM; i++) if (iClientId[i] <= 0)`: where the search stops.
unfoldable pub free_place : ℕ → ℕ → List ℤ → Exec ℕ
free_place zero i ids = done i
free_place (suc n) i ids = do
  fd ← load ids i
  let rest = free_place n (suc i) ids
  if leb_ℤ fd (pos 0) then done i else rest

-- The new client takes the place, or it is closed where there is none.
unfoldable pub take_place : Server → ℤ → ℕ → Exec Server
take_place s fd i =
    let stored : Exec Server = do
      ids ← store s.client_ids i fd
      done (record s { client_ids = ids })
    in if i == connect_num then done (record s { closed = fd ∷ s.closed }) else stored

-- "I AM OK !" and "ARE YOU OK ?"
abbrev pub answer_text : Text
answer_text = codes "I AM OK !"

abbrev pub question_text : Text
question_text = codes "ARE YOU OK ?"

-- A client that can be read, once read has answered.
unfoldable pub answer_client : Round → Server → ℕ → ℤ → Exec Server
unfolding read_from write_to
answer_client r s i fd =
    let dropped : Exec Server = do
      ids ← store s.client_ids i (negsuc 0)
      done (record s { client_ids = ids; closed = fd ∷ s.closed })
    in if leb_ℤ (read_from fd (r.got fd)) (pos 0)
      then dropped
      else if leb_ℤ (write_to fd (r.written fd)) (pos 0)
      then done s
      else done (record s { sent = (fd, answer_text) ∷ s.sent })

-- The body of the loop over the clients.
unfoldable pub serve_place : Round → List ℤ → Server → ℕ → Exec Server
unfolding answer_client
serve_place r watched s i = do
  fd ← load s.client_ids i
  if ltb_ℤ (pos 0) fd && is_set r watched fd then answer_client r s i fd else done s

unfoldable pub serve_places : ℕ → ℕ → Round → List ℤ → Server → Exec Server
unfolding serve_place
serve_places zero i r watched s = done s
serve_places (suc n) i r watched s = do
  t ← serve_place r watched s i
  serve_places n (suc i) r watched t

-- The branch for the listener and what follows it: where accept fails, the clients have to wait.
unfoldable pub enter : Round → List ℤ → Server → Exec Server
unfolding accept free_place take_place serve_places
enter r watched s =
    let (fd, object) = accept s.object r.connection in
    let t : Server = record s { object = object } in
    let entered : Exec Server = do
      i ← free_place connect_num 0 t.client_ids
      u ← take_place (record t { accepted = fd ∷ t.accepted }) fd i
      serve_places connect_num 0 r watched u
    in if leb_ℤ fd (pos 0) then done t else entered

-- One pass of `while (1)`.
unfoldable pub serve_round : Round → Server → Exec Server
unfolding enter serve_places
serve_round r s = do
  watched ← watch_loop connect_num 0 s.client_ids (s.listener ∷ [])
  if is_set r watched s.listener then enter r watched s else serve_places connect_num 0 r watched s

unfoldable pub serve_rounds : List Round → Server → Exec Server
unfolding serve_round
serve_rounds [] s = done s
serve_rounds (r ∷ rs) s = do t ← serve_round r s; serve_rounds rs t

-- What a run comes to: it goes on, or the function has returned its number.
pub data Result {ℓ} (A : Type ℓ) : Type ℓ where
  running : A → Result A
  returned : ℤ → Result A

unfoldable pub as_server : Opening → List Round → Exec (Result Server)
unfolding listen serve_rounds
as_server a rounds =
    let (fd, object) = listen new_socket a in
    let s : Server = record {
      object = object;
      listener = fd;
      client_ids = replicate connect_num (pos 0);
      accepted = [];
      closed = [];
      sent = [];
    } in
    let run : Exec (Result Server) = do t ← serve_rounds rounds s; done (running t)
    in if leb_ℤ fd (pos 0) then done (returned (negsuc 0)) else run

-- What write and read answer in a pass of the client: the questions that were sent.
abbrev pub client_loop : List (ℤ × ℤ) → MySocket → ℕ → Result ℕ
client_loop [] s n = running n
client_loop ((written, got) ∷ passes) s n =
    let rest = client_loop passes s (suc n) in
    if leb_ℤ (write s written) (pos 0)
    then returned (negsuc 0)
    else if leb_ℤ (read s got) (pos 0)
    then returned (negsuc 0)
    else rest

unfoldable pub as_client : Opening → List (ℤ × ℤ) → Result ℕ
unfolding connect write read
as_client a passes =
    let (fd, object) = connect new_socket a in
    let run = client_loop passes object 0 in if leb_ℤ fd (pos 0) then returned (negsuc 0) else run

-- test_socket: which of the two its argument starts; `none` where it prints its usage.
pub data Role : Type 0 where
  usage : Role
  serves : Role
  asks : Role

abbrev pub role_of : Text → Role
role_of [] = usage
role_of (c ∷ t) = if c == b'c' then asks else if c == b's' then serves else usage

unfoldable pub test_socket : List Text → Role
test_socket [] = usage
test_socket (program ∷ []) = usage
test_socket (program ∷ a ∷ []) = role_of a
test_socket (program ∷ a ∷ b ∷ rest) = usage
