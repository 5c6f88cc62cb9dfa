-- ===== src/Poll/Passes.antt =====
-- poll_chat_server.cpp: what a pass over the clients makes of the table.
use cpp_study.Base.{
  ℕ, ◌≡◌, refl, ap, ◌∙◌, List, [], ◌∷◌, ◌++◌, Bool, true, false, Option, none, some, if◌then◌else◌,
  length, set,
}
use cpp_study.Poll.{
  Mask, Slot, Server, Received, got, ended, again, broken, Round, drop_user, fill_buf, raised,
  raise_others, to_read, broadcast, write_from, write_out, on_received, serve_client,
}
use cpp_study.Poll.Table.{
  total, fails, leaves, total-raise, raise-append, length-raise, set_at, rotated, drop_user-slots,
}

abbrev pub Weighs : List Slot → List Slot → Type 0
Weighs xs ys = (w : ℕ → Mask → ℕ) → total w xs ≡ total w ys

-- The client at the place stays there, and what the others weigh is the same.
pub record Stays (r : Round) (s : Server) (front rest : List Slot) (c : Slot) (t : Server)
    : Type 0 where
  pub front' : List Slot
  pub rest' : List Slot
  pub c' : Slot
  pub table : t.slots ≡ front' ++ c' ∷ rest'
  pub front_size : length front' ≡ length front
  pub rest_size : length rest' ≡ length rest
  pub front_same : Weighs front' front
  pub c_same : Weighs (c' ∷ []) (c ∷ [])
  pub rest_same : Weighs rest' rest
  pub closed_same : t.closed ≡ s.closed
  pub accepted_same : t.accepted ≡ s.accepted
  pub c_stays : leaves r c.fd c.revents ≡ false

-- The client leaves the table and is closed.
pub record Left (r : Round) (s : Server) (front rest : List Slot) (c : Slot) (t : Server)
    : Type 0 where
  pub table : t.slots ≡ front ++ rotated rest
  pub closed_it : t.closed ≡ c.fd ∷ s.closed
  pub accepted_same : t.accepted ≡ s.accepted
  pub c_leaves : leaves r c.fd c.revents ≡ true

abbrev pub Outcome : Round → Server → List Slot → List Slot → Slot → Bool × Server → Type 0
Outcome r s front rest c (false, t) = Stays r s front rest c t
Outcome r s front rest c (true, t) = Left r s front rest c t

module _ (r : Round) (s : Server) (front rest : List Slot) (c : Slot)
    (e : s.slots ≡ front ++ c ∷ rest) where
  -- Nothing but the users and what was sent has changed.
  same_table :
      (t : Server)
      → t.slots ≡ s.slots
      → t.closed ≡ s.closed
      → t.accepted ≡ s.accepted
      → leaves r c.fd c.revents ≡ false
      → Stays r s front rest c t
  same_table t slots closed accepted l = record {
    front' = front;
    rest' = rest;
    c' = c;
    table = slots ∙ e;
    front_size = refl;
    rest_size = refl;
    front_same = λ w. refl;
    c_same = λ w. refl;
    rest_same = λ w. refl;
    closed_same = closed;
    accepted_same = accepted;
    c_stays = l;
  }

  broadcast-Stays :
      (u : Server) (fd : ℕ)
      → u.slots ≡ s.slots
      → u.closed ≡ s.closed
      → u.accepted ≡ s.accepted
      → leaves r c.fd c.revents ≡ false
      → Stays r s front rest c (broadcast u fd)
  unfolding broadcast
  broadcast-Stays u fd slots closed accepted l = record {
    front' = raise_others fd front;
    rest' = raise_others fd rest;
    c' = raised fd c;
    table = ap (raise_others fd) (slots ∙ e) ∙ raise-append fd front (c ∷ rest);
    front_size = length-raise fd front;
    rest_size = length-raise fd rest;
    front_same = λ w. total-raise w fd front;
    c_same = λ w. total-raise w fd (c ∷ []);
    rest_same = λ w. total-raise w fd rest;
    closed_same = closed;
    accepted_same = accepted;
    c_stays = l;
  }

  write_from-Stays :
      (to : Option ℕ)
      → leaves r c.fd c.revents ≡ false
      → Stays r s front rest c (write_from to s (length front) c)
  write_from-Stays none l = same_table s refl refl refl l
  write_from-Stays (some from) l = record {
    front' = front;
    rest' = rest;
    c' = record c { events = to_read c.events };
    table =
        ap (λ cs. set cs (length front) (record c { events = to_read c.events })) e
        ∙ set_at front rest c (record c { events = to_read c.events });
    front_size = refl;
    rest_size = refl;
    front_same = λ w. refl;
    c_same = λ w. refl;
    rest_same = λ w. refl;
    closed_same = refl;
    accepted_same = refl;
    c_stays = l;
  }

  drop_user-Left :
      (u : Server)
      → u.slots ≡ s.slots
      → u.closed ≡ s.closed
      → u.accepted ≡ s.accepted
      → leaves r c.fd c.revents ≡ true
      → Left r s front rest c (drop_user u (length front) c)
  unfolding drop_user
  drop_user-Left u slots closed accepted l = record {
    table = drop_user-slots u front rest c (slots ∙ e);
    closed_it = ap (◌∷◌ c.fd) closed;
    accepted_same = accepted;
    c_leaves = l;
  }

  on_received-Outcome :
      (a : Received)
      → leaves r c.fd c.revents ≡ fails a
      → Outcome r s front rest c (on_received a s (length front) c)
  unfolding on_received fill_buf
  on_received-Outcome (got bytes) l = broadcast-Stays (fill_buf s c.fd bytes) c.fd refl refl refl l
  on_received-Outcome ended l = same_table (fill_buf s c.fd []) refl refl refl l
  on_received-Outcome again l = same_table (fill_buf s c.fd []) refl refl refl l
  on_received-Outcome broken l = drop_user-Left (fill_buf s c.fd []) refl refl refl l

  -- By the bits of revents.
  client_by :
      (err rdhup inside out : Bool)
      → leaves r c.fd c.revents ≡ (
          if err
          then false
          else if rdhup
          then true
          else if inside
          then fails (r.received c.fd)
          else false)
      → Outcome r s front rest c (
          if err
          then (false, s)
          else if rdhup
          then (true, drop_user s (length front) c)
          else if inside
          then on_received (r.received c.fd) s (length front) c
          else if out
          then (false, write_out s (length front) c)
          else (false, s))
  unfolding write_out
  client_by true rdhup inside out l = same_table s refl refl refl l
  client_by false true inside out l = drop_user-Left s refl refl refl l
  client_by false false true out l = on_received-Outcome (r.received c.fd) l
  client_by false false false true l = write_from-Stays (s.users c.fd).write_buf l
  client_by false false false false l = same_table s refl refl refl l

  pub serve_client-Outcome : Outcome r s front rest c (serve_client r s (length front) c)
  unfolding serve_client
  serve_client-Outcome = let m = c.revents in client_by m.m_err m.m_rdhup m.m_in m.m_out refl
