-- ===== src/Poll/Table.antt =====
-- poll_chat_server.cpp: sums over the table of the clients, and the place in it that the loop looks at.
use cpp_study.Base.{
  ℕ, suc, ◌+◌, ◌≡◌, refl, ap, List, [], ◌∷◌, ◌++◌, Bool, true, false, none, some, arith, ◌==◌,
  if◌then◌else◌, length, get_elem?, set, one_if,
}
use cpp_study.Poll.{
  Mask, Slot, Server, Received, got, ended, again, broken, Round, last_or, but_last, drop_user,
  raised, raise_others,
}

-- The sum of a weight over the table, by descriptor and revents.
abbrev pub total : (ℕ → Mask → ℕ) → List Slot → ℕ
total w [] = 0
total w (c ∷ cs) = w c.fd c.revents + total w cs

abbrev pub fails : Received → Bool
fails (got bytes) = false
fails ended = false
fails again = false
fails broken = true

-- The client hung up, or recv on it fails. One with POLLERR stays.
abbrev pub leaves : Round → ℕ → Mask → Bool
leaves r fd m =
    if m.m_err
    then false
    else if m.m_rdhup
    then true
    else if m.m_in
    then fails (r.received fd)
    else false

-- 1 for the descriptor `d`; for it if its client stays; for it if its client leaves.
abbrev pub is_it : ℕ → ℕ → Mask → ℕ
is_it d fd m = one_if (fd == d)

abbrev pub it_stays : Round → ℕ → ℕ → Mask → ℕ
it_stays r d fd m = if leaves r fd m then 0 else one_if (fd == d)

abbrev pub it_leaves : Round → ℕ → ℕ → Mask → ℕ
it_leaves r d fd m = if leaves r fd m then one_if (fd == d) else 0

pub total-append :
    (w : ℕ → Mask → ℕ) (xs ys : List Slot) → total w (xs ++ ys) ≡ total w xs + total w ys
total-append w [] ys = omega arith
total-append w (x ∷ xs) ys = omega (arith, total-append w xs ys)

pub total-raise :
    (w : ℕ → Mask → ℕ) (fd : ℕ) (cs : List Slot) → total w (raise_others fd cs) ≡ total w cs
total-raise w fd [] = refl
total-raise w fd (c ∷ cs) = ground (arith, total-raise w fd cs)

pub raise-append :
    (fd : ℕ) (xs ys : List Slot)
    → raise_others fd (xs ++ ys) ≡ raise_others fd xs ++ raise_others fd ys
raise-append fd [] ys = refl
raise-append fd (x ∷ xs) ys = ap (◌∷◌ (raised fd x)) (raise-append fd xs ys)

pub length-raise : (fd : ℕ) (cs : List Slot) → length (raise_others fd cs) ≡ length cs
length-raise fd [] = refl
length-raise fd (c ∷ cs) = ap suc (length-raise fd cs)

-- The table around the place that the loop looks at.
pub get_at :
    (front rest : List Slot) (c : Slot) → get_elem? (front ++ c ∷ rest) (length front) ≡ some c
get_at [] rest c = refl
get_at (x ∷ front) rest c = get_at front rest c

pub get_end : (front : List Slot) → get_elem? (front ++ []) (length front) ≡ none
get_end [] = refl
get_end (x ∷ front) = get_end front

pub set_at :
    (front rest : List Slot) (c v : Slot)
    → set (front ++ c ∷ rest) (length front) v ≡ front ++ v ∷ rest
set_at [] rest c v = refl
set_at (x ∷ front) rest c v = ap (◌∷◌ x) (set_at front rest c v)

pub last_or-append :
    (front rest : List Slot) (c d : Slot) → last_or (front ++ c ∷ rest) d ≡ last_or rest c
last_or-append [] rest c d = refl
last_or-append (x ∷ front) rest c d = last_or-append front rest c x

pub but_last-append :
    (front ys : List Slot) (y : Slot) → but_last (front ++ y ∷ ys) ≡ front ++ but_last (y ∷ ys)
but_last-append [] ys y = refl
but_last-append (x ∷ []) ys y = refl
but_last-append (x ∷ z ∷ front) ys y = ap (◌∷◌ x) (but_last-append (z ∷ front) ys y)

-- The last client in the place of the one that left.
abbrev pub rotated : List Slot → List Slot
rotated [] = []
rotated (x ∷ xs) = last_or xs x ∷ but_last (x ∷ xs)

pub total-rotated : (w : ℕ → Mask → ℕ) (cs : List Slot) → total w (rotated cs) ≡ total w cs
total-rotated w [] = refl
total-rotated w (x ∷ []) = omega arith
total-rotated w (x ∷ y ∷ cs) = omega (arith, total-rotated w (y ∷ cs))

pub length-rotated : (cs : List Slot) → length (rotated cs) ≡ length cs
length-rotated [] = refl
length-rotated (x ∷ []) = omega arith
length-rotated (x ∷ y ∷ cs) = omega (arith, length-rotated (y ∷ cs))

pub drop_user-slots :
    (s : Server) (front rest : List Slot) (c : Slot)
    → s.slots ≡ front ++ c ∷ rest
    → (drop_user s (length front) c).slots ≡ front ++ rotated rest
unfolding drop_user
drop_user-slots s front [] c e =
    rw (e, last_or-append front [] c c, set_at front [] c c, but_last-append front [] c) refl
drop_user-slots s front (x ∷ rest) c e =
    rw
      (
        e,
        last_or-append front (x ∷ rest) c c,
        set_at front (x ∷ rest) c (last_or rest x),
        but_last-append front (x ∷ rest) (last_or rest x),
      )
      refl
