-- ===== src/Slots/Cells.antt =====
-- mysocket.cpp: the loops over the array of the clients, and how often a descriptor stands in it.
use mathlib.Core.List.{append_assoc}
use mathlib.Core.Path.{subst}
use cpp_study.Base.{
  ℕ, suc, ◌+◌, ◌≡◌, refl, ap, ◌∙◌, List, [], ◌∷◌, ◌++◌, Bool, true, false, arith, ◌==◌,
  if◌then◌else◌, length, length-append, one_if, get_elem?, set, ltb,
}
use cpp_study.Base.Int.{ℤ, pos, ltb_ℤ, leb_ℤ, eqb_ℤ}
use cpp_study.Base.Exec.{Exec, done, ◌>>=◌}
use cpp_study.Base.Array.{load, store, of_option}
use cpp_study.Slots.{connect_num, Server, watch_loop, free_place, take_place}

abbrev pub times : ℤ → List ℤ → ℕ
times d [] = 0
times d (x ∷ xs) = one_if (eqb_ℤ x d) + times d xs

pub times-append : (d : ℤ) (xs ys : List ℤ) → times d (xs ++ ys) ≡ times d xs + times d ys
times-append d [] ys = omega arith
times-append d (x ∷ xs) ys = omega (arith, times-append d xs ys)

get_elem?-middle {ℓ} :
    {A : Type ℓ} (front : List A) (x : A) (rest : List A)
    → of_option (get_elem? (front ++ x ∷ rest) (length front)) ≡ done x
get_elem?-middle [] x rest = refl
get_elem?-middle (y ∷ front) x rest = get_elem?-middle front x rest

-- A read and a write of the cell behind `front`.
pub load-middle {ℓ} :
    {A : Type ℓ} (front : List A) (x : A) (rest : List A)
    → load (front ++ x ∷ rest) (length front) ≡ done x
unfolding load
load-middle front x rest = get_elem?-middle front x rest

set-middle {ℓ} :
    {A : Type ℓ} (front : List A) (x v : A) (rest : List A)
    → set (front ++ x ∷ rest) (length front) v ≡ front ++ v ∷ rest
set-middle [] x v rest = refl
set-middle (y ∷ front) x v rest = ap (◌∷◌ y) (set-middle front x v rest)

pub store-middle {ℓ} :
    {A : Type ℓ} (front : List A) (x v : A) (rest : List A)
    → store (front ++ x ∷ rest) (length front) v ≡ done (front ++ v ∷ rest)
unfolding store
store-middle front x v rest =
    let size : length (front ++ x ∷ rest) ≡ length front + suc (length rest) =
      length-append front (x ∷ rest) in
    let inside : ltb (length front) (length (front ++ x ∷ rest)) ≡ true = ground (arith, size) in
    rw (store, inside, set-middle front x v rest) refl

-- The descriptors of the clients, and those before them.
abbrev pub watch_all : List ℤ → List ℤ → List ℤ
watch_all [] w = w
watch_all (fd ∷ fds) w = watch_all fds (if ltb_ℤ (pos 0) fd then fd ∷ w else w)

pub longer : (front : List ℤ) (x : ℤ) → length (front ++ x ∷ []) ≡ suc (length front)
longer front x = omega (arith, length-append front (x ∷ []))

-- A loop at the place behind `front` is one at the place behind `front` and the next cell.
pub along {ℓ} :
    (P : ℕ → List ℤ → Type ℓ) (front : List ℤ) (x : ℤ) (rest : List ℤ)
    → P (length (front ++ x ∷ [])) ((front ++ x ∷ []) ++ rest)
    → P (suc (length front)) (front ++ x ∷ rest)
along P front x rest p =
    subst (λ i. P i (front ++ x ∷ rest)) (longer front x)
      (subst (P (length (front ++ x ∷ []))) (append_assoc front (x ∷ []) rest) p)

pub watch_loop-all :
    (front rest w : List ℤ)
    → watch_loop (length rest) (length front) (front ++ rest) w ≡ done (watch_all rest w)
watch_loop-all front [] w = refl
watch_loop-all front (x ∷ rest) w =
    rw (watch_loop, load-middle front x rest)
      (along
        (λ i ids.
          watch_loop (length rest) i ids (if ltb_ℤ (pos 0) x then x ∷ w else w)
          ≡ done (watch_all rest (if ltb_ℤ (pos 0) x then x ∷ w else w)))
        front x rest (watch_loop-all (front ++ x ∷ []) rest (if ltb_ℤ (pos 0) x then x ∷ w else w)))

-- The array with a client in the first free place, if there is one.
abbrev pub placed : ℤ → List ℤ → List ℤ
placed fd [] = []
placed fd (x ∷ xs) = let rest = placed fd xs in if leb_ℤ x (pos 0) then fd ∷ xs else x ∷ rest

abbrev pub is_full : List ℤ → Bool
is_full [] = true
is_full (x ∷ xs) = let rest = is_full xs in if leb_ℤ x (pos 0) then false else rest

-- The server that has the client in its array or has closed it.
abbrev pub with_client : Server → ℤ → List ℤ → List ℤ → Server
with_client s fd front rest = record s {
  client_ids = front ++ placed fd rest;
  closed = if is_full rest then fd ∷ s.closed else s.closed;
}

abbrev pub search : Server → ℤ → ℕ → ℕ → List ℤ → Exec Server
search s fd n i ids = do j ← free_place n i ids; take_place (record s { client_ids = ids }) fd j

free_here :
    (s : Server) (fd : ℤ) (front : List ℤ) (x : ℤ) (rest : List ℤ)
    → (length front == connect_num) ≡ false
    → take_place (record s { client_ids = front ++ x ∷ rest }) fd (length front)
      ≡ done (record s { client_ids = front ++ fd ∷ rest })
unfolding take_place
free_here s fd front x rest n = rw (take_place, n, store-middle front x fd rest) refl

no_place :
    (s : Server) (fd : ℤ) (front : List ℤ)
    → (length front == connect_num) ≡ true
    → take_place (record s { client_ids = front ++ [] }) fd (length front)
      ≡ done (with_client s fd front [])
unfolding take_place
no_place s fd front n = rw (take_place, n) refl

search_from :
    (s : Server) (fd : ℤ) (front : List ℤ) (x : ℤ) (rest : List ℤ) (b : Bool)
    → leb_ℤ x (pos 0) ≡ b
    → (length front == connect_num) ≡ false
    → search s fd (length rest) (length (front ++ x ∷ [])) ((front ++ x ∷ []) ++ rest)
      ≡ done (with_client s fd (front ++ x ∷ []) rest)
    → search s fd (suc (length rest)) (length front) (front ++ x ∷ rest)
      ≡ done (with_client s fd front (x ∷ rest))
unfolding free_place
search_from s fd front x rest true h n next =
    rw (load-middle front x rest, h) (free_here s fd front x rest n)
search_from s fd front x rest false h n next =
    let closed : List ℤ = if is_full rest then fd ∷ s.closed else s.closed in
    let back =
      ap (λ ids. done (record s { client_ids = ids; closed = closed }))
        (append_assoc front (x ∷ []) (placed fd rest)) in
    rw (load-middle front x rest, h)
      (along
        (λ i ids.
          search s fd (length rest) i ids
          ≡ done (record s { client_ids = front ++ x ∷ placed fd rest; closed = closed }))
        front x rest (next ∙ back))

pub search-placed :
    (s : Server) (fd : ℤ) (front rest : List ℤ)
    → length front + length rest ≡ connect_num
    → search s fd (length rest) (length front) (front ++ rest) ≡ done (with_client s fd front rest)
unfolding free_place
search-placed s fd front [] e = no_place s fd front (ground (arith, e))
search-placed s fd front (x ∷ rest) e =
    search_from s fd front x rest (leb_ℤ x (pos 0)) refl (ground (arith, e))
      (search-placed s fd (front ++ x ∷ []) rest (omega (arith, e, longer front x)))
