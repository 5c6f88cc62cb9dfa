-- ===== src/Base/Array.antt =====
-- C arrays as lists: checked reads and writes, and the laws of a write and of a swap.
use Prim.Native.Nat.{ℕ, zero, suc, ◌≤◌, ◌<◌}
use mathlib.Core.Path.{◌≡◌, refl, ap}
use mathlib.Core.List.{List, [], ◌∷◌, ◌++◌, Perm}
use mathlib.Core.List.Perm
use mathlib.Core.Option.{Option, none, some}
use native.Mathlib.Omega.{arith}
use cpp_study.Base.Tests.{◌==◌, ltb, if◌then◌else◌}
use cpp_study.Base.Lists.{length, get_elem?, get_or, set, take, length-set}
use cpp_study.Base.Exec.{Exec, done, fault, ◌>>=◌}

module _ {ℓ} {A : Type ℓ} where
  abbrev pub of_option : Option A → Exec A
  of_option none = fault
  of_option (some x) = done x

  -- `a[i]` as a value
  unfoldable pub load : List A → ℕ → Exec A
  load a i = of_option (get_elem? a i)

  -- `a[i] = v`
  unfoldable pub store : List A → ℕ → A → Exec (List A)
  store a i v = if ltb i (length a) then done (set a i v) else fault

  -- `temp = a[i]; a[i] = a[j]; a[j] = temp;`
  unfoldable pub swap_cells : List A → ℕ → ℕ → Exec (List A)
  unfolding load store
  swap_cells a i j = do temp ← load a i; y ← load a j; b ← store a i y; store b j temp

  get_elem?-get_or :
      (a : List A) (i : ℕ) (d : A) → i < length a → get_elem? a i ≡ some (get_or a i d)
  get_elem?-get_or [] i d h = absurd (omega arith)
  get_elem?-get_or (x ∷ a) zero d h = refl
  get_elem?-get_or (x ∷ a) (suc i) d h = get_elem?-get_or a i d (omega arith)

  pub load-done : (a : List A) (i : ℕ) (d : A) → i < length a → load a i ≡ done (get_or a i d)
  unfolding load
  load-done a i d h = rw (get_elem?-get_or a i d h)

  pub store-done : (a : List A) (i : ℕ) (v : A) → i < length a → store a i v ≡ done (set a i v)
  unfolding store
  store-done a i v h = ground arith

  pub get_or-set :
      (a : List A) (i j : ℕ) (v d : A)
      → i < length a
      → get_or (set a i v) j d ≡ (if i == j then v else get_or a j d)
  get_or-set [] i j v d h = absurd (omega arith)
  get_or-set (x ∷ a) zero zero v d h = refl
  get_or-set (x ∷ a) (suc i) (suc j) v d h = ground (arith, get_or-set a i j v d)
  get_or-set (x ∷ a) i j v d h = ground arith

  -- A write trades the old entry for the new one.
  pub set-perm :
      (a : List A) (i : ℕ) (v d : A) → i < length a → Perm (get_or a i d ∷ set a i v) (v ∷ a)
  set-perm [] i v d h = absurd (omega arith)
  set-perm (x ∷ a) zero v d h = Perm.swap v x a
  set-perm (x ∷ a) (suc i) v d h =
      let rest = Perm.cons x (set-perm a i v d (omega arith)) in
      Perm.trans (Perm.swap x _ _) (Perm.trans rest (Perm.swap v x a))

  -- The swap without its checks.
  unfoldable pub swap : List A → ℕ → ℕ → A → List A
  swap a i j d = set (set a i (get_or a j d)) j (get_or a i d)

  pub length-swap : (a : List A) (i j : ℕ) (d : A) → length (swap a i j d) ≡ length a
  unfolding swap
  length-swap a i j d = simp length-set

  module _ (a : List A) (i j : ℕ) (d : A) (hi : i < length a) (hj : j < length a) where
    pub swap_cells-done : swap_cells a i j ≡ done (swap a i j d)
    unfolding swap_cells swap
    swap_cells-done = rw (
      load-done a i d hi,
      load-done a j d hj,
      store-done a i (get_or a j d) hi,
      store-done (set a i (get_or a j d)) j (get_or a i d) (rw length-set hj),
    )

    pub get_or-swap :
        (c : ℕ)
        → get_or (swap a i j d) c d
          ≡ (if j == c then get_or a i d else if i == c then get_or a j d else get_or a c d)
    unfolding swap
    get_or-swap c = rw (
      get_or-set (set a i (get_or a j d)) j c (get_or a i d) d (rw length-set hj),
      get_or-set a i c (get_or a j d) d hi,
    )

    pub swap-perm : Perm (swap a i j d) a
    unfolding swap
    swap-perm =
        let b = set a i (get_or a j d) in
        let kept : get_or b j d ≡ get_or a j d =
          ground (arith, get_or-set a i j (get_or a j d) d) in
        let second = rw kept at (set-perm b j (get_or a i d) d (rw length-set hj)) in
        Perm.cons_inv (Perm.trans second (set-perm a i (get_or a j d) d hi))

module _ {ℓ} {A : Type ℓ} where
  pub take-set : (n : ℕ) (a : List A) (i : ℕ) (v : A) → take n (set a i v) ≡ set (take n a) i v
  take-set zero a i v = refl
  take-set (suc n) [] i v = refl
  take-set (suc n) (x ∷ a) zero v = refl
  take-set (suc n) (x ∷ a) (suc i) v = ap (◌∷◌ x) (take-set n a i v)

  pub get_or-take :
      (n : ℕ) (a : List A) (i : ℕ) (d : A) → i < n → get_or (take n a) i d ≡ get_or a i d
  get_or-take zero a i d h = absurd (omega arith)
  get_or-take (suc n) [] i d h = refl
  get_or-take (suc n) (x ∷ a) zero d h = refl
  get_or-take (suc n) (x ∷ a) (suc i) d h = get_or-take n a i d (omega arith)

  -- A swap below `n` is a swap of the first `n` cells.
  pub take-swap :
      (n : ℕ) (a : List A) (i j : ℕ) (d : A)
      → i < n
      → j < n
      → take n (swap a i j d) ≡ swap (take n a) i j d
  unfolding swap
  take-swap n a i j d hi hj = simp (take-set, get_or-take n a i d hi, get_or-take n a j d hj)

  pub take-suc :
      (n : ℕ) (a : List A) (d : A) → n < length a → take (suc n) a ≡ take n a ++ get_or a n d ∷ []
  take-suc n [] d h = absurd (omega arith)
  take-suc zero (x ∷ a) d h = refl
  take-suc (suc n) (x ∷ a) d h = ap (◌∷◌ x) (take-suc n a d (omega arith))

  pub get_or-append_left :
      (a b : List A) (i : ℕ) (d : A) → i < length a → get_or (a ++ b) i d ≡ get_or a i d
  get_or-append_left [] b i d h = absurd (omega arith)
  get_or-append_left (x ∷ a) b zero d h = refl
  get_or-append_left (x ∷ a) b (suc i) d h = get_or-append_left a b i d (omega arith)

  pub take-append_left : (n : ℕ) (a b : List A) → n ≤ length a → take n (a ++ b) ≡ take n a
  take-append_left zero a b h = refl
  take-append_left (suc n) [] b h = absurd (omega arith)
  take-append_left (suc n) (x ∷ a) b h = ap (◌∷◌ x) (take-append_left n a b (omega arith))

  -- A write behind the first `n` cells leaves them as they are.
  pub take-set_beyond : (n : ℕ) (a : List A) (i : ℕ) (v : A) → n ≤ i → take n (set a i v) ≡ take n a
  take-set_beyond zero a i v h = refl
  take-set_beyond (suc n) [] i v h = refl
  take-set_beyond (suc n) (x ∷ a) zero v h = absurd (omega arith)
  take-set_beyond (suc n) (x ∷ a) (suc i) v h = ap (◌∷◌ x) (take-set_beyond n a i v (omega arith))
