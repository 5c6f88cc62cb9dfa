-- ===== src/Reverse/Chain.antt =====
-- reverse_list.cpp: the nodes that construct links.
use mathlib.Core.Path.{subst}
use cpp_study.Base.{
  ℕ, zero, suc, ◌+◌, ◌<◌, ◌≤◌, ◌≡◌, ◌≢◌, ◌⊎◌, inl, inr, refl, sym, ap, ◌∙◌, [], ◌∷◌, ◌++◌, Bool,
  true, false, none, some, arith, ◌==◌, if◌then◌else◌,
}
use cpp_study.Base.Exec.{done}
use cpp_study.Reverse.{with_next, Leads, Without, Distinct, Leads-with_next, Leads-append}
use cpp_study.Reverse.Build.{Memory, with_value, new_node, construct_loop, addresses}

-- The addresses that `new` gives are all different, and none of them holds a node before.
pub record IsFresh (address : ℕ → ℕ) (m : Memory) : Type 0 where
  pub apart : (i j : ℕ) → i < j → address i ≢ address j
  pub unused : (i : ℕ) → m.live (address i) ≡ false

-- The memory of `k + 1` nodes that construct has built.
pub record Built (address : ℕ → ℕ) (before m : Memory) (k : ℕ) : Type 0 where
  pub chain : Leads m.next (some (address 0)) (addresses address 0 k) (some (address k))
  pub last_next : m.next (address k) ≡ none
  pub values : (j : ℕ) → j ≤ k → m.node_data (address j) ≡ j
  pub alive : (j : ℕ) → j ≤ k → m.live (address j) ≡ true
  pub origin :
      (a : ℕ) → m.live a ≡ true → (before.live a ≡ true) ⊎ ((j : ℕ) × (j ≤ k) × (address j ≡ a))

pub same_cell : (a : ℕ) → (a == a) ≡ true
same_cell a = ground arith

other_cell : (a b : ℕ) → a ≢ b → (a == b) ≡ false
other_cell a b n = ground (arith, n)

up_to : (j k : ℕ) → j ≤ suc k → (j ≡ suc k) ⊎ (j ≤ k)
up_to j k h = ground arith

module _ (address : ℕ → ℕ) where
  addresses-last :
      (i n : ℕ) → addresses address i n ++ address (i + n) ∷ [] ≡ addresses address i (suc n)
  addresses-last i zero = ap (λ k. address k ∷ []) (omega arith)
  addresses-last i (suc n) =
      let shift : address (i + suc n) ≡ address (suc i + n) = ap address (omega arith) in
      ap (◌∷◌ (address i))
        (ap (λ a. addresses address (suc i) n ++ a ∷ []) shift ∙ addresses-last (suc i) n)

  pub addresses-snoc :
      (n : ℕ) → addresses address 0 n ++ address n ∷ [] ≡ addresses address 0 (suc n)
  addresses-snoc n =
      ap (λ k. addresses address 0 n ++ address k ∷ []) (omega arith) ∙ addresses-last 0 n

  module _ (apart : (i j : ℕ) → i < j → address i ≢ address j) where
    Without-below : (k i n : ℕ) → i + n ≤ k → Without (address k) (addresses address i n)
    Without-below k i zero h = tt
    Without-below k i (suc n) h =
        ((λ e. apart i k (omega arith) (sym e)), Without-below k (suc i) n (omega arith))

    Without-above : (k i n : ℕ) → k < i → Without (address k) (addresses address i n)
    Without-above k i zero h = tt
    Without-above k i (suc n) h = (apart k i h, Without-above k (suc i) n (omega arith))

    pub addresses-Distinct : (i n : ℕ) → Distinct (addresses address i n)
    addresses-Distinct i zero = tt
    addresses-Distinct i (suc n) =
        (Without-above i (suc i) n (omega arith), addresses-Distinct (suc i) n)

  -- One turn of the loop of construct.
  abbrev turned : Memory → ℕ → Memory
  turned m k =
      let made = new_node m (address (suc k)) (suc k) in
      record made { next = with_next made.next (address k) (some (address (suc k))) }

  module _ (before m : Memory) (k : ℕ) (fresh : IsFresh address before)
      (b : Built address before m k) where
    turned-Built : Built address before (turned m k) (suc k)
    unfolding new_node
    turned-Built =
        let x = address k in
        let y = address (suc k) in
        let front = addresses address 0 k in
        let n : x ≢ y = fresh.apart k (suc k) (omega arith) in
        let next1 = with_next m.next y none in
        let next2 = with_next next1 x (some y) in
        let on1 =
          Leads-with_next m.next y none (some (address 0)) front (some x)
            (Without-below fresh.apart (suc k) 0 k (omega arith)) b.chain in
        let on2 =
          Leads-with_next next1 x (some y) (some (address 0)) front (some x)
            (Without-below fresh.apart k 0 k (omega arith)) on1 in
        let link : next2 x ≡ some y = rw (same_cell x) refl in
        record {
          chain =
              subst (λ xs. Leads next2 (some (address 0)) xs (some y)) (addresses-snoc k)
                (Leads-append next2 (some (address 0)) front x [] (some y) on2 link);
          last_next = rw (other_cell x y n, same_cell y) refl;
          values = λ j h. elim (up_to j k h) [
            | inl e ↦
                subst (λ j. with_value m.node_data y (suc k) (address j) ≡ j) (sym e)
                  (rw (same_cell y) refl)
            | inr l ↦ rw (apart_cell j l) (b.values j l)
          ];
          alive = λ j h. elim (up_to j k h) [
            | inl e ↦
                subst (λ j. with_value m.live y true (address j) ≡ true) (sym e)
                  (rw (same_cell y) refl)
            | inr l ↦ rw (apart_cell j l) (b.alive j l)
          ];
          origin = λ a h. from_old a (y == a) refl h;
        }
      where
        apart_cell : (j : ℕ) → j ≤ k → (address (suc k) == address j) ≡ false
        apart_cell j l =
            other_cell (address (suc k)) (address j)
              (λ e. fresh.apart j (suc k) (omega (arith, l)) (sym e))

        from_old :
            (a : ℕ) (c : Bool)
            → (address (suc k) == a) ≡ c
            → (if c then true else m.live a) ≡ true
            → (before.live a ≡ true) ⊎ ((j : ℕ) × (j ≤ suc k) × (address j ≡ a))
        from_old a true e h = inr (suc k, omega arith, ground (arith, e))
        from_old a false e h = elim (b.origin a h) [
          | inl old ↦ inl old
          | inr (j, l, f) ↦ inr (j, omega (arith, l), f)
        ]

  -- The memory once `n` more nodes are linked behind the last one.
  abbrev pub chained : ℕ → ℕ → Memory → Memory
  chained zero k m = m
  chained (suc n) k m = chained n (suc k) (turned m k)

  still_live :
      (before m : Memory) (k : ℕ)
      → Built address before m k
      → with_value m.live (address (suc k)) true (address k) ≡ true
  still_live before m k b = ground (arith, b.alive k (omega arith))

  pub loop-Built :
      (n k : ℕ) (before m : Memory)
      → IsFresh address before
      → Built address before m k
      → Built address before (chained n k m) (k + n)
  loop-Built zero k before m fresh b = subst (λ j. Built address before m j) (omega arith) b
  loop-Built (suc n) k before m fresh b =
      subst (λ j. Built address before (chained (suc n) k m) j) (omega arith)
        (loop-Built n (suc k) before (turned m k) fresh (turned-Built before m k fresh b))

  -- The loop links each new node to one that is live, and so ends.
  pub loop-done :
      (n k : ℕ) (before m : Memory)
      → IsFresh address before
      → Built address before m k
      → construct_loop address n (suc k) m (address k) ≡ done (chained n k m)
  unfolding construct_loop new_node
  loop-done zero k before m fresh b = refl
  loop-done (suc n) k before m fresh b =
      rw (construct_loop, still_live before m k b)
        (loop-done n (suc k) before (turned m k) fresh (turned-Built before m k fresh b))
