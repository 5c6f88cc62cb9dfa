-- ===== src/Reverse/Build.antt =====
-- reverse_list.cpp: a list that is built node by node, and its release.
--
-- The address of the i-th node that `new` gives is an argument. A node that was released, or that
-- `new` did not give, may not be touched.
use mathlib.Core.Path.{subst}
use cpp_study.Base.{
  ℕ, zero, suc, ◌≤◌, ◌≡◌, refl, sym, List, [], ◌∷◌, Bool, true, false, Option, none, some, arith,
  ◌==◌, if◌then◌else◌, length,
}
use cpp_study.Base.Exec.{Exec, done, fault, timeout, Ends, ends, ◌>>=◌}
use cpp_study.Reverse.{Links, with_next, reverse, Leads, AllLive, Without, Distinct}

-- The fields `next` and `data` of the nodes, and which addresses hold a node.
pub record Memory : Type 0 where
  pub next : Links
  pub node_data : ℕ → ℕ
  pub live : ℕ → Bool

abbrev pub with_value {ℓ} : {A : Type ℓ} → (ℕ → A) → ℕ → A → ℕ → A
with_value f i v j = if i == j then v else f j

-- `new Node(i)` at the address `a`
unfoldable pub new_node : Memory → ℕ → ℕ → Memory
new_node m a i = record {
  next = with_next m.next a none;
  node_data = with_value m.node_data a i;
  live = with_value m.live a true;
}

module _ (address : ℕ → ℕ) where
  -- The loop of construct, `p_list` being the last node.
  unfoldable pub construct_loop : ℕ → ℕ → Memory → ℕ → Exec Memory
  unfolding new_node
  construct_loop zero i m p_list = done m
  construct_loop (suc n) i m p_list =
      let np = address i in
      let made = new_node m np i in
      let rest =
        construct_loop n (suc i) (record made { next = with_next made.next p_list (some np) }) np in
      if made.live p_list then rest else fault

  -- construct: what is in the memory behind it and the node that it returns. Without a node it
  -- returns a pointer that has no value.
  unfoldable pub construct : ℕ → Memory → Exec (Memory × Option ℕ)
  unfolding construct_loop new_node
  construct zero m = fault
  construct (suc n) m =
      let first = address 0 in
      do built ← construct_loop n 1 (new_node m first 0) first; done (built, some first)

-- distory: a node is read before it is released.
unfoldable pub distory : ℕ → Memory → Option ℕ → Exec Memory
distory fuel m none = done m
distory zero m (some p) = timeout
distory (suc fuel) m (some p) =
    let rest = distory fuel (record m { live = with_value m.live p false }) (m.next p) in
    if m.live p then rest else fault

-- display: the data that it shows.
unfoldable pub display : ℕ → Memory → Option ℕ → Exec (List ℕ)
display fuel m none = done []
display zero m (some p) = timeout
display (suc fuel) m (some p) =
    let rest : Exec (List ℕ) = do shown ← display fuel m (m.next p); done (m.node_data p ∷ shown)
    in if m.live p then rest else fault

-- main with any number of nodes: the memory, the first node, and what the two calls of display show.
pub record Run : Type 0 where
  pub memory : Memory
  pub first : Option ℕ
  pub shown_before : List ℕ
  pub shown : List ℕ

unfoldable pub list_main : (ℕ → ℕ) → ℕ → Memory → Exec Run
unfolding construct display reverse
list_main address n m = do
  (built, p) ← construct address n m
  before ← display n built p
  (next, q) ← reverse (suc n) built.live built.next p
  let t : Memory = record built { next = next }
  after ← display n t q
  done (record { memory = t; first = q; shown_before = before; shown = after })

-- The addresses from the i-th on.
abbrev pub addresses : (ℕ → ℕ) → ℕ → ℕ → List ℕ
addresses address i zero = []
addresses address i (suc n) = address i ∷ addresses address (suc i) n

-- An address is not live behind the release of the nodes `xs` where it was one of them, and as it
-- was before where it was none.
abbrev pub without_all : List ℕ → (ℕ → Bool) → ℕ → Bool
without_all [] live = live
without_all (x ∷ xs) live = without_all xs (with_value live x false)

AllLive-release :
    (live : ℕ → Bool) (p : ℕ) (xs : List ℕ)
    → Without p xs
    → AllLive live xs
    → AllLive (with_value live p false) xs
AllLive-release live p [] w a = tt
AllLive-release live p (x ∷ xs) (n, w) (l, a) =
    let other : (p == x) ≡ false = ground (arith, n) in (rw other l, AllLive-release live p xs w a)

-- distory, on a list of live nodes that are all different, on as much fuel as it has nodes: it
-- releases each of them once and touches no node that is released.
pub distory-release :
    (fuel : ℕ) (m : Memory) (h : Option ℕ) (xs : List ℕ)
    → length xs ≤ fuel
    → Distinct xs
    → AllLive m.live xs
    → Leads m.next h xs none
    → Ends (λ t. t.live ≡ without_all xs m.live) (distory fuel m h)
unfolding distory
distory-release fuel m h [] k d a l =
    subst (λ h. Ends (λ t. t.live ≡ m.live) (distory fuel m h)) (sym l) (ends refl)
distory-release zero m h (x ∷ xs) k d a l = absurd (omega (arith, k))
distory-release (suc fuel) m h (x ∷ xs) k (w, d) (v, a) (e, l) =
    let freed : Memory = record m { live = with_value m.live x false } in
    let next =
      distory-release fuel freed (m.next x) xs (omega arith) d (AllLive-release m.live x xs w a)
        l in
    subst (λ h. Ends (λ t. t.live ≡ without_all (x ∷ xs) m.live) (distory (suc fuel) m h)) (sym e)
      (rw (distory, v) next)

-- The data of the nodes.
abbrev pub data_of : (ℕ → ℕ) → List ℕ → List ℕ
data_of f [] = []
data_of f (x ∷ xs) = f x ∷ data_of f xs

-- display, on a list of live nodes, on as much fuel as it has nodes.
pub display-data_of :
    (fuel : ℕ) (m : Memory) (h : Option ℕ) (xs : List ℕ)
    → length xs ≤ fuel
    → AllLive m.live xs
    → Leads m.next h xs none
    → display fuel m h ≡ done (data_of m.node_data xs)
unfolding display
display-data_of fuel m h [] k a l = subst (λ h. display fuel m h ≡ done []) (sym l) refl
display-data_of zero m h (x ∷ xs) k a l = absurd (omega (arith, k))
display-data_of (suc fuel) m h (x ∷ xs) k (v, a) (e, l) =
    let next = display-data_of fuel m (m.next x) xs (omega arith) a l in
    subst (λ h. display (suc fuel) m h ≡ done (data_of m.node_data (x ∷ xs))) (sym e)
      (rw (display, v, next) refl)
