-- ===== src/Reverse/Whole.antt =====
-- reverse_list.cpp: a list that is built, reversed and shown, and what a release of it would do.
use mathlib.Core.Path.{subst}
use cpp_study.Base.{
  ℕ, zero, suc, ◌+◌, ◌<◌, ◌≤◌, ◌≡◌, ◌⊎◌, inl, inr, refl, sym, ap, ◌∙◌, List, [], ◌∷◌, Bool, true,
  false, Option, none, some, arith, ◌==◌, if◌then◌else◌, length, Bool-cases,
}
use cpp_study.Base.Exec.{done, Ends, ends, Ends-bind, Ends-weaken}
use cpp_study.Reverse.{Links, AllLive, Leads, Leads-append, backwards, reverse-backwards}
use cpp_study.Reverse.Build.{
  Memory, new_node, construct, distory, display, Run, list_main, addresses, without_all,
  distory-release, data_of, display-data_of,
}
use cpp_study.Reverse.Nodes.{
  In, In-backwards, Distinct-backwards, AllLive-backwards, length-backwards, backwards-last,
  without_all-In, without_all-live,
}
use cpp_study.Reverse.Chain.{
  IsFresh, Built, same_cell, addresses-snoc, addresses-Distinct, chained, loop-Built, loop-done,
}

-- n - 1 down to 0, and 0 up to n - 1.
abbrev pub down_from : ℕ → List ℕ
down_from zero = []
down_from (suc n) = n ∷ down_from n

abbrev pub up_from : ℕ → ℕ → List ℕ
up_from i zero = []
up_from i (suc n) = i ∷ up_from (suc i) n

length-addresses : (address : ℕ → ℕ) (i n : ℕ) → length (addresses address i n) ≡ n
length-addresses address i zero = refl
length-addresses address i (suc n) = ap suc (length-addresses address (suc i) n)

data-up :
    (address f : ℕ → ℕ) (i n : ℕ)
    → ((j : ℕ) → j < i + n → f (address j) ≡ j)
    → data_of f (addresses address i n) ≡ up_from i n
data-up address f i zero h = refl
data-up address f i (suc n) h =
    cc (h i (omega arith), data-up address f (suc i) n (λ j l. h j (omega (arith, l))))

data-down :
    (address f : ℕ → ℕ) (n : ℕ)
    → ((j : ℕ) → j < n → f (address j) ≡ j)
    → data_of f (backwards (addresses address 0 n)) ≡ down_from n
data-down address f zero h = refl
data-down address f (suc n) h =
    let order : backwards (addresses address 0 (suc n))
        ≡ address n ∷ backwards (addresses address 0 n) =
      ap backwards (sym (addresses-snoc address n))
      ∙ backwards-last (addresses address 0 n) (address n) in
    let rest = data-down address f n (λ j l. h j (omega (arith, l))) in
    ap (data_of f) order ∙ cc (h n (omega arith), rest)

all_live :
    (address : ℕ → ℕ) (live : ℕ → Bool) (i n : ℕ)
    → ((j : ℕ) → j < i + n → live (address j) ≡ true)
    → AllLive live (addresses address i n)
all_live address live i zero h = tt
all_live address live i (suc n) h =
    (h i (omega arith), all_live address live (suc i) n (λ j l. h j (omega (arith, l))))

one_of : (address : ℕ → ℕ) (i n j : ℕ) → i ≤ j → j < i + n → In (address j) (addresses address i n)
one_of address i zero j h l = absurd (omega (arith, h, l))
one_of address i (suc n) j h l = elim (Bool-cases (i == j)) [
  | inl e ↦ let same : i ≡ j = ground (arith, e) in inl (ap address same)
  | inr e ↦ inr (one_of address (suc i) n j (ground (arith, e, h)) (omega (arith, l)))
]

-- What a run on `n` nodes comes to: what is shown, that every node is left, and that a call of
-- distory on what is left would release every one.
pub record IsWhole (address : ℕ → ℕ) (n : ℕ) (before : Memory) (r : Run) : Type 0 where
  pub first_shown : r.shown_before ≡ up_from 0 n
  pub then_shown : r.shown ≡ down_from n
  pub left : (i : ℕ) → i < n → r.memory.live (address i) ≡ true
  pub released :
      Ends (λ t. (a : ℕ) → t.live a ≡ true → before.live a ≡ true) (distory n r.memory r.first)

module _ (address : ℕ → ℕ) (before : Memory) (fresh : IsFresh address before) where
  first_node : Memory
  unfolding new_node
  first_node = new_node before (address 0) 0

  first-Built : Built address before first_node 0
  unfolding new_node first_node
  first-Built = record {
    chain = refl;
    last_next = rw (same_cell (address 0)) refl;
    values = λ j h.
        let none_below : 0 ≡ j = omega (arith, h) in
        subst (λ j. (if address 0 == address j then 0 else before.node_data (address j)) ≡ j)
          none_below (rw (same_cell (address 0)) refl);
    alive = λ j h.
        let none_below : 0 ≡ j = omega (arith, h) in
        subst (λ j. (if address 0 == address j then true else before.live (address j)) ≡ true)
          none_below (rw (same_cell (address 0)) refl);
    origin = λ a h. from_old a (address 0 == a) refl h;
  }
    where
      from_old :
          (a : ℕ) (c : Bool)
          → (address 0 == a) ≡ c
          → (if c then true else before.live a) ≡ true
          → (before.live a ≡ true) ⊎ ((j : ℕ) × (j ≤ 0) × (address j ≡ a))
      from_old a true e h = inr (0, omega arith, ground (arith, e))
      from_old a false e h = inl h

  module _ (n : ℕ) where
    abbrev built : Memory
    built = chained address n 0 first_node

    abbrev nodes : List ℕ
    nodes = addresses address 0 (suc n)

    built-Built : Built address before built n
    built-Built =
        subst (λ k. Built address before built k) (omega arith)
          (loop-Built address n 0 before first_node fresh first-Built)

    nodes-Leads : Leads built.next (some (address 0)) nodes none
    nodes-Leads =
        let b = built-Built in
        subst (λ xs. Leads built.next (some (address 0)) xs none) (addresses-snoc address n)
          (Leads-append built.next (some (address 0)) (addresses address 0 n) (address n) [] none
            b.chain b.last_next)

    nodes-AllLive : AllLive built.live nodes
    nodes-AllLive =
        all_live address built.live 0 (suc n) λ j l. built-Built.alive j (omega (arith, l))

    size : length (backwards nodes) ≤ suc n
    size = omega (arith, length-backwards nodes, length-addresses address 0 (suc n))

    not_before : (a : ℕ) → without_all (backwards nodes) built.live a ≡ true → before.live a ≡ true
    not_before a h =
        elim (built-Built.origin a (without_all-live (backwards nodes) built.live a h)) [
          | inl old ↦ old
          | inr (j, l, e) ↦
              let it = one_of address 0 (suc n) j (omega arith) (omega (arith, l)) in
              let gone =
                without_all-In (backwards nodes) built.live (address j)
                  (In-backwards (address j) nodes it) in
              absurd (cc (gone, e, h))
        ]

    module _ (next : Links) (q : Option ℕ) (l : Leads next q (backwards nodes) none) where
      abbrev reversed : Memory
      reversed = record built { next = next }

      reversed-shown : display (suc n) reversed q ≡ done (down_from (suc n))
      reversed-shown =
          display-data_of (suc n) reversed q (backwards nodes) size
            (AllLive-backwards built.live nodes nodes-AllLive) l
          ∙ ap done (
              data-down address built.node_data (suc n)
                (λ j k. built-Built.values j (omega (arith, k))))

      reversed-released :
          Ends (λ t. (a : ℕ) → t.live a ≡ true → before.live a ≡ true) (distory (suc n) reversed q)
      reversed-released =
          Ends-weaken (λ t e a h. not_before a (rw e at h))
            (distory-release (suc n) reversed q (backwards nodes) size
              (Distinct-backwards nodes (addresses-Distinct address fresh.apart 0 (suc n)))
              (AllLive-backwards built.live nodes nodes-AllLive) l)

    -- A run of main on `n + 1` nodes, where `new` gives addresses that are all different and in no
    -- use: it ends, its functions touch no node that is not live, and it shows 0 to n, and n down to 0
    -- behind reverse. main leaves all its nodes, since its call of distory is a comment. That call
    -- would end, release each of them once and touch no other node: what is live behind it was live
    -- before main.
    pub list_main-IsWhole :
        Ends (λ r. IsWhole address (suc n) before r) (list_main address (suc n) before)
    unfolding list_main construct first_node
    list_main-IsWhole =
        let before_shown =
          display-data_of (suc n) built (some (address 0)) nodes
            (omega (arith, length-addresses address 0 (suc n))) nodes-AllLive nodes-Leads
          ∙ ap done (
              data-up address built.node_data 0 (suc n)
                (λ j k. built-Built.values j (omega (arith, k)))) in
        rw (loop-done address n 0 before first_node fresh first-Built, before_shown)
          (Ends-bind
            (reverse-backwards (suc (suc n)) built.live built.next (some (address 0)) nodes
              (omega (arith, length-addresses address 0 (suc n)))
              (addresses-Distinct address fresh.apart 0 (suc n)) nodes-AllLive nodes-Leads)
            λ (next, q) l. rw (reversed-shown next q l) (
              ends (record {
                first_shown = refl;
                then_shown = refl;
                left = λ i l. built-Built.alive i (omega (arith, l));
                released = reversed-released next q l;
              })))
