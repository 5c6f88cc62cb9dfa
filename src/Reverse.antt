-- ===== src/Reverse.antt =====
-- temp/reverse_list.cpp: a singly linked list that is reversed in place.
--
-- The nodes are known by their addresses, and NULL is `none`. The data of the nodes does not change.
-- `live` says which addresses hold a node; no other one may be touched.
pub mod Build
pub mod Chain
pub mod Nodes
pub mod Whole
use mathlib.Core.Path.{subst}
use mathlib.Core.List.{append_assoc}
use cpp_study.Base.{
  ℕ, zero, suc, ◌<◌, ◌≡◌, ◌≢◌, refl, sym, List, [], ◌∷◌, ◌++◌, Option, none, some, arith, ◌==◌,
  if◌then◌else◌, length, Bool, true, false,
}
use cpp_study.Base.Exec.{Exec, done, fault, timeout, Ends, ends, Ends-bind, Ends-weaken, ◌>>=◌}

-- The field `next` of each node.
abbrev pub Links : Type 0
Links = ℕ → Option ℕ

abbrev pub with_next : Links → ℕ → Option ℕ → Links
with_next next i v j = if i == j then v else next j

-- The loop of reverse: `p` is the node that was first, `p1` the one that is first now.
unfoldable pub reverse_loop : ℕ → (ℕ → Bool) → Links → ℕ → ℕ → Exec (Links × ℕ)
reverse_loop zero live next p p1 = timeout
reverse_loop (suc fuel) live next p p1 =
    let turn : ℕ → Exec (Links × ℕ) = λ p2.
      let rest =
        reverse_loop fuel live (with_next (with_next next p (next p2)) p2 (some p1)) p p2 in
      if live p2 then rest else fault in
    let go : Exec (Links × ℕ) = elim (next p) [ none ↦ done (next, p1) | some p2 ↦ turn p2 ] in
    if live p then go else fault

-- reverse: the links and the first node behind it.
unfoldable pub reverse : ℕ → (ℕ → Bool) → Links → Option ℕ → Exec (Links × Option ℕ)
unfolding reverse_loop
reverse fuel live next none = done (next, none)
reverse fuel live next (some p) = do
  (next', p1) ← reverse_loop fuel live next p p
  done (next', some p1)

-- From the node `h` the links lead through the nodes `xs` to `e`.
abbrev pub Leads : Links → Option ℕ → List ℕ → Option ℕ → Type 0
Leads next h [] e = h ≡ e
Leads next h (x ∷ xs) e = (h ≡ some x) × Leads next (next x) xs e

abbrev pub AllLive : (ℕ → Bool) → List ℕ → Type 0
AllLive live [] = Unit
AllLive live (x ∷ xs) = (live x ≡ true) × AllLive live xs

abbrev pub Without : ℕ → List ℕ → Type 0
Without x [] = Unit
Without x (y ∷ ys) = (x ≢ y) × Without x ys

abbrev pub Distinct : List ℕ → Type 0
Distinct [] = Unit
Distinct (x ∷ xs) = Without x xs × Distinct xs

-- No node of the first list is in the second.
abbrev Apart : List ℕ → List ℕ → Type 0
Apart [] ys = Unit
Apart (x ∷ xs) ys = Without x ys × Apart xs ys

abbrev pub backwards : List ℕ → List ℕ
backwards [] = []
backwards (x ∷ xs) = backwards xs ++ x ∷ []

pub Leads-with_next :
    (next : Links) (i : ℕ) (v h : Option ℕ) (xs : List ℕ) (e : Option ℕ)
    → Without i xs
    → Leads next h xs e
    → Leads (with_next next i v) h xs e
Leads-with_next next i v h [] e w l = l
Leads-with_next next i v h (x ∷ xs) e (n, w) (a, l) =
    let other : (i == x) ≡ false = ground (arith, n) in
    (a, rw other (Leads-with_next next i v (next x) xs e w l))

Apart-cons : (y : ℕ) (xs ys : List ℕ) → Without y xs → Apart xs ys → Apart xs (y ∷ ys)
Apart-cons y [] ys w a = tt
Apart-cons y (x ∷ xs) ys (n, w) (h, a) = (((λ e. n (sym e)), h), Apart-cons y xs ys w a)

pub Leads-append :
    (next : Links) (h : Option ℕ) (xs : List ℕ) (p : ℕ) (ys : List ℕ) (e : Option ℕ)
    → Leads next h xs (some p)
    → Leads next (next p) ys e
    → Leads next h (xs ++ p ∷ ys) e
Leads-append next h [] p ys e l m = (l, m)
Leads-append next h (x ∷ xs) p ys e (a, l) m = (a, Leads-append next (next x) xs p ys e l m)

abbrev Reversed : List ℕ → Links × ℕ → Type 0
Reversed xs r = Leads r.0 (some r.1) xs none

module _ (live : ℕ → Bool) (p : ℕ) (held : live p ≡ true) where
  -- One turn of the loop, which puts the node `y` behind `p` in front.
  module _ (next : Links) (p1 y : ℕ) (front rest : List ℕ) (n : p ≢ y) where
    abbrev turned : Links
    turned = with_next (with_next next p (next y)) y (some p1)

    turned-front :
        Without p front
        → Without y front
        → Leads next (some p1) front (some p)
        → Leads turned (some y) (y ∷ front) (some p)
    turned-front w v l =
        let it : turned y ≡ some p1 = ground arith in
        (
          refl,
          rw it (
              Leads-with_next (with_next next p (next y)) y (some p1) (some p1) front (some p) v
                (Leads-with_next next p (next y) (some p1) front (some p) w l)),
        )

    turned-rest :
        Without p rest
        → Without y rest
        → Leads next (next y) rest none
        → Leads turned (turned p) rest none
    turned-rest w v l =
        let it : turned p ≡ next y = ground (arith, n) in
        rw it (
          Leads-with_next (with_next next p (next y)) y (some p1) (next y) rest none v
            (Leads-with_next next p (next y) (next y) rest none w l))

  reverse_loop-Reversed :
      (fuel : ℕ) (next : Links) (p1 : ℕ) (front rest : List ℕ)
      → length rest < fuel
      → Without p front
      → Without p rest
      → Distinct rest
      → AllLive live rest
      → Apart rest front
      → Leads next (some p1) front (some p)
      → Leads next (next p) rest none
      → Ends (Reversed (backwards rest ++ (front ++ p ∷ []))) (reverse_loop fuel live next p p1)
  unfolding reverse_loop
  reverse_loop-Reversed zero next p1 front rest h w v d k a l m = absurd (omega arith)
  reverse_loop-Reversed (suc fuel) next p1 front [] h w v d k a l m =
      rw (reverse_loop, held, m) (ends (Leads-append next (some p1) front p [] none l m))
  reverse_loop-Reversed (suc fuel) next p1 front (y ∷ rest) h w (n, v) (u, d) (there, k) (b, a) l
        (e, m) =
      let t = turned next p1 y front rest n in
      let go =
        reverse_loop-Reversed fuel t y (y ∷ front) rest (omega arith) (n, w) v d k
          (Apart-cons y rest front u a) (turned-front next p1 y front rest n w b l)
          (turned-rest next p1 y front rest n v u m) in
      let same = sym (append_assoc (backwards rest) (y ∷ []) (front ++ p ∷ [])) in
      rw (reverse_loop, held, e, there)
        (Ends-weaken (λ r q. subst (λ xs. Leads r.0 (some r.1) xs none) same q) go)

no_front : (xs : List ℕ) → Apart xs []
no_front [] = tt
no_front (x ∷ xs) = (tt, no_front xs)

-- reverse, on a list of live nodes that are all different, on more fuel than it has nodes: it ends, touches
-- no other node, and from the node that it returns the links lead through the same nodes in the opposite order.
pub reverse-backwards :
    (fuel : ℕ) (live : ℕ → Bool) (next : Links) (h : Option ℕ) (xs : List ℕ)
    → length xs < fuel
    → Distinct xs
    → AllLive live xs
    → Leads next h xs none
    → Ends (λ r. Leads r.0 r.1 (backwards xs) none) (reverse fuel live next h)
unfolding reverse
reverse-backwards fuel live next h [] k d a l =
    subst (λ h. Ends (λ r. Leads r.0 r.1 [] none) (reverse fuel live next h)) (sym l) (ends refl)
reverse-backwards fuel live next h (x ∷ xs) k (w, d) (there, a) (e, l) =
    subst (λ h. Ends (λ r. Leads r.0 r.1 (backwards (x ∷ xs)) none) (reverse fuel live next h))
      (sym e)
      (Ends-bind
        (reverse_loop-Reversed live x there fuel next x [] xs (omega arith) tt w d a (no_front xs)
          refl l)
        λ r q. ends q)
