-- ===== src/Reverse/Nodes.antt =====
-- reverse_list.cpp: the nodes of a list in the opposite order.
use cpp_study.Base.{
  ℕ, ◌≡◌, ◌⊎◌, inl, inr, refl, sym, ap, List, [], ◌∷◌, ◌++◌, Bool, true, false, arith, length,
  length-append, Bool-cases,
}
use cpp_study.Reverse.{AllLive, Without, Distinct, backwards}
use cpp_study.Reverse.Build.{without_all, with_value}

-- `a` is one of the nodes.
abbrev pub In : ℕ → List ℕ → Type 0
In a [] = ⊥
In a (x ∷ xs) = (x ≡ a) ⊎ In a xs

In-append_left : (a : ℕ) (xs ys : List ℕ) → In a xs → In a (xs ++ ys)
In-append_left a [] ys h = absurd h
In-append_left a (x ∷ xs) ys (inl e) = inl e
In-append_left a (x ∷ xs) ys (inr h) = inr (In-append_left a xs ys h)

In-append_right : (a : ℕ) (xs ys : List ℕ) → In a ys → In a (xs ++ ys)
In-append_right a [] ys h = h
In-append_right a (x ∷ xs) ys h = inr (In-append_right a xs ys h)

pub In-backwards : (a : ℕ) (xs : List ℕ) → In a xs → In a (backwards xs)
In-backwards a [] h = h
In-backwards a (x ∷ xs) (inl e) = In-append_right a (backwards xs) (x ∷ []) (inl e)
In-backwards a (x ∷ xs) (inr h) = In-append_left a (backwards xs) (x ∷ []) (In-backwards a xs h)

Without-append : (a : ℕ) (xs ys : List ℕ) → Without a xs → Without a ys → Without a (xs ++ ys)
Without-append a [] ys h g = g
Without-append a (x ∷ xs) ys (n, h) g = (n, Without-append a xs ys h g)

Without-backwards : (a : ℕ) (xs : List ℕ) → Without a xs → Without a (backwards xs)
Without-backwards a [] h = tt
Without-backwards a (x ∷ xs) (n, h) =
    Without-append a (backwards xs) (x ∷ []) (Without-backwards a xs h) (n, tt)

Distinct-last : (x : ℕ) (xs : List ℕ) → Without x xs → Distinct xs → Distinct (xs ++ x ∷ [])
Distinct-last x [] w d = (tt, tt)
Distinct-last x (y ∷ xs) (n, w) (v, d) =
    (Without-append y xs (x ∷ []) v ((λ e. n (sym e)), tt), Distinct-last x xs w d)

pub Distinct-backwards : (xs : List ℕ) → Distinct xs → Distinct (backwards xs)
Distinct-backwards [] d = tt
Distinct-backwards (x ∷ xs) (w, d) =
    Distinct-last x (backwards xs) (Without-backwards x xs w) (Distinct-backwards xs d)

AllLive-append :
    (live : ℕ → Bool) (xs ys : List ℕ) → AllLive live xs → AllLive live ys → AllLive live (xs ++ ys)
AllLive-append live [] ys h g = g
AllLive-append live (x ∷ xs) ys (l, h) g = (l, AllLive-append live xs ys h g)

pub AllLive-backwards :
    (live : ℕ → Bool) (xs : List ℕ) → AllLive live xs → AllLive live (backwards xs)
AllLive-backwards live [] h = tt
AllLive-backwards live (x ∷ xs) (l, h) =
    AllLive-append live (backwards xs) (x ∷ []) (AllLive-backwards live xs h) (l, tt)

pub length-backwards : (xs : List ℕ) → length (backwards xs) ≡ length xs
length-backwards [] = refl
length-backwards (x ∷ xs) =
    omega (arith, length-append (backwards xs) (x ∷ []), length-backwards xs)

pub backwards-last : (xs : List ℕ) (x : ℕ) → backwards (xs ++ x ∷ []) ≡ x ∷ backwards xs
backwards-last [] x = refl
backwards-last (y ∷ xs) x = ap (λ t. t ++ y ∷ []) (backwards-last xs x)

-- A node that is not live stays so, and a released one is not live.
without_all-dead :
    (xs : List ℕ) (live : ℕ → Bool) (a : ℕ) → live a ≡ false → without_all xs live a ≡ false
without_all-dead [] live a h = h
without_all-dead (x ∷ xs) live a h =
    without_all-dead xs (with_value live x false) a (ground (arith, h))

pub without_all-In :
    (xs : List ℕ) (live : ℕ → Bool) (a : ℕ) → In a xs → without_all xs live a ≡ false
without_all-In [] live a h = absurd h
without_all-In (x ∷ xs) live a (inl e) =
    without_all-dead xs (with_value live x false) a (ground (arith, e))
without_all-In (x ∷ xs) live a (inr h) = without_all-In xs (with_value live x false) a h

pub without_all-live :
    (xs : List ℕ) (live : ℕ → Bool) (a : ℕ) → without_all xs live a ≡ true → live a ≡ true
without_all-live xs live a h = elim (Bool-cases (live a)) [
  | inl e ↦ e
  | inr e ↦ let dead = without_all-dead xs live a e in absurd (cc (dead, h))
]
