-- ===== src/Avl/Order.antt =====
-- The elements of the tree from left to right.
use mathlib.Core.List.Perm
use mathlib.Core.List.{append_assoc, append-nil, perm_middle}
use cpp_study.Base.{
  ℕ, ◌≡◌, refl, sym, ap, ◌∙◌, inl, inr, List, [], ◌∷◌, ◌++◌, map, Perm, true, false, arith,
  if◌then◌else◌, Bool-cases,
}
use cpp_study.Base.Int.{ℤ, ◌≤ℤ◌, leb_ℤ}
use cpp_study.Avl.{
  Tree, null, node, Frame, on_left, on_right, lpr_sort, update_depth, insert_into_tree, recover_avl,
  insert, insert_all,
}

unfoldable pub elements : Tree → List ℤ
elements null = []
elements (node x d l r) = elements l ++ (x ∷ elements r)

map-append :
    (xs ys : List (ℤ × ℕ)) → map (λ p. p.0) (xs ++ ys) ≡ map (λ p. p.0) xs ++ map (λ p. p.0) ys
map-append [] ys = refl
map-append (x ∷ xs) ys = ap (◌∷◌ x.0) (map-append xs ys)

elements_lem : (t : Tree) → map (λ p. p.0) (lpr_sort t) ≡ elements t
unfolding lpr_sort elements
elements_lem null = refl
elements_lem (node x d l r) =
    rw (map-append (lpr_sort l) ((x, d) ∷ lpr_sort r), elements_lem l, elements_lem r) refl

-- `e` in front of the first element that is not below it.
unfoldable pub place : ℤ → List ℤ → List ℤ
place e [] = e ∷ []
place e (x ∷ xs) = let rest = place e xs in if leb_ℤ e x then e ∷ x ∷ xs else x ∷ rest

abbrev pub AllAtLeast : ℤ → List ℤ → Type 0
AllAtLeast e [] = Unit
AllAtLeast e (x ∷ xs) = (e ≤ℤ x) × AllAtLeast e xs

abbrev pub AllAtMost : ℤ → List ℤ → Type 0
AllAtMost e [] = Unit
AllAtMost e (x ∷ xs) = (x ≤ℤ e) × AllAtMost e xs

abbrev pub IsAscending : List ℤ → Type 0
IsAscending [] = Unit
IsAscending (x ∷ xs) = AllAtLeast x xs × IsAscending xs

-- The elements on each side of a position.
left_of : List Frame → List ℤ
left_of [] = []
left_of (on_left x d r ∷ up) = left_of up
left_of (on_right x d l ∷ up) = left_of up ++ (elements l ++ (x ∷ []))

right_of : List Frame → List ℤ
right_of [] = []
right_of (on_left x d r ∷ up) = x ∷ (elements r ++ right_of up)
right_of (on_right x d l ∷ up) = right_of up

update_depth-elements : (t : Tree) → elements (update_depth t) ≡ elements t
unfolding update_depth elements
update_depth-elements null = refl
update_depth-elements (node x d l r) = refl

recover_avl-elements :
    (t : Tree) (up : List Frame)
    → elements (recover_avl t up) ≡ left_of up ++ (elements t ++ right_of up)
unfolding recover_avl left_of right_of elements
recover_avl-elements t [] = update_depth-elements t ∙ sym (append-nil (elements t))
recover_avl-elements t (on_left x d r ∷ up) =
    recover_avl-elements (node x d (update_depth t) r) up
    ∙ rw (update_depth-elements t, append_assoc (elements t) (x ∷ elements r) (right_of up)) refl
recover_avl-elements t (on_right x d l ∷ up) =
    recover_avl-elements (node x d l (update_depth t)) up
    ∙ rw
        (
          update_depth-elements t,
          append_assoc (elements l) (x ∷ elements t) (right_of up),
          append_assoc (left_of up) (elements l ++ (x ∷ [])) (elements t ++ right_of up),
          append_assoc (elements l) (x ∷ []) (elements t ++ right_of up),
        )
        refl

AllAtLeast-parts :
    (z x : ℤ) (xs ys : List ℤ) → AllAtLeast z (xs ++ (x ∷ ys)) → (z ≤ℤ x) × AllAtLeast z xs
AllAtLeast-parts z x [] ys (h, a) = (h, tt)
AllAtLeast-parts z x (y ∷ xs) ys (h, a) = let (k, b) = AllAtLeast-parts z x xs ys a in (k, (h, b))

AllAtMost-before :
    (x : ℤ) (xs ys : List ℤ)
    → IsAscending (xs ++ (x ∷ ys))
    → AllAtMost x xs × IsAscending xs × IsAscending ys
AllAtMost-before x [] ys (h, a) = (tt, tt, a)
AllAtMost-before x (z ∷ xs) ys (h, a) =
    let (k, b) = AllAtLeast-parts z x xs ys h in
    let (m, c, d) = AllAtMost-before x xs ys a in ((k, m), (b, c), d)

place-below :
    (e x : ℤ) (xs ys : List ℤ)
    → leb_ℤ e x ≡ true
    → place e (xs ++ (x ∷ ys)) ≡ place e xs ++ (x ∷ ys)
unfolding place
place-below e x [] ys h = rw h refl
place-below e x (z ∷ xs) ys h = ground (arith, place-below e x xs ys h)

place-above :
    (e x : ℤ) (xs ys : List ℤ)
    → leb_ℤ e x ≡ false
    → AllAtMost x xs
    → place e (xs ++ (x ∷ ys)) ≡ xs ++ (x ∷ place e ys)
unfolding place
place-above e x [] ys h m = rw h refl
place-above e x (z ∷ xs) ys h (b, m) = ground (arith, place-above e x xs ys h m)

insert_into_tree_lem :
    (t : Tree) (e : ℤ) (up : List Frame)
    → IsAscending (elements t)
    → left_of (insert_into_tree t e up) ++ (e ∷ right_of (insert_into_tree t e up))
      ≡ left_of up ++ (place e (elements t) ++ right_of up)
unfolding insert_into_tree elements left_of right_of place
insert_into_tree_lem null e up a = refl
insert_into_tree_lem (node x d l r) e up a =
    let (m, al, ar) = AllAtMost-before x (elements l) (elements r) a in
    elim (Bool-cases (leb_ℤ e x)) [
      | inl h ↦
          rw
            (
              h,
              place-below e x (elements l) (elements r) h,
              append_assoc (place e (elements l)) (x ∷ elements r) (right_of up),
            )
            (insert_into_tree_lem l e (on_left x d r ∷ up) al)
      | inr h ↦
          rw (h, place-above e x (elements l) (elements r) h m)
            (insert_into_tree_lem r e (on_right x d l ∷ up) ar
              ∙ rw
                  (
                    append_assoc (left_of up) (elements l ++ (x ∷ []))
                        (place e (elements r) ++ right_of up),
                    append_assoc (elements l) (x ∷ []) (place e (elements r) ++ right_of up),
                    append_assoc (elements l) (x ∷ place e (elements r)) (right_of up),
                  )
                  refl)
    ]

insert-elements :
    (t : Tree) (e : ℤ) → IsAscending (elements t) → elements (insert t e) ≡ place e (elements t)
unfolding insert left_of right_of elements
insert-elements t e a =
    recover_avl-elements (node e 1 null null) (insert_into_tree t e [])
    ∙ insert_into_tree_lem t e [] a
    ∙ append-nil (place e (elements t))

AllAtLeast-place : (z e : ℤ) (xs : List ℤ) → z ≤ℤ e → AllAtLeast z xs → AllAtLeast z (place e xs)
unfolding place
AllAtLeast-place z e [] h a = (h, tt)
AllAtLeast-place z e (x ∷ xs) h (b, a) = ground (arith, AllAtLeast-place z e xs h a)

AllAtLeast-weaken : (z x : ℤ) (xs : List ℤ) → z ≤ℤ x → AllAtLeast x xs → AllAtLeast z xs
AllAtLeast-weaken z x [] h a = tt
AllAtLeast-weaken z x (y ∷ xs) h (b, a) = (omega arith, AllAtLeast-weaken z x xs h a)

place-IsAscending : (e : ℤ) (xs : List ℤ) → IsAscending xs → IsAscending (place e xs)
unfolding place
place-IsAscending e [] a = (tt, tt)
place-IsAscending e (x ∷ xs) (h, a) = elim (Bool-cases (leb_ℤ e x)) [
  | inl k ↦ rw k ((ground arith, AllAtLeast-weaken e x xs (ground arith) h), (h, a))
  | inr k ↦ rw k (AllAtLeast-place x e xs (ground arith) h, place-IsAscending e xs a)
]

-- The elements that the in-order walk displays.
abbrev pub shown : Tree → List ℤ
shown t = map (λ p. p.0) (lpr_sort t)

unfoldable pub place_all : List ℤ → List ℤ → List ℤ
unfolding place
place_all xs [] = xs
place_all xs (e ∷ es) = place_all (place e xs) es

-- On a tree that the in-order walk displays in ascending order, insert puts the new element in front
-- of the first one that is not below it, keeps the others in their order, and so leaves a tree that
-- is displayed in ascending order too.
pub insert-shown :
    (t : Tree) (e : ℤ)
    → IsAscending (shown t)
    → (shown (insert t e) ≡ place e (shown t)) × IsAscending (shown (insert t e))
insert-shown t e =
    rw (elements_lem t, elements_lem (insert t e))
      (λ a.
        (insert-elements t e a, rw (insert-elements t e a) (place-IsAscending e (elements t) a)))

place-perm : (e : ℤ) (xs : List ℤ) → Perm (place e xs) (e ∷ xs)
unfolding place
place-perm e [] = Perm.rfl
place-perm e (x ∷ xs) = elim (Bool-cases (leb_ℤ e x)) [
  | inl k ↦ rw k Perm.rfl
  | inr k ↦ rw k (Perm.trans (Perm.cons x (place-perm e xs)) (Perm.swap e x xs))
]

insert_all-from :
    (t : Tree) (es : List ℤ)
    → IsAscending (shown t)
    → IsAscending (shown (insert_all t es)) × Perm (shown (insert_all t es)) (es ++ shown t)
unfolding insert_all
insert_all-from t [] a = (a, Perm.rfl)
insert_all-from t (e ∷ es) a =
    let (eq, a') = insert-shown t e a in
    let (b, p) = insert_all-from (insert t e) es a' in
    let moved = perm_middle {a = e} es (shown t) in
    (b, Perm.trans p (rw eq (Perm.trans (Perm.append_left es (place-perm e (shown t))) moved)))

-- Insertions into the empty tree, whatever they are, give a tree whose in-order walk displays the
-- inserted elements, each as often as it was inserted, in ascending order.
pub insert_all-sorts :
    (es : List ℤ) → IsAscending (shown (insert_all null es)) × Perm (shown (insert_all null es)) es
unfolding lpr_sort
insert_all-sorts es = let (a, p) = insert_all-from null es tt in (a, rw (append-nil es) at p)
