-- ===== src/HeartBeat/Trim.antt =====
-- Trim: blanks off both ends of a text, here the list of its bytes before the 0.
use cpp_study.Base.{
  ℕ, ◌+◌, ◌≡◌, inl, inr, refl, ap, sym, ◌∙◌, List, [], ◌∷◌, ◌++◌, Bool, true, false, ◌||◌, Option,
  none, some, arith, ◌==◌, if◌then◌else◌, length, take, Bool-cases,
}

-- A space or a tab.
abbrev pub is_blank : ℕ → Bool
is_blank c = c == b' ' || c == 9

-- The first loop: `pszBegin`
skip_blanks : List ℕ → List ℕ
skip_blanks [] = []
skip_blanks (c ∷ s) = let rest = skip_blanks s in if is_blank c then rest else c ∷ s

-- The second loop, at offset `i` behind `pszBegin`, with `pszEnd` if it is set: its last value.
end_loop : List ℕ → ℕ → Option ℕ → ℕ
end_loop [] i none = i
end_loop [] i (some e) = e
end_loop (c ∷ s) i none = end_loop s (i + 1) (if is_blank c then some i else none)
end_loop (c ∷ s) i (some e) = end_loop s (i + 1) (if is_blank c then some e else none)

unfoldable pub trim : List ℕ → List ℕ
unfolding skip_blanks end_loop
trim s = let begin = skip_blanks s in take (end_loop begin 0 none) begin

-- Without the blanks at its end.
strip_end : List ℕ → List ℕ
strip_end [] = []
strip_end (c ∷ s) = elim (strip_end s) [
  | [] ↦ if is_blank c then [] else c ∷ []
  | d ∷ r ↦ c ∷ d ∷ r
]

-- Where `pszEnd` stands, for each value that it has before.
end_after : List ℕ → ℕ → Option ℕ → ℕ
end_after [] i none = i
end_after [] i (some e) = e
end_after (d ∷ r) i e = i + length (d ∷ r)

end_loop-end_after :
    (s : List ℕ) (i : ℕ) (e : Option ℕ) → end_loop s i e ≡ end_after (strip_end s) i e
unfolding end_loop strip_end end_after
end_loop-end_after [] i none = refl
end_loop-end_after [] i (some e) = refl
end_loop-end_after (c ∷ s) i none =
    ground (arith, end_loop-end_after s (i + 1) (some i), end_loop-end_after s (i + 1) none)
end_loop-end_after (c ∷ s) i (some e) =
    ground (arith, end_loop-end_after s (i + 1) (some e), end_loop-end_after s (i + 1) none)

take-strip_end : (s : List ℕ) → take (length (strip_end s)) s ≡ strip_end s
unfolding strip_end
take-strip_end [] = refl
take-strip_end (c ∷ s) = ground (arith, take-strip_end s)

end_after-none : (r : List ℕ) → end_after r 0 none ≡ length r
unfolding end_after
end_after-none [] = refl
end_after-none (d ∷ r) = omega arith

trim-strip_end : (s : List ℕ) → trim s ≡ strip_end (skip_blanks s)
unfolding trim
trim-strip_end s =
    let b = skip_blanks s in
    rw (end_loop-end_after b 0 none, end_after-none (strip_end b)) (take-strip_end b)

-- Every byte of the list is a blank.
abbrev pub AllBlank : List ℕ → Type 0
AllBlank [] = Unit
AllBlank (c ∷ s) = (is_blank c ≡ true) × AllBlank s

abbrev pub StartsFull : List ℕ → Type 0
StartsFull [] = Unit
StartsFull (c ∷ s) = is_blank c ≡ false

abbrev pub EndsFull : List ℕ → Type 0
EndsFull [] = Unit
EndsFull (c ∷ []) = is_blank c ≡ false
EndsFull (c ∷ d ∷ s) = EndsFull (d ∷ s)

skip_blanks_parts :
    (s : List ℕ)
    → (pre : List ℕ) × (s ≡ pre ++ skip_blanks s) × AllBlank pre × StartsFull (skip_blanks s)
unfolding skip_blanks
skip_blanks_parts [] = ([], refl, tt, tt)
skip_blanks_parts (c ∷ s) = elim (Bool-cases (is_blank c)) [
  | inl e ↦
      let (pre, split, blank, full) = skip_blanks_parts s in
      (c ∷ pre, rw e (ap (◌∷◌ c) split), (e, blank), rw e full)
  | inr e ↦ ([], rw e, tt, rw e e)
]

-- The parts of a text whose tail is stripped to `r`.
strip_end_parts :
    (s : List ℕ)
    → (post : List ℕ) × (s ≡ strip_end s ++ post) × AllBlank post × EndsFull (strip_end s)
unfolding strip_end
strip_end_parts [] = ([], refl, tt, tt)
strip_end_parts (c ∷ s) = by_tail (strip_end s) refl (strip_end_parts s)
  where
    by_tail :
        (r : List ℕ)
        → strip_end s ≡ r
        → ((post : List ℕ) × (s ≡ strip_end s ++ post) × AllBlank post × EndsFull (strip_end s))
        → (post : List ℕ) × (c ∷ s ≡ strip_end (c ∷ s) ++ post)
          × AllBlank post
          × EndsFull (strip_end (c ∷ s))
    by_tail [] e (post, split, blank, full) = elim (Bool-cases (is_blank c)) [
      | inl b ↦ (
        c ∷ post,
        rw (e, strip_end) (rw b (ap (◌∷◌ c) (rw e at split))),
        (b, blank),
        rw (e, strip_end) (rw b tt),
      )
      | inr b ↦ (
        post,
        rw (e, strip_end) (rw b (ap (◌∷◌ c) (rw e at split))),
        blank,
        rw (e, strip_end) (rw b b),
      )
    ]
    by_tail (d ∷ r) e (post, split, blank, full) = (
      post,
      rw (e, strip_end) (ap (◌∷◌ c) (rw e at split)),
      blank,
      rw (e, strip_end) (rw e at full),
    )

strip_end-StartsFull : (s : List ℕ) → StartsFull s → StartsFull (strip_end s)
unfolding strip_end
strip_end-StartsFull [] h = tt
strip_end-StartsFull (c ∷ s) h = by_tail (strip_end s) refl
  where
    by_tail : (r : List ℕ) → strip_end s ≡ r → StartsFull (strip_end (c ∷ s))
    by_tail [] e = rw (e, strip_end) (rw h h)
    by_tail (d ∷ r) e = rw (e, strip_end) h

-- Trim takes blanks and nothing else off the two ends of any text, and what it leaves, if anything,
-- begins and ends with a byte that is no blank.
pub trim_parts :
    (s : List ℕ)
    → (pre : List ℕ) × (post : List ℕ) × (s ≡ pre ++ (trim s ++ post))
      × AllBlank pre
      × AllBlank post
      × StartsFull (trim s)
      × EndsFull (trim s)
trim_parts s =
    let (pre, split, blank, full) = skip_blanks_parts s in
    let (post, split', blank', full') = strip_end_parts (skip_blanks s) in
    (
      pre,
      post,
      split ∙ ap (λ r. pre ++ r) (split' ∙ ap (λ r. r ++ post) (sym (trim-strip_end s))),
      blank,
      blank',
      rw (trim-strip_end s) (strip_end-StartsFull (skip_blanks s) full),
      rw (trim-strip_end s) full',
    )
