-- ===== src/Hash/Key.antt =====
-- TVecChar, the bytes of a key, and TVecCharCmp, its order by memcmp.
use cpp_study.Base.{
  ℕ, ◌≤◌, ◌≡◌, ◌⊎◌, inl, inr, refl, ◌≢◌, List, [], ◌∷◌, Bool, true, false, arith, ltb, leb,
  if◌then◌else◌, length, take, Bool-cases,
}
use cpp_study.Base.Exec.{Exec, done, fault}

abbrev pub Bytes : Type 0
Bytes = List ℕ

-- `vecKey->Init(len); *vecKey = data;`: the first `len` bytes of the caller's buffer. The size of a
-- TVecChar is the length of its bytes.
unfoldable pub to_key : ℕ → Bytes → Exec Bytes
to_key len buffer = if leb len (length buffer) then done (take len buffer) else fault

-- TVecCharCmp: memcmp over the length of the shorter key is below 0.
unfoldable pub less : Bytes → Bytes → Bool
less [] b = false
less (x ∷ a) [] = false
less (x ∷ a) (y ∷ b) =
    let rest = less a b in if ltb x y then true else if ltb y x then false else rest

pub less_irrefl : (a : Bytes) → less a a ≡ false
unfolding less
less_irrefl [] = refl
less_irrefl (x ∷ a) = ground (arith, less_irrefl a)

pub less_asymm : (a b : Bytes) → less a b ≡ true → less b a ≡ false
unfolding less
less_asymm [] b h = absurd (ground arith)
less_asymm (x ∷ a) [] h = absurd (ground arith)
less_asymm (x ∷ a) (y ∷ b) h = ground (arith, less_asymm a b)

-- Keys of one length that are ordered neither way are equal.
less_connected : (a b : Bytes) → length a ≡ length b → less a b ≡ false → less b a ≡ false → a ≡ b
unfolding less
less_connected [] [] e h k = refl
less_connected [] (y ∷ b) e h k = absurd (omega arith)
less_connected (x ∷ a) [] e h k = absurd (omega arith)
less_connected (x ∷ a) (y ∷ b) e h k = ground (arith, less_connected a b)

pub less_total : (a b : Bytes) → length a ≡ length b → a ≢ b → (less a b ≡ true) ⊎ (less b a ≡ true)
less_total a b e n = elim (Bool-cases (less a b)) [
  | inl h ↦ inl h
  | inr h ↦ elim (Bool-cases (less b a)) [
    | inl k ↦ inr k
    | inr k ↦ absurd (n (less_connected a b e h k))
  ]
]

pub less_trans :
    (a b c : Bytes) → length a ≡ length b → less a b ≡ true → less b c ≡ true → less a c ≡ true
unfolding less
less_trans [] b c e h k = absurd (ground arith)
less_trans (x ∷ a) [] c e h k = absurd (ground arith)
less_trans (x ∷ a) (y ∷ b) [] e h k = absurd (ground arith)
less_trans (x ∷ a) (y ∷ b) (z ∷ c) e h k = ground (arith, less_trans a b c)

pub to_key-done :
    (len : ℕ) (buffer : Bytes) → len ≤ length buffer → to_key len buffer ≡ done (take len buffer)
unfolding to_key
to_key-done len buffer h = ground arith
