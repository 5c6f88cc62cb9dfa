-- ===== src/Shm/Bytes.antt =====
-- Bytes of a segment: memcpy, memset, and an `int` as four bytes, the lowest first.
use Prim.Native.Nat.{suc}
use cpp_study.Base.{
  ℕ, zero, ◌+◌, ◌*◌, ◌/◌, ◌%◌, ◌^◌, ◌≤◌, ◌<◌, ◌≡◌, ◌⊎◌, inl, inr, refl, List, [], ◌∷◌, ◌++◌, arith,
  ◌==◌, if◌then◌else◌, length, replicate, Bool-cases,
}

abbrev pub Memory : Type 0
Memory = ℕ → ℕ

abbrev pub poke : Memory → ℕ → ℕ → Memory
poke mem p b q = if p == q then b else mem q

-- `memcpy(mem + p, bytes, length)`
unfoldable pub write_bytes : Memory → ℕ → List ℕ → Memory
write_bytes mem p [] = mem
write_bytes mem p (b ∷ bs) = poke (write_bytes mem (suc p) bs) p b

-- `memcpy(buffer, mem + p, n)`
unfoldable pub read_bytes : Memory → ℕ → ℕ → List ℕ
read_bytes mem p zero = []
read_bytes mem p (suc n) = mem p ∷ read_bytes mem (suc p) n

abbrev pub int_bytes : ℕ → List ℕ
int_bytes v = v % 256 ∷ v / 256 % 256 ∷ v / 65536 % 256 ∷ v / 16777216 % 256 ∷ []

unfoldable pub int_at : Memory → ℕ → ℕ
int_at mem p = mem p + 256 * mem (p + 1) + 65536 * mem (p + 2) + 16777216 * mem (p + 3)

-- The bytes from `p` on are `bs`.
abbrev pub Holds : Memory → ℕ → List ℕ → Type 0
Holds mem p [] = Unit
Holds mem p (b ∷ bs) = (mem p ≡ b) × Holds mem (suc p) bs

-- The bytes from `p` up to, but without, `e` are 0.
abbrev pub Clean : Memory → ℕ → ℕ → Type 0
Clean mem p e = (i : ℕ) → p ≤ i → i < e → mem i ≡ 0

-- The same bytes from `p` up to, but without, `e`.
abbrev pub Agrees : Memory → Memory → ℕ → ℕ → Type 0
Agrees mem' mem p e = (i : ℕ) → p ≤ i → i < e → mem' i ≡ mem i

pub write_bytes_outside :
    (mem : Memory) (p : ℕ) (bs : List ℕ) (i : ℕ)
    → (i < p) ⊎ (p + length bs ≤ i)
    → write_bytes mem p bs i ≡ mem i
unfolding write_bytes
write_bytes_outside mem p [] i h = refl
write_bytes_outside mem p (b ∷ bs) i h =
    ground (arith, write_bytes_outside mem (suc p) bs i (omega arith))

pub Holds-Agrees :
    (mem mem' : Memory) (p : ℕ) (bs : List ℕ)
    → Agrees mem' mem p (p + length bs)
    → Holds mem p bs
    → Holds mem' p bs
Holds-Agrees mem mem' p [] a h = tt
Holds-Agrees mem mem' p (b ∷ bs) a h = (
  ground (arith, a p),
  Holds-Agrees mem mem' (suc p) bs (λ i u v. a i (omega arith) (omega arith)) h.1,
)

pub Holds-write_bytes : (mem : Memory) (p : ℕ) (bs : List ℕ) → Holds (write_bytes mem p bs) p bs
unfolding write_bytes
Holds-write_bytes mem p [] = tt
Holds-write_bytes mem p (b ∷ bs) = (
  ground arith,
  Holds-Agrees (write_bytes mem (suc p) bs) (poke (write_bytes mem (suc p) bs) p b) (suc p) bs
      (λ i u v. ground arith) (Holds-write_bytes mem (suc p) bs),
)

pub Holds-append :
    (mem : Memory) (p : ℕ) (xs ys : List ℕ)
    → Holds mem p xs
    → Holds mem (p + length xs) ys
    → Holds mem p (xs ++ ys)
Holds-append mem p [] ys h k = let e : p + 0 ≡ p = omega arith in rw e at k
Holds-append mem p (x ∷ xs) ys h k =
    let e : p + suc (length xs) ≡ suc p + length xs = omega arith in
    (h.0, Holds-append mem (suc p) xs ys h.1 (rw e at k))

pub Holds-append_left :
    (mem : Memory) (p : ℕ) (xs ys : List ℕ) → Holds mem p (xs ++ ys) → Holds mem p xs
Holds-append_left mem p [] ys h = tt
Holds-append_left mem p (x ∷ xs) ys h = (h.0, Holds-append_left mem (suc p) xs ys h.1)

pub Holds-append_right :
    (mem : Memory) (p : ℕ) (xs ys : List ℕ) → Holds mem p (xs ++ ys) → Holds mem (p + length xs) ys
Holds-append_right mem p [] ys h = let e : p + 0 ≡ p = omega arith in rw e h
Holds-append_right mem p (x ∷ xs) ys h =
    let e : p + suc (length xs) ≡ suc p + length xs = omega arith in
    rw e (Holds-append_right mem (suc p) xs ys h.1)

pub read_bytes-Holds :
    (mem : Memory) (p : ℕ) (bs : List ℕ) → Holds mem p bs → read_bytes mem p (length bs) ≡ bs
unfolding read_bytes
read_bytes-Holds mem p [] h = refl
read_bytes-Holds mem p (b ∷ bs) h = cc (h.0, read_bytes-Holds mem (suc p) bs h.1)

-- An `int` is read as it was written.
pub int_at-Holds :
    (mem : Memory) (p v : ℕ) → v < 2 ^ 32 → Holds mem p (int_bytes v) → int_at mem p ≡ v
unfolding int_at
int_at-Holds mem p v lt h =
    let one : p + 1 ≡ suc p = omega arith in
    let two : p + 2 ≡ suc (suc p) = omega arith in
    let three : p + 3 ≡ suc (suc (suc p)) = omega arith in rw (one, two, three) (omega arith)

pub write_zeros :
    (mem : Memory) (p n i : ℕ) → p ≤ i → i < p + n → write_bytes mem p (replicate n 0) i ≡ 0
unfolding write_bytes
write_zeros mem p zero i h k = absurd (omega arith)
write_zeros mem p (suc n) i h k = elim (Bool-cases (p == i)) [
  | inl e ↦ rw e
  | inr e ↦ rw e (write_zeros mem (suc p) n i (ground arith) (omega arith))
]
