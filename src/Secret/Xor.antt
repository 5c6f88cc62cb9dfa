-- ===== src/Secret/Xor.antt =====
-- The exclusive or of two numbers, digit by digit.
use Prim.Native.Nat.{bit_xor, bit_xor-bitwise, digits, differ}
use cpp_study.Base.{ℕ, zero, suc, ◌+◌, ◌*◌, ◌/◌, ◌%◌, ◌≤◌, ◌<◌, ◌≡◌, refl, arith}

-- The fuel beyond the number itself does not matter.
more_fuel :
    (n m a b : ℕ) → a ≤ n → a ≤ m → digits (λ y. y) differ n a b ≡ digits (λ y. y) differ m a b
more_fuel zero zero a b p q = refl
more_fuel zero (suc m) zero b p q = refl
more_fuel (suc n) zero zero b p q = refl
more_fuel (suc n) (suc m) zero b p q = refl
more_fuel zero (suc m) (suc a) b p q = absurd (omega arith)
more_fuel (suc n) zero (suc a) b p q = absurd (omega arith)
more_fuel (suc n) (suc m) (suc a) b p q =
    let half = more_fuel n m (suc a / 2) (b / 2) (omega arith) (omega arith) in omega (arith, half)

bit_xor-digit : (a b : ℕ) → bit_xor a b ≡ 2 * bit_xor (a / 2) (b / 2) + differ (a % 2) (b % 2)
bit_xor-digit zero b = omega (arith, bit_xor-bitwise zero b, bit_xor-bitwise zero (b / 2))
bit_xor-digit (suc a) b =
    let half = suc a / 2 in
    let fuel = more_fuel a half half (b / 2) (omega arith) (omega arith) in
    omega (arith, bit_xor-bitwise (suc a) b, bit_xor-bitwise half (b / 2), fuel)

differ_back : (x y : ℕ) → x < 2 → y < 2 → (differ x y < 2) × (differ (differ x y) y ≡ x)
differ_back zero zero p q = (omega arith, refl)
differ_back zero (suc zero) p q = (omega arith, refl)
differ_back (suc zero) zero p q = (omega arith, refl)
differ_back (suc zero) (suc zero) p q = (omega arith, refl)
differ_back (suc (suc x)) y p q = absurd (omega arith)
differ_back x (suc (suc y)) p q = absurd (omega arith)

xor_back : (n a b : ℕ) → a ≤ n → b ≤ n → bit_xor (bit_xor a b) b ≡ a
xor_back zero zero zero p q = refl
xor_back zero (suc a) b p q = absurd (omega arith)
xor_back zero a (suc b) p q = absurd (omega arith)
xor_back (suc n) a b p q =
    let x = bit_xor a b in
    let (below, back) = differ_back (a % 2) (b % 2) (omega arith) (omega arith) in
    let first = bit_xor-digit a b in
    let half : x / 2 ≡ bit_xor (a / 2) (b / 2) = omega (arith, first, below) in
    let digit : x % 2 ≡ differ (a % 2) (b % 2) = omega (arith, first, below) in
    let second = rw (half, digit) at (bit_xor-digit x b) in
    omega (arith, second, back, xor_back n (a / 2) (b / 2) (omega arith) (omega arith))

-- The exclusive or with the same number twice gives the first number back.
pub bit_xor_back : (a b : ℕ) → bit_xor (bit_xor a b) b ≡ a
bit_xor_back a b = xor_back (a + b) a b (omega arith) (omega arith)
