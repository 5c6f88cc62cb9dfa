-- ===== src/Hash/Func.antt =====
-- HashFunc1 of hash.cpp, over keys of bytes below 128, where `char` has no sign.
use cpp_study.Base.{
  ℕ, zero, suc, ◌+◌, ◌-◌, ◌*◌, ◌/◌, ◌≤◌, ◌<◌, ◌≡◌, refl, arith, ◌==◌, if◌then◌else◌, get_or,
  Bool-cases, inl, inr,
}
use cpp_study.Base.Int.{ℤ, pos}
use cpp_study.Hash.Key.{Bytes}

-- The loop, with fuel: it ends where `len - 1` is below 0.
hash_loop : ℕ → Bytes → ℕ → ℕ → ℕ
hash_loop zero key res len = res
hash_loop (suc k) key res len =
    let rest = hash_loop k key (res + get_or key len 0 * len * len) (len / 2) in
    if len == 0 then res else rest

unfoldable pub hash_func1 : Bytes → ℕ → ℤ
unfolding hash_loop
hash_func1 key key_len = pos (hash_loop key_len key 1 (key_len - 1))

-- The fuel does not show: with more of it the loop gives the same.
hash_loop_fuel :
    (k extra : ℕ) (key : Bytes) (res len : ℕ)
    → len < k
    → hash_loop (k + extra) key res len ≡ hash_loop k key res len
unfolding hash_loop
hash_loop_fuel zero extra key res len h = absurd (omega arith)
hash_loop_fuel (suc k) extra key res len h =
    let e : suc k + extra ≡ suc (k + extra) = omega arith in
    rw e (elim (Bool-cases (len == 0)) [
      | inl t ↦ rw t
      | inr t ↦
          rw t (
            hash_loop_fuel k extra key (res + get_or key len 0 * len * len) (len / 2)
              (ground arith))
    ])

-- The five bytes of a key of 32 that the loop reads.
pub hash_func1_lem :
    (key : Bytes)
    → hash_func1 key 32
      ≡ pos (
          1
          + get_or key 31 0 * 31 * 31
          + get_or key 15 0 * 15 * 15
          + get_or key 7 0 * 7 * 7
          + get_or key 3 0 * 3 * 3
          + get_or key 1 0 * 1 * 1)
unfolding hash_func1
hash_func1_lem key = refl

-- HashFunc1 of a key of 32 bytes below 128 is at least 1 and no larger than 158116, so that it fits
-- an `int` and has no sign; and it is the same for any other key with the same bytes at 1, 3, 7, 15
-- and 31.
pub hash_func1_bounds :
    (key other : Bytes)
    → ((i : ℕ) → get_or key i 0 < 128)
    → get_or other 1 0 ≡ get_or key 1 0
    → get_or other 3 0 ≡ get_or key 3 0
    → get_or other 7 0 ≡ get_or key 7 0
    → get_or other 15 0 ≡ get_or key 15 0
    → get_or other 31 0 ≡ get_or key 31 0
    → (n : ℕ) × (hash_func1 key 32 ≡ pos n) × (1 ≤ n) × (n ≤ 158116) × (hash_func1 other 32 ≡ pos n)
hash_func1_bounds key other small e1 e3 e7 e15 e31 = (
  1
      + get_or key 31 0 * 31 * 31
      + get_or key 15 0 * 15 * 15
      + get_or key 7 0 * 7 * 7
      + get_or key 3 0 * 3 * 3
      + get_or key 1 0 * 1 * 1,
  hash_func1_lem key,
  omega arith,
  omega (arith, small 31, small 15, small 7, small 3, small 1),
  rw (hash_func1_lem other, e1, e3, e7, e15, e31),
)
