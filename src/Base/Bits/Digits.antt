-- ===== src/Base/Bits/Digits.antt =====
-- `&`, `|` and `^` by halving: the library defines them through a recursion with fuel on the digits.
use Prim.Native.Nat.{
  ℕ, zero, suc, ◌+◌, ◌*◌, ◌/◌, ◌%◌, ◌≤◌, min, max, bit_and, bit_or, bit_xor, digits,
}
use Prim.Native.Nat.{bit_and-bitwise, bit_or-bitwise, bit_xor-bitwise, differ}
use mathlib.Core.Path.{◌≡◌, refl}
use native.Mathlib.Nat.{le_refl}
use native.Mathlib.Omega.{arith}

-- Any fuel of at least the first number gives the same digits.
enough_fuel :
    (z : ℕ → ℕ) (f : ℕ → ℕ → ℕ) (k l x y : ℕ) → x ≤ k → x ≤ l → digits z f k x y ≡ digits z f l x y
enough_fuel z f zero zero x y hk hl = refl
enough_fuel z f zero (suc l) zero y hk hl = refl
enough_fuel z f (suc k) zero zero y hk hl = refl
enough_fuel z f (suc k) (suc l) zero y hk hl = refl
enough_fuel z f zero (suc l) (suc x) y hk hl = elim hk [ ]
enough_fuel z f (suc k) zero (suc x) y hk hl = elim hl [ ]
enough_fuel z f (suc k) (suc l) (suc x) y hk hl =
    rw (enough_fuel z f k l (suc x / 2) (y / 2) (omega arith) (omega arith))

pub zero-bit_and : (y : ℕ) → bit_and 0 y ≡ 0
zero-bit_and y = bit_and-bitwise 0 y

pub zero-bit_or : (y : ℕ) → bit_or 0 y ≡ y
zero-bit_or y = bit_or-bitwise 0 y

pub bit_and-halves : (x y : ℕ) → bit_and x y ≡ bit_and (x / 2) (y / 2) * 2 + min (x % 2) (y % 2)
bit_and-halves zero y = omega (arith, zero-bit_and y, zero-bit_and (y / 2))
bit_and-halves (suc x) y = omega (
  arith,
  bit_and-bitwise (suc x) y,
  bit_and-bitwise (suc x / 2) (y / 2),
  enough_fuel (λ t. 0) min x (suc x / 2) (suc x / 2) (y / 2) (omega arith) (le_refl _),
)

pub bit_or-halves : (x y : ℕ) → bit_or x y ≡ bit_or (x / 2) (y / 2) * 2 + max (x % 2) (y % 2)
bit_or-halves zero y = omega (arith, zero-bit_or y, zero-bit_or (y / 2))
bit_or-halves (suc x) y = omega (
  arith,
  bit_or-bitwise (suc x) y,
  bit_or-bitwise (suc x / 2) (y / 2),
  enough_fuel (λ t. t) max x (suc x / 2) (suc x / 2) (y / 2) (omega arith) (le_refl _),
)

pub zero-bit_xor : (y : ℕ) → bit_xor 0 y ≡ y
zero-bit_xor y = bit_xor-bitwise 0 y

pub bit_xor-halves : (x y : ℕ) → bit_xor x y ≡ bit_xor (x / 2) (y / 2) * 2 + differ (x % 2) (y % 2)
bit_xor-halves zero y = omega (arith, zero-bit_xor y, zero-bit_xor (y / 2))
bit_xor-halves (suc x) y = omega (
  arith,
  bit_xor-bitwise (suc x) y,
  bit_xor-bitwise (suc x / 2) (y / 2),
  enough_fuel (λ t. t) differ x (suc x / 2) (suc x / 2) (y / 2) (omega arith) (le_refl _),
)
