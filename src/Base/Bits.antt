-- ===== src/Base/Bits.antt =====
-- Machine words as sets of bits: the bit of a word, and the law of each of the C operators
-- `& | ~ << >>` for one bit.
pub mod Digits
pub use Digits.{zero-bit_and}
use Digits.{zero-bit_and, zero-bit_or, bit_and-halves, bit_or-halves}
use Prim.Native.Nat.{ℕ, zero, suc, ◌+◌, ◌-◌, ◌*◌, ◌/◌, ◌%◌, ◌^◌, ◌≤◌, ◌<◌, bit_and, bit_or}
use mathlib.Core.Path.{◌≡◌, refl, ap, ◌∙◌}
use mathlib.Core.Logic.{◌≢◌}
use mathlib.Core.Bool.{Bool, true, false, not, ◌&&◌, ◌||◌}
use native.Mathlib.Nat.{pow-suc, one-le-pow}
use native.Mathlib.Omega.{arith}
use native.Mathlib.Decide.{ℕ_discrete, dec_lt}
use novavisor.Base.Tests.{if◌then◌else◌, ◌==◌, ltb}

-- `(x >> i) & 1`
unfoldable pub bit : ℕ → ℕ → Bool
bit x zero = x % 2 == 1
bit x (suc i) = bit (x / 2) i

-- `~x` for a word of `w` bits
abbrev pub bit_not : ℕ → ℕ → ℕ
bit_not w x = 2 ^ w - 1 - x

pub bit-bit_and : (a b i : ℕ) → bit (bit_and a b) i ≡ (bit a i && bit b i)
unfolding bit
bit-bit_and a b zero = ground (arith, bit_and-halves a b)
bit-bit_and a b (suc i) =
    let e : bit_and a b / 2 ≡ bit_and (a / 2) (b / 2) = omega (arith, bit_and-halves a b) in
    rw e (bit-bit_and (a / 2) (b / 2) i)

pub bit-bit_or : (a b i : ℕ) → bit (bit_or a b) i ≡ (bit a i || bit b i)
unfolding bit
bit-bit_or a b zero = ground (arith, bit_or-halves a b)
bit-bit_or a b (suc i) =
    let e : bit_or a b / 2 ≡ bit_or (a / 2) (b / 2) = omega (arith, bit_or-halves a b) in
    rw e (bit-bit_or (a / 2) (b / 2) i)

-- The complement flips each bit of the word.
pub bit-bit_not : (w x i : ℕ) → x < 2 ^ w → i < w → bit (bit_not w x) i ≡ not (bit x i)
unfolding bit
bit-bit_not zero x i h k = absurd (omega arith)
bit-bit_not (suc w) x zero h k = ground (arith, pow-suc 2 w)
bit-bit_not (suc w) x (suc i) h k =
    let e : bit_not (suc w) x / 2 ≡ bit_not w (x / 2) = omega (arith, pow-suc 2 w) in
    rw e (bit-bit_not w (x / 2) i (omega (arith, pow-suc 2 w)) (omega arith))

pub bit-zero : (i : ℕ) → bit 0 i ≡ false
unfolding bit
bit-zero zero = refl
bit-zero (suc i) = bit-zero i

-- `1 << k` has bit `k` alone.
pub bit-pow : (k i : ℕ) → bit (2 ^ k) i ≡ (k == i)
unfolding bit
bit-pow zero zero = refl
bit-pow zero (suc i) = bit-zero i ∙ ground arith
bit-pow (suc k) zero = ground (arith, pow-suc 2 k)
bit-pow (suc k) (suc i) =
    let e : 2 ^ suc k / 2 ≡ 2 ^ k = omega (arith, pow-suc 2 k) in rw e (bit-pow k i ∙ ground arith)

-- A word of `w` bits has none at or above `w`.
pub bit-above : (w x i : ℕ) → x < 2 ^ w → w ≤ i → bit x i ≡ false
unfolding bit
bit-above zero x i h k = let e : x ≡ 0 = omega arith in rw e (bit-zero i)
bit-above (suc w) x zero h k = absurd (omega arith)
bit-above (suc w) x (suc i) h k = bit-above w (x / 2) i (omega (arith, pow-suc 2 w)) (omega arith)

-- Two words with the same bits are equal.
pub bit-ext : (w x y : ℕ) → x < 2 ^ w → y < 2 ^ w → ((i : ℕ) → i < w → bit x i ≡ bit y i) → x ≡ y
unfolding bit
bit-ext zero x y hx hy h = omega arith
bit-ext (suc w) x y hx hy h =
    let half =
      bit-ext w (x / 2) (y / 2) (omega (arith, pow-suc 2 w)) (omega (arith, pow-suc 2 w))
        (λ i hi. h (suc i) (omega arith)) in
    ground (arith, half, h 0 (omega arith))

-- A word with a bit set is not 0.
pub ne_zero_of_bit : (x i : ℕ) → bit x i ≡ true → x ≢ 0
unfolding bit
ne_zero_of_bit x i h e = let z = bit-zero i in cc (ap (λ k. bit k i) e)

-- `&` stays within the width of either side, `|` within that of both.
pub bit_and-lt : (w a b : ℕ) → a < 2 ^ w → bit_and a b < 2 ^ w
bit_and-lt zero a b h = let e : a ≡ 0 = omega arith in rw (e, zero-bit_and) (omega arith)
bit_and-lt (suc w) a b h = omega (
  arith,
  bit_and-halves a b,
  pow-suc 2 w,
  bit_and-lt w (a / 2) (b / 2) (omega (arith, pow-suc 2 w)),
)

pub bit_or-lt : (w a b : ℕ) → a < 2 ^ w → b < 2 ^ w → bit_or a b < 2 ^ w
bit_or-lt zero a b h k = let e : a ≡ 0 = omega arith in rw (e, zero-bit_or) k
bit_or-lt (suc w) a b h k = omega (
  arith,
  bit_or-halves a b,
  pow-suc 2 w,
  bit_or-lt w (a / 2) (b / 2) (omega (arith, pow-suc 2 w)) (omega (arith, pow-suc 2 w)),
)

bit_and-zero_fuel : (n x : ℕ) → x ≤ n → bit_and x 0 ≡ 0
bit_and-zero_fuel n zero h = zero-bit_and 0
bit_and-zero_fuel zero (suc x) h = elim h [ ]
bit_and-zero_fuel (suc n) (suc x) h =
    omega (arith, bit_and-halves (suc x) 0, bit_and-zero_fuel n (suc x / 2) (omega arith))

pub bit_and-zero : (x : ℕ) → bit_and x 0 ≡ 0
bit_and-zero x = bit_and-zero_fuel x x (omega arith)

mod-two_mul : (p x : ℕ) → 0 < p → (x / 2 % p) * 2 + x % 2 ≡ x % (2 * p)
mod-two_mul p x h = grind arith

-- `x & (2 ^ k - 1)` is the remainder by `2 ^ k`.
pub bit_and-ones : (k x : ℕ) → bit_and x (2 ^ k - 1) ≡ x % 2 ^ k
bit_and-ones zero x = rw bit_and-zero (omega arith)
bit_and-ones (suc k) x =
    let e : (2 ^ suc k - 1) / 2 ≡ 2 ^ k - 1 = omega (arith, pow-suc 2 k) in
    let ih : bit_and (x / 2) ((2 ^ suc k - 1) / 2) ≡ x / 2 % 2 ^ k =
      rw e (bit_and-ones k (x / 2)) in
    let low : bit_and x (2 ^ suc k - 1) ≡ x % (2 * 2 ^ k) = omega (
      arith,
      bit_and-halves x (2 ^ suc k - 1),
      ih,
      pow-suc 2 k,
      one-le-pow k 2,
      mod-two_mul (2 ^ k) x (one-le-pow k 2 (omega arith)),
    ) in
    low ∙ ap (λ t. x % t) (omega (arith, pow-suc 2 k))

pub pow_lt : (a b : ℕ) → a < b → 2 ^ a < 2 ^ b
pow_lt a zero l = absurd (omega arith)
pow_lt zero (suc b) l = omega (arith, pow-suc 2 b, one-le-pow b 2 (omega arith))
pow_lt (suc a) (suc b) l = omega (arith, pow-suc 2 a, pow-suc 2 b, pow_lt a b (omega arith))

-- `x & (1 << k)` is that bit alone.
pub bit_and-pow : (w k x : ℕ) → k < w → bit_and (2 ^ k) x ≡ (if bit x k then 2 ^ k else 0)
bit_and-pow w k x h =
    let small : 2 ^ k < 2 ^ w = pow_lt k w h in
    bit-ext w (bit_and (2 ^ k) x) (if bit x k then 2 ^ k else 0) (bit_and-lt w (2 ^ k) x small)
      (ground (arith, small))
      (λ i j. elim (ℕ_discrete k i) [
        | yes e ↦ ground (arith, bit-bit_and (2 ^ k) x i, bit-pow k i, bit-zero i, ap (bit x) e)
        | no n ↦ ground (arith, bit-bit_and (2 ^ k) x i, bit-pow k i, bit-zero i)
      ])

-- `(1 << k) - 1` has the bits below `k`.
pub bit-ones : (k i : ℕ) → bit (2 ^ k - 1) i ≡ ltb i k
bit-ones k i = elim (dec_lt i k) [
  | yes h ↦
      ap (λ x. bit x i) {x = 2 ^ k - 1} {y = bit_not k 0} (omega arith)
      ∙ bit-bit_not k 0 i (one-le-pow k 2 (omega arith)) h
      ∙ ground (arith, bit-zero i)
  | no h ↦ bit-above k (2 ^ k - 1) i (omega (arith, one-le-pow k 2)) (omega arith) ∙ ground arith
]

pub bit_and_comm : (w a b : ℕ) → a < 2 ^ w → b < 2 ^ w → bit_and a b ≡ bit_and b a
bit_and_comm w a b h k =
    bit-ext w (bit_and a b) (bit_and b a) (bit_and-lt w a b h) (bit_and-lt w b a k)
      (λ i j. ground (arith, bit-bit_and a b i, bit-bit_and b a i))
