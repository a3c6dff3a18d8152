-- ===== src/Base/Words.antt =====
-- Laws of single bits, fields and the lowest set bit of a word.
use Prim.Native.Nat.{ℕ, zero, suc, ◌+◌, ◌-◌, ◌*◌, ◌/◌, ◌%◌, ◌^◌, ◌≤◌, ◌<◌, bit_and, bit_or}
use mathlib.Core.Path.{◌≡◌, sym, ap, ◌∙◌}
use mathlib.Core.Bool.{not, ◌&&◌}
use native.Mathlib.Omega.{arith}
use native.Mathlib.Nat.{pow-suc, div-div-eq-div-mul}
use native.Mathlib.Decide.{dec_lt}
use novavisor.Base.Tests.{leb, ◌==◌}
use novavisor.Base.Bits.{bit, bit_not, bit-bit_and, bit-bit_not, bit-pow}
use novavisor.Base.Bits.{bit-above, ne_zero_of_bit}
use novavisor.Base.Bits.{bit_and-pow, pow_lt, bit_and_comm}
use novavisor.Base.Bits.Digits.{bit_or-halves, zero-bit_or, bit_and-halves}

bit_or-zero_fuel : (n x : ℕ) → x ≤ n → bit_or x 0 ≡ x
bit_or-zero_fuel n zero h = zero-bit_or 0
bit_or-zero_fuel zero (suc x) h = elim h [ ]
bit_or-zero_fuel (suc n) (suc x) h =
    omega (arith, bit_or-halves (suc x) 0, bit_or-zero_fuel n (suc x / 2) (omega arith))

pub bit_or-zero : (x : ℕ) → bit_or x 0 ≡ x
bit_or-zero x = bit_or-zero_fuel x x (omega arith)

-- `a << k | b` for a field `b` of `k` bits is a sum.
pub bit_or-fields : (k a b : ℕ) → b < 2 ^ k → bit_or (a * 2 ^ k) b ≡ a * 2 ^ k + b
bit_or-fields zero a b h = let e : b ≡ 0 = omega arith in rw (e, bit_or-zero) (omega arith)
bit_or-fields (suc k) a b h =
    let half : a * 2 ^ suc k / 2 ≡ a * 2 ^ k = simp (pow-suc) (grind arith) in
    let even : a * 2 ^ suc k % 2 ≡ 0 = simp (pow-suc) (grind arith) in
    let ih = bit_or-fields k a (b / 2) (omega (arith, pow-suc 2 k)) in
    omega (arith, bit_or-halves (a * 2 ^ suc k) b, ap (λ t. bit_or t (b / 2)) half, half, even, ih)

-- `x & (1 << k)` is 0 just when the bit is clear.
pub bit_and-test : (w x k : ℕ) → x < 2 ^ w → k < w → (bit_and x (2 ^ k) == 0) ≡ not (bit x k)
bit_and-test w x k h l =
    let small = pow_lt k w l in
    let e = bit_and_comm w x (2 ^ k) h small ∙ bit_and-pow w k x l in
    ground (arith, e, ne_zero_of_bit (2 ^ k) k (bit-pow k k ∙ ground arith))

-- `x & ~y`
pub bit-minus :
    (w x y i : ℕ)
    → x < 2 ^ w
    → y < 2 ^ w
    → bit (bit_and x (bit_not w y)) i ≡ (bit x i && not (bit y i))
bit-minus w x y i h l = elim (dec_lt i w) [
  | yes p ↦ bit-bit_and x (bit_not w y) i ∙ ground (arith, bit-bit_not w y i l p)
  | no p ↦ bit-bit_and x (bit_not w y) i ∙ ground (arith, bit-above w x i h (omega arith))
]

-- `x & ~(1 << k)` drops that bit alone.
pub bit-clear :
    (w x k i : ℕ)
    → x < 2 ^ w
    → k < w
    → bit (bit_and x (bit_not w (2 ^ k))) i ≡ (bit x i && not (k == i))
bit-clear w x k i h l = bit-minus w x (2 ^ k) i h (pow_lt k w l) ∙ ground (arith, bit-pow k i)

-- The bits of a shift, to the left and to the right.
pub bit-shift : (x k i : ℕ) → bit (x * 2 ^ k) i ≡ (leb k i && bit x (i - k))
unfolding bit
bit-shift x zero i = ap (λ t. bit t i) {x = x * 1} {y = x} (omega arith) ∙ ground arith
bit-shift x (suc k) zero =
    let even : x * 2 ^ suc k % 2 ≡ 0 = simp (pow-suc) (grind arith) in ground arith
bit-shift x (suc k) (suc i) =
    let half : x * 2 ^ suc k / 2 ≡ x * 2 ^ k = simp (pow-suc) (grind arith) in
    ap (λ t. bit t i) half ∙ bit-shift x k i ∙ ground arith

div_pow-suc : (k x : ℕ) → x / 2 ^ suc k ≡ x / 2 / 2 ^ k
div_pow-suc k x = sym (
    div-div-eq-div-mul x 2 (2 ^ k)
    ∙ ap (λ t. x / t) {x = 2 * 2 ^ k} {y = 2 ^ suc k} (omega (arith, pow-suc 2 k)))

pub bit-div : (x k i : ℕ) → bit (x / 2 ^ k) i ≡ bit x (k + i)
unfolding bit
bit-div x zero i =
    ap (λ t. bit t i) {x = x / 1} {y = x} (omega arith)
    ∙ ap (bit x) {x = i} {y = 0 + i} (omega arith)
bit-div x (suc k) i =
    ap (λ t. bit t i) (div_pow-suc k x)
    ∙ bit-div (x / 2) k i
    ∙ ap (bit x) {x = suc (k + i)} {y = suc k + i} (omega arith)

-- A mask of the bits from `k` up tests the field there.
pub bit_and-field : (k x m : ℕ) → bit_and x (m * 2 ^ k) ≡ bit_and (x / 2 ^ k) m * 2 ^ k
bit_and-field zero x m =
    ap (λ t. bit_and x t) {x = m * 1} {y = m} (omega arith)
    ∙ ap (λ t. bit_and t m) {x = x} {y = x / 1} (omega arith)
    ∙ omega arith
bit_and-field (suc k) x m =
    let half : m * 2 ^ suc k / 2 ≡ m * 2 ^ k = simp (pow-suc) (grind arith) in
    let even : m * 2 ^ suc k % 2 ≡ 0 = simp (pow-suc) (grind arith) in
    let ih = bit_and-field k (x / 2) m in
    let e = ap (λ t. bit_and (x / 2) t) half in
    let nested = ap (λ t. bit_and t m) (div_pow-suc k x) in
    let q = bit_and (x / 2 ^ suc k) m in
    let halves : bit_and x (m * 2 ^ suc k) ≡ q * 2 ^ k * 2 =
      omega (
        arith,
        bit_and-halves x (m * 2 ^ suc k),
        even,
        e ∙ ih ∙ ap (λ t. t * 2 ^ k) (sym nested),
      ) in
    halves ∙ simp (pow-suc) (grind arith)
