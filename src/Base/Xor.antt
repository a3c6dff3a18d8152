-- ===== src/Base/Xor.antt =====
-- Exclusive or of words, and words that agree on their low bits.
use Prim.Native.Nat.{ℕ, zero, suc, ◌-◌, ◌/◌, ◌%◌, ◌^◌, ◌<◌, bit_xor, differ}
use mathlib.Core.Path.{◌≡◌, refl, sym, ap, ◌∙◌}
use mathlib.Core.Bool.{Bool, not, ◌&&◌}
use native.Mathlib.Omega.{arith}
use native.Mathlib.Nat.{pow-suc, mod-lt, one-le-pow}
use novavisor.Base.Tests.{◌==◌, if◌then◌else◌}
use novavisor.Base.Bits.{bit, bit-bit_and, bit-ext, bit_and-ones}
use novavisor.Base.Bits.Digits.{bit_xor-halves, zero-bit_xor}

differ-lt : (a b : ℕ) → a < 2 → b < 2 → differ a b < 2
differ-lt zero b h k = k
differ-lt (suc zero) zero h k = omega arith
differ-lt (suc zero) (suc zero) h k = omega arith
differ-lt (suc zero) (suc (suc b)) h k = absurd (omega arith)
differ-lt (suc (suc a)) b h k = absurd (omega arith)

-- Either, not both.
abbrev pub unequal : Bool → Bool → Bool
unequal a b = if a then not b else b

differ-test : (a b : ℕ) → a < 2 → b < 2 → (differ a b == 1) ≡ unequal (a == 1) (b == 1)
differ-test zero b h k = refl
differ-test (suc zero) zero h k = refl
differ-test (suc zero) (suc zero) h k = refl
differ-test (suc zero) (suc (suc b)) h k = absurd (omega arith)
differ-test (suc (suc a)) b h k = absurd (omega arith)

pub bit-bit_xor : (a b i : ℕ) → bit (bit_xor a b) i ≡ unequal (bit a i) (bit b i)
unfolding bit
bit-bit_xor a b zero =
    let small = differ-lt (a % 2) (b % 2) (omega arith) (omega arith) in
    let low : bit_xor a b % 2 ≡ differ (a % 2) (b % 2) = omega (arith, bit_xor-halves a b, small) in
    ap (λ t. t == 1) low ∙ differ-test (a % 2) (b % 2) (omega arith) (omega arith)
bit-bit_xor a b (suc i) =
    let small = differ-lt (a % 2) (b % 2) (omega arith) (omega arith) in
    let e : bit_xor a b / 2 ≡ bit_xor (a / 2) (b / 2) = omega (arith, bit_xor-halves a b, small) in
    rw e (bit-bit_xor (a / 2) (b / 2) i)

pub bit_xor-lt : (w a b : ℕ) → a < 2 ^ w → b < 2 ^ w → bit_xor a b < 2 ^ w
bit_xor-lt zero a b h k = let e : a ≡ 0 = omega arith in rw (e, zero-bit_xor) k
bit_xor-lt (suc w) a b h k = omega (
  arith,
  bit_xor-halves a b,
  pow-suc 2 w,
  differ-lt (a % 2) (b % 2) (omega arith) (omega arith),
  bit_xor-lt w (a / 2) (b / 2) (omega (arith, pow-suc 2 w)) (omega (arith, pow-suc 2 w)),
)

-- Words with the same low bits have the same remainder.
pub low_ext : (w x y : ℕ) → ((i : ℕ) → i < w → bit x i ≡ bit y i) → x % 2 ^ w ≡ y % 2 ^ w
low_ext w x y h =
    bit-ext w (x % 2 ^ w) (y % 2 ^ w) (mod-lt x {m = 2 ^ w} (one-le-pow w 2 (omega arith)))
      (mod-lt y {m = 2 ^ w} (one-le-pow w 2 (omega arith)))
      (λ i l.
        ap (λ t. bit t i) (sym (bit_and-ones w x))
        ∙ bit-bit_and x (2 ^ w - 1) i
        ∙ ap (λ b. b && bit (2 ^ w - 1) i) (h i l)
        ∙ sym (bit-bit_and y (2 ^ w - 1) i)
        ∙ ap (λ t. bit t i) (bit_and-ones w y))
