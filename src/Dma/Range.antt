-- ===== src/Dma/Range.antt =====
-- Address ranges without overflow: src/nova/range.hpp. A range is `[base, base + size)`.
use novavisor.Base.{ℕ, ◌+◌, ◌-◌, ◌^◌, ◌≤◌, ◌<◌}
use novavisor.Base.{◌≡◌, ◌↔◌}
use novavisor.Base.{Bool, true, false, not, ◌&&◌, ◌||◌}
use novavisor.Base.{arith, dec_le}
use novavisor.Base.{ltb, leb, ◌==◌, if◌then◌else◌}

-- `std::numeric_limits<std::uint64_t>::max() - (size - 1U)` is a subtraction of words without borrow.
abbrev pub range_well_formed : ℕ → ℕ → Bool
range_well_formed base size = not (size == 0) && leb base (2 ^ 64 - 1 - (size - 1))

abbrev pub ranges_overlap : ℕ → ℕ → ℕ → ℕ → Bool
ranges_overlap lhs_base lhs_size rhs_base rhs_size =
    if (lhs_size == 0) || (rhs_size == 0)
    then false
    else if leb lhs_base rhs_base
    then ltb (rhs_base - lhs_base) lhs_size
    else ltb (lhs_base - rhs_base) rhs_size

abbrev pub range_contains : ℕ → ℕ → ℕ → ℕ → Bool
range_contains base size sub len = leb len size && leb base sub && leb (sub - base) (size - len)

-- The addresses of a range.
abbrev pub InRange : ℕ → ℕ → ℕ → Type 0
InRange base size a = (base ≤ a) × (a < base + size)

-- The overlap test says exactly whether the two ranges share an address.
pub ranges_overlap-InRange :
    (b s c t : ℕ) → (ranges_overlap b s c t ≡ true) ↔ ((a : ℕ) × InRange b s a × InRange c t a)
ranges_overlap-InRange b s c t = (
  (λ h. elim (dec_le b c) [
    | yes p ↦ (c, ground arith, ground arith)
    | no p ↦ (b, ground arith, ground arith)
  ]),
  (λ (a, p, q). ground (arith, p, q)),
)

-- The containment test says exactly whether a non-empty request lies inside the range.
pub range_contains-InRange :
    (b s c t : ℕ)
    → 0 < t
    → (range_contains b s c t ≡ true) ↔ ((a : ℕ) → InRange c t a → InRange b s a)
range_contains-InRange b s c t h = (
  (λ e a p. ground (arith, p)),
  (λ all.
      let low = all c (omega arith, omega arith) in
      let high = all (c + (t - 1)) (omega arith, omega arith) in ground (arith, low, high)),
)
