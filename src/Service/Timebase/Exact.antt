-- ===== src/Service/Timebase/Exact.antt =====
-- The conversions are exact (timebase.hpp): the split into seconds and rest neither overflows nor
-- rounds.
use novavisor.Base.{ℕ, ◌+◌, ◌*◌, ◌/◌, ◌%◌, ◌^◌, ◌≤◌, ◌<◌}
use novavisor.Base.{◌≡◌, sym, ap, ◌∙◌, inl, inr}
use novavisor.Base.{true, false}
use novavisor.Base.{arith, dec_le}
use novavisor.Base.{leb, if◌then◌else◌, Bool-cases}
use native.Mathlib.Nat.{mul-le-mul_left, mod-lt, div-add-mod', mul-add-div_right}
use native.Mathlib.Nat.{div-le_of_le-mul, mul_comm, le-div_iff_mul-le}
use novavisor.Service.Timebase.{refused, word_max, to_ticks, ms_to_ticks}
use novavisor.Service.Timebase.{us_to_ticks, deadline_after_ms}

product :
    (s m q r scale hz t : ℕ)
    → t ≡ s * scale + m
    → hz ≡ q * scale + r
    → t * hz ≡ (s * hz + q * m) * scale + r * m
product s m q r scale hz t et eh = rw (et, eh) (grind arith)

-- The split of the product.
split_product :
    (scale hz t : ℕ)
    → 0 < scale
    → t * hz / scale
      ≡ t / scale * hz + (hz / scale * (t % scale) + hz % scale * (t % scale) / scale)
split_product scale hz t h =
    let s = t / scale in
    let m = t % scale in
    let q = hz / scale in
    let r = hz % scale in
    let e = product s m q r scale hz t (sym (div-add-mod' t scale)) (sym (div-add-mod' hz scale)) in
    ap (λ x. x / scale) e ∙ mul-add-div_right h (s * hz + q * m) (r * m) ∙ omega arith

rest_small :
    (scale hz t : ℕ)
    → 0 < scale
    → (hz / scale * (t % scale) + hz % scale * (t % scale) / scale ≤ hz)
      × (hz / scale * (t % scale) ≤ hz)
      × (hz % scale * (t % scale) ≤ hz % scale * scale)
rest_small scale hz t h =
    let m = t % scale in
    let q = hz / scale in
    let r = hz % scale in
    let lt : m ≤ scale = omega (arith, mod-lt t {m = scale} h) in
    let a : q * m ≤ q * scale = mul-le-mul_left q lt in
    let b : r * m ≤ r * scale = mul-le-mul_left r lt in
    let c : r * m / scale ≤ r = div-le_of_le-mul scale (rw (mul_comm scale r) b) in
    let d = div-add-mod' hz scale in (omega arith, omega arith, b)

-- The plan is the exact quotient, rounded down, and is refused just when that does not fit.
to_ticks_exact :
    (scale hz t : ℕ)
    → 0 < scale
    → scale < 2 ^ 32
    → 0 < hz
    → hz < 2 ^ 64
    → to_ticks scale hz t ≡ (
        if leb (t * hz / scale) word_max
        then record { accepted = true; ticks = t * hz / scale }
        else refused)
to_ticks_exact scale hz t h hs pos small =
    let s = t / scale in
    let m = t % scale in
    let q = hz / scale in
    let r = hz % scale in
    let e = split_product scale hz t h in
    let (a, b, c) = rest_small scale hz t h in
    let rl : r < scale = mod-lt hz {m = scale} h in
    let rs : r * scale ≤ r * 2 ^ 32 = mul-le-mul_left r (omega arith) in
    let guard = le-div_iff_mul-le {k = hz} {x = s} {y = word_max} pos in
    elim (dec_le (s * hz) word_max) [
      | yes fits ↦ ground (arith, e, a, b, c, rl, rs, (guard).1 fits)
      | no over ↦ ground (arith, e, a, b, c, rl, rs, (guard).0)
    ]

-- At any rate of the counter but 0, a wait converts to the exact number of ticks, rounded down, and is refused just when that number needs more than 64 bits; a deadline is now plus that many ticks, and is refused just when either does not fit.
pub ticks_exact :
    (hz t now : ℕ)
    → 0 < hz
    → hz < 2 ^ 64
    → now < 2 ^ 64
    → (ms_to_ticks hz t ≡ (
        if leb (t * hz / 1000) word_max
        then record { accepted = true; ticks = t * hz / 1000 }
        else refused))
      × (us_to_ticks hz t ≡ (
          if leb (t * hz / 1000000) word_max
          then record { accepted = true; ticks = t * hz / 1000000 }
          else refused))
      × (deadline_after_ms now hz t ≡ (
          if leb (now + t * hz / 1000) word_max
          then record { accepted = true; deadline = now + t * hz / 1000 }
          else record { accepted = false; deadline = 0 }))
unfolding ms_to_ticks us_to_ticks deadline_after_ms
ticks_exact hz t now pos small l =
    let ms = to_ticks_exact 1000 hz t (omega arith) (omega arith) pos small in
    (
      ms,
      to_ticks_exact 1000000 hz t (omega arith) (omega arith) pos small,
      rw ms (elim (Bool-cases (leb (t * hz / 1000) word_max)) [
        | inl y ↦ rw y (ground arith)
        | inr f ↦ rw f (ground arith)
      ]),
    )
