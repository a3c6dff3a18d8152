-- ===== src/Vdev/Delivery/Lrs.antt =====
-- What a list register holds, as its writers leave it (vgic_delivery.hpp, `make_lr`).
use novavisor.Base.{ℕ, ◌+◌, ◌*◌, ◌/◌, ◌%◌, ◌^◌, ◌<◌, bit_and, bit_or}
use novavisor.Base.{◌≡◌, refl, sym, ap, ◌∙◌}
use novavisor.Base.{Bool, true, false, not}
use novavisor.Base.{arith}
use novavisor.Base.{◌==◌, if◌then◌else◌}
use novavisor.Base.{bit, bit-bit_and, bit-bit_or, bit-pow}
use novavisor.Base.{bit-ext}
use novavisor.Base.{bit_and-ones}
use novavisor.Base.{bit_or-fields}
use novavisor.Base.{bit-div, bit_and-field}
use novavisor.Vdev.Delivery.{lr_state_mask, lr_state_pending, lr_group1}
use novavisor.Vdev.Delivery.{lr_priority_shift, lr_eoi, lr_vintid_mask, make_lr, lr_in_flight}
use novavisor.Vdev.Delivery.{lr_vintid}

-- The fields lie side by side, so the register is their sum.
pub make_lr-sum :
    (v p : ℕ) (e : Bool)
    → v < 2 ^ 32
    → p < 256
    → make_lr v p e ≡ 5 * 2 ^ 60 + p * 2 ^ 48 + (if e then 2 ^ 41 else 0) + v
unfolding make_lr
make_lr-sum v p e hv hp =
    let a : bit_or lr_state_pending lr_group1 ≡ 5 * 2 ^ 60 = refl in
    let b = bit_or-fields 60 5 (p * 2 ^ 48) (omega arith) in
    let m = if e then lr_eoi else 0 in
    let hm : (m < 2 ^ 42) × (m ≡ (if e then 2 ^ 9 else 0) * 2 ^ 32) = ground arith in
    let c = bit_or-fields 48 (5 * 2 ^ 12 + p) m (omega (arith, hm)) in
    let cs : bit_or (5 * 2 ^ 60 + p * 2 ^ 48) m ≡ 5 * 2 ^ 60 + p * 2 ^ 48 + m =
      ap (λ t. bit_or t m) {x = 5 * 2 ^ 60 + p * 2 ^ 48} {y = (5 * 2 ^ 12 + p) * 2 ^ 48}
        (omega arith)
      ∙ c
      ∙ omega arith in
    let k = (5 * 2 ^ 12 + p) * 2 ^ 16 + (if e then 2 ^ 9 else 0) in
    let ks : 5 * 2 ^ 60 + p * 2 ^ 48 + m ≡ k * 2 ^ 32 = ground arith in
    ap (λ t. bit_or (bit_or (bit_or t (p * 2 ^ 48)) m) v) a
    ∙ ap (λ t. bit_or (bit_or t m) v) b
    ∙ ap (λ t. bit_or t v) (cs ∙ ks)
    ∙ bit_or-fields 32 k v hv
    ∙ ground arith

-- A list register gives back the INTID, the priority and the EOI mark that it was built from.
pub make_lr_roundtrip :
    (v p : ℕ) (e : Bool)
    → v < 2 ^ 32
    → p < 256
    → (lr_in_flight (make_lr v p e) ≡ true)
      × (lr_vintid (make_lr v p e) ≡ v)
      × (make_lr v p e / 2 ^ lr_priority_shift % 256 ≡ p)
      × (bit (make_lr v p e) 41 ≡ e)
      × (bit_and (make_lr v p e) lr_state_mask ≡ lr_state_pending)
unfolding lr_in_flight lr_vintid bit
make_lr_roundtrip v p e hv hp =
    let s = make_lr-sum v p e hv hp in
    let r = make_lr v p e in
    let top : r / 2 ^ 62 ≡ 1 = ground arith in
    let state : bit_and r lr_state_mask ≡ lr_state_pending =
      bit_and-field 62 r 3 ∙ ap (λ t. bit_and t 3 * 2 ^ 62) top in
    let mark : r / 2 ^ 41 % 2 ≡ (if e then 1 else 0) = ground arith in
    (
      rw state refl,
      bit_and-ones 32 r ∙ ground arith,
      ground arith,
      sym (bit-div r 41 0) ∙ ground arith,
      state,
    )

-- Arming the maintenance changes neither the INTID nor the state.
pub lr_vintid-arm : (x : ℕ) → lr_vintid (bit_or x lr_eoi) ≡ lr_vintid x
unfolding lr_vintid
lr_vintid-arm x =
    let a = bit_or x lr_eoi in
    let lo = bit_and-ones 32 a in
    let lo' = bit_and-ones 32 x in
    bit-ext 32 (bit_and a lr_vintid_mask) (bit_and x lr_vintid_mask) (omega (arith, lo))
      (omega (arith, lo'))
      (λ i hi. ground (
        arith,
        bit-bit_and a lr_vintid_mask i,
        bit-bit_and x lr_vintid_mask i,
        bit-bit_or x lr_eoi i,
        bit-pow 41 i,
      ))

pub lr_in_flight-arm : (x : ℕ) → lr_in_flight (bit_or x lr_eoi) ≡ lr_in_flight x
unfolding lr_in_flight
lr_in_flight-arm x =
    let a = bit_or x lr_eoi in
    let high : bit_and (a / 2 ^ 62) 3 ≡ bit_and (x / 2 ^ 62) 3 =
      bit-ext 2 (bit_and (a / 2 ^ 62) 3) (bit_and (x / 2 ^ 62) 3)
        (omega (arith, bit_and-ones 2 (a / 2 ^ 62))) (omega (arith, bit_and-ones 2 (x / 2 ^ 62)))
        (λ i hi. ground (
          arith,
          bit-bit_and (a / 2 ^ 62) 3 i,
          bit-bit_and (x / 2 ^ 62) 3 i,
          bit-div a 62 i,
          bit-div x 62 i,
          bit-bit_or x lr_eoi (62 + i),
          bit-pow 41 (62 + i),
        )) in
    ap (λ t. not (t == 0))
      (bit_and-field 62 a 3 ∙ ap (λ t. t * 2 ^ 62) high ∙ sym (bit_and-field 62 x 3))

pub bit-arm : (x : ℕ) → bit (bit_or x lr_eoi) 41 ≡ true
bit-arm x = ground (arith, bit-bit_or x lr_eoi 41, bit-pow 41 41)

pub lr_in_flight-zero : lr_in_flight 0 ≡ false
unfolding lr_in_flight
lr_in_flight-zero = refl
