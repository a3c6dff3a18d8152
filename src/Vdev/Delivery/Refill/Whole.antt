-- ===== src/Vdev/Delivery/Refill/Whole.antt =====
-- `refill` as a whole (vgic_delivery.hpp): the candidates are the wanted interrupts that are not
-- in flight, and those in flight have their register armed.
use novavisor.Base.{ℕ, suc, ◌+◌, ◌^◌, ◌<◌, bit_and, bit_or}
use novavisor.Base.{◌≡◌, refl, sym, ap, ◌∙◌, ◌⊎◌, inl, inr}
use novavisor.Base.{true, false, not, ◌&&◌, List}
use novavisor.Base.{arith, dec_lt}
use novavisor.Base.{ltb, leb, ◌==◌, if◌then◌else◌, Bool-cases}
use novavisor.Base.{length, get_or}
use novavisor.Base.{bit, bit_not, bit-bit_and}
use novavisor.Base.{bit-above, ne_zero_of_bit, bit_and-lt}
use novavisor.Base.{bit_and-test, bit-minus}
use novavisor.Vdev.Delivery.{lr_eoi, lr_in_flight}
use novavisor.Vdev.Delivery.{lr_vintid}
use novavisor.Vdev.Delivery.{arm_from}
use novavisor.Vdev.Delivery.{Bank}
use novavisor.Vdev.Delivery.{wanted, refill}
use novavisor.Vdev.Gic.Offsets.{max_intid}
use novavisor.Vdev.Delivery.Lrs.{lr_vintid-arm, lr_in_flight-arm}
use novavisor.Vdev.Delivery.Lrs.{bit-arm}
use novavisor.Vdev.Delivery.Scan.{Busy, Carries, Holds, in_flight, in_flight-lt, Holds-of_bit}
use novavisor.Vdev.Delivery.Scan.{bit-of_Holds, held_back, length-arm_from, get_or-arm_from}
use novavisor.Vdev.Delivery.Wanted.{wanted-lt}
use novavisor.Vdev.Delivery.Refill.{IsBank}
use novavisor.Vdev.Delivery.Refill.{AreCandidates, IsRefilled}
use novavisor.Vdev.Delivery.Refill.Loop.{free_count-le, refill_loop-IsRefilled}

module _ (n : ℕ) (b : Bank) (vcpu vcpus : ℕ) (v : IsBank n b) where
  abbrev want : ℕ
  want = wanted b vcpu vcpus

  abbrev pub armed_lrs : List ℕ
  armed_lrs =
      if bit_and want (in_flight b.cpu.lr n) == 0 then b.cpu.lr else arm_from want 0 n b.cpu.lr

  abbrev pub armed : Bank
  armed = record b { cpu = record b.cpu { lr = armed_lrs } }

  abbrev pub cands : ℕ
  cands = bit_and want (bit_not 64 (in_flight b.cpu.lr n))

  pub want_lt : want < 2 ^ 64
  want_lt = wanted-lt b vcpu vcpus v.private_word v.spi_word

  -- Arming keeps the state and the INTID of every register.
  pub armed_same :
      (j : ℕ)
      → (lr_in_flight (get_or armed_lrs j 0) ≡ lr_in_flight (get_or b.cpu.lr j 0))
        × (lr_vintid (get_or armed_lrs j 0) ≡ lr_vintid (get_or b.cpu.lr j 0))
  armed_same j = elim (Bool-cases (bit_and want (in_flight b.cpu.lr n) == 0)) [
    | inl t ↦ rw t (refl, refl)
    | inr f ↦ rw f (
        rw (get_or-arm_from want 0 n b.cpu.lr j (omega (arith, v.slots)))
          (elim (Bool-cases (leb 0 j && ltb j (0 + n) && held_back want (get_or b.cpu.lr j 0))) [
            | inl t ↦
                rw t (lr_in_flight-arm (get_or b.cpu.lr j 0), lr_vintid-arm (get_or b.cpu.lr j 0))
            | inr g ↦ rw g (refl, refl)
          ]))
  ]

  -- Each register is as it was, or has the mark besides.
  armed_value :
      (j : ℕ)
      → (get_or armed_lrs j 0 ≡ get_or b.cpu.lr j 0)
        ⊎ (get_or armed_lrs j 0 ≡ bit_or (get_or b.cpu.lr j 0) lr_eoi)
  armed_value j = elim (Bool-cases (bit_and want (in_flight b.cpu.lr n) == 0)) [
    | inl t ↦ rw t (inl refl)
    | inr f ↦ rw f (
        rw (get_or-arm_from want 0 n b.cpu.lr j (omega (arith, v.slots)))
          (elim (Bool-cases (leb 0 j && ltb j (0 + n) && held_back want (get_or b.cpu.lr j 0))) [
            | inl t ↦ rw t (inr refl)
            | inr g ↦ rw g (inl refl)
          ]))
  ]

  armed_length : length armed_lrs ≡ length b.cpu.lr
  armed_length = elim (Bool-cases (bit_and want (in_flight b.cpu.lr n) == 0)) [
    | inl t ↦ rw t refl
    | inr f ↦ rw f (length-arm_from want 0 n b.cpu.lr)
  ]

  pub Carries-before : (j id : ℕ) → Carries armed_lrs j id → Carries b.cpu.lr j id
  Carries-before j id (t, e) = let (s, w) = armed_same j in (sym s ∙ t, sym w ∙ e)

  pub Carries-after : (j id : ℕ) → Carries b.cpu.lr j id → Carries armed_lrs j id
  Carries-after j id (t, e) = let (s, w) = armed_same j in (s ∙ t, w ∙ e)

  -- A register that holds back a wanted interrupt is armed.
  armed_mark :
      (j id : ℕ)
      → j < n
      → Carries b.cpu.lr j id
      → bit want id ≡ true
      → bit (get_or armed_lrs j 0) 41 ≡ true
  armed_mark j id l (t, e) w =
      let small : id < max_intid = elim (dec_lt id 64) [
        | yes s ↦ s
        | no ge ↦ absurd (cc (bit-above 64 want id want_lt (omega arith)))
      ] in
      let both =
        bit-bit_and want (in_flight b.cpu.lr n) id
        ∙ ground (arith, w, bit-of_Holds b.cpu.lr n id small (j, l, (t, e))) in
      let ne = ne_zero_of_bit (bit_and want (in_flight b.cpu.lr n)) id both in
      let off : (bit_and want (in_flight b.cpu.lr n) == 0) ≡ false = ground arith in
      let test =
        bit_and-test 64 want (lr_vintid (get_or b.cpu.lr j 0)) want_lt (omega (arith, e, small)) in
      let held : (leb 0 j && ltb j (0 + n) && held_back want (get_or b.cpu.lr j 0)) ≡ true =
        ground (arith, test, ap (bit want) e, w, t, e, small, l) in
      rw off (
        rw (get_or-arm_from want 0 n b.cpu.lr j (omega (arith, v.slots)))
          (rw held (bit-arm (get_or b.cpu.lr j 0))))

  armed-IsBank : IsBank n armed
  armed-IsBank = record {
    slots = omega (arith, armed_length, v.slots);
    slot_tokens = v.slot_tokens ∙ sym armed_length;
    spis = v.spis;
    private_word = v.private_word;
    spi_word = v.spi_word;
    bytes = v.bytes;
    distinct = λ i j id hi hj ci cj.
        v.distinct i j id hi hj (Carries-before i id ci) (Carries-before j id cj);
  }

  pub cands-bit : (id : ℕ) → bit cands id ≡ (bit want id && not (bit (in_flight b.cpu.lr n) id))
  cands-bit id = bit-minus 64 want (in_flight b.cpu.lr n) id want_lt (in_flight-lt b.cpu.lr n)

  armed-AreCandidates : AreCandidates n cands armed
  armed-AreCandidates = record {
    word = bit_and-lt 64 want (bit_not 64 (in_flight b.cpu.lr n)) want_lt;
    fresh = λ id t (j, l, c).
        let small : id < max_intid = elim (dec_lt id 64) [
          | yes s ↦ s
          | no ge ↦ absurd (
              cc (
                bit-above 64 cands id
                  (bit_and-lt 64 want (bit_not 64 (in_flight b.cpu.lr n)) want_lt) (omega arith)))
        ] in
        absurd (
          ground (
            arith,
            cands-bit id,
            t,
            bit-of_Holds b.cpu.lr n id small (j, l, Carries-before j id c),
          ));
  }

  -- The loop runs to its end over the candidates, from the armed registers.
  pub refill-IsRefilled : IsRefilled n cands armed (refill b n vcpu vcpus)
  unfolding refill
  refill-IsRefilled =
      refill_loop-IsRefilled (suc n) n cands armed armed-IsBank armed-AreCandidates
        (omega (arith, free_count-le armed_lrs n))

  -- Not in flight before, and wanted.
  pub cands_of : (id : ℕ) → bit want id ≡ true → (Holds b.cpu.lr n id) ⊎ (bit cands id ≡ true)
  cands_of id w = elim (Bool-cases (bit (in_flight b.cpu.lr n) id)) [
    | inl t ↦ inl (Holds-of_bit b.cpu.lr n id t)
    | inr f ↦ inr (cands-bit id ∙ ground arith)
  ]

  pub stays_held : (id : ℕ) → Holds b.cpu.lr n id → Holds (refill b n vcpu vcpus).0.cpu.lr n id
  stays_held id (j, l, c) =
      let (t, e) = Carries-after j id c in
      let s = refill-IsRefilled.stays j l t in (j, l, (rw s t, rw s e))

  pub stays_armed :
      (j id : ℕ)
      → j < n
      → Carries b.cpu.lr j id
      → bit want id ≡ true
      → Carries (refill b n vcpu vcpus).0.cpu.lr j id
        × (bit (get_or (refill b n vcpu vcpus).0.cpu.lr j 0) 41 ≡ true)
  stays_armed j id l c w =
      let (t, e) = Carries-after j id c in
      let s = refill-IsRefilled.stays j l t in ((rw s t, rw s e), rw s (armed_mark j id l c w))

  pub cands-wanted : (id : ℕ) → bit cands id ≡ true → bit want id ≡ true
  cands-wanted id t = ground (arith, cands-bit id)

  -- A register in flight keeps its contents through a refill, but for the maintenance mark.
  pub refill_keeps :
      (j : ℕ)
      → j < n
      → Busy b.cpu.lr j
      → (get_or (refill b n vcpu vcpus).0.cpu.lr j 0 ≡ get_or b.cpu.lr j 0)
        ⊎ (get_or (refill b n vcpu vcpus).0.cpu.lr j 0 ≡ bit_or (get_or b.cpu.lr j 0) lr_eoi)
  refill_keeps j l t =
      let s = refill-IsRefilled.stays j l ((armed_same j).0 ∙ t) in
      elim (armed_value j) [ inl e ↦ inl (s ∙ e) | inr e ↦ inr (s ∙ e) ]
