-- ===== src/Vdev/Delivery/Refill/Guarantees.antt =====
-- What a refill guarantees (vgic_delivery.hpp, `refill`), in terms of the interrupts that are
-- pending, enabled and routed to the virtual CPU.
use novavisor.Base.{ℕ, ◌<◌}
use novavisor.Base.{◌≡◌, refl, sym, ap, ◌∙◌, ◌⊎◌, inl, inr}
use novavisor.Base.{Bool, true, false, Option, none, some}
use novavisor.Base.{arith, dec_lt}
use novavisor.Base.{Bool-cases}
use novavisor.Base.{get_or}
use novavisor.Base.{bit}
use novavisor.Base.{bit-above}
use novavisor.Vdev.Delivery.{lr_in_flight}
use novavisor.Vdev.Delivery.{lr_vintid, no_token}
use novavisor.Vdev.Delivery.{Bank}
use novavisor.Vdev.Delivery.{wanted, refill}
use novavisor.Vdev.Gic.Offsets.{max_intid}
use novavisor.Vdev.Delivery.Scan.{bit-of_Holds, Busy, Carries, Holds}
use novavisor.Vdev.Delivery.Wanted.{wanted_at, bit-wanted}
use novavisor.Vdev.Delivery.Refill.{pending_at, token_of, entry_of, IsBank}
use novavisor.Vdev.Delivery.Refill.{Before, IsRefilled}
use novavisor.Vdev.Delivery.Refill.Whole.{armed_lrs, armed, cands, want_lt, armed_same}
use novavisor.Vdev.Delivery.Refill.Whole.{Carries-before, cands-bit}
use novavisor.Vdev.Delivery.Refill.Whole.{refill-IsRefilled, cands_of, stays_held, stays_armed}
use novavisor.Vdev.Delivery.Refill.Whole.{cands-wanted}

module _ (n : ℕ) (b : Bank) (vcpu vcpus : ℕ) (v : IsBank n b) where
  wanted-bit :
      (id : ℕ)
      → id < max_intid
      → wanted_at b vcpu vcpus id ≡ true
      → bit (wanted b vcpu vcpus) id ≡ true
  wanted-bit id l w = bit-wanted b vcpu vcpus id v.private_word l ∙ w

  -- A refill of a well-formed bank ends, and leaves a well-formed bank: in particular no interrupt is in two list registers.
  pub refill-IsBank : IsBank n (refill b n vcpu vcpus).0 × (¬ ((refill b n vcpu vcpus).1 ≡ none))
  refill-IsBank = let r = refill-IsRefilled n b vcpu vcpus v in (r.bank, r.ends)

  small : (id : ℕ) → bit (wanted b vcpu vcpus) id ≡ true → id < max_intid
  small id w = elim (dec_lt id 64) [
    | yes s ↦ s
    | no ge ↦
        absurd (cc (bit-above 64 (wanted b vcpu vcpus) id (want_lt n b vcpu vcpus v) (omega arith)))
  ]

  -- Every wanted interrupt is in a list register.
  abbrev pub AllHeld : Bank → Type 0
  AllHeld after =
      (id : ℕ) → id < max_intid → wanted_at b vcpu vcpus id ≡ true → Holds after.cpu.lr n id

  -- Every list register is busy, and a wanted interrupt is in none.
  abbrev pub Overflows : Bank → Type 0
  Overflows after =
      ((i : ℕ) → i < n → Busy after.cpu.lr i)
      × ((id : ℕ) × (wanted_at b vcpu vcpus id ≡ true) × (¬ Holds after.cpu.lr n id))

  answer_cases :
      (r : Bank × Option Bool)
      → IsRefilled n (cands n b vcpu vcpus v) (armed n b vcpu vcpus v) r
      → ((id : ℕ) → Holds b.cpu.lr n id → Holds ((r).0).cpu.lr n id)
      → (((r).1 ≡ some false) × AllHeld ((r).0)) ⊎ (((r).1 ≡ some true) × Overflows ((r).0))
  answer_cases (after, none) r kept = absurd (r.ends refl)
  answer_cases (after, some false) r kept = inl (
    refl,
    λ id l w. elim (cands_of n b vcpu vcpus v id (wanted-bit id l w)) [
      | inl h ↦ kept id h
      | inr c ↦ r.all refl id c
    ],
  )
  answer_cases (after, some true) r kept =
      let (id, c, h) = r.left refl in
      let w = cands-wanted n b vcpu vcpus v id c in
      inr (
        refl,
        (r.full refl, (id, sym (bit-wanted b vcpu vcpus id v.private_word (small id w)) ∙ w, h)),
      )

  -- A refill reports an overflow just when every list register is busy and an interrupt that is pending, enabled and routed to the vCPU is in none; otherwise it reports none, and all of these are in a register.
  pub refill_complete :
      (((refill b n vcpu vcpus).1 ≡ some false) × AllHeld (refill b n vcpu vcpus).0)
      ⊎ (((refill b n vcpu vcpus).1 ≡ some true) × Overflows (refill b n vcpu vcpus).0)
  refill_complete =
      answer_cases (refill b n vcpu vcpus) (refill-IsRefilled n b vcpu vcpus v)
        (stays_held n b vcpu vcpus v)

  not_before :
      (id : ℕ) → id < max_intid → bit (cands n b vcpu vcpus v) id ≡ true → ¬ Holds b.cpu.lr n id
  not_before id l t h =
      ground (arith, cands-bit n b vcpu vcpus v id, bit-of_Holds b.cpu.lr n id l h, t)

  landed :
      (id : ℕ)
      → id < max_intid
      → bit (cands n b vcpu vcpus v) id ≡ true
      → Holds (refill b n vcpu vcpus).0.cpu.lr n id
      → (i : ℕ) × (i < n)
        × Carries (refill b n vcpu vcpus).0.cpu.lr i id
        × (get_or (refill b n vcpu vcpus).0.cpu.lr i 0 ≡ entry_of b id)
        × (get_or (refill b n vcpu vcpus).0.cpu.lr_token i no_token ≡ token_of b id)
  landed id l t (i, hi, (busy, e)) =
      let r = refill-IsRefilled n b vcpu vcpus v in
      elim (Bool-cases (lr_in_flight (get_or (armed_lrs n b vcpu vcpus v) i 0))) [
        | inl old ↦
            let s = r.stays i hi old in
            let before = Carries-before n b vcpu vcpus v i id (old, ap lr_vintid (sym s) ∙ e) in
            absurd (not_before id l t (i, hi, before))
        | inr free ↦
            let (_, reg, tok) = r.taken i hi free busy in
            (i, hi, (busy, e), reg ∙ ap (entry_of b) e, tok ∙ ap (token_of b) e)
      ]

  -- What a register carries after a refill, it carried before with the same token, or it was injected.
  carried :
      (id i : ℕ)
      → bit (cands n b vcpu vcpus v) id ≡ false
      → i < n
      → Carries (refill b n vcpu vcpus).0.cpu.lr i id
      → Carries b.cpu.lr i id
        × (get_or (refill b n vcpu vcpus).0.cpu.lr_token i no_token
            ≡ get_or b.cpu.lr_token i no_token)
  carried id i f hi (busy, e) =
      let r = refill-IsRefilled n b vcpu vcpus v in
      elim (Bool-cases (lr_in_flight (get_or (armed_lrs n b vcpu vcpus v) i 0))) [
        | inl old ↦
            let s = r.stays i hi old in
            (
              Carries-before n b vcpu vcpus v i id (old, ap lr_vintid (sym s) ∙ e),
              r.token_stays i hi old,
            )
        | inr free ↦
            let (t, _, _) = r.taken i hi free busy in
            absurd (cc (ap (bit (cands n b vcpu vcpus v)) (sym e) ∙ t, f))
      ]

  -- The interrupt is in the list registers that it was in, each with its token, and in no other.
  abbrev pub SameRegisters : Bank → ℕ → Type 0
  SameRegisters after id =
      (Holds b.cpu.lr n id → Holds after.cpu.lr n id)
      × ((i : ℕ)
          → i < n
          → Carries after.cpu.lr i id
          → Carries b.cpu.lr i id
            × (get_or after.cpu.lr_token i no_token ≡ get_or b.cpu.lr_token i no_token))

  pub refill_conserves :
      (id : ℕ)
      → id < max_intid
      → ((pending_at (refill b n vcpu vcpus).0 id ≡ pending_at b id)
          × (token_of (refill b n vcpu vcpus).0 id ≡ token_of b id)
          × SameRegisters (refill b n vcpu vcpus).0 id)
        ⊎ ((wanted_at b vcpu vcpus id ≡ true)
            × (¬ Holds b.cpu.lr n id)
            × (pending_at (refill b n vcpu vcpus).0 id ≡ false)
            × (token_of (refill b n vcpu vcpus).0 id ≡ no_token)
            × ((i : ℕ) × (i < n)
                × Carries (refill b n vcpu vcpus).0.cpu.lr i id
                × (get_or (refill b n vcpu vcpus).0.cpu.lr i 0 ≡ entry_of b id)
                × (get_or (refill b n vcpu vcpus).0.cpu.lr_token i no_token ≡ token_of b id)))
  refill_conserves id l =
      let r = refill-IsRefilled n b vcpu vcpus v in
      elim (Bool-cases (bit (cands n b vcpu vcpus v) id)) [
        | inr f ↦
            let (p, q) = r.untouched id l f in
            inl (p, q, (stays_held n b vcpu vcpus v id, λ i hi c. carried id i f hi c))
        | inl t ↦ elim (r.moved id t) [
          | inr (h, p, q) ↦
              inl (p, q, (stays_held n b vcpu vcpus v id, λ i hi c. absurd (h (i, hi, c))))
          | inl (h, p, q) ↦
              let w =
                sym (bit-wanted b vcpu vcpus id v.private_word l)
                ∙ cands-wanted n b vcpu vcpus v id t in
              inr (w, not_before id l t, p, q, landed id l t h)
        ]
      ]

  -- A wanted interrupt that a refill leaves pending is not stranded: either its own earlier copy is in a list register that is armed to trap when the guest ends it, or it is in no register, every register is busy, and an overflow is reported.
  pub refill_retries :
      (id : ℕ)
      → id < max_intid
      → wanted_at b vcpu vcpus id ≡ true
      → pending_at (refill b n vcpu vcpus).0 id ≡ true
      → ((i : ℕ) × (i < n)
          × Carries (refill b n vcpu vcpus).0.cpu.lr i id
          × (bit (get_or (refill b n vcpu vcpus).0.cpu.lr i 0) 41 ≡ true))
        ⊎ ((¬ Holds (refill b n vcpu vcpus).0.cpu.lr n id)
            × ((i : ℕ) → i < n → Busy (refill b n vcpu vcpus).0.cpu.lr i)
            × ((refill b n vcpu vcpus).1 ≡ some true))
  refill_retries id l w p = elim (cands_of n b vcpu vcpus v id (wanted-bit id l w)) [
    | inl (i, hi, c) ↦
        let (c', m) = stays_armed n b vcpu vcpus v i id hi c (wanted-bit id l w) in
        inl (i, hi, c', m)
    | inr c ↦
        let r = refill-IsRefilled n b vcpu vcpus v in
        elim (r.moved id c) [
          | inl (_, gone, _) ↦ absurd (cc)
          | inr (h, _, _) ↦ elim refill_complete [
            | inl (e, all) ↦ absurd (h (all id l w))
            | inr (e, (full, _)) ↦ inr (h, full, e)
          ]
        ]
  ]

  -- What a refill injects goes before every wanted interrupt that it leaves out: it has a lower priority value, or the same and a lower INTID.
  pub refill_ordered :
      (i id : ℕ)
      → i < n
      → lr_in_flight (get_or b.cpu.lr i 0) ≡ false
      → Busy (refill b n vcpu vcpus).0.cpu.lr i
      → id < max_intid
      → wanted_at b vcpu vcpus id ≡ true
      → (¬ Holds (refill b n vcpu vcpus).0.cpu.lr n id)
      → Before b (lr_vintid (get_or (refill b n vcpu vcpus).0.cpu.lr i 0)) id
  refill_ordered i id hi f t l w h =
      let r = refill-IsRefilled n b vcpu vcpus v in
      elim (cands_of n b vcpu vcpus v id (wanted-bit id l w)) [
        | inl held ↦ absurd (h (stays_held n b vcpu vcpus v id held))
        | inr c ↦ r.ordered i id hi (rw (armed_same n b vcpu vcpus v i).0 f) t c h
      ]
