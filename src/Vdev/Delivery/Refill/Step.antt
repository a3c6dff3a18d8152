-- ===== src/Vdev/Delivery/Refill/Step.antt =====
-- One round of the loop of `refill` (vgic_delivery.hpp): the best candidate enters the first free
-- register.
use novavisor.Base.{ℕ, ◌-◌, ◌^◌, ◌<◌, bit_and}
use novavisor.Base.{◌≡◌, refl, sym, ap, ◌∙◌, ◌≢◌, ◌⊎◌, inl, inr}
use novavisor.Base.{true, false, not, ◌&&◌}
use novavisor.Base.{arith, ℕ_discrete}
use novavisor.Base.{ltb, leb, ◌==◌, if◌then◌else◌, Bool-cases}
use novavisor.Base.{length, get_or, set}
use novavisor.Base.{length-set, get_or-set_self, get_or-set_ne}
use novavisor.Base.{get_or-set}
use novavisor.Base.{bit_not}
use novavisor.Base.{bit_and-lt}
use novavisor.Base.{bit-clear}
use novavisor.Vdev.Delivery.{lr_in_flight}
use novavisor.Vdev.Delivery.{lr_vintid, valid, no_token}
use novavisor.Vdev.Delivery.{Bank, priority_of}
use novavisor.Vdev.Delivery.{inject}
use novavisor.Vdev.Gic.Offsets.{max_intid, num_private}
use novavisor.Vdev.Delivery.Scan.{Carries, Holds}
use novavisor.Vdev.Delivery.Lrs.{make_lr_roundtrip}
use novavisor.Vdev.Delivery.Refill.{token_of, entry_of, Distinct, pending_at, IsBank}
use novavisor.Vdev.Delivery.Refill.{AreCandidates}

module _ (n : ℕ) (b : Bank) (best slot : ℕ) (v : IsBank n b) (small : best < max_intid)
    (inside : slot < n) (free : lr_in_flight (get_or b.cpu.lr slot 0) ≡ false)
    (fresh : ¬ Holds b.cpu.lr n best) where
  abbrev entry : ℕ
  entry = entry_of b best

  abbrev after : Bank
  after = inject b best (priority_of b best) slot

  pub entry_lem : (lr_in_flight entry ≡ true) × (lr_vintid entry ≡ best)
  entry_lem =
      let r =
        make_lr_roundtrip best (priority_of b best) (valid (token_of b best)) (omega arith)
          (v.bytes best) in
      ((r).0, (r).1)

  pub lr-inject : after.cpu.lr ≡ set b.cpu.lr slot entry
  unfolding inject
  lr-inject = refl

  pub lr_token-inject : after.cpu.lr_token ≡ set b.cpu.lr_token slot (token_of b best)
  unfolding inject
  lr_token-inject = refl

  pub priority_of-inject : (id : ℕ) → priority_of after id ≡ priority_of b id
  unfolding inject
  priority_of-inject id = elim (Bool-cases (ltb best num_private)) [
    | inl t ↦ rw t refl
    | inr f ↦ rw f refl
  ]

  pub lr_self : get_or after.cpu.lr slot 0 ≡ entry
  lr_self = rw lr-inject (get_or-set_self b.cpu.lr slot entry 0 (omega (arith, v.slots)))

  pub lr_other : (i : ℕ) → slot ≢ i → get_or after.cpu.lr i 0 ≡ get_or b.cpu.lr i 0
  lr_other i ne = rw lr-inject (get_or-set_ne b.cpu.lr slot i entry 0 ne)

  pub pending_at-inject :
      (id : ℕ) → id < max_intid → pending_at after id ≡ (pending_at b id && not (best == id))
  unfolding inject
  pending_at-inject id l = elim (Bool-cases (ltb best num_private)) [
    | inl t ↦ rw t (elim (Bool-cases (leb num_private id)) [
      | inl hi ↦ rw hi (ground arith)
      | inr lo ↦ rw lo (bit-clear 32 b.cpu.redist.pending best id v.private_word (ground arith))
    ])
    | inr f ↦ rw f (elim (Bool-cases (leb num_private id)) [
      | inl hi ↦ rw hi (
          bit-clear 32 b.dist.spi_pending (best - num_private) (id - num_private) v.spi_word
            (ground arith)
          ∙ ground arith)
      | inr lo ↦ rw lo (ground arith)
    ])
  ]

  pub token_of-inject :
      (id : ℕ)
      → id < max_intid
      → token_of after id ≡ (if best == id then no_token else token_of b id)
  unfolding inject
  token_of-inject id l =
      let at = get_or-set b.spi_tokens (best - num_private) (id - num_private) no_token no_token in
      let size = v.spis in
      elim (Bool-cases (leb num_private best)) [
        | inr f ↦ rw f (elim (Bool-cases (leb num_private id)) [
          | inl hi ↦ ground arith
          | inr lo ↦ rw lo (ground arith)
        ])
        | inl t ↦ rw t (elim (Bool-cases (leb num_private id)) [
          | inl hi ↦ rw hi (at (ground arith) ∙ ground arith)
          | inr lo ↦ rw lo (ground arith)
        ])
      ]

  pub words-inject :
      (after.cpu.redist.pending < 2 ^ 32)
      × (after.dist.spi_pending < 2 ^ 32)
      × (length after.spi_tokens ≡ 32)
  unfolding inject
  words-inject =
      let p = bit_and-lt 32 b.cpu.redist.pending (bit_not 32 (2 ^ best)) v.private_word in
      let q = bit_and-lt 32 b.dist.spi_pending (bit_not 32 (2 ^ (best - num_private))) v.spi_word in
      let a = v.private_word in
      let c = v.spi_word in
      let d = v.spis in
      let e = length-set b.spi_tokens (best - num_private) no_token in
      elim (Bool-cases (ltb best num_private)) [
        | inl t ↦ rw t (p, c, ground arith)
        | inr f ↦ rw f (a, q, ground arith)
      ]

  -- Where the registers of the new bank carry an interrupt.
  pub Carries-inject :
      (i id : ℕ)
      → Carries after.cpu.lr i id
      → ((slot ≡ i) × (best ≡ id)) ⊎ ((slot ≢ i) × Carries b.cpu.lr i id)
  Carries-inject i id c = elim (ℕ_discrete slot i) [
    | yes e ↦ inl (
      e,
      sym (entry_lem).1
          ∙ sym (ap lr_vintid lr_self)
          ∙ ap (λ t. lr_vintid (get_or after.cpu.lr t 0)) e
          ∙ (c).1,
    )
    | no ne ↦ inr (ne, rw (← (lr_other i ne)) c)
  ]

  pub Distinct-inject : Distinct n after.cpu.lr
  Distinct-inject i j id hi hj ci cj = elim (Carries-inject i id ci) [
    | inl (a, e) ↦ elim (Carries-inject j id cj) [
      | inl (a', _) ↦ sym a ∙ a'
      | inr (_, old) ↦ absurd (fresh (j, hj, rw e old))
    ]
    | inr (_, old) ↦ elim (Carries-inject j id cj) [
      | inl (_, e) ↦ absurd (fresh (i, hi, rw e old))
      | inr (_, old') ↦ v.distinct i j id hi hj old old'
    ]
  ]

  pub inject-IsBank : IsBank n after
  inject-IsBank = record {
    slots = rw lr-inject (omega (arith, length-set b.cpu.lr slot entry, v.slots));
    slot_tokens =
        rw (lr-inject, lr_token-inject)
          (omega (
            arith,
            length-set b.cpu.lr slot entry,
            length-set b.cpu.lr_token slot (token_of b best),
            v.slot_tokens,
          ));
    spis = (words-inject).2;
    private_word = (words-inject).0;
    spi_word = (words-inject).1;
    bytes = λ id. rw (priority_of-inject id) (v.bytes id);
    distinct = Distinct-inject;
  }

  pub inject-AreCandidates :
      (k : ℕ) → AreCandidates n k b → AreCandidates n (bit_and k (bit_not 64 (2 ^ best))) after
  inject-AreCandidates k c = record {
    word = bit_and-lt 64 k (bit_not 64 (2 ^ best)) c.word;
    fresh = λ id t (i, hi, ci).
        let r = bit-clear 64 k best id c.word small in
        elim (Carries-inject i id ci) [
          | inl (_, e) ↦ absurd (ground arith)
          | inr (_, old) ↦ c.fresh id (ground arith) (i, hi, old)
        ];
  }
