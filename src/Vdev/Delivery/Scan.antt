-- ===== src/Vdev/Delivery/Scan.antt =====
-- The passes of `refill` over the list registers (vgic_delivery.hpp): what is in flight, what is
-- armed, and which register is free.
use novavisor.Base.{ℕ, zero, suc, ◌+◌, ◌^◌, ◌≤◌, ◌<◌, bit_and, bit_or}
use novavisor.Base.{◌≡◌, refl, ap, ◌∙◌, ◌⊎◌, inl, inr}
use novavisor.Base.{Bool, true, false, not, ◌&&◌, List}
use novavisor.Base.{arith, ℕ_discrete}
use novavisor.Base.{ltb, leb, ◌==◌, if◌then◌else◌, Bool-cases}
use novavisor.Base.{length, get_or, set}
use novavisor.Base.{length-set, get_or-set_self, get_or-set_ne}
use novavisor.Base.{bit, bit-bit_or, bit-zero, bit-pow}
use novavisor.Base.{bit_or-lt}
use novavisor.Base.{pow_lt}
use novavisor.Vdev.Delivery.{lr_eoi, lr_in_flight}
use novavisor.Vdev.Delivery.{lr_vintid}
use novavisor.Vdev.Delivery.{inflight_from, arm_from}
use novavisor.Vdev.Delivery.{free_from}
use novavisor.Vdev.Delivery.{wanted}
use novavisor.Vdev.Gic.Offsets.{max_intid}

-- Register `i` is in flight, and holds the interrupt `id`.
abbrev pub Busy : List ℕ → ℕ → Type 0
Busy lrs i = lr_in_flight (get_or lrs i 0) ≡ true

abbrev pub Carries : List ℕ → ℕ → ℕ → Type 0
Carries lrs i id = Busy lrs i × (lr_vintid (get_or lrs i 0) ≡ id)

-- One of the first `n` registers holds `id`.
abbrev pub Holds : List ℕ → ℕ → ℕ → Type 0
Holds lrs n id = (i : ℕ) × (i < n) × Carries lrs i id

-- The bits that a pass from register `i` on collects: those it had, and the interrupts it met.
inflight_from_sound :
    (lrs : List ℕ) (i n acc id : ℕ)
    → bit (inflight_from lrs i n acc) id ≡ true
    → (bit acc id ≡ true) ⊎ ((j : ℕ) × (i ≤ j) × (j < i + n) × Carries lrs j id)
unfolding inflight_from
inflight_from_sound lrs i zero acc id h = inl h
inflight_from_sound lrs i (suc n) acc id h =
    let lr = get_or lrs i 0 in
    let test = lr_in_flight lr && ltb (lr_vintid lr) max_intid in
    elim (inflight_from_sound lrs (i + 1) n (if test then bit_or acc (2 ^ lr_vintid lr) else acc) id
      h) [
        | inr (j, lo, hi, c) ↦ inr (j, omega arith, omega arith, c)
        | inl t ↦ elim (Bool-cases test) [
          | inr f ↦ inl (ground arith)
          | inl y ↦ elim (Bool-cases (bit acc id)) [
            | inl old ↦ inl old
            | inr new ↦ inr (
              i,
              omega arith,
              omega arith,
              (
                ground arith,
                ground (arith, bit-bit_or acc (2 ^ lr_vintid lr) id, bit-pow (lr_vintid lr) id),
              ),
            )
          ]
        ]
      ]

inflight_from_complete :
    (lrs : List ℕ) (i n acc id : ℕ)
    → id < max_intid
    → (bit acc id ≡ true) ⊎ ((j : ℕ) × (i ≤ j) × (j < i + n) × Carries lrs j id)
    → bit (inflight_from lrs i n acc) id ≡ true
unfolding inflight_from
inflight_from_complete lrs i zero acc id l (inl h) = h
inflight_from_complete lrs i zero acc id l (inr (j, lo, hi, c)) = absurd (omega arith)
inflight_from_complete lrs i (suc n) acc id l (inl h) =
    let lr = get_or lrs i 0 in
    inflight_from_complete lrs (i + 1) n _ id l
      (inl (ground (arith, bit-bit_or acc (2 ^ lr_vintid lr) id)))
inflight_from_complete lrs i (suc n) acc id l (inr (j, lo, hi, (b, v))) =
    let lr = get_or lrs i 0 in
    elim (ℕ_discrete i j) [
      | no p ↦
          inflight_from_complete lrs (i + 1) n _ id l (inr (j, omega arith, omega arith, (b, v)))
      | yes p ↦
          let here : (lr_in_flight lr ≡ true) × (lr_vintid lr ≡ id) = rw p (b, v) in
          inflight_from_complete lrs (i + 1) n _ id l (
            inl (
              ground
                (arith, here, bit-bit_or acc (2 ^ lr_vintid lr) id, bit-pow (lr_vintid lr) id)))
    ]

inflight_from-lt : (lrs : List ℕ) (i n acc : ℕ) → acc < 2 ^ 64 → inflight_from lrs i n acc < 2 ^ 64
unfolding inflight_from
inflight_from-lt lrs i zero acc h = h
inflight_from-lt lrs i (suc n) acc h =
    let lr = get_or lrs i 0 in
    let test = lr_in_flight lr && ltb (lr_vintid lr) max_intid in
    inflight_from-lt lrs (i + 1) n _ (elim (Bool-cases test) [
      | inl y ↦
          rw y (bit_or-lt 64 acc (2 ^ lr_vintid lr) h (pow_lt (lr_vintid lr) 64 (ground arith)))
      | inr f ↦ rw f h
    ])

-- The interrupts in flight.
abbrev pub in_flight : List ℕ → ℕ → ℕ
in_flight lrs n = inflight_from lrs 0 n 0

pub in_flight-lt : (lrs : List ℕ) (n : ℕ) → in_flight lrs n < 2 ^ 64
in_flight-lt lrs n = inflight_from-lt lrs 0 n 0 (omega arith)

pub Holds-of_bit : (lrs : List ℕ) (n id : ℕ) → bit (in_flight lrs n) id ≡ true → Holds lrs n id
Holds-of_bit lrs n id h = elim (inflight_from_sound lrs 0 n 0 id h) [
  | inl t ↦ absurd (cc (bit-zero id))
  | inr (j, lo, hi, c) ↦ (j, omega arith, c)
]

pub bit-of_Holds :
    (lrs : List ℕ) (n id : ℕ) → id < max_intid → Holds lrs n id → bit (in_flight lrs n) id ≡ true
bit-of_Holds lrs n id l (j, hi, c) =
    inflight_from_complete lrs 0 n 0 id l (inr (j, omega arith, omega arith, c))

-- The registers that the second pass arms.
abbrev pub held_back : ℕ → ℕ → Bool
held_back wanted lr =
    lr_in_flight lr && ltb (lr_vintid lr) max_intid && not (bit_and wanted (2 ^ lr_vintid lr) == 0)

pub length-arm_from : (w i n : ℕ) (lrs : List ℕ) → length (arm_from w i n lrs) ≡ length lrs
unfolding arm_from
length-arm_from w i zero lrs = refl
length-arm_from w i (suc n) lrs =
    length-arm_from w (i + 1) n _
    ∙ ground (arith, length-set lrs i (bit_or (get_or lrs i 0) lr_eoi))

pub get_or-arm_from :
    (w i n : ℕ) (lrs : List ℕ) (j : ℕ)
    → i + n ≤ length lrs
    → get_or (arm_from w i n lrs) j 0 ≡ (
        if leb i j && ltb j (i + n) && held_back w (get_or lrs j 0)
        then bit_or (get_or lrs j 0) lr_eoi
        else get_or lrs j 0)
unfolding arm_from
get_or-arm_from w i zero lrs j h = ground arith
get_or-arm_from w i (suc n) lrs j h =
    let lr = get_or lrs i 0 in
    elim (Bool-cases (held_back w lr)) [
      | inr f ↦ rw f (
          get_or-arm_from w (i + 1) n lrs j (omega arith) ∙ (elim (ℕ_discrete i j) [
            | yes p ↦ ground (arith, ap (λ t. held_back w (get_or lrs t 0)) p)
            | no p ↦ ground arith
          ]))
      | inl t ↦
          let v = bit_or lr lr_eoi in
          let ih =
            get_or-arm_from w (i + 1) n (set lrs i v) j (omega (arith, length-set lrs i v)) in
          rw t (
            ih ∙ (elim (ℕ_discrete i j) [
              | yes p ↦ rw (← p) (rw (get_or-set_self lrs i v 0 (omega arith)) (ground arith))
              | no p ↦ rw (get_or-set_ne lrs i j v 0 p) (ground arith)
            ]))
    ]

-- The first free register, or none.
pub free_from-IsFree :
    (lrs : List ℕ) (i n : ℕ)
    → ((free_from lrs i n ≡ i + n) × ((j : ℕ) → i ≤ j → j < i + n → Busy lrs j))
      ⊎ ((i ≤ free_from lrs i n)
          × (free_from lrs i n < i + n)
          × (lr_in_flight (get_or lrs (free_from lrs i n) 0) ≡ false))
unfolding free_from
free_from-IsFree lrs i zero = inl (omega arith, λ j a b. absurd (omega arith))
free_from-IsFree lrs i (suc n) = elim (Bool-cases (lr_in_flight (get_or lrs i 0))) [
  | inr f ↦ rw f (inr (omega arith, omega arith, f))
  | inl t ↦ rw t (elim (free_from-IsFree lrs (i + 1) n) [
    | inl (e, h) ↦ inl (
      omega arith,
      λ j a b. elim (ℕ_discrete i j) [
        | yes p ↦ rw (← p) t
        | no p ↦ h j (omega arith) (omega arith)
      ],
    )
    | inr (a, b, c) ↦ inr (omega arith, omega arith, c)
  ])
]
