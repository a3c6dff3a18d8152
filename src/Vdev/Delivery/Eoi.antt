-- ===== src/Vdev/Delivery/Eoi.antt =====
-- The harvest of ended interrupts (vgic_delivery.hpp, `harvest_eois`).
use novavisor.Base.{ℕ, zero, suc, ◌+◌, ◌^◌, ◌≤◌, ◌<◌, bit_and, bit_or}
use novavisor.Base.{◌≡◌, refl, sym, ap, ◌∙◌, inl, inr}
use novavisor.Base.{true, false, ◌&&◌, ◌||◌, List, [], ◌∷◌, ◌++◌}
use novavisor.Base.{arith, ℕ_discrete}
use novavisor.Base.{ltb, leb, ◌==◌, if◌then◌else◌, Bool-cases}
use novavisor.Base.{length, get_or, set}
use novavisor.Base.{length-set, get_or-set_self, get_or-set_ne}
use novavisor.Base.{bit, bit-bit_or, bit-zero, bit-pow}
use novavisor.Base.{bit_or-lt}
use novavisor.Base.{pow_lt}
use novavisor.Base.{bit_and-test}
use novavisor.Vdev.Delivery.{EoiToken, valid, no_token, CpuState}
use novavisor.Vdev.Delivery.{EoiHarvest}
use novavisor.Vdev.Delivery.{harvest_from, harvest_eois}
use mathlib.Core.List.{append-nil, append_assoc}
use novavisor.Vdev.Delivery.{harvest_round}

-- The live tokens of the `n` slots from `i` on that the mask names, in order.
pub owed_from : ℕ → ℕ → ℕ → List EoiToken → List EoiToken
owed_from eisr i zero ts = []
owed_from eisr i (suc n) ts =
    let t = get_or ts i no_token in
    if bit eisr i && valid t then t ∷ owed_from eisr (i + 1) n ts else owed_from eisr (i + 1) n ts

owed_from-set :
    (eisr k n : ℕ) (ts : List EoiToken) (i : ℕ) (v : EoiToken)
    → i < k
    → owed_from eisr k n (set ts i v) ≡ owed_from eisr k n ts
unfolding owed_from
owed_from-set eisr k zero ts i v h = refl
owed_from-set eisr k (suc n) ts i v h =
    rw
      (
        get_or-set_ne ts i k v no_token (omega arith),
        owed_from-set eisr (k + 1) n ts i v (omega arith),
      )
      refl

harvest_from-suc :
    (eisr i n : ℕ) (s : CpuState × EoiHarvest)
    → harvest_from eisr i (suc n) s ≡ harvest_from eisr (i + 1) n (harvest_round eisr i s)
unfolding harvest_from
harvest_from-suc eisr i n s = refl

abbrev pub Harvest : Type 0
Harvest = CpuState × EoiHarvest

-- The arrays of registers and tokens have one length, below the width of the mask.
abbrev pub Fits : ℕ → Harvest → Type 0
Fits k s =
    (k ≤ length ((s).0).lr)
    × (length ((s).0).lr_token ≡ length ((s).0).lr)
    × (length ((s).0).lr ≤ 64)

module _ (eisr : ℕ) (small : eisr < 2 ^ 64) where
  module _ (i : ℕ) (s : Harvest) (fits : Fits (i + 1) s) where
    round_skips : bit eisr i ≡ false → harvest_round eisr i s ≡ s
    round_skips f = ground (arith, bit_and-test 64 eisr i small (omega arith))

    abbrev token_here : EoiToken
    token_here = get_or ((s).0).lr_token i no_token

    abbrev emptied : Harvest
    emptied = (
      record (s).0 { lr = set ((s).0).lr i 0; lr_token = set ((s).0).lr_token i no_token },
      record {
        tokens = if valid token_here then ((s).1).tokens ++ (token_here ∷ []) else ((s).1).tokens;
        cleared = bit_or ((s).1).cleared (2 ^ i);
      },
    )

    round_empties : bit eisr i ≡ true → harvest_round eisr i s ≡ emptied
    round_empties t =
        let has : leb (length ((s).0).lr_token) i ≡ false = ground arith in
        ground (arith, bit_and-test 64 eisr i small (omega arith), has)

    emptied-Fits : Fits (i + 1) emptied
    emptied-Fits = omega (arith, length-set ((s).0).lr i 0, length-set ((s).0).lr_token i no_token)

  abbrev pub Swept : ℕ → ℕ → Harvest → Harvest → ℕ → Type 0
  Swept i n s s' j =
      let hit = leb i j && ltb j (i + n) && bit eisr j in
      (get_or ((s').0).lr j 0 ≡ (if hit then 0 else get_or ((s).0).lr j 0))
      × (get_or ((s').0).lr_token j no_token
          ≡ (if hit then no_token else get_or ((s).0).lr_token j no_token))
      × (bit ((s').1).cleared j ≡ (bit ((s).1).cleared j || hit))

  skip-Swept :
      (i n : ℕ) (s s' : Harvest) (j : ℕ)
      → bit eisr i ≡ false
      → Swept (i + 1) n s s' j
      → Swept i (suc n) s s' j
  skip-Swept i n s s' j f (a, b, c) = elim (ℕ_discrete i j) [
    | yes p ↦ let g = ap (bit eisr) p in (a ∙ ground arith, b ∙ ground arith, c ∙ ground arith)
    | no p ↦ (a ∙ ground arith, b ∙ ground arith, c ∙ ground arith)
  ]

  empty-Swept :
      (i n : ℕ) (s s' : Harvest) (j : ℕ) (fits : Fits (i + 1) s)
      → bit eisr i ≡ true
      → Swept (i + 1) n (emptied i s fits) s' j
      → Swept i (suc n) s s' j
  empty-Swept i n s s' j fits t (a, b, c) =
      let z = bit-bit_or ((s).1).cleared (2 ^ i) j in
      let w = bit-pow i j in
      elim (ℕ_discrete i j) [
        | yes p ↦
            let g = ap (bit eisr) p in
            let x : get_or (set ((s).0).lr i 0) j 0 ≡ 0 =
              rw (← p) (get_or-set_self ((s).0).lr i 0 0 (omega arith)) in
            let y : get_or (set ((s).0).lr_token i no_token) j no_token ≡ no_token =
              rw (← p) (get_or-set_self ((s).0).lr_token i no_token no_token (omega arith)) in
            (a ∙ ground arith, b ∙ ground arith, c ∙ ground arith)
        | no p ↦
            let x = get_or-set_ne ((s).0).lr i j 0 0 p in
            let y = get_or-set_ne ((s).0).lr_token i j no_token no_token p in
            (a ∙ ground arith, b ∙ ground arith, c ∙ ground arith)
      ]

  -- What the rounds from slot `i` on leave in the registers, the tokens and the mask.
  harvest_from-Swept :
      (i n : ℕ) (s : Harvest) (j : ℕ) → Fits (i + n) s → Swept i n s (harvest_from eisr i n s) j
  unfolding harvest_from
  harvest_from-Swept i zero s j h = (ground arith, ground arith, ground arith)
  harvest_from-Swept i (suc n) s j h =
      let fits : Fits (i + 1) s = omega arith in
      elim (Bool-cases (bit eisr i)) [
        | inr f ↦
            rw (harvest_from-suc eisr i n s, round_skips i s fits f)
              (skip-Swept i n s (harvest_from eisr (i + 1) n s) j f
                (harvest_from-Swept (i + 1) n s j (omega arith)))
        | inl t ↦
            rw (harvest_from-suc eisr i n s, round_empties i s fits t)
              (empty-Swept i n s (harvest_from eisr (i + 1) n (emptied i s fits)) j fits t (
                harvest_from-Swept (i + 1) n (emptied i s fits) j
                  (omega (arith, length-set ((s).0).lr i 0, emptied-Fits i s fits))))
      ]

  -- The tokens that the rounds emit.
  harvest_from-tokens :
      (i n : ℕ) (s : Harvest)
      → Fits (i + n) s
      → ((harvest_from eisr i n s).1).tokens ≡ ((s).1).tokens ++ owed_from eisr i n ((s).0).lr_token
  unfolding harvest_from owed_from
  harvest_from-tokens i zero s h = sym (append-nil ((s).1).tokens)
  harvest_from-tokens i (suc n) s h =
      let fits : Fits (i + 1) s = omega arith in
      let t0 = get_or ((s).0).lr_token i no_token in
      let rest = owed_from eisr (i + 1) n ((s).0).lr_token in
      elim (Bool-cases (bit eisr i)) [
        | inr f ↦
            rw (harvest_from-suc eisr i n s, round_skips i s fits f, f)
              (harvest_from-tokens (i + 1) n s (omega arith))
        | inl t ↦
            rw (harvest_from-suc eisr i n s, round_empties i s fits t, t)
              (harvest_from-tokens (i + 1) n (emptied i s fits)
                  (omega (arith, length-set ((s).0).lr i 0, emptied-Fits i s fits))
                ∙ ap (λ r. (emptied i s fits).1.tokens ++ r)
                    (owed_from-set eisr (i + 1) n ((s).0).lr_token i no_token (omega arith))
                ∙ (elim (Bool-cases (valid t0)) [
                  | inl y ↦ rw y (append_assoc ((s).1).tokens (t0 ∷ []) rest)
                  | inr g ↦ rw g refl
                ]))
      ]

abbrev Sizes : Harvest → Harvest → Type 0
Sizes s s' =
    (length ((s').0).lr ≡ length ((s).0).lr)
    × (length ((s').0).lr_token ≡ length ((s).0).lr_token)
    × (((s').1).cleared < 2 ^ 64)
    × (((s').0).redist ≡ ((s).0).redist)

round-Sizes :
    (eisr i : ℕ) (s : Harvest)
    → i < 64
    → ((s).1).cleared < 2 ^ 64
    → Sizes s (harvest_round eisr i s)
round-Sizes eisr i s h c =
    let a = length-set ((s).0).lr i 0 in
    let b = length-set ((s).0).lr_token i no_token in
    let w = bit_or-lt 64 ((s).1).cleared (2 ^ i) c (pow_lt i 64 h) in
    elim (Bool-cases (ltb i (length ((s).0).lr))) [
      | inr f ↦ rw f (refl, refl, c, refl)
      | inl t ↦ rw t (elim (Bool-cases (bit_and eisr (2 ^ i) == 0)) [
        | inl z ↦ rw z (refl, refl, c, refl)
        | inr y ↦ rw y (elim (Bool-cases (leb (length ((s).0).lr_token) i)) [
          | inl k ↦ rw k (a, refl, w, refl)
          | inr k ↦ rw k (a, b, w, refl)
        ])
      ])
    ]

harvest_from-Sizes :
    (eisr i n : ℕ) (s : Harvest)
    → i + n ≤ 64
    → ((s).1).cleared < 2 ^ 64
    → Sizes s (harvest_from eisr i n s)
unfolding harvest_from
harvest_from-Sizes eisr i zero s h c = (refl, refl, c, refl)
harvest_from-Sizes eisr i (suc n) s h c =
    let (a, b, w, r) = round-Sizes eisr i s (omega arith) c in
    let (a', b', w', r') =
      harvest_from-Sizes eisr (i + 1) n (harvest_round eisr i s) (omega arith) w in
    (a' ∙ a, b' ∙ b, w', r' ∙ r)

pub harvest_eois-sizes :
    (cpu : CpuState) (eisr n : ℕ)
    → n ≤ 64
    → (length ((harvest_eois cpu eisr n).0).lr ≡ length cpu.lr)
      × (length ((harvest_eois cpu eisr n).0).lr_token ≡ length cpu.lr_token)
      × (((harvest_eois cpu eisr n).1).cleared < 2 ^ 64)
      × (((harvest_eois cpu eisr n).0).redist ≡ cpu.redist)
unfolding harvest_eois
harvest_eois-sizes cpu eisr n h =
    harvest_from-Sizes eisr 0 n (cpu, record { tokens = []; cleared = 0 }) (omega arith)
      (omega arith)

-- The harvest empties exactly the registers that the mask names, reports these, takes their tokens, and emits the live ones among them in order; the other registers and tokens and the redistributor are as before.
pub harvest_eois_exact :
    (cpu : CpuState) (eisr n : ℕ)
    → eisr < 2 ^ 64
    → n ≤ length cpu.lr
    → length cpu.lr_token ≡ length cpu.lr
    → length cpu.lr ≤ 64
    → (((harvest_eois cpu eisr n).1).tokens ≡ owed_from eisr 0 n cpu.lr_token)
      × ((j : ℕ)
          → let hit = ltb j n && bit eisr j in
            (get_or ((harvest_eois cpu eisr n).0).lr j 0 ≡ (if hit then 0 else get_or cpu.lr j 0))
            × (get_or ((harvest_eois cpu eisr n).0).lr_token j no_token
                ≡ (if hit then no_token else get_or cpu.lr_token j no_token))
            × (bit ((harvest_eois cpu eisr n).1).cleared j ≡ hit))
      × (length ((harvest_eois cpu eisr n).0).lr ≡ length cpu.lr)
      × (length ((harvest_eois cpu eisr n).0).lr_token ≡ length cpu.lr_token)
      × (((harvest_eois cpu eisr n).1).cleared < 2 ^ 64)
      × (((harvest_eois cpu eisr n).0).redist ≡ cpu.redist)
unfolding harvest_eois
harvest_eois_exact cpu eisr n h a b c =
    let s : Harvest = (cpu, record { tokens = []; cleared = 0 }) in
    let fits : Fits (0 + n) s = omega arith in
    let (lrs, tokens, word, redist) = harvest_eois-sizes cpu eisr n (omega arith) in
    (
      harvest_from-tokens eisr h 0 n s fits,
      (λ j.
          let (x, y, z) = harvest_from-Swept eisr h 0 n s j fits in
          (x ∙ ground arith, y ∙ ground arith, z ∙ ground (arith, bit-zero j))),
      lrs,
      tokens,
      word,
      redist,
    )
