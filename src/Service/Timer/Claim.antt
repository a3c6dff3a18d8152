-- ===== src/Service/Timer/Claim.antt =====
-- The legacy one-shot slot among several claimants
-- (src/components/core/core_timer/include/core_timer/legacy_slot_model.hpp).
use novavisor.Base.{ℕ}
use novavisor.Base.{◌≡◌, refl, ap, ◌∙◌, ◌≢◌}
use novavisor.Base.{Bool, true, false, not, List, [], ◌∷◌}
use novavisor.Base.{arith}
use novavisor.Base.{◌==◌}
use novavisor.Base.{if-cases}
use novavisor.Service.Timer.{LegacySlot}
use novavisor.Service.Timer.{try_claim, release}

-- Claims by other callers, between a claim and the expiry of its timer.
abbrev pub claims : LegacySlot → List ℕ → LegacySlot
claims s [] = s
claims s (caller ∷ rest) = claims ((try_claim s caller).1) rest

claims_kept :
    (owner : ℕ) (rest : List ℕ)
    → claims (record { owner = owner; armed = true }) rest ≡ record { owner = owner; armed = true }
claims_kept owner [] = refl
claims_kept owner (caller ∷ rest) =
    let s : LegacySlot = record { owner = owner; armed = true } in
    if-cases {A = Bool × LegacySlot} (λ r. claims ((r).1) rest ≡ s) (not (owner == caller))
      (λ t. claims_kept owner rest)
      (λ f.
        let e : caller ≡ owner = ground arith in
        ap (λ c. claims (record { owner = c; armed = true }) rest) e ∙ claims_kept owner rest)

-- Until its timer expires an owner keeps the slot whoever else claims it, the others are refused, and its own claim is accepted; after the expiry any caller is.
pub claim_held :
    (s : LegacySlot) (owner other : ℕ) (rest : List ℕ)
    → (try_claim s owner).0 ≡ true
    → (claims ((try_claim s owner).1) rest ≡ (try_claim s owner).1)
      × (other ≢ owner → try_claim ((try_claim s owner).1) other ≡ (false, (try_claim s owner).1))
      × ((try_claim ((try_claim s owner).1) owner).0 ≡ true)
      × ((try_claim (release ((try_claim s owner).1)) other).0 ≡ true)
claim_held s owner other rest ok =
    let won : (try_claim s owner).1 ≡ record { owner = owner; armed = true } = ground arith in
    rw won (claims_kept owner rest, (λ ne. ground arith), (ground arith), refl)
