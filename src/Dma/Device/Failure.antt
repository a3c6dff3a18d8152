-- ===== src/Dma/Device/Failure.antt =====
-- Failing a VM closed
-- (src/components/device/dma_device/include/dma_device/lifecycle_model.hpp).
use novavisor.Base.{ℕ}
use novavisor.Base.{◌≡◌, refl, ◌≢◌}
use novavisor.Base.{Bool, true, false, not, ◌&&◌, List, [], ◌∷◌}
use novavisor.Base.{arith}
use novavisor.Base.{◌==◌}
use novavisor.Base.{if-cases}
use novavisor.Dma.Device.{is_unavailable, Entry}
use novavisor.Dma.Device.{active_from}
use novavisor.Dma.Device.{owner_active, owner_failed, fail_owner}

none_active :
    (entries : List Entry) (vm generation : ℕ)
    → active_from (fail_owner entries vm) vm generation false ≡ false
none_active [] vm generation = refl
none_active (e ∷ entries) vm generation =
    let ih = none_active entries vm generation in
    let P : Entry → Type 0 =
      λ x. active_from (x ∷ fail_owner entries vm) vm generation false ≡ false in
    if-cases P ((e.owner_vm == vm) && not (is_unavailable e.state)) (λ t. ground (arith, t))
      (λ f. ground (arith, f, ih))

same_active :
    (entries : List Entry) (vm other generation : ℕ) (found : Bool)
    → other ≢ vm
    → active_from (fail_owner entries vm) other generation found
      ≡ active_from entries other generation found
same_active [] vm other generation found h = refl
same_active (e ∷ entries) vm other generation found h =
    let P : Entry → Type 0 = λ x.
      active_from (x ∷ fail_owner entries vm) other generation found
      ≡ active_from (e ∷ entries) other generation found in
    let same = same_active entries vm other generation in
    if-cases P ((e.owner_vm == vm) && not (is_unavailable e.state))
      (λ t. ground (arith, t, same found h)) (λ f. ground (arith, f, same found h, same true h))

same_failed :
    (entries : List Entry) (vm other : ℕ)
    → other ≢ vm
    → owner_failed (fail_owner entries vm) other ≡ owner_failed entries other
same_failed [] vm other h = refl
same_failed (e ∷ entries) vm other h =
    let P : Entry → Type 0 =
      λ x. owner_failed (x ∷ fail_owner entries vm) other ≡ owner_failed (e ∷ entries) other in
    if-cases P ((e.owner_vm == vm) && not (is_unavailable e.state))
      (λ t. ground (arith, t, same_failed entries vm other h))
      (λ f. ground (arith, f, same_failed entries vm other h))

-- A VM that failed closed is active at no generation, and the devices of every other VM answer as before.
pub fail_owner-closed :
    (entries : List Entry) (vm other generation : ℕ)
    → (owner_active (fail_owner entries vm) vm generation ≡ false)
      × (other ≢ vm
          → (owner_active (fail_owner entries vm) other generation
              ≡ owner_active entries other generation)
            × (owner_failed (fail_owner entries vm) other ≡ owner_failed entries other))
fail_owner-closed entries vm other generation = (
  none_active entries vm generation,
  (λ h. (same_active entries vm other generation false h, same_failed entries vm other h)),
)
