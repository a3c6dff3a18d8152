-- ===== src/Dma/Policy/Memory.antt =====
-- What an accepted policy guarantees of the guests' physical windows (src/nova/abi/dma.hpp).
use novavisor.Base.{ℕ, ◌<◌}
use novavisor.Base.{◌≡◌}
use novavisor.Base.{false, not, ◌||◌, none, some, List, []}
use novavisor.Base.{arith, dec_lt}
use novavisor.Base.{get_elem?}
use novavisor.Base.{first-none, reject, reject-none, scan, scan-none}
use novavisor.Base.{validate-here, validate-pair}
use novavisor.Dma.Range.{ranges_overlap, InRange}
use novavisor.Dma.Range.{ranges_overlap-InRange}
use novavisor.Dma.Policy.Parts.{guests_ok}
use novavisor.Dma.Policy.{no_vm, Assignment, DeviceStream, PhysicalRange}
use novavisor.Dma.Policy.{GuestDescriptor, PolicyLimits, policy_check}
use novavisor.Dma.Policy.{guest_range_valid}
use novavisor.Dma.Policy.{protected_hit, guest_here, guest_pair}
use novavisor.Dma.Policy.{validate_policy}
use novavisor.Dma.Policy.{invalid_guest_window, overlapping_guest_pa}
use novavisor.Dma.Policy.{protected_pa_overlap}

shared : (b s c t a : ℕ) → ranges_overlap b s c t ≡ false → InRange b s a → InRange c t a → ⊥
shared b s c t a h p q = let e = (ranges_overlap-InRange b s c t).1 (a, p, q) in ground arith

-- Under an accepted policy no physical address lies in the windows of two guests.
pub policy_isolates :
    (assignments : List Assignment) (devices : List DeviceStream) (guests : List GuestDescriptor)
    (limits : PolicyLimits) (i j : ℕ) (g h : GuestDescriptor) (a : ℕ)
    → validate_policy assignments devices guests limits ≡ none
    → get_elem? guests i ≡ some g
    → get_elem? guests j ≡ some h
    → InRange g.load_pa g.ipa_size a
    → InRange h.load_pa h.ipa_size a
    → i ≡ j
policy_isolates assignments devices guests limits i j g h a ok gi hj p q =
    let all = guests_ok assignments devices guests limits ok in
    let clash : (k l : ℕ) (x y : GuestDescriptor)
        → k < l
        → get_elem? guests k ≡ some x
        → get_elem? guests l ≡ some y
        → InRange x.load_pa x.ipa_size a
        → InRange y.load_pa y.ipa_size a
        → ⊥ =
      λ k l x y lt ek el px py.
        let (n, m, e) =
          validate-pair (guest_here limits.protected_pa) guest_pair [] 0 guests k l x y all lt ek
            el in
        shared y.load_pa y.ipa_size x.load_pa x.ipa_size a
          (reject-none (ranges_overlap y.load_pa y.ipa_size x.load_pa x.ipa_size)
            (policy_check overlapping_guest_pa n m) e)
          py px in
    elim (dec_lt i j) [
      | yes lt ↦ absurd (clash i j g h lt gi hj p q)
      | no n ↦ elim (dec_lt j i) [
        | yes lt ↦ absurd (clash j i h g lt hj gi q p)
        | no m ↦ omega arith
      ]
    ]

-- Under an accepted policy no address of a protected range lies in a guest's window.
pub policy_protects :
    (assignments : List Assignment) (devices : List DeviceStream) (guests : List GuestDescriptor)
    (limits : PolicyLimits) (i k : ℕ) (g : GuestDescriptor) (r : PhysicalRange) (a : ℕ)
    → validate_policy assignments devices guests limits ≡ none
    → get_elem? guests i ≡ some g
    → get_elem? limits.protected_pa k ≡ some r
    → InRange g.load_pa g.ipa_size a
    → ¬ InRange r.base r.size a
policy_protects assignments devices guests limits i k g r a ok gi rk p q =
    let all = guests_ok assignments devices guests limits ok in
    let (n, e) = validate-here (guest_here limits.protected_pa) guest_pair [] 0 guests i g all gi in
    let valid =
      reject
        (not (guest_range_valid g.ipa_base g.ipa_size)
          || not (guest_range_valid g.load_pa g.ipa_size))
        (policy_check invalid_guest_window n no_vm) in
    let hits = (first-none valid (scan (protected_hit n g) 0 limits.protected_pa) e).1 in
    let (m, miss) = scan-none (protected_hit n g) 0 limits.protected_pa k r hits rk in
    shared g.load_pa g.ipa_size r.base r.size a
      (reject-none (ranges_overlap g.load_pa g.ipa_size r.base r.size)
        (policy_check protected_pa_overlap n m) miss)
      p q
