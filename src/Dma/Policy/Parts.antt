-- ===== src/Dma/Policy/Parts.antt =====
-- The parts of an accepted policy (src/nova/abi/dma.hpp).
use novavisor.Base.{◌≡◌}
use novavisor.Base.{Option, none, List, []}
use novavisor.Base.{length}
use novavisor.Base.{first, first-none, reject, validate_all}
use novavisor.Dma.Policy.{no_vm, Assignment, DeviceStream}
use novavisor.Dma.Policy.{GuestDescriptor, PolicyLimits, PolicyCheck, policy_check}
use novavisor.Dma.Policy.{bad_bits}
use novavisor.Dma.Policy.{protected_here, guest_here, guest_pair, assignment_here}
use novavisor.Dma.Policy.{assignment_pair, no_pair, validate_ownership, device_here, device_pair}
use novavisor.Dma.Policy.{known_here}
use novavisor.Dma.Policy.{complete_here, validate_device_policy, validate_policy}
use novavisor.Dma.Policy.{invalid_capabilities}

-- The last two of four checks in a row.
module _ (a b c d : Option PolicyCheck) (h : first a (first b (first c d)) ≡ none) where
  last_two : (c ≡ none) × (d ≡ none)
  last_two = first-none c d (first-none b (first c d) (first-none a (first b (first c d)) h).1).1

module _ (assignments : List Assignment) (devices : List DeviceStream)
    (guests : List GuestDescriptor) (limits : PolicyLimits)
    (ok : validate_policy assignments devices guests limits ≡ none) where
  parts :
      (validate_ownership assignments guests limits ≡ none)
      × (validate_device_policy assignments devices limits.sid_bits ≡ none)
  parts =
      first-none (validate_ownership assignments guests limits)
        (validate_device_policy assignments devices limits.sid_bits) ok

  ownership :
      (validate_all (guest_here limits.protected_pa) guest_pair [] 0 guests ≡ none)
      × (validate_all
            (assignment_here (length guests) limits.sid_bits)
            assignment_pair
            []
            0
            assignments
          ≡ none)
  ownership =
      last_two (reject (bad_bits limits.sid_bits) (policy_check invalid_capabilities 0 no_vm))
        (validate_all protected_here no_pair [] 0 limits.protected_pa)
        (validate_all (guest_here limits.protected_pa) guest_pair [] 0 guests)
        (validate_all (assignment_here (length guests) limits.sid_bits) assignment_pair [] 0
          assignments)
        parts.0

  pub guests_ok : validate_all (guest_here limits.protected_pa) guest_pair [] 0 guests ≡ none
  guests_ok = ownership.0

  pub assignments_ok :
      validate_all
        (assignment_here (length guests) limits.sid_bits)
        assignment_pair
        []
        0
        assignments
      ≡ none
  assignments_ok = ownership.1

  pub complete_ok : validate_all (complete_here assignments) no_pair [] 0 devices ≡ none
  complete_ok =
      (last_two (reject (bad_bits limits.sid_bits) (policy_check invalid_capabilities 0 no_vm))
        (validate_all (device_here limits.sid_bits) device_pair [] 0 devices)
        (validate_all (known_here devices) no_pair [] 0 assignments)
        (validate_all (complete_here assignments) no_pair [] 0 devices) parts.1).1
