-- ===== src/Dma/Policy/Tests.antt =====
-- A board with two guests, a device with two streams, and a protected range.
use novavisor.Base.{ℕ}
use novavisor.Base.{◌≡◌, refl}
use novavisor.Base.{none, some, List, [], ◌∷◌}
use novavisor.Base.{arith}
use novavisor.Base.{get_elem?}
use novavisor.Dma.Range.{InRange}
use novavisor.Dma.Policy.{no_vm, Assignment, DeviceStream, PhysicalRange}
use novavisor.Dma.Policy.{GuestDescriptor, PolicyLimits, policy_check}
use novavisor.Dma.Policy.{owner_of}
use novavisor.Dma.Policy.{validate_policy}
use novavisor.Dma.Policy.{overlapping_guest_pa}
use novavisor.Dma.Policy.{incomplete_device_assignment}
use novavisor.Dma.Policy.Memory.{policy_isolates, policy_protects}
use novavisor.Dma.Policy.Owners.{streams_complete}

abbrev guest_a : GuestDescriptor
guest_a = record { load_pa = 1048576; ipa_base = 1073741824; ipa_size = 65536; vmid = 1 }

abbrev guest_b : GuestDescriptor
guest_b = record { load_pa = 2097152; ipa_base = 1073741824; ipa_size = 65536; vmid = 2 }

abbrev guests : List GuestDescriptor
guests = guest_a ∷ guest_b ∷ []

abbrev hypervisor : PhysicalRange
hypervisor = record { base = 0; size = 1048576 }

abbrev limits : PolicyLimits
limits = record { sid_bits = 5; protected_pa = hypervisor ∷ [] }

abbrev first_stream : Assignment
first_stream = record { device_id = 7; stream_id = 3; vm = 1 }

abbrev second_stream : Assignment
second_stream = record { device_id = 7; stream_id = 4; vm = 1 }

abbrev assignments : List Assignment
assignments = first_stream ∷ second_stream ∷ []

abbrev inventory : List DeviceStream
inventory =
    record { device_id = 7; stream_id = 3 }
    ∷ record { device_id = 7; stream_id = 4 }
    ∷ record { device_id = 9; stream_id = 5 }
    ∷ []

accepted : validate_policy assignments inventory guests limits ≡ none
accepted = refl

overlapping_guests :
    validate_policy assignments inventory (guest_a ∷ guest_a ∷ []) limits
    ≡ some (policy_check overlapping_guest_pa 1 0)
overlapping_guests = refl

half_a_device :
    validate_policy (first_stream ∷ []) inventory guests limits
    ≡ some (policy_check incomplete_device_assignment 1 no_vm)
half_a_device = refl

policy_isolates_example : ◌≡◌ {A = ℕ} 1 1
policy_isolates_example =
    policy_isolates assignments inventory guests limits 1 1 guest_b guest_b 2097160 refl refl refl
      (omega arith, omega arith) (omega arith, omega arith)

policy_protects_example : ¬ InRange 0 1048576 1048580
policy_protects_example =
    policy_protects assignments inventory guests limits 0 0 guest_a hypervisor 1048580 refl refl
      refl (omega arith, omega arith)

streams_complete_example :
    (i : ℕ) × (a : Assignment) × (get_elem? assignments i ≡ some a)
    × (a.device_id ≡ 7)
    × (a.stream_id ≡ 4)
    × (a.vm ≡ owner_of assignments 7)
streams_complete_example =
    streams_complete assignments inventory guests limits 1 (record { device_id = 7; stream_id = 4 })
      refl refl (λ e. absurd (omega (arith, e)))
