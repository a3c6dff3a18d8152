-- ===== src/Dma/Policy.antt =====
-- The static DMA ownership policy: src/nova/abi/dma.hpp. The spans are lists; a check that
-- returns early returns the first `PolicyCheck` that is an error.
use novavisor.Base.{ℕ, ◌-◌, ◌%◌, ◌^◌}
use novavisor.Base.{Bool, false, not, ◌&&◌, ◌||◌, Option, none, List, [], ◌∷◌}
use novavisor.Base.{ltb, leb, ◌==◌, if◌then◌else◌}
use novavisor.Base.{length}
use novavisor.Base.{first, reject, scan, validate_all}
use novavisor.Dma.Range.{range_well_formed, ranges_overlap}
pub mod Parts
pub mod Memory
pub mod Owners
mod Tests

-- `kNoVm`, `kNoDevice`, `kPageSize`.
abbrev pub no_vm : ℕ
no_vm = 2 ^ 64 - 1

abbrev pub no_device : ℕ
no_device = 65535

abbrev pub page_size : ℕ
page_size = 4096

pub record Assignment : Type 0 where
  pub device_id : ℕ
  pub stream_id : ℕ
  pub vm : ℕ

pub record DeviceStream : Type 0 where
  pub device_id : ℕ
  pub stream_id : ℕ

pub record PhysicalRange : Type 0 where
  pub base : ℕ
  pub size : ℕ

-- The fields of `GuestDescriptor` (src/nova/abi/guest.hpp) that the policies read.
pub record GuestDescriptor : Type 0 where
  pub load_pa : ℕ
  pub ipa_base : ℕ
  pub ipa_size : ℕ
  pub vmid : ℕ

pub record PolicyLimits : Type 0 where
  pub sid_bits : ℕ
  pub protected_pa : List PhysicalRange

pub data PolicyError : Type 0 where
  invalid_capabilities : PolicyError
  invalid_guest_window : PolicyError
  overlapping_guest_pa : PolicyError
  protected_pa_overlap : PolicyError
  invalid_owner : PolicyError
  invalid_device : PolicyError
  stream_id_out_of_range : PolicyError
  duplicate_stream : PolicyError
  conflicting_device_owner : PolicyError
  unknown_device_stream : PolicyError
  incomplete_device_assignment : PolicyError

-- A check that is not `ok()`; `kNone` is the absence of one.
pub record PolicyCheck : Type 0 where
  pub error : PolicyError
  pub index : ℕ
  pub related_index : ℕ

abbrev pub policy_check : PolicyError → ℕ → ℕ → PolicyCheck
policy_check e i j = record { error = e; index = i; related_index = j }

-- The loop of `owner_of`, from the owner found so far.
abbrev pub owner_from : List Assignment → ℕ → ℕ → ℕ
owner_from [] device owner = owner
owner_from (a ∷ rest) device owner =
    if not (a.device_id == device)
    then owner_from rest device owner
    else if not (owner == no_vm) && not (owner == a.vm)
    then no_vm
    else owner_from rest device a.vm

abbrev pub owner_of : List Assignment → ℕ → ℕ
owner_of assignments device = owner_from assignments device no_vm

abbrev pub guest_range_valid : ℕ → ℕ → Bool
guest_range_valid base size =
    range_well_formed base size && ((base % page_size) == 0) && ((size % page_size) == 0)

abbrev pub bad_bits : ℕ → Bool
bad_bits sid_bits = (sid_bits == 0) || ltb 32 sid_bits

abbrev pub sid_too_wide : ℕ → ℕ → Bool
sid_too_wide sid_bits sid = ltb sid_bits 32 && leb (2 ^ sid_bits) sid

abbrev pub protected_here : ℕ → PhysicalRange → Option PolicyCheck
protected_here i p =
    reject (not (range_well_formed p.base p.size)) (policy_check invalid_capabilities i no_vm)

abbrev pub protected_hit : ℕ → GuestDescriptor → ℕ → PhysicalRange → Option PolicyCheck
protected_hit i g j p =
    reject (ranges_overlap g.load_pa g.ipa_size p.base p.size)
      (policy_check protected_pa_overlap i j)

abbrev pub guest_here : List PhysicalRange → ℕ → GuestDescriptor → Option PolicyCheck
guest_here protected i g =
    first
      (reject
        (not (guest_range_valid g.ipa_base g.ipa_size)
          || not (guest_range_valid g.load_pa g.ipa_size))
        (policy_check invalid_guest_window i no_vm))
      (scan (protected_hit i g) 0 protected)

abbrev pub guest_pair : ℕ → GuestDescriptor → ℕ → GuestDescriptor → Option PolicyCheck
guest_pair i g j h =
    reject (ranges_overlap g.load_pa g.ipa_size h.load_pa h.ipa_size)
      (policy_check overlapping_guest_pa i j)

abbrev pub assignment_here : ℕ → ℕ → ℕ → Assignment → Option PolicyCheck
assignment_here guests sid_bits i a =
    first (reject (leb guests a.vm) (policy_check invalid_owner i no_vm)) (
      first (reject (a.device_id == no_device) (policy_check invalid_device i no_vm))
        (reject (sid_too_wide sid_bits a.stream_id) (policy_check stream_id_out_of_range i no_vm)))

abbrev pub assignment_pair : ℕ → Assignment → ℕ → Assignment → Option PolicyCheck
assignment_pair i a j b =
    first (reject (a.stream_id == b.stream_id) (policy_check duplicate_stream i j)) (
      reject ((a.device_id == b.device_id) && not (a.vm == b.vm))
        (policy_check conflicting_device_owner i j))

abbrev pub no_pair : {A : Type 0} → ℕ → A → ℕ → A → Option PolicyCheck
no_pair i x j y = none

-- `validate_policy` over the assignments, the guests and the limits.
abbrev pub validate_ownership :
    List Assignment → List GuestDescriptor → PolicyLimits → Option PolicyCheck
validate_ownership assignments guests limits =
    first (reject (bad_bits limits.sid_bits) (policy_check invalid_capabilities 0 no_vm)) (
      first (validate_all protected_here no_pair [] 0 limits.protected_pa) (
        first (validate_all (guest_here limits.protected_pa) guest_pair [] 0 guests) (
          validate_all (assignment_here (length guests) limits.sid_bits) assignment_pair [] 0
            assignments)))

abbrev pub device_here : ℕ → ℕ → DeviceStream → Option PolicyCheck
device_here sid_bits i d =
    first (reject (d.device_id == no_device) (policy_check invalid_device i no_vm))
      (reject (sid_too_wide sid_bits d.stream_id) (policy_check stream_id_out_of_range i no_vm))

abbrev pub device_pair : ℕ → DeviceStream → ℕ → DeviceStream → Option PolicyCheck
device_pair i d j e = reject (d.stream_id == e.stream_id) (policy_check duplicate_stream i j)

-- Whether some device stream is the one of the assignment.
abbrev pub stream_found : List DeviceStream → Assignment → Bool
stream_found [] a = false
stream_found (d ∷ rest) a =
    ((a.device_id == d.device_id) && (a.stream_id == d.stream_id)) || stream_found rest a

abbrev pub device_assigned : List Assignment → DeviceStream → Bool
device_assigned [] d = false
device_assigned (a ∷ rest) d = (a.device_id == d.device_id) || device_assigned rest d

abbrev pub stream_assigned : List Assignment → DeviceStream → Bool
stream_assigned [] d = false
stream_assigned (a ∷ rest) d =
    ((a.device_id == d.device_id) && (a.stream_id == d.stream_id)) || stream_assigned rest d

abbrev pub known_here : List DeviceStream → ℕ → Assignment → Option PolicyCheck
known_here devices i a =
    reject (not (stream_found devices a)) (policy_check unknown_device_stream i no_vm)

abbrev pub complete_here : List Assignment → ℕ → DeviceStream → Option PolicyCheck
complete_here assignments i d =
    reject (device_assigned assignments d && not (stream_assigned assignments d))
      (policy_check incomplete_device_assignment i no_vm)

abbrev pub validate_device_policy : List Assignment → List DeviceStream → ℕ → Option PolicyCheck
validate_device_policy assignments devices sid_bits =
    first (reject (bad_bits sid_bits) (policy_check invalid_capabilities 0 no_vm)) (
      first (validate_all (device_here sid_bits) device_pair [] 0 devices) (
        first (validate_all (known_here devices) no_pair [] 0 assignments)
          (validate_all (complete_here assignments) no_pair [] 0 devices)))

-- `validate_policy` with the board's device streams.
abbrev pub validate_policy :
    List Assignment → List DeviceStream → List GuestDescriptor → PolicyLimits → Option PolicyCheck
validate_policy assignments devices guests limits =
    first (validate_ownership assignments guests limits)
      (validate_device_policy assignments devices limits.sid_bits)
