-- ===== src/Dma/Policy/Owners.antt =====
-- What an accepted policy guarantees of the devices and their streams (src/nova/abi/dma.hpp).
use novavisor.Base.{ℕ, zero, suc, ◌<◌}
use novavisor.Base.{◌≡◌, refl, sym, ap, ◌∙◌, ◌≢◌, inl, inr}
use novavisor.Base.{true, false, not, ◌&&◌, none, some, List, [], ◌∷◌}
use novavisor.Base.{arith, dec_lt, ℕ_discrete}
use novavisor.Base.{leb, ◌==◌, Bool-cases}
use novavisor.Base.{length, get_elem?}
use novavisor.Base.{first, first-none, reject, reject-none, validate_all}
use novavisor.Base.{validate-here, validate-pair}
use novavisor.Dma.Policy.{no_vm, no_device, Assignment, DeviceStream}
use novavisor.Dma.Policy.{GuestDescriptor, PolicyLimits, policy_check}
use novavisor.Dma.Policy.{owner_from, owner_of, sid_too_wide}
use novavisor.Dma.Policy.{assignment_here}
use novavisor.Dma.Policy.{assignment_pair, no_pair}
use novavisor.Dma.Policy.{device_assigned, stream_assigned}
use novavisor.Dma.Policy.{complete_here, validate_policy}
use novavisor.Dma.Policy.{invalid_owner, invalid_device}
use novavisor.Dma.Policy.{stream_id_out_of_range, duplicate_stream, conflicting_device_owner}
use novavisor.Dma.Policy.{incomplete_device_assignment}
use novavisor.Dma.Policy.Parts.{assignments_ok, complete_ok}

pair_clear :
    (n m : ℕ) (y x : Assignment)
    → assignment_pair n y m x ≡ none
    → ((y.stream_id == x.stream_id) ≡ false)
      × (((y.device_id == x.device_id) && not (y.vm == x.vm)) ≡ false)
pair_clear n m y x h =
    let both =
      first-none (reject (y.stream_id == x.stream_id) (policy_check duplicate_stream n m))
        (reject ((y.device_id == x.device_id) && not (y.vm == x.vm))
          (policy_check conflicting_device_owner n m))
        h in
    (
      reject-none (y.stream_id == x.stream_id) (policy_check duplicate_stream n m) both.0,
      reject-none ((y.device_id == x.device_id) && not (y.vm == x.vm))
          (policy_check conflicting_device_owner n m) both.1,
    )

-- Under an accepted policy a stream is assigned once.
pub stream_once :
    (assignments : List Assignment) (devices : List DeviceStream) (guests : List GuestDescriptor)
    (limits : PolicyLimits) (i j : ℕ) (a b : Assignment)
    → validate_policy assignments devices guests limits ≡ none
    → get_elem? assignments i ≡ some a
    → get_elem? assignments j ≡ some b
    → a.stream_id ≡ b.stream_id
    → i ≡ j
stream_once assignments devices guests limits i j a b ok ai bj same =
    let all = assignments_ok assignments devices guests limits ok in
    let here = assignment_here (length guests) limits.sid_bits in
    let clash : (k l : ℕ) (x y : Assignment)
        → k < l
        → get_elem? assignments k ≡ some x
        → get_elem? assignments l ≡ some y
        → x.stream_id ≡ y.stream_id
        → ⊥ =
      λ k l x y lt ek el e.
        let (n, m, clear) =
          validate-pair here assignment_pair [] 0 assignments k l x y all lt ek el in
        let apart = (pair_clear n m y x clear).0 in ground arith in
    elim (dec_lt i j) [
      | yes lt ↦ absurd (clash i j a b lt ai bj same)
      | no n ↦ elim (dec_lt j i) [
        | yes lt ↦ absurd (clash j i b a lt bj ai (sym same))
        | no m ↦ omega arith
      ]
    ]

-- Once the owner is found, the rest of the table agrees with it.
owner_kept :
    (rest : List Assignment) (d v : ℕ)
    → ((k : ℕ) (b : Assignment) → get_elem? rest k ≡ some b → b.device_id ≡ d → b.vm ≡ v)
    → owner_from rest d v ≡ v
owner_kept [] d v agree = refl
owner_kept (b ∷ rest) d v agree =
    let ih = owner_kept rest d v (λ k c e. agree (suc k) c e) in
    let here = agree 0 b refl in
    elim (ℕ_discrete b.device_id d) [
      | yes e ↦ let v' = here e in ground (arith, ih, v', ap (owner_from rest d) v')
      | no n ↦ ground (arith, ih)
    ]

owner_found :
    (rest : List Assignment) (d v i : ℕ) (a : Assignment)
    → ((k : ℕ) (b : Assignment) → get_elem? rest k ≡ some b → b.device_id ≡ d → b.vm ≡ v)
    → get_elem? rest i ≡ some a
    → a.device_id ≡ d
    → owner_from rest d no_vm ≡ v
owner_found [] d v i a agree e h = absurd (cc e)
owner_found (b ∷ rest) d v zero a agree e h =
    let same : b ≡ a = cc e in
    let dev : b.device_id ≡ d = ap (λ x. x.device_id) same ∙ h in
    let vm = agree 0 b refl dev in
    let kept = owner_kept rest d v (λ k c f. agree (suc k) c f) in
    ground (arith, dev, vm, kept, ap (owner_from rest d) vm)
owner_found (b ∷ rest) d v (suc i) a agree e h =
    let kept = owner_kept rest d v (λ k c f. agree (suc k) c f) in
    let ih = owner_found rest d v i a (λ k c f. agree (suc k) c f) e h in
    elim (ℕ_discrete b.device_id d) [
      | yes same ↦
          ground (arith, kept, agree 0 b refl same, ap (owner_from rest d) (agree 0 b refl same))
      | no other ↦ ground (arith, ih)
    ]

one_vm :
    (assignments : List Assignment) (guests : List GuestDescriptor) (limits : PolicyLimits)
    (k i : ℕ) (b a : Assignment)
    → validate_all
        (assignment_here (length guests) limits.sid_bits)
        assignment_pair
        []
        0
        assignments
      ≡ none
    → get_elem? assignments k ≡ some b
    → get_elem? assignments i ≡ some a
    → b.device_id ≡ a.device_id
    → b.vm ≡ a.vm
one_vm assignments guests limits k i b a all bk ai same =
    let here = assignment_here (length guests) limits.sid_bits in
    elim (dec_lt k i) [
      | yes lt ↦
          let (n, m, clear) =
            validate-pair here assignment_pair [] 0 assignments k i b a all lt bk ai in
          let apart = (pair_clear n m a b clear).1 in ground arith
      | no le ↦ elim (dec_lt i k) [
        | yes lt ↦
            let (n, m, clear) =
              validate-pair here assignment_pair [] 0 assignments i k a b all lt ai bk in
            let apart = (pair_clear n m b a clear).1 in ground arith
        | no ge ↦
            let e : k ≡ i = omega arith in
            let e2 : some b ≡ some a = sym bk ∙ ap (get_elem? assignments) e ∙ ai in cc e2
      ]
    ]

-- Under an accepted policy the owner of an assigned device is the guest of each of its assignments, which is one of the table's.
pub owner_of-assigned :
    (assignments : List Assignment) (devices : List DeviceStream) (guests : List GuestDescriptor)
    (limits : PolicyLimits) (i : ℕ) (a : Assignment)
    → validate_policy assignments devices guests limits ≡ none
    → get_elem? assignments i ≡ some a
    → (owner_of assignments a.device_id ≡ a.vm) × (a.vm < length guests)
owner_of-assigned assignments devices guests limits i a ok ai =
    let all = assignments_ok assignments devices guests limits ok in
    let here = assignment_here (length guests) limits.sid_bits in
    let agree : (k : ℕ) (b : Assignment)
        → get_elem? assignments k ≡ some b
        → b.device_id ≡ a.device_id
        → b.vm ≡ a.vm =
      λ k b bk same. one_vm assignments guests limits k i b a all bk ai same in
    let (n, inside) = validate-here here assignment_pair [] 0 assignments i a all ai in
    let bound =
      (first-none (reject (leb (length guests) a.vm) (policy_check invalid_owner n no_vm))
        (first (reject (a.device_id == no_device) (policy_check invalid_device n no_vm)) (
          reject (sid_too_wide limits.sid_bits a.stream_id)
            (policy_check stream_id_out_of_range n no_vm)))
        inside).0 in
    let low = reject-none (leb (length guests) a.vm) (policy_check invalid_owner n no_vm) bound in
    (owner_found assignments a.device_id a.vm i a agree ai refl, ground arith)

no_owner :
    (rest : List Assignment) (d : DeviceStream) (o : ℕ)
    → device_assigned rest d ≡ false
    → owner_from rest d.device_id o ≡ o
no_owner [] d o h = refl
no_owner (a ∷ rest) d o h = ground (arith, no_owner rest d o)

stream_index :
    (l : List Assignment) (d : DeviceStream)
    → stream_assigned l d ≡ true
    → (i : ℕ) × (a : Assignment) × (get_elem? l i ≡ some a)
      × (a.device_id ≡ d.device_id)
      × (a.stream_id ≡ d.stream_id)
stream_index [] d h = absurd (cc h)
stream_index (a ∷ l) d h =
    let here = (a.device_id == d.device_id) && (a.stream_id == d.stream_id) in
    elim (Bool-cases here) [
      | inl t ↦ (0, a, refl, ground arith, ground arith)
      | inr f ↦
          let (i, b, e, dev, sid) = stream_index l d (ground (arith, f)) in (suc i, b, e, dev, sid)
    ]

-- Under an accepted policy every stream of a device that has an owner is assigned, and to that owner.
pub streams_complete :
    (assignments : List Assignment) (devices : List DeviceStream) (guests : List GuestDescriptor)
    (limits : PolicyLimits) (k : ℕ) (d : DeviceStream)
    → validate_policy assignments devices guests limits ≡ none
    → get_elem? devices k ≡ some d
    → owner_of assignments d.device_id ≢ no_vm
    → (i : ℕ) × (a : Assignment) × (get_elem? assignments i ≡ some a)
      × (a.device_id ≡ d.device_id)
      × (a.stream_id ≡ d.stream_id)
      × (a.vm ≡ owner_of assignments d.device_id)
streams_complete assignments devices guests limits k d ok dk owned =
    let (n, e) =
      validate-here (complete_here assignments) no_pair [] 0 devices k d
        (complete_ok assignments devices guests limits ok) dk in
    let clear =
      reject-none (device_assigned assignments d && not (stream_assigned assignments d))
        (policy_check incomplete_device_assignment n no_vm) e in
    let used : device_assigned assignments d ≡ true =
      elim (Bool-cases (device_assigned assignments d)) [
        | inl t ↦ t
        | inr f ↦ absurd (owned (no_owner assignments d no_vm f))
      ] in
    let (i, a, ai, dev, sid) = stream_index assignments d (ground arith) in
    let own = (owner_of-assigned assignments devices guests limits i a ok ai).0 in
    (i, a, ai, dev, sid, sym own ∙ ap (owner_of assignments) dev)
