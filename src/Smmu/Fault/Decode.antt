-- ===== src/Smmu/Fault/Decode.antt =====
-- What a decoded event says (src/components/device/smmu/include/smmu/fault_model.hpp).
use novavisor.Base.{◌/◌, ◌%◌, ◌^◌}
use novavisor.Base.{◌≡◌}
use novavisor.Base.{true}
use novavisor.Base.{arith}
use novavisor.Smmu.Fault.{EventRecord}
use novavisor.Smmu.Fault.{decode_event, requires_quarantine}

-- An event quarantines its stream exactly when it reports the intermediate address of a failed translation, and then it is a known one, and names the stream of the record's upper half and the input address of its third word.
pub quarantine_iff_ipa :
    (e : EventRecord)
    → (requires_quarantine (decode_event e) ≡ (decode_event e).has_ipa)
      × ((decode_event e).has_ipa ≡ true
          → ((decode_event e).known ≡ true)
            × ((decode_event e).stream_id ≡ e.w0 / 2 ^ 32 % 2 ^ 32)
            × ((decode_event e).input_address ≡ e.w2))
quarantine_iff_ipa e = (ground arith, (λ h. (ground arith, ground arith, ground arith)))
