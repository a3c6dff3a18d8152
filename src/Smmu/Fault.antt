-- ===== src/Smmu/Fault.antt =====
-- Event records of the SMMU: src/components/device/smmu/include/smmu/fault_model.hpp. A record is
-- its four words; an event type is its code, so that a code outside the enumeration stays one.
use novavisor.Base.{ℕ, ◌/◌, ◌%◌, ◌^◌, bit_and}
use novavisor.Base.{Bool, true, false, not, ◌||◌}
use novavisor.Base.{◌==◌, if◌then◌else◌}
pub mod Decode
mod Tests

-- The enumerators of `EventType`.
abbrev pub ev_none : ℕ
ev_none = 0

abbrev pub ev_bad_stream_id : ℕ
ev_bad_stream_id = 2

abbrev pub ev_ste_fetch : ℕ
ev_ste_fetch = 3

abbrev pub ev_bad_ste : ℕ
ev_bad_ste = 4

abbrev pub ev_cd_fetch : ℕ
ev_cd_fetch = 9

abbrev pub ev_translation_fault : ℕ
ev_translation_fault = 16

abbrev pub ev_address_size_fault : ℕ
ev_address_size_fault = 17

abbrev pub ev_access_fault : ℕ
ev_access_fault = 18

abbrev pub ev_permission_fault : ℕ
ev_permission_fault = 19

abbrev pub event_ipa_mask : ℕ
event_ipa_mask = 4503599627366400

abbrev pub event_fetch_mask : ℕ
event_fetch_mask = 4503599627370488

pub record EventRecord : Type 0 where
  pub w0 : ℕ
  pub w1 : ℕ
  pub w2 : ℕ
  pub w3 : ℕ

abbrev pub event_type : EventRecord → ℕ
event_type e = bit_and e.w0 255

abbrev pub event_stream_id : EventRecord → ℕ
event_stream_id e = e.w0 / 2 ^ 32 % 2 ^ 32

pub record DecodedEvent : Type 0 where
  pub raw : EventRecord
  pub type_code : ℕ
  pub stream_id : ℕ
  pub known : Bool
  pub has_substream_id : Bool
  pub substream_id : ℕ
  pub has_input_address : Bool
  pub input_address : ℕ
  pub has_ipa : Bool
  pub ipa : ℕ
  pub has_fetch_address : Bool
  pub fetch_address : ℕ

abbrev pub is_stage2_fault : ℕ → Bool
is_stage2_fault t =
    (t == ev_translation_fault)
    || (t == ev_address_size_fault)
    || (t == ev_access_fault)
    || (t == ev_permission_fault)

abbrev pub has_ssid : EventRecord → Bool
has_ssid e = not (bit_and e.w0 2048 == 0)

-- The record before the switch over its type.
abbrev pub undecoded : EventRecord → DecodedEvent
undecoded e = record {
  raw = e;
  type_code = event_type e;
  stream_id = event_stream_id e;
  known = false;
  has_substream_id = has_ssid e;
  substream_id = if has_ssid e then bit_and e.w0 4294963200 / 2 ^ 12 else 0;
  has_input_address = false;
  input_address = 0;
  has_ipa = false;
  ipa = 0;
  has_fetch_address = false;
  fetch_address = 0;
}

abbrev pub decode_event : EventRecord → DecodedEvent
decode_event e =
    let d = undecoded e in
    let t = event_type e in
    if (t == ev_none) || (t == ev_bad_stream_id) || (t == ev_bad_ste)
    then record d { known = true }
    else if t == ev_ste_fetch
    then record d {
      known = true;
      has_fetch_address = true;
      fetch_address = bit_and e.w3 event_fetch_mask;
    }
    else if t == ev_cd_fetch
    then record d { known = true; has_input_address = true; input_address = e.w2 }
    else if is_stage2_fault t
    then record d {
      known = true;
      has_input_address = true;
      input_address = e.w2;
      has_ipa = true;
      ipa = bit_and e.w3 event_ipa_mask;
    }
    else d

abbrev pub requires_quarantine : DecodedEvent → Bool
requires_quarantine d = is_stage2_fault d.type_code
