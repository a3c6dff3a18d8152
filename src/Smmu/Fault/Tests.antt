-- ===== src/Smmu/Fault/Tests.antt =====
-- The translation fault of the source's own check.
use novavisor.Base.{◌≡◌, refl}
use novavisor.Base.{true}
use novavisor.Smmu.Fault.{EventRecord}
use novavisor.Smmu.Fault.{decode_event, requires_quarantine}

abbrev fault : EventRecord
fault = record { w0 = 158913791760; w1 = 0; w2 = 1311768467463790320; w3 = 70561231246942207 }

decoded : (decode_event fault).stream_id ≡ 37
decoded = refl

isolated : requires_quarantine (decode_event fault) ≡ true
isolated = refl
