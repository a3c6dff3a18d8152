-- ===== src/Vdev/Gic/Frames.antt =====
-- Redistributor frames (src/components/vdev/vgic/include/vgic/vgic_model.hpp).
use novavisor.Base.{ℕ, ◌+◌, ◌-◌, ◌*◌, ◌/◌, ◌%◌, ◌≤◌, ◌<◌}
use novavisor.Base.{◌≡◌}
use novavisor.Base.{true, false}
use novavisor.Base.{arith}
use novavisor.Base.{◌==◌}
use novavisor.Vdev.Gic.{decode_redist_frame}
use novavisor.Vdev.Gic.Offsets.{gicr_frame_size}

-- An access to the redistributor region resolves to the frame that holds it, exactly when the region has that frame: every offset inside a vCPU's frame, and no other, decodes to that vCPU, and the last frame alone is marked so.
pub decode_frame :
    (off vcpus k r : ℕ)
    → r < gicr_frame_size
    → off ≡ k * gicr_frame_size + r
    → (k < vcpus
        → decode_redist_frame off vcpus ≡ record {
          valid = true;
          vcpu = k;
          offset = r;
          id = record { number = k; last = k == (vcpus - 1) };
        })
      × (vcpus ≤ k → (decode_redist_frame off vcpus).valid ≡ false)
decode_frame off vcpus k r h e =
    let q : off / 131072 ≡ k = omega (arith, h, e) in
    let m : off % 131072 ≡ r = omega (arith, h, e) in
    ((λ lt. ground (arith, q, m, lt)), (λ le. ground (arith, q, le)))
