-- ===== src/Vdev/Vgic/Tests.antt =====
-- The theorems at concrete inputs: the first vCPU of the first VM is resident with interrupt 27 in a
-- list register, and the console's SPI pending.
use novavisor.Base.{◌==◌}
use novavisor.Base.{ℕ, zero, suc, ◌+◌, ◌-◌, ◌%◌, ◌^◌, ◌≤◌, ◌<◌, bit_or}
use novavisor.Base.{◌≡◌, refl, ◌≢◌, ◌⊎◌}
use novavisor.Base.{true, false, not, ◌&&◌, ◌||◌, some, List, [], ◌∷◌}
use novavisor.Base.{arith}
use novavisor.Base.{get_or, replicate}
use novavisor.Base.{bit, bit-zero}
use novavisor.Vcpu.Power.{max_vcpus_per_vm}
use novavisor.Vdev.Gic.Offsets.{max_intid, num_private, gicd_icpendr1, gicd_isenabler1}
use novavisor.Vdev.Delivery.{lr_eoi}
use novavisor.Vdev.Delivery.{valid, no_token}
use novavisor.Vdev.Delivery.{priority_of}
use novavisor.Vdev.Delivery.Scan.{Busy}
use novavisor.Vdev.Delivery.Refill.{Distinct, pending_at}
use novavisor.Vdev.Delivery.Tests.{get_or-bytes, first_Distinct, busy_lr, timer_redist}
use novavisor.Vdev.Delivery.Tests.{console_dist, console_token}
use novavisor.Vdev.Vgic.{no_resident}
use novavisor.Vdev.Vgic.{hcr_base, Core, Vgic}
use novavisor.Vdev.Vgic.{fresh_cpu, fresh_dist, dist_at}
use novavisor.Vdev.Vgic.{tokens_at, copy_lrs, sync_resident_lrs, refill_bank}
use novavisor.Vdev.Vgic.{slots_from, vcpus_of}
use novavisor.Vdev.Vgic.{post_private}
use novavisor.Vdev.Vgic.{post_spi_tracked, dist_mmio, gicd_ipa_base}
use novavisor.Vdev.Vgic.{handle_mmio, serve}
use novavisor.Vdev.Vgic.Serve.{AllOf, SameVms}
use novavisor.Vdev.Vgic.Save.{IsEisr, IsResident}
use novavisor.Vdev.Vgic.Save.{IsPosted}
use novavisor.Vdev.Vgic.Migrate.{migrated, migrate_keeps}
use novavisor.Vdev.Vgic.Post.{IsReady, IsLoaded, SameButSpi, post_private-kept}
use novavisor.Vdev.Vgic.Post.{post_spi_tracked-binds}
use novavisor.Vdev.Vgic.Mmio.{SameBeyond, handle_mmio-isolates, live_tokens_survive}

abbrev guests : List ℕ
guests = 2 ∷ 1 ∷ []

abbrev first_core : Core
first_core = record {
  resident = 0;
  lrs = busy_lr ∷ replicate 15 0;
  vmcr = 0xF0000002;
  hcr = hcr_base;
}

abbrev board : Vgic
board = record {
  cpus =
      record fresh_cpu { redist = timer_redist; lr = busy_lr ∷ replicate 15 0 }
      ∷ replicate 7 fresh_cpu;
  hw = replicate 8 (record { vmcr = 0; hcr = hcr_base });
  dists = console_dist ∷ replicate 3 fresh_dist;
  spi_tokens =
      (no_token ∷ console_token ∷ replicate 30 no_token) ∷ replicate 3 (replicate 32 no_token);
  lr_count = 4;
  vtr = 0;
  vmcr_seed = 0;
  core = first_core;
}

-- A register file that reports nothing ended.
abbrev silent : List ℕ → ℕ
silent lrs = 0

silent-IsEisr : IsEisr silent
silent-IsEisr = record { word = λ lrs. omega arith; ended = λ lrs j h. absurd (cc (bit-zero j)) }

board_bytes : (id : ℕ) → priority_of (refill_bank board 0) id < 256
board_bytes id = ground (
  arith,
  get_or-bytes 32 96 (id - num_private) (omega arith),
  get_or-bytes 32 160 id (omega arith),
)

board-IsResident : IsResident board 0
board-IsResident = record {
  here = refl;
  slot = omega arith;
  banked = omega arith;
  count = omega arith;
  shadow = refl;
  shadow_tokens = refl;
  registers = refl;
  distinct = first_Distinct 4 15 busy_lr;
}

board-IsPosted : IsPosted board 0
board-IsPosted = record {
  spis = refl;
  private_word = omega arith;
  spi_word = omega arith;
  bytes = board_bytes;
}

abbrev second_core : Core
second_core = record { resident = no_resident; lrs = replicate 16 0; vmcr = 0; hcr = hcr_base }

migrate_keeps_example :
    ((migrated guests silent board 0 second_core).core.resident ≡ 0)
    × ((migrated guests silent board 0 second_core).core.vmcr ≡ board.core.vmcr)
    × Distinct board.lr_count (migrated guests silent board 0 second_core).core.lrs
    × ((j : ℕ)
        → j < board.lr_count
        → Busy board.core.lrs j
        → (get_or (migrated guests silent board 0 second_core).core.lrs j 0
            ≡ get_or board.core.lrs j 0)
          ⊎ (get_or (migrated guests silent board 0 second_core).core.lrs j 0
              ≡ bit_or (get_or board.core.lrs j 0) lr_eoi))
migrate_keeps_example =
    migrate_keeps guests silent board 0 second_core silent-IsEisr board-IsResident board-IsPosted
      (λ e. absurd (omega arith)) refl

board-IsReady : IsReady board 0
unfolding sync_resident_lrs copy_lrs
board-IsReady = (
  omega arith,
  omega arith,
  omega arith,
  record {
    slots = omega arith;
    slot_tokens = refl;
    spis = refl;
    private_word = omega arith;
    spi_word = omega arith;
    bytes = board_bytes;
    distinct = first_Distinct 4 15 busy_lr;
  },
)

post_private-kept_example :
    ((5 < num_private)
      × ((post_private guests board 0 5).1 ≡ true)
      × ((pending_at (refill_bank (post_private guests board 0 5).0 0) 5 ≡ true)
          ⊎ IsLoaded guests board 0 board-IsReady (post_private guests board 0 5).0 5))
    ⊎ ((num_private ≤ 5) × (post_private guests board 0 5 ≡ (board, false)))
post_private-kept_example = post_private-kept guests board 0 5 board-IsReady (omega arith)

post_spi_tracked-binds_example :
    let r = post_spi_tracked guests board 0 34 40 9 in
    let before = get_or (tokens_at board 0) 2 no_token in
    let after = get_or (tokens_at ((r).0) 0) 2 no_token in
    ((r).1 ≡ true
      → (num_private ≤ 34)
        × (34 < max_intid)
        × (after.physical_intid ≡ 40)
        × (after.generation ≡ 9)
        × (◌≢◌ {A = ℕ} 9 0))
    × ((r).1 ≡ false → (r).0 ≡ board)
    × (valid before ≡ true → (r).0 ≡ board)
    × SameButSpi 0 2 board ((r).0)
post_spi_tracked-binds_example =
    post_spi_tracked-binds guests board 0 34 40 9 (omega arith) (omega arith) refl

few : (vm : ℕ) → vcpus_of guests vm ≤ max_vcpus_per_vm
few zero = omega arith
few (suc zero) = omega arith
few (suc (suc vm)) = omega arith

abbrev enabled_board : Vgic
enabled_board = record board {
  dists = record console_dist { spi_enabled = 2 ^ 1 + 2 ^ 2 } ∷ replicate 3 fresh_dist;
}

enables :
    handle_mmio guests board (gicd_ipa_base + gicd_isenabler1) 4 (some 4)
    ≡ some (enabled_board, 4, 0 ∷ 1 ∷ [])
unfolding handle_mmio dist_mmio slots_from
enables = refl

handle_mmio-isolates_example :
    SameBeyond 0 board enabled_board
    × AllOf 0 (0 ∷ 1 ∷ [])
    × SameVms 0 board (serve guests (λ slot. slot == 0) enabled_board (0 ∷ 1 ∷ []))
handle_mmio-isolates_example =
    handle_mmio-isolates guests (λ slot. slot == 0) board enabled_board
      (gicd_ipa_base + gicd_isenabler1) 4 4 (some 4) (0 ∷ 1 ∷ []) few enables

live_tokens_survive_example :
    bit (dist_at (dist_mmio guests board gicd_icpendr1 4 (some 6)).0 0).spi_pending 1 ≡ (
      (bit (dist_at board 0).spi_pending 1 && not (bit (6 % 2 ^ 32) 1))
      || valid (get_or (tokens_at board 0) 1 no_token))
live_tokens_survive_example =
    live_tokens_survive guests board 6 1 (λ e. absurd (omega arith)) (omega arith) refl
      (omega arith)
