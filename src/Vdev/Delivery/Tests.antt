-- ===== src/Vdev/Delivery/Tests.antt =====
-- The theorems at concrete inputs: a vCPU with a timer interrupt in flight, and two more pending.
use novavisor.Base.{ℕ, zero, suc, ◌+◌, ◌-◌, ◌/◌, ◌%◌, ◌^◌, ◌<◌, bit_and}
use novavisor.Base.{◌≡◌, refl, ap, ◌⊎◌}
use novavisor.Base.{true, false, ◌&&◌, none, some, [], ◌∷◌}
use novavisor.Base.{arith}
use novavisor.Base.{ltb, if◌then◌else◌}
use novavisor.Base.{get_or, length, replicate}
use novavisor.Base.{bit}
use novavisor.Vdev.Gic.{DistState, RedistState}
use novavisor.Vdev.Gic.Offsets.{num_private}
use novavisor.Vdev.Delivery.{lr_state_mask, lr_state_pending}
use novavisor.Vdev.Delivery.{lr_priority_shift, make_lr, lr_in_flight}
use novavisor.Vdev.Delivery.{lr_vintid, EoiToken, no_token, CpuState}
use novavisor.Vdev.Delivery.{harvest_eois, routed_from}
use novavisor.Vdev.Delivery.{spi_deliverable, inflight_from, arm_from, countr_zero}
use novavisor.Vdev.Delivery.{Bank, best_from, free_from}
use novavisor.Vdev.Delivery.{inject, refill_loop, refill}
use novavisor.Vdev.Delivery.Lrs.{make_lr_roundtrip, lr_in_flight-zero}
use novavisor.Vdev.Delivery.Scan.{Busy, Carries, Holds}
use novavisor.Vdev.Delivery.Refill.{Distinct, pending_at, IsBank}
use novavisor.Vdev.Delivery.Refill.{Before}
use novavisor.Vdev.Delivery.Refill.Guarantees.{refill-IsBank, AllHeld, Overflows, refill_complete}
use novavisor.Vdev.Delivery.Refill.Guarantees.{refill_retries, refill_ordered}
use novavisor.Vdev.Delivery.Eoi.{owed_from, harvest_eois_exact}

make_lr_roundtrip_example :
    (lr_in_flight (make_lr 27 128 true) ≡ true)
    × (lr_vintid (make_lr 27 128 true) ≡ 27)
    × (make_lr 27 128 true / 2 ^ lr_priority_shift % 256 ≡ 128)
    × (bit (make_lr 27 128 true) 41 ≡ true)
    × (bit_and (make_lr 27 128 true) lr_state_mask ≡ lr_state_pending)
make_lr_roundtrip_example = make_lr_roundtrip 27 128 true (omega arith) (omega arith)

get_or-zeros : (n i : ℕ) → get_or {A = ℕ} (replicate n 0) i 0 ≡ 0
get_or-zeros zero i = refl
get_or-zeros (suc n) zero = refl
get_or-zeros (suc n) (suc i) = get_or-zeros n i

pub get_or-bytes : (n a i : ℕ) → a < 256 → get_or (replicate n a) i 0 < 256
get_or-bytes zero a i h = omega arith
get_or-bytes (suc n) a zero h = h
get_or-bytes (suc n) a (suc i) h = get_or-bytes n a i h

-- Only the first register is in flight.
pub first_Distinct : (n m a : ℕ) → Distinct n (a ∷ replicate m 0)
first_Distinct n m a zero zero id hi hj ci cj = refl
first_Distinct n m a zero (suc j) id hi hj ci (b, _) =
    absurd (cc (ap lr_in_flight (get_or-zeros m j), b, lr_in_flight-zero))
first_Distinct n m a (suc i) j id hi hj (b, _) cj =
    absurd (cc (ap lr_in_flight (get_or-zeros m i), b, lr_in_flight-zero))

-- Interrupt 27, pending with priority 160.
abbrev pub busy_lr : ℕ
busy_lr = 5809487403559682075

abbrev pub timer_redist : RedistState
timer_redist = record {
  asleep = false;
  igroupr0 = 0;
  isenabler0 = 2 ^ 32 - 1;
  pending = 2 ^ 27 + 2 ^ 30;
  prio = replicate 32 160;
}

abbrev pub console_dist : DistState
console_dist = record {
  ctlr = 0;
  spi_group = 0;
  spi_enabled = 2 ^ 1;
  spi_pending = 2 ^ 1;
  spi_prio = replicate 32 96;
  spi_route = replicate 32 0;
}

abbrev pub console_token : EoiToken
console_token = record { virtual_intid = 33; physical_intid = 33; generation = 7 }

abbrev two_lrs : Bank
two_lrs = record {
  cpu = record {
    redist = timer_redist;
    lr = busy_lr ∷ replicate 1 0;
    lr_token = replicate 2 no_token;
  };
  dist = console_dist;
  spi_tokens = no_token ∷ console_token ∷ replicate 30 no_token;
}

two_lrs-IsBank : IsBank 2 two_lrs
two_lrs-IsBank = record {
  slots = omega arith;
  slot_tokens = refl;
  spis = refl;
  private_word = omega arith;
  spi_word = omega arith;
  bytes = λ id. ground (
    arith,
    get_or-bytes 32 96 (id - num_private) (omega arith),
    get_or-bytes 32 160 id (omega arith),
  );
  distinct = first_Distinct 2 1 busy_lr;
}

refill-IsBank_example : IsBank 2 (refill two_lrs 2 0 1).0 × (¬ ((refill two_lrs 2 0 1).1 ≡ none))
refill-IsBank_example = refill-IsBank 2 two_lrs 0 1 two_lrs-IsBank

-- The console's SPI takes the free register, the second timer interrupt overflows.
overflow_test : (refill two_lrs 2 0 1).1 ≡ some true
unfolding refill inflight_from arm_from refill_loop best_from free_from inject countr_zero
    lr_in_flight lr_vintid make_lr spi_deliverable routed_from
overflow_test = refl

refill_complete_example :
    (((refill two_lrs 2 0 1).1 ≡ some false)
      × AllHeld 2 two_lrs 0 1 two_lrs-IsBank (refill two_lrs 2 0 1).0)
    ⊎ (((refill two_lrs 2 0 1).1 ≡ some true)
        × Overflows 2 two_lrs 0 1 two_lrs-IsBank (refill two_lrs 2 0 1).0)
refill_complete_example = refill_complete 2 two_lrs 0 1 two_lrs-IsBank

pending_test : pending_at (refill two_lrs 2 0 1).0 27 ≡ true
unfolding refill inflight_from arm_from refill_loop best_from free_from inject countr_zero
    lr_in_flight lr_vintid make_lr spi_deliverable routed_from bit
pending_test = refl

refill_retries_example :
    ((i : ℕ) × (i < 2)
      × Carries (refill two_lrs 2 0 1).0.cpu.lr i 27
      × (bit (get_or (refill two_lrs 2 0 1).0.cpu.lr i 0) 41 ≡ true))
    ⊎ ((¬ Holds (refill two_lrs 2 0 1).0.cpu.lr 2 27)
        × ((i : ℕ) → i < 2 → Busy (refill two_lrs 2 0 1).0.cpu.lr i)
        × ((refill two_lrs 2 0 1).1 ≡ some true))
unfolding bit
refill_retries_example =
    refill_retries 2 two_lrs 0 1 two_lrs-IsBank 27 (omega arith) refl pending_test

second-Busy : Busy (refill two_lrs 2 0 1).0.cpu.lr 1
unfolding refill inflight_from arm_from refill_loop best_from free_from inject countr_zero
    lr_in_flight lr_vintid make_lr spi_deliverable routed_from
second-Busy = refl

second_free : lr_in_flight (get_or two_lrs.cpu.lr 1 0) ≡ false
unfolding lr_in_flight
second_free = refl

left_out : ¬ Holds (refill two_lrs 2 0 1).0.cpu.lr 2 30
unfolding refill inflight_from arm_from refill_loop best_from free_from inject countr_zero
    lr_in_flight lr_vintid make_lr spi_deliverable routed_from
left_out (zero, _, (_, e)) = absurd (omega arith)
left_out (suc zero, _, (_, e)) = absurd (omega arith)
left_out (suc (suc i), l, _) = absurd (omega arith)

refill_ordered_example : Before two_lrs (lr_vintid (get_or (refill two_lrs 2 0 1).0.cpu.lr 1 0)) 30
unfolding bit
refill_ordered_example =
    refill_ordered 2 two_lrs 0 1 two_lrs-IsBank 1 30 (omega arith) second_free second-Busy
      (omega arith) refl left_out

abbrev ended_cpu : CpuState
ended_cpu = record {
  redist = timer_redist;
  lr = busy_lr ∷ 2199023255585 ∷ [];
  lr_token = no_token ∷ console_token ∷ [];
}

harvest_eois_exact_example :
    (((harvest_eois ended_cpu 2 2).1).tokens ≡ owed_from 2 0 2 ended_cpu.lr_token)
    × ((j : ℕ)
        → let hit = ltb j 2 && bit 2 j in
          (get_or ((harvest_eois ended_cpu 2 2).0).lr j 0
            ≡ (if hit then 0 else get_or ended_cpu.lr j 0))
          × (get_or ((harvest_eois ended_cpu 2 2).0).lr_token j no_token
              ≡ (if hit then no_token else get_or ended_cpu.lr_token j no_token))
          × (bit ((harvest_eois ended_cpu 2 2).1).cleared j ≡ hit))
    × (length ((harvest_eois ended_cpu 2 2).0).lr ≡ length ended_cpu.lr)
    × (length ((harvest_eois ended_cpu 2 2).0).lr_token ≡ length ended_cpu.lr_token)
    × (((harvest_eois ended_cpu 2 2).1).cleared < 2 ^ 64)
    × (((harvest_eois ended_cpu 2 2).0).redist ≡ ended_cpu.redist)
harvest_eois_exact_example =
    harvest_eois_exact ended_cpu 2 2 (omega arith) (omega arith) refl (omega arith)
