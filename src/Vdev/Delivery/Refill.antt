-- ===== src/Vdev/Delivery/Refill.antt =====
-- What `refill` leaves in the list registers and among the pending interrupts
-- (vgic_delivery.hpp).
pub mod Step
pub mod Whole
pub mod Guarantees
pub mod Loop
use novavisor.Base.{ℕ, ◌-◌, ◌^◌, ◌≤◌, ◌<◌}
use novavisor.Base.{◌≡◌, ◌⊎◌}
use novavisor.Base.{Bool, true, false, Option, none, some, List}
use novavisor.Base.{leb, if◌then◌else◌}
use novavisor.Base.{length, get_or}
use novavisor.Base.{bit}
use novavisor.Vdev.Delivery.{make_lr, lr_in_flight}
use novavisor.Vdev.Delivery.{lr_vintid, EoiToken, valid, no_token}
use novavisor.Vdev.Delivery.{Bank, priority_of}
use novavisor.Vdev.Gic.Offsets.{max_intid, num_private}
use novavisor.Vdev.Delivery.Scan.{Busy, Carries, Holds}

-- No interrupt is in two of the first `n` registers.
abbrev pub Distinct : ℕ → List ℕ → Type 0
Distinct n lrs = (i j id : ℕ) → i < n → j < n → Carries lrs i id → Carries lrs j id → i ≡ j

abbrev pub pending_at : Bank → ℕ → Bool
pending_at b id =
    if leb num_private id
    then bit b.dist.spi_pending (id - num_private)
    else bit b.cpu.redist.pending id

-- The token of a candidate.
abbrev pub token_of : Bank → ℕ → EoiToken
token_of b id =
    if leb num_private id then get_or b.spi_tokens (id - num_private) no_token else no_token

-- The register that a candidate is given: its priority, and maintenance if it has a live token.
abbrev pub entry_of : Bank → ℕ → ℕ
entry_of b id = make_lr id (priority_of b id) (valid (token_of b id))

-- The types of the source: arrays of registers and tokens, 32-bit words, bytes.
pub record IsBank (n : ℕ) (b : Bank) : Type 0 where
  pub slots : n ≤ length b.cpu.lr
  pub slot_tokens : length b.cpu.lr_token ≡ length b.cpu.lr
  pub spis : length b.spi_tokens ≡ 32
  pub private_word : b.cpu.redist.pending < 2 ^ 32
  pub spi_word : b.dist.spi_pending < 2 ^ 32
  pub bytes : (id : ℕ) → priority_of b id < 256
  pub distinct : Distinct n b.cpu.lr

-- The candidates `k` at the head of the loop.
pub record AreCandidates (n k : ℕ) (b : Bank) : Type 0 where
  pub word : k < 2 ^ 64
  pub fresh : (id : ℕ) → bit k id ≡ true → ¬ Holds b.cpu.lr n id

-- `id` goes before `other`: a lower priority value, or the same and a lower INTID.
abbrev pub Before : Bank → ℕ → ℕ → Type 0
Before b id other =
    (priority_of b id < priority_of b other)
    ⊎ ((priority_of b id ≡ priority_of b other) × (id ≤ other))

-- The result of the loop over the candidates `k`.
pub record IsRefilled (n k : ℕ) (b : Bank) (r : Bank × Option Bool) : Type 0 where
  pub bank : IsBank n ((r).0)
  pub ends : ¬ ((r).1 ≡ none)
  pub same_priority : (id : ℕ) → priority_of ((r).0) id ≡ priority_of b id
  pub stays : (i : ℕ) → i < n → Busy b.cpu.lr i → get_or ((r).0).cpu.lr i 0 ≡ get_or b.cpu.lr i 0
  pub token_stays :
      (i : ℕ)
      → i < n
      → Busy b.cpu.lr i
      → get_or ((r).0).cpu.lr_token i no_token ≡ get_or b.cpu.lr_token i no_token
  pub taken :
      (i : ℕ)
      → i < n
      → lr_in_flight (get_or b.cpu.lr i 0) ≡ false
      → Busy ((r).0).cpu.lr i
      → (bit k (lr_vintid (get_or ((r).0).cpu.lr i 0)) ≡ true)
        × (get_or ((r).0).cpu.lr i 0 ≡ entry_of b (lr_vintid (get_or ((r).0).cpu.lr i 0)))
        × (get_or ((r).0).cpu.lr_token i no_token
            ≡ token_of b (lr_vintid (get_or ((r).0).cpu.lr i 0)))
  pub untouched :
      (id : ℕ)
      → id < max_intid
      → bit k id ≡ false
      → (pending_at ((r).0) id ≡ pending_at b id) × (token_of ((r).0) id ≡ token_of b id)
  pub moved :
      (id : ℕ)
      → bit k id ≡ true
      → (Holds ((r).0).cpu.lr n id
          × (pending_at ((r).0) id ≡ false)
          × (token_of ((r).0) id ≡ no_token))
        ⊎ ((¬ Holds ((r).0).cpu.lr n id)
            × (pending_at ((r).0) id ≡ pending_at b id)
            × (token_of ((r).0) id ≡ token_of b id))
  pub all : (r).1 ≡ some false → (id : ℕ) → bit k id ≡ true → Holds ((r).0).cpu.lr n id
  pub full : (r).1 ≡ some true → (i : ℕ) → i < n → Busy ((r).0).cpu.lr i
  pub left : (r).1 ≡ some true → (id : ℕ) × (bit k id ≡ true) × (¬ Holds ((r).0).cpu.lr n id)
  pub ordered :
      (i id : ℕ)
      → i < n
      → lr_in_flight (get_or b.cpu.lr i 0) ≡ false
      → Busy ((r).0).cpu.lr i
      → bit k id ≡ true
      → (¬ Holds ((r).0).cpu.lr n id)
      → Before b (lr_vintid (get_or ((r).0).cpu.lr i 0)) id
