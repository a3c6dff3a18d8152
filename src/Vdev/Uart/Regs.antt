-- ===== src/Vdev/Uart/Regs.antt =====
-- The register frame of the UART (src/components/vdev/vuart/include/vuart/vuart_model.hpp).
use novavisor.Base.{ℕ, zero, suc, bit_and}
use novavisor.Base.{◌≡◌, refl, sym, ap, ◌∙◌, ◌≢◌}
use novavisor.Base.{Bool, false, not, ◌&&◌, ◌||◌, List, [], ◌∷◌}
use novavisor.Base.{arith, ℕ_discrete}
use novavisor.Base.{◌==◌, if◌then◌else◌}
use novavisor.Base.{length}
use novavisor.Base.{length-window}
use novavisor.Base.{bit}
use novavisor.Vdev.Uart.{uart_dr, uart_fr}
use novavisor.Vdev.Uart.{uart_ris, uart_mis, uart_icr}
use novavisor.Vdev.Uart.{int_rx}
use novavisor.Vdev.Uart.{UartState, rx_empty, rx_pop, mis}
use novavisor.Vdev.Uart.{is_id_reg, reg_read, reg_write}
use novavisor.Vdev.Uart.Fifo.{IsUart, pending, pop-pending, first_or, drop_first}
use novavisor.Base.{zero-bit_and}
use novavisor.Base.{bit_and-pow}

-- The read-only registers, and the write-only one.
abbrev one_way : ℕ → Bool
one_way off =
    is_id_reg off || (off == uart_fr) || (off == uart_ris) || (off == uart_mis) || (off == uart_icr)

-- A read and a write agree on which registers exist, but for those that have one direction only.
pub known-agree :
    (u : UartState) (off value : ℕ)
    → one_way off ≡ false
    → ((reg_read u off).0).known ≡ ((reg_write u off value).0).known
known-agree u off value h = ground arith

-- The interrupt is a level: its bit is up exactly when a byte waits and the guest has unmasked it, and no other bit is ever up.
pub mis_level : (u : UartState) → mis u ≡ (if not (rx_empty u) && bit u.imsc 4 then int_rx else 0)
mis_level u =
    let masked : bit_and 16 u.imsc ≡ (if bit u.imsc 4 then 16 else 0) =
      bit_and-pow 5 4 u.imsc (omega arith) in
    elim (ℕ_discrete u.count 0) [
      | yes e ↦ ground (arith, e, zero-bit_and u.imsc)
      | no n ↦ ground (arith, masked)
    ]

-- Only a read of the data register changes the state.
pub reads_pure : (u : UartState) (off : ℕ) → off ≢ uart_dr → (reg_read u off).1 ≡ u
reads_pure u off h = ground arith

-- A guest that reads the data register so many times.
abbrev pub drain : ℕ → UartState → List ℕ × UartState
drain zero u = ([], u)
drain (suc n) u =
    let rest = drain n ((reg_read u uart_dr).1) in
    ((((reg_read u uart_dr).0).value ∷ rest.0), rest.1)

first-rest :
    (l : List ℕ) (n : ℕ)
    → length l ≡ suc n
    → (first_or 0 l ∷ drop_first l ≡ l) × (length (drop_first l) ≡ n)
first-rest [] n e = absurd (omega arith)
first-rest (x ∷ xs) n e = (refl, omega arith)

nothing : (l : List ℕ) → length l ≡ 0 → [] ≡ l
nothing [] e = refl
nothing (x ∷ xs) e = absurd (omega arith)

drain_all :
    (n : ℕ) (u : UartState)
    → IsUart u
    → length (pending u) ≡ n
    → ((drain n u).0 ≡ pending u) × (length (pending ((drain n u).1)) ≡ 0)
drain_all zero u w e = (nothing (pending u) e, e)
drain_all (suc n) u w e =
    let popped = pop-pending u w in
    let shape = first-rest (pending u) n e in
    let next = (rx_pop u).1 in
    let ih = drain_all n next popped.0 (ap length popped.2 ∙ shape.1) in
    (
      ap (λ x. x ∷ (drain n next).0) popped.1
          ∙ ap (λ l. first_or 0 (pending u) ∷ l) (ih.0 ∙ popped.2)
          ∙ shape.0,
      ih.1,
    )

low : (u : UartState) → length (pending u) ≡ 0 → mis u ≡ 0
low u e =
    let none_left : u.count ≡ 0 = sym (length-window 16 0 u.fifo u.head u.count) ∙ e in
    ground (arith, none_left, zero-bit_and u.imsc)

-- A guest that drains the queue reads every byte in the order it came, and leaves the interrupt level low.
pub drain_clears :
    (u : UartState)
    → IsUart u
    → ((drain (length (pending u)) u).0 ≡ pending u) × (mis ((drain (length (pending u)) u).1) ≡ 0)
drain_clears u w =
    let all = drain_all (length (pending u)) u w refl in
    (all.0, low ((drain (length (pending u)) u).1) all.1)
