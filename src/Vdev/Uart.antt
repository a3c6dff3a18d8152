-- ===== src/Vdev/Uart.antt =====
-- The emulated PL011 UART: src/components/vdev/vuart/include/vuart/vuart_model.hpp. One UART per
-- virtual machine, an RX FIFO of 16 bytes that the hypervisor fills, and a transmitter without
-- state, whose data writes are handed to the caller.
use novavisor.Base.{ℕ, ◌+◌, ◌-◌, ◌/◌, ◌%◌, ◌^◌, bit_and, bit_or}
use novavisor.Base.{Bool, true, false, ◌&&◌, ◌||◌}
use novavisor.Base.{List, [], ◌∷◌}
use novavisor.Base.{ltb, leb, ◌==◌, if◌then◌else◌, get_or, set}
pub mod Fifo
pub mod Regs
mod Tests

abbrev pub uart_frame_size : ℕ
uart_frame_size = 4096

abbrev pub uart_dr : ℕ
uart_dr = 0

abbrev pub uart_rsr : ℕ
uart_rsr = 4

abbrev pub uart_fr : ℕ
uart_fr = 24

abbrev pub uart_ibrd : ℕ
uart_ibrd = 36

abbrev pub uart_fbrd : ℕ
uart_fbrd = 40

abbrev pub uart_lcr_h : ℕ
uart_lcr_h = 44

abbrev pub uart_cr : ℕ
uart_cr = 48

abbrev pub uart_ifls : ℕ
uart_ifls = 52

abbrev pub uart_imsc : ℕ
uart_imsc = 56

abbrev pub uart_ris : ℕ
uart_ris = 60

abbrev pub uart_mis : ℕ
uart_mis = 64

abbrev pub uart_icr : ℕ
uart_icr = 68

abbrev pub uart_dmacr : ℕ
uart_dmacr = 72

abbrev pub uart_ids : ℕ
uart_ids = 4064

-- `kFrRxfe`, `kFrTxfe`, `kIntRx`, `kImscMask`.
abbrev pub fr_rxfe : ℕ
fr_rxfe = 16

abbrev pub fr_txfe : ℕ
fr_txfe = 128

abbrev pub int_rx : ℕ
int_rx = 16

abbrev pub imsc_mask : ℕ
imsc_mask = 2047

abbrev pub fifo_depth : ℕ
fifo_depth = 16

abbrev pub is_config_reg : ℕ → Bool
is_config_reg off =
    (off == uart_rsr)
    || (off == uart_ibrd)
    || (off == uart_fbrd)
    || (off == uart_lcr_h)
    || (off == uart_cr)
    || (off == uart_ifls)
    || (off == uart_dmacr)

pub record UartState : Type 0 where
  pub fifo : List ℕ
  pub head : ℕ
  pub count : ℕ
  pub imsc : ℕ

abbrev pub rx_empty : UartState → Bool
rx_empty u = u.count == 0

-- The counters are bytes.
abbrev pub rx_push : UartState → ℕ → Bool × UartState
rx_push u b = if u.count == fifo_depth then (false, u) else (
  true,
  record u { fifo = set u.fifo ((u.head + u.count) % fifo_depth) b; count = (u.count + 1) % 256 },
)

abbrev pub rx_pop : UartState → ℕ × UartState
rx_pop u = if u.count == 0 then (0, u) else (
  get_or u.fifo u.head 0,
  record u { head = (u.head + 1) % fifo_depth; count = u.count - 1 },
)

abbrev pub ris : UartState → ℕ
ris u = if rx_empty u then 0 else int_rx

abbrev pub mis : UartState → ℕ
mis u = bit_and (ris u) u.imsc

pub record RegRead : Type 0 where
  pub known : Bool
  pub value : ℕ

pub record WriteEffect : Type 0 where
  pub known : Bool
  pub tx : Bool
  pub tx_byte : ℕ

abbrev answered : Bool → ℕ → RegRead
answered known value = record { known = known; value = value }

abbrev effect : Bool → Bool → ℕ → WriteEffect
effect known tx tx_byte = record { known = known; tx = tx; tx_byte = tx_byte }

abbrev pub uart_id_values : List ℕ
uart_id_values = 17 ∷ 16 ∷ 20 ∷ 0 ∷ 13 ∷ 240 ∷ 5 ∷ 177 ∷ []

abbrev pub is_id_reg : ℕ → Bool
is_id_reg off = leb uart_ids off && ltb off uart_frame_size && ((off % 4) == 0)

abbrev pub reg_read : UartState → ℕ → RegRead × UartState
reg_read u off =
    if is_id_reg off
    then (answered true (get_or uart_id_values ((off - uart_ids) / 4) 0), u)
    else if is_config_reg off
    then (answered true 0, u)
    else if off == uart_dr
    then ((answered true ((rx_pop u).0)), (rx_pop u).1)
    else if off == uart_fr
    then (answered true (bit_or fr_txfe (if rx_empty u then fr_rxfe else 0)), u)
    else if off == uart_imsc
    then (answered true u.imsc, u)
    else if off == uart_ris
    then (answered true (ris u), u)
    else if off == uart_mis
    then (answered true (mis u), u)
    else (answered false 0, u)

abbrev pub reg_write : UartState → ℕ → ℕ → WriteEffect × UartState
reg_write u off value =
    if is_config_reg off || (off == uart_icr)
    then (effect true false 0, u)
    else if off == uart_dr
    then (effect true true (value % 256), u)
    else if off == uart_imsc
    then (effect true false 0, record u { imsc = bit_and (value % 2 ^ 32) imsc_mask })
    else (effect false false 0, u)
