-- ===== src/Vdev/Uart/Tests.antt =====
-- A UART whose FIFO has wrapped around.
use novavisor.Base.{◌<◌}
use novavisor.Base.{◌≡◌, refl}
use novavisor.Base.{true, false, [], ◌∷◌, ◌++◌}
use novavisor.Base.{arith}
use novavisor.Base.{length}
use novavisor.Vdev.Uart.{UartState, rx_push, rx_pop}
use novavisor.Vdev.Uart.Fifo.{IsUart, pending, first_or, drop_first, push-pending, pop-pending}

abbrev wrapped : UartState
wrapped = record {
  fifo = 66 ∷ 67 ∷ 0 ∷ 0 ∷ 0 ∷ 0 ∷ 0 ∷ 0 ∷ 0 ∷ 0 ∷ 0 ∷ 0 ∷ 0 ∷ 0 ∷ 0 ∷ 65 ∷ [];
  head = 15;
  count = 3;
  imsc = 16;
}

wrapped-IsUart : IsUart wrapped
wrapped-IsUart = record { cells = refl; head_in = omega arith; count_in = omega arith }

waiting : pending wrapped ≡ 65 ∷ 66 ∷ 67 ∷ []
waiting = refl

push-pending_example :
    IsUart ((rx_push wrapped 68).1)
    × (length (pending wrapped) ≡ 16 → rx_push wrapped 68 ≡ (false, wrapped))
    × (length (pending wrapped) < 16
        → ((rx_push wrapped 68).0 ≡ true)
          × (pending ((rx_push wrapped 68).1) ≡ pending wrapped ++ (68 ∷ [])))
push-pending_example = push-pending wrapped 68 wrapped-IsUart

pop-pending_example :
    IsUart ((rx_pop wrapped).1)
    × ((rx_pop wrapped).0 ≡ first_or 0 (pending wrapped))
    × (pending ((rx_pop wrapped).1) ≡ drop_first (pending wrapped))
    × (length (pending wrapped) ≡ 0 → rx_pop wrapped ≡ (0, wrapped))
    × (((rx_pop wrapped).1).imsc ≡ wrapped.imsc)
pop-pending_example = pop-pending wrapped wrapped-IsUart
