-- ===== src/Dma/Device/Tests.antt =====
-- Two devices of two guests.
use novavisor.Base.{List, [], ◌∷◌}
use novavisor.Dma.Policy.{Assignment}
use novavisor.Dma.Device.{Entry}
use novavisor.Dma.Device.{fresh_entry}
use novavisor.Dma.Device.{active}

abbrev nic : Assignment
nic = record { device_id = 7; stream_id = 3; vm = 1 }

abbrev disk : Assignment
disk = record { device_id = 8; stream_id = 4; vm = 0 }

abbrev running : List Entry
running =
    record (fresh_entry 7 1) { state = active; generation = 4 }
    ∷ record (fresh_entry 8 0) { state = active; generation = 2 }
    ∷ []
