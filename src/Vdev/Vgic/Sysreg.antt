-- ===== src/Vdev/Vgic/Sysreg.antt =====
-- The trapped registers of the virtual CPU interface (vgic.cpp, `handle_sysreg`).
use novavisor.Base.{ℕ, ◌+◌, ◌-◌, ◌*◌, ◌/◌, ◌%◌, ◌^◌, ◌<◌, bit_and, bit_or}
use novavisor.Base.{◌≡◌, ap, ◌∙◌}
use novavisor.Base.{Bool, true, false, ◌&&◌, Option, none, some, List}
use novavisor.Base.{arith, dec_lt}
use novavisor.Base.{ltb, leb, ◌==◌, if◌then◌else◌}
use novavisor.Base.{length, get_or}
use novavisor.Base.{get_or-set_self}
use novavisor.Base.{bit, bit_not, bit-bit_and, bit-bit_or}
use novavisor.Base.{bit-above, bit-ext}
use novavisor.Base.{bit_and-ones}
use novavisor.Base.{bit-ones}
use novavisor.Base.{bit-minus, bit-shift}
use novavisor.Base.{bit-div}
use novavisor.Vdev.Vgic.{Core}
use novavisor.Vdev.Vgic.{SysregTrap}
use novavisor.Vdev.Vgic.{srt_zero_reg, handle_sysreg}

-- The trap of an access to ICC_PMR_EL1 by register `rt`.
abbrev pub pmr_trap : ℕ → Bool → SysregTrap
pmr_trap rt write = record { op0 = 3; op1 = 0; crn = 4; crm = 6; op2 = 0; rt = rt; write = write }

-- What a trap leaves, the core and the registers, if it is the controller's.
abbrev core_of : Option (Core × List ℕ) → Core → Core
core_of (some r) c = (r).0
core_of none c = c

abbrev regs_of : Option (Core × List ℕ) → List ℕ → List ℕ
regs_of (some r) x = (r).1
regs_of none x = x

abbrev pub write_pmr : ℕ → Core → ℕ → List ℕ → Core
write_pmr vtr c rt x = core_of (handle_sysreg vtr c (pmr_trap rt true) x) c

abbrev pub read_pmr : ℕ → Core → ℕ → List ℕ → List ℕ
read_pmr vtr c rt x = regs_of (handle_sysreg vtr c (pmr_trap rt false) x) x

-- The mask of the field, and what lies outside it.
field_split :
    (v p : ℕ)
    → v < 2 ^ 64
    → p < 256
    → let w = bit_or (bit_and v (bit_not 64 (255 * 2 ^ 24))) (p * 2 ^ 24) in
      (i : ℕ) → bit w i ≡ (if leb 24 i && ltb i 32 then bit p (i - 24) else bit v i)
field_split v p h k i =
    let keep = bit-minus 64 v (255 * 2 ^ 24) i h (omega arith) in
    let mask = bit-shift 255 24 i in
    let ones = bit-ones 8 (i - 24) in
    let put = bit-shift p 24 i in
    let high = bit-above 8 p (i - 24) k in
    bit-bit_or (bit_and v (bit_not 64 (255 * 2 ^ 24))) (p * 2 ^ 24) i ∙ (elim (dec_lt i 24) [
      | yes l ↦ ground (arith, keep, mask, put)
      | no g ↦ elim (dec_lt i 32) [
        | yes l ↦ ground (arith, keep, mask, put, ones)
        | no g' ↦ ground (arith, keep, mask, put, ones, high (omega arith))
      ]
    ])

-- The priority mask that a guest writes is the one it reads back, its low byte, into any register, and the write changes no other bit of the virtual machine control register.
pub pmr_roundtrip :
    (vtr : ℕ) (c : Core) (rt rt' : ℕ) (x : List ℕ)
    → c.vmcr < 2 ^ 64
    → rt < 31
    → rt' < 31
    → rt' < length x
    → (get_or (read_pmr vtr (write_pmr vtr c rt x) rt' x) rt' 0 ≡ get_or x rt 0 % 256)
      × ((i : ℕ)
          → (leb 24 i && ltb i 32) ≡ false
          → bit (write_pmr vtr c rt x).vmcr i ≡ bit c.vmcr i)
unfolding handle_sysreg
pmr_roundtrip vtr c rt rt' x h l l' inside =
    let p = bit_and (get_or x rt 0) 255 in
    let low = bit_and-ones 8 (get_or x rt 0) in
    let small : p < 256 = omega (arith, low) in
    let w = bit_or (bit_and c.vmcr (bit_not 64 (255 * 2 ^ 24))) (p * 2 ^ 24) in
    let at = field_split c.vmcr p h small in
    let byte = bit_and (w / 2 ^ 24) 255 in
    let back : byte ≡ p =
      bit-ext 8 byte p (omega (arith, bit_and-ones 8 (w / 2 ^ 24))) small (λ i hi.
        bit-bit_and (w / 2 ^ 24) 255 i
        ∙ ground (
          arith,
          bit-ones 8 i,
          bit-div w 24 i,
          at (24 + i),
          ap (bit p) {x = 24 + i - 24} {y = i} (omega arith),
        )) in
    let t : (rt == srt_zero_reg) ≡ false = ground arith in
    let t' : (rt' == srt_zero_reg) ≡ false = ground arith in
    rw (t, t') (get_or-set_self x rt' byte 0 inside ∙ back ∙ low, λ i out. at i ∙ ground arith)
