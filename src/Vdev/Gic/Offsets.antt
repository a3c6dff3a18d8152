-- ===== src/Vdev/Gic/Offsets.antt =====
-- The registers of the emulated GICv3, at the offsets and with the values of
-- src/components/vdev/vgic/include/vgic/vgic_model.hpp and src/nova/arch/gicv3/regs.h.
use novavisor.Base.{ℕ}

abbrev pub gicd_ctlr : ℕ
gicd_ctlr = 0

abbrev pub gicd_typer : ℕ
gicd_typer = 4

abbrev pub gicd_iidr : ℕ
gicd_iidr = 8

abbrev pub gicd_typer2 : ℕ
gicd_typer2 = 12

abbrev pub gicd_pidr2 : ℕ
gicd_pidr2 = 65512

abbrev pub gicd_igroupr1 : ℕ
gicd_igroupr1 = 132

abbrev pub gicd_isenabler1 : ℕ
gicd_isenabler1 = 260

abbrev pub gicd_icenabler1 : ℕ
gicd_icenabler1 = 388

abbrev pub gicd_ispendr1 : ℕ
gicd_ispendr1 = 516

abbrev pub gicd_icpendr1 : ℕ
gicd_icpendr1 = 644

abbrev pub gicd_isactiver1 : ℕ
gicd_isactiver1 = 772

abbrev pub gicd_icactiver1 : ℕ
gicd_icactiver1 = 900

abbrev pub gicd_ipriorityr_spi : ℕ
gicd_ipriorityr_spi = 1056

abbrev pub gicd_ipriorityr_end : ℕ
gicd_ipriorityr_end = 1088

abbrev pub gicd_icfgr2 : ℕ
gicd_icfgr2 = 3080

abbrev pub gicd_icfgr3 : ℕ
gicd_icfgr3 = 3084

abbrev pub gicd_igrpmodr1 : ℕ
gicd_igrpmodr1 = 3332

abbrev pub gicd_irouter_spi : ℕ
gicd_irouter_spi = 24832

abbrev pub gicd_irouter_end : ℕ
gicd_irouter_end = 25088

abbrev pub gicr_frame_size : ℕ
gicr_frame_size = 131072

abbrev pub gicr_ctlr : ℕ
gicr_ctlr = 0

abbrev pub gicr_iidr : ℕ
gicr_iidr = 4

abbrev pub gicr_typer : ℕ
gicr_typer = 8

abbrev pub gicr_typer_hi : ℕ
gicr_typer_hi = 12

abbrev pub gicr_waker : ℕ
gicr_waker = 20

abbrev pub gicr_pidr2 : ℕ
gicr_pidr2 = 65512

abbrev pub gicr_igroupr0 : ℕ
gicr_igroupr0 = 65664

abbrev pub gicr_isenabler0 : ℕ
gicr_isenabler0 = 65792

abbrev pub gicr_icenabler0 : ℕ
gicr_icenabler0 = 65920

abbrev pub gicr_ispendr0 : ℕ
gicr_ispendr0 = 66048

abbrev pub gicr_icpendr0 : ℕ
gicr_icpendr0 = 66176

abbrev pub gicr_isactiver0 : ℕ
gicr_isactiver0 = 66304

abbrev pub gicr_icactiver0 : ℕ
gicr_icactiver0 = 66432

abbrev pub gicr_ipriorityr : ℕ
gicr_ipriorityr = 66560

abbrev pub gicr_ipriority_end : ℕ
gicr_ipriority_end = 66592

abbrev pub gicr_icfgr0 : ℕ
gicr_icfgr0 = 68608

abbrev pub gicr_icfgr1 : ℕ
gicr_icfgr1 = 68612

abbrev pub gicr_igrpmodr0 : ℕ
gicr_igrpmodr0 = 68864

abbrev pub gicd_ctlr_ds : ℕ
gicd_ctlr_ds = 64

abbrev pub gicd_typer_value : ℕ
gicd_typer_value = 4718593

abbrev pub gicr_typer_last : ℕ
gicr_typer_last = 16

abbrev pub gic_iidr_value : ℕ
gic_iidr_value = 1083

abbrev pub pidr2_gic_v3 : ℕ
pidr2_gic_v3 = 48

abbrev pub waker_processor_sleep : ℕ
waker_processor_sleep = 2

abbrev pub waker_children_asleep : ℕ
waker_children_asleep = 4

abbrev pub num_private : ℕ
num_private = 32

abbrev pub num_spis : ℕ
num_spis = 32

abbrev pub max_intid : ℕ
max_intid = 64
