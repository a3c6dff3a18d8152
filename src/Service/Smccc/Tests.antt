-- ===== src/Service/Smccc/Tests.antt =====
-- A processor that discloses the first level of branch-target protection alone.
use novavisor.Base.{true}
use novavisor.Service.Smccc.{SpeculationState}

abbrev core : SpeculationState
core = record { csv2 = 1; csv2_frac = 0; ssbs = 0; clrbhb = true }
