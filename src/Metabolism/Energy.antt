-- ===== src/Metabolism/Energy.antt =====
-- har/crates/har-metabolism/src/energy.rs: energy figures, unknown unless a device counter was read.
use remora_lab.Base.{Bool, false, Option, none, some, is_some}
use remora_lab.Base.Real.{F64}

pub data EnergyScope : Type 0 where
  unknown gpu_only estimated : EnergyScope

pub record EnergyLabel (f : F64) : Type 0 where
  pub scope : EnergyScope
  pub joules_per_exact_token : Option f.Carrier
  pub joules_per_accepted_token : Option f.Carrier
  pub energy_delay_product : Option f.Carrier

module _ (f : F64) where
  abbrev pub unknown_energy : EnergyLabel f
  unknown_energy = record {
    scope = unknown;
    joules_per_exact_token = none;
    joules_per_accepted_token = none;
    energy_delay_product = none;
  }

  abbrev pub gpu_energy : f.Carrier → EnergyLabel f
  gpu_energy joules = record {
    scope = gpu_only;
    joules_per_exact_token = some joules;
    joules_per_accepted_token = none;
    energy_delay_product = none;
  }

  unfoldable pub is_known : EnergyLabel f → Bool
  is_known e = elim e.scope [ gpu_only ↦ is_some e.joules_per_exact_token | _ ↦ false ]
