-- ===== src/Residency/Remora/Tests.antt =====
-- har/crates/har-residency/src/remora.rs: an observation at a concrete manager and controller.
use remora_lab.Base.{◌≡◌, none, some, [], arith, true, false}
use remora_lab.Base.Real.{fractions}
use remora_lab.Metabolism.Controller.{ControllerConfig, MetabolismSnapshot, started}
use remora_lab.Metabolism.Controller.Invariant.{IsValid, started-IsValid}
use remora_lab.Metabolism.Setpoint.{MaintenanceSetpoint}
use remora_lab.Residency.Manager.{ResidencyManager, default_snapshot}
use remora_lab.Residency.Remora.{
  ResidencyObservation, ResidencyMetabolism, observe_remora, observe_remora_lem, Observed,
}

abbrev config : ControllerConfig
config = record {
  vram_capacity_mib = 4096;
  ram_capacity_mib = 8192;
  protected_min_mib = 256;
  gpu_compute_budget = 50;
  slow_window = 8;
}

abbrev maintained : MaintenanceSetpoint
maintained = record { vram_mib = 256; ram_mib = 640; compute_ms_per_token = 1; queue_depth = 1 }

abbrev bridge : ResidencyMetabolism fractions
bridge = record { controller = started fractions config maintained }

bridge-IsValid : IsValid fractions bridge.controller
bridge-IsValid =
    started-IsValid fractions config maintained (omega arith) (omega arith) (omega arith)

abbrev busy : ResidencyManager
busy = record {
  records = [];
  tickets = [];
  slots = record { slots = []; next_epoch = 0 };
  snapshot = record default_snapshot { nvme_queue_depth = 3; transfer_queue_depth = 2 };
  next_ticket = 1;
  next_lease = 1;
  next_epoch = 1;
  ram_pageable_budget = 64;
  ram_pinned_budget = 64;
}

abbrev observation : ResidencyObservation
observation = record {
  transfer_cost_ns = 12;
  compute_cost_ms = 3;
  kv_occupancy = none;
  useful = true;
  miss = false;
}

observe_remora_lem_example :
    (d : ResidencyMetabolism fractions) × (s : MetabolismSnapshot fractions) × (observe_remora
        fractions busy bridge observation
      ≡ some (d, s))
    × Observed fractions bridge d s
observe_remora_lem_example = observe_remora_lem fractions busy bridge observation bridge-IsValid
