-- ===== src/Metabolism/Tests/Estimates.antt =====
-- The surplus, the setpoint and the salvage score of har/crates/har-metabolism at concrete data.
use mathlib.Core.List.{Perm}
use remora_lab.Base.{◌≡◌, refl, true, [], ◌∷◌, some, none, map, All, nat_eq, ℕ, ◌≤◌, arith}
use remora_lab.Base.Int.{pos}
use remora_lab.Metabolism.Artifact.{Estimate, measured}
use remora_lab.Metabolism.Surplus.{SurplusInputs}
use remora_lab.Metabolism.Setpoint
use remora_lab.Metabolism.Setpoint.{
  MaintenanceParams, MaintenanceObservations, MaintenanceSetpoint, default_params,
  compute-acceptance, Serves, setpoint_mono,
}
use remora_lab.Metabolism.Salvage.{
  SalvageCandidate, SalvageDecision, IsRanked, admit_all, admit_all_lem, Decides,
}

abbrev inputs : SurplusInputs
inputs = record {
  total_reserve = 1000;
  maintenance_setpoint_mib = 200;
  miss_rate_penalty_mib = 100;
  contention_mib = none;
  interference_mib = some 0;
  unknown_shrinks = true;
}

abbrev observed : MaintenanceObservations
observed = record { kv_occupancy = 100; mtp_acceptance_permille = some 800; queue_depth = 5 }

abbrev maintained : MaintenanceSetpoint
maintained = record { vram_mib = 712; ram_mib = 1380; compute_ms_per_token = 5; queue_depth = 5 }

observed-compute : Setpoint.compute default_params observed ≡ some maintained
unfolding Setpoint.compute
observed-compute = refl

abbrev busier : MaintenanceObservations
busier = record { kv_occupancy = 300; mtp_acceptance_permille = some 1000; queue_depth = 9 }

setpoint_mono_example :
    (s : MaintenanceSetpoint) × (t : MaintenanceSetpoint) × (Setpoint.compute default_params
        observed
      ≡ some s)
    × (Setpoint.compute default_params busier ≡ some t)
    × (s.vram_mib ≤ t.vram_mib)
    × (s.ram_mib ≤ t.ram_mib)
    × Serves default_params observed s
setpoint_mono_example =
    setpoint_mono default_params observed busier (omega arith) (omega arith) (omega arith)
      (omega arith)

abbrev cost : ℕ → Estimate
cost n = record { value = pos n; certainty = measured }

abbrev candidate : ℕ → SalvageCandidate
candidate base_seq = record {
  input = record {
    reuse_probability = some 800;
    expected_reuse_cost = cost 500;
    holding_cost = cost 10;
    validation_cost = cost 20;
    memory_opportunity_cost = cost 5;
    eviction_cost = cost 1;
    contention_cost = cost 3;
    expiry_risk_permille = some 100;
  };
  base_seq = base_seq;
  bucket = 1;
}

admit_all_lem_example :
    let out = admit_all (candidate 4 ∷ candidate 2 ∷ []) in
    Perm
      (map (λ (p : SalvageCandidate × SalvageDecision). p.0) out)
      (candidate 4 ∷ candidate 2 ∷ [])
    × IsRanked (map (λ (p : SalvageCandidate × SalvageDecision). p.0) out)
    × All Decides out
admit_all_lem_example = admit_all_lem (candidate 4 ∷ candidate 2 ∷ [])
