-- ===== src/Metabolism/Controller.antt =====
-- har/crates/har-metabolism/src/controller.rs and snapshot.rs: the controller that composes the
-- reserve, the ledger, the clocks, the setpoint, the surplus and the portion gate. `none` is the
-- panic of an empty range of queue depths.
pub mod Invariant
pub mod Ticks
pub mod Trace
use remora_lab.Base.{
  true, false, ℕ, ◌%◌, ◌^◌, String, Bool, Option, none, some, List, [], ◌∷◌, u32_size, sat_add,
  length, if◌then◌else◌,
}
use remora_lab.Base.Real.{F64}
use remora_lab.Metabolism.Errors.{Result}
use remora_lab.Metabolism.Artifact.{ArtifactEnvelope, ReuseClass}
use remora_lab.Metabolism.Clock.{
  ClockBasis, ClockTicks, FastObservation, FastClock, SlowClock, no_basis, new_fast, new_slow,
  observe, advance, invalidate,
}
use remora_lab.Metabolism.Energy.{EnergyLabel, unknown_energy}
use remora_lab.Metabolism.Ledger
use remora_lab.Metabolism.Ledger.{WasteLedger, LedgerClass, CreditEvidence, new_ledger}
use remora_lab.Metabolism.Portion
use remora_lab.Metabolism.Portion.{Portion, PortionInput, PortionDecision}
use remora_lab.Metabolism.Reclaim.{ReclaimDecision, classify}
use remora_lab.Metabolism.Reserve.{
  ReserveDim, ReserveTable, vram, ram, gpu_compute, queue_fence_slack, nvme_read_budget, new_table,
  account, available, total_committed,
}
use remora_lab.Metabolism.Salvage.{SalvageCandidate, SalvageDecision, score}
use remora_lab.Metabolism.Setpoint
use remora_lab.Metabolism.Setpoint.{
  MaintenanceParams, MaintenanceObservations, MaintenanceSetpoint, default_params, total_mib,
}
use remora_lab.Metabolism.Surplus
use remora_lab.Metabolism.Surplus.{SurplusInputs, SafeSurplus}

pub record ControllerConfig : Type 0 where
  pub vram_capacity_mib : ℕ
  pub ram_capacity_mib : ℕ
  pub protected_min_mib : ℕ
  pub gpu_compute_budget : ℕ
  pub slow_window : ℕ

-- The estimators without state, `Reclaim`, `Salvage` and `Surplus`, have no field here.
pub record MetabolismController (f : F64) : Type 0 where
  pub reserve : ReserveTable
  pub ledger : WasteLedger
  pub fast_clock : FastClock f
  pub slow_clock : SlowClock
  pub basis : ClockBasis
  pub setpoint : MaintenanceParams
  pub portion : Portion
  pub energy : EnergyLabel f
  pub config : ControllerConfig
  pub maintenance : MaintenanceSetpoint

pub record MetabolismSnapshot (f : F64) : Type 0 where
  pub exact_tokens : ℕ
  pub maintenance_vram_mib : ℕ
  pub reserve_vram_mib : ℕ
  pub reserve_ram_mib : ℕ
  pub safe_surplus_mib : ℕ
  pub optional_budget_mib : ℕ
  pub reclaimed : ℕ
  pub salvaged : ℕ
  pub waste_spec_compute_ms : ℕ
  pub waste_prefetch_unused_mib : ℕ
  pub reuse_credit_ms : ℕ
  pub overlap_credit_ms : ℕ
  pub reserve_debt_mib : ℕ
  pub fast_epoch : ℕ
  pub slow_epoch : ℕ
  pub energy : EnergyLabel f

abbrev pub no_observations : MaintenanceObservations
no_observations = record { kv_occupancy = 0; mtp_acceptance_permille = none; queue_depth = 0 }

abbrev pub no_spends : Portion
no_spends = record { approved_total_tokens = 0; approved_spends = 0; rejected_spends = 0 }

-- The triples that `MetabolismController::new` gives to the reserve.
abbrev pub capacities : ControllerConfig → List (ReserveDim × ℕ × ℕ)
capacities c =
    (vram, c.vram_capacity_mib, c.protected_min_mib)
    ∷ (ram, c.ram_capacity_mib, c.protected_min_mib)
    ∷ (gpu_compute, c.gpu_compute_budget, 0)
    ∷ (queue_fence_slack, 64, 0)
    ∷ (nvme_read_budget, 2 ^ 20, 0)
    ∷ []

unfoldable pub safe_surplus : SurplusInputs → SafeSurplus
safe_surplus inputs = Surplus.compute inputs

unfoldable pub salvage_score : SalvageCandidate → SalvageDecision
salvage_score candidate = score candidate

module _ (f : F64) where
  -- The fields that `new` fills, with the maintenance setpoint of the default estimator.
  abbrev pub started : ControllerConfig → MaintenanceSetpoint → MetabolismController f
  started config maintenance = record {
    reserve = new_table f (capacities config);
    ledger = new_ledger;
    fast_clock = new_fast f;
    slow_clock = new_slow config.slow_window;
    basis = no_basis;
    setpoint = default_params;
    portion = no_spends;
    energy = unknown_energy f;
    config = config;
    maintenance = maintenance;
  }

  unfoldable pub new : ControllerConfig → Option (MetabolismController f)
  new config = elim (Setpoint.compute default_params no_observations) [
    | none ↦ none
    | some s ↦ some (started config s)
  ]

  unfoldable pub ticks : MetabolismController f → ClockTicks
  ticks c = record { fast = c.fast_clock.epoch; slow = c.slow_clock.epoch }

  unfoldable pub update_setpoint :
      MaintenanceObservations → MetabolismController f → Option (MetabolismController f)
  update_setpoint obs c = elim (Setpoint.compute c.setpoint obs) [
    | none ↦ none
    | some s ↦ some (record c { maintenance = s })
  ]

  unfoldable pub decide_portion :
      PortionInput
      → ReuseClass
      → MetabolismController f
      → MetabolismController f × Result PortionDecision
  decide_portion input class c =
      let (p, r) = Portion.decide f input c.reserve class c.portion in (record c { portion = p }, r)

  -- The `if rolled` of `observe`.
  unfoldable pub resolve :
      Bool → MaintenanceObservations → MetabolismController f → Option (MetabolismController f)
  resolve true base c = update_setpoint base c
  resolve false base c = some c

  unfoldable pub observe_block :
      FastObservation → Option ℕ → MetabolismController f → Option (MetabolismController f)
  unfolding resolve
  observe_block obs mtp_acceptance c =
      let fast = observe f obs c.fast_clock in
      let (slow, rolled) = advance f c.basis fast c.slow_clock in
      let base : MaintenanceObservations = record {
        kv_occupancy = 0;
        mtp_acceptance_permille = mtp_acceptance;
        queue_depth = slow.queue_depth_avg % u32_size;
      } in
      resolve rolled base (record c { fast_clock = fast; slow_clock = slow })

  unfoldable pub set_basis : ClockBasis → MetabolismController f → MetabolismController f
  set_basis basis c = record c { basis = basis; slow_clock = invalidate c.slow_clock }

  unfoldable pub reclaim : ℕ → ArtifactEnvelope → MetabolismController f → Result ReclaimDecision
  reclaim entry_seq current c = classify c.ledger entry_seq current

  unfoldable pub record_spent :
      LedgerClass → String → ℕ → ℕ → ℕ → MetabolismController f → MetabolismController f × ℕ
  record_spent class token_identity work_mib_ms tokens gen c =
      let (l, seq) = Ledger.record_spent class token_identity work_mib_ms tokens gen c.ledger in
      (record c { ledger = l }, seq)

  unfoldable pub record_reclaim :
      String → ℕ → MetabolismController f → MetabolismController f × Result Bool
  record_reclaim identity base_seq c =
      let (l, r) = Ledger.record_reclaim identity base_seq c.ledger in (record c { ledger = l }, r)

  unfoldable pub grant_reuse_credit :
      CreditEvidence → MetabolismController f → MetabolismController f × Result Bool
  grant_reuse_credit evidence c =
      let (l, r) = Ledger.grant_reuse_credit evidence c.ledger in (record c { ledger = l }, r)

  unfoldable pub grant_overlap_credit :
      String → ℕ → MetabolismController f → MetabolismController f × Result Bool
  grant_overlap_credit witness_identity bytes_moved c =
      let (l, r) = Ledger.grant_overlap_credit witness_identity bytes_moved c.ledger in
      (record c { ledger = l }, r)

  -- The inputs of the surplus that `snapshot` computes.
  abbrev pub snapshot_inputs : MetabolismController f → SurplusInputs
  snapshot_inputs c = record {
    total_reserve = sat_add (total_committed c.reserve) (available (account f c.reserve vram));
    maintenance_setpoint_mib = total_mib c.maintenance;
    miss_rate_penalty_mib = 0;
    contention_mib = none;
    interference_mib = none;
    unknown_shrinks = true;
  }

  unfoldable pub snapshot : MetabolismController f → MetabolismSnapshot f
  snapshot c =
      let safe = Surplus.compute (snapshot_inputs c) in
      record {
        exact_tokens = c.ledger.totals.useful_tokens;
        maintenance_vram_mib = total_mib c.maintenance;
        reserve_vram_mib = (account f c.reserve vram).committed;
        reserve_ram_mib = (account f c.reserve ram).committed;
        safe_surplus_mib = safe.optional_mib;
        optional_budget_mib = safe.optional_mib;
        reclaimed = length c.ledger.reclaimed;
        salvaged = 0;
        waste_spec_compute_ms = c.ledger.totals.waste_spec_ms;
        waste_prefetch_unused_mib = c.ledger.totals.wasted_mib;
        reuse_credit_ms = c.ledger.totals.reuse_credit_ms;
        overlap_credit_ms = c.ledger.totals.overlap_credit_ms;
        reserve_debt_mib = (account f c.reserve vram).debt;
        fast_epoch = c.fast_clock.epoch;
        slow_epoch = c.slow_clock.epoch;
        energy = c.energy;
      }
