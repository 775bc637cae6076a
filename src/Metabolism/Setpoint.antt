-- ===== src/Metabolism/Setpoint.antt =====
-- har/crates/har-metabolism/src/setpoint.rs: the maintenance budget from what the run shows.
use native.Mathlib.Nat.{mul-le-mul, mul-le-mul_right}
use remora_lab.Base.{
  ℕ, ◌+◌, ◌*◌, ◌/◌, ◌⊎◌, min, ◌≡◌, ◌≤◌, ◌<◌, Option, none, some, arith, if◌then◌else◌, ltb, sat_add,
  sat_mul, wrap_mul, u64_max,
}

pub record MaintenanceParams : Type 0 where
  pub vram_per_kv_mib : ℕ
  pub vram_activation_floor_mib : ℕ
  pub ram_activation_floor_mib : ℕ
  pub compute_ms_per_token : ℕ
  pub queue_depth_min : ℕ
  pub queue_depth_max : ℕ

abbrev pub default_params : MaintenanceParams
default_params = record {
  vram_per_kv_mib = 2;
  vram_activation_floor_mib = 512;
  ram_activation_floor_mib = 1024;
  compute_ms_per_token = 2;
  queue_depth_min = 2;
  queue_depth_max = 8;
}

pub record MaintenanceObservations : Type 0 where
  pub kv_occupancy : ℕ
  pub mtp_acceptance_permille : Option ℕ
  pub queue_depth : ℕ

pub record MaintenanceSetpoint : Type 0 where
  pub vram_mib : ℕ
  pub ram_mib : ℕ
  pub compute_ms_per_token : ℕ
  pub queue_depth : ℕ

unfoldable pub total_mib : MaintenanceSetpoint → ℕ
total_mib s = sat_add s.vram_mib s.ram_mib

abbrev pub clamped : ℕ → ℕ → ℕ → ℕ
clamped x lo hi = if ltb x lo then lo else if ltb hi x then hi else x

-- `Ord::clamp`, which panics (`none`) on an empty range.
abbrev pub clamp : ℕ → ℕ → ℕ → Option ℕ
clamp x lo hi = if ltb hi lo then none else some (clamped x lo hi)

abbrev pub or_zero : Option ℕ → ℕ
or_zero none = 0
or_zero (some n) = n

-- The body of `compute` after the clamp. The product with the scale is a plain `u64` product.
unfoldable pub budget : MaintenanceParams → MaintenanceObservations → ℕ → MaintenanceSetpoint
budget params obs qd =
    let mtp_scale = sat_add 1000 (or_zero obs.mtp_acceptance_permille) / 1000 in
    let kv_vram = wrap_mul (sat_mul obs.kv_occupancy params.vram_per_kv_mib) mtp_scale in
    let vram = sat_add params.vram_activation_floor_mib kv_vram in
    record {
      vram_mib = vram;
      ram_mib = sat_add params.ram_activation_floor_mib (vram / 2);
      compute_ms_per_token = qd;
      queue_depth = qd;
    }

unfoldable pub compute : MaintenanceParams → MaintenanceObservations → Option MaintenanceSetpoint
unfolding budget
compute params obs = elim (clamp obs.queue_depth params.queue_depth_min params.queue_depth_max) [
  | none ↦ none
  | some qd ↦ some (budget params obs qd)
]

-- A range that is not empty does not panic.
pub compute-range :
    (params : MaintenanceParams) (obs : MaintenanceObservations)
    → params.queue_depth_min ≤ params.queue_depth_max
    → (s : MaintenanceSetpoint) × (compute params obs ≡ some s)
unfolding compute
compute-range params obs range = (
  budget params obs (clamped obs.queue_depth params.queue_depth_min params.queue_depth_max),
  ground arith,
)

-- More occupancy and acceptance ask for no fewer bytes.
demand_mono :
    (params : MaintenanceParams) (low high : MaintenanceObservations)
    → low.kv_occupancy ≤ high.kv_occupancy
    → or_zero low.mtp_acceptance_permille ≤ or_zero high.mtp_acceptance_permille
    → sat_mul low.kv_occupancy params.vram_per_kv_mib
        * (sat_add 1000 (or_zero low.mtp_acceptance_permille) / 1000)
      ≤ sat_mul high.kv_occupancy params.vram_per_kv_mib
        * (sat_add 1000 (or_zero high.mtp_acceptance_permille) / 1000)
demand_mono params low high kv acc =
    let m : low.kv_occupancy * params.vram_per_kv_mib ≤ high.kv_occupancy * params.vram_per_kv_mib =
      mul-le-mul_right params.vram_per_kv_mib kv in
    mul-le-mul (omega (arith, m)) (omega (arith, acc))

-- What a setpoint serves of an observation.
pub record Serves (params : MaintenanceParams) (obs : MaintenanceObservations)
    (s : MaintenanceSetpoint) : Type 0 where
  pub vram :
      min (params.vram_activation_floor_mib + obs.kv_occupancy * params.vram_per_kv_mib) u64_max
      ≤ s.vram_mib
  pub ram : min (params.ram_activation_floor_mib + s.vram_mib / 2) u64_max ≤ s.ram_mib
  pub shallow : params.queue_depth_min ≤ s.queue_depth
  pub deep : s.queue_depth ≤ params.queue_depth_max
  pub observed :
      (obs.queue_depth < params.queue_depth_min)
      ⊎ (params.queue_depth_max < obs.queue_depth)
      ⊎ (s.queue_depth ≡ obs.queue_depth)

-- With a range of queue depths that is not empty, a setpoint is computed at both of two observations. If
-- one has no smaller occupancy and acceptance than the other, and the bytes that it asks for are a word,
-- its setpoint has no less VRAM and no less RAM. The VRAM is at least the floor and the bytes of the
-- occupancy, up to the largest word; the RAM is at least its floor and half the VRAM, up to the largest
-- word; and the queue depth lies in the range, and is the observed one if that does.
pub setpoint_mono :
    (params : MaintenanceParams) (low high : MaintenanceObservations)
    → params.queue_depth_min ≤ params.queue_depth_max
    → low.kv_occupancy ≤ high.kv_occupancy
    → or_zero low.mtp_acceptance_permille ≤ or_zero high.mtp_acceptance_permille
    → sat_mul high.kv_occupancy params.vram_per_kv_mib
        * (sat_add 1000 (or_zero high.mtp_acceptance_permille) / 1000)
      ≤ u64_max
    → (s : MaintenanceSetpoint) × (t : MaintenanceSetpoint) × (compute params low ≡ some s)
      × (compute params high ≡ some t)
      × (s.vram_mib ≤ t.vram_mib)
      × (s.ram_mib ≤ t.ram_mib)
      × Serves params low s
unfolding compute budget
setpoint_mono params low high range kv acc word =
    let d = demand_mono params low high kv acc in
    let e : sat_mul low.kv_occupancy params.vram_per_kv_mib * 1
        ≤ sat_mul low.kv_occupancy params.vram_per_kv_mib
          * (sat_add 1000 (or_zero low.mtp_acceptance_permille) / 1000) =
      mul-le-mul (omega arith) (omega arith) in
    let s : MaintenanceSetpoint =
      budget params low (clamped low.queue_depth params.queue_depth_min params.queue_depth_max) in
    let t : MaintenanceSetpoint =
      budget params high (clamped high.queue_depth params.queue_depth_min params.queue_depth_max) in
    let v : s.vram_mib ≤ t.vram_mib = omega (arith, d, word) in
    (
      s,
      t,
      ground arith,
      ground arith,
      v,
      omega (arith, v),
      record {
        vram = omega (arith, d, e, word);
        ram = omega arith;
        shallow = ground arith;
        deep = ground arith;
        observed = ground arith;
      },
    )

-- Below an acceptance of 1000 permille the acceptance has no effect on the setpoint.
pub compute-acceptance :
    (params : MaintenanceParams) (obs : MaintenanceObservations) (mtp : ℕ)
    → mtp < 1000
    → compute params (record obs { mtp_acceptance_permille = some mtp })
      ≡ compute params (record obs { mtp_acceptance_permille = none })
unfolding compute
compute-acceptance params obs mtp h =
    let e : sat_add 1000 mtp / 1000 ≡ 1 = omega arith in ground arith
