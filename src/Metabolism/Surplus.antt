-- ===== src/Metabolism/Surplus.antt =====
-- har/crates/har-metabolism/src/surplus.rs: what may be spent on optional work beyond the maintenance
-- setpoint.
use remora_lab.Base.{
  inl, inr, ◌⊎◌, ℕ, ◌+◌, ◌-◌, ◌*◌, ◌/◌, ◌≡◌, ◌≤◌, Bool, true, Option, none, some, arith,
  if◌then◌else◌, min,
}

pub record SurplusInputs : Type 0 where
  pub total_reserve : ℕ
  pub maintenance_setpoint_mib : ℕ
  pub miss_rate_penalty_mib : ℕ
  pub contention_mib : Option ℕ
  pub interference_mib : Option ℕ
  pub unknown_shrinks : Bool

-- `adjustment_record` is written out as its four entries.
pub record SafeSurplus : Type 0 where
  pub optional_mib : ℕ
  pub miss_adjustment : ℕ
  pub contention_adjustment : ℕ
  pub interference_adjustment : ℕ
  pub gross_mib : ℕ

-- The two `match`es on an adjustment that may be unknown.
abbrev pub adjustment : Option ℕ → Bool → ℕ → ℕ
adjustment (some v) shrinks rest = min v rest
adjustment none shrinks rest = if shrinks then rest / 2 else 0

unfoldable pub compute : SurplusInputs → SafeSurplus
compute i =
    let gross = i.total_reserve - i.maintenance_setpoint_mib in
    let after_miss = gross - i.miss_rate_penalty_mib in
    let contention = adjustment i.contention_mib i.unknown_shrinks after_miss in
    let after_contention = after_miss - contention in
    let interference = adjustment i.interference_mib i.unknown_shrinks after_contention in
    record {
      optional_mib = after_contention - interference;
      miss_adjustment = i.miss_rate_penalty_mib;
      contention_adjustment = contention;
      interference_adjustment = interference;
      gross_mib = gross;
    }

-- The surplus and its adjustments add up to the reserve above the setpoint, where the miss penalty
-- counts as far as it fits; so the surplus never exceeds the reserve less the setpoint.
pub compute-conserves :
    (i : SurplusInputs)
    → let s = compute i in
      (s.optional_mib
          + s.contention_adjustment
          + s.interference_adjustment
          + min s.miss_adjustment s.gross_mib
        ≡ s.gross_mib)
      × (s.gross_mib ≡ i.total_reserve - i.maintenance_setpoint_mib)
      × (s.optional_mib ≤ i.total_reserve - i.maintenance_setpoint_mib)
unfolding compute
compute-conserves i = ground arith

-- With `unknown_shrinks`, an unknown contention or interference leaves at most half of the reserve
-- above the setpoint, rounded up.
pub compute-unknown :
    (i : SurplusInputs)
    → i.unknown_shrinks ≡ true
    → (i.contention_mib ≡ none) ⊎ (i.interference_mib ≡ none)
    → 2 * (compute i).optional_mib ≤ (compute i).gross_mib + 1
unfolding compute
compute-unknown i h (inl e) = ground arith
compute-unknown i h (inr e) = ground arith

-- More reserve never means less surplus, all other inputs being equal.
pub compute_mono :
    (i : SurplusInputs) (more : ℕ)
    → i.total_reserve ≤ more
    → (compute i).optional_mib ≤ (compute (record i { total_reserve = more })).optional_mib
unfolding compute
compute_mono i more h = ground arith

-- An unknown contention is not the worst case: a known one that takes all that is left leaves
-- nothing, where an unknown one leaves at least half of it.
pub unknown_not_worst :
    (i : SurplusInputs) (v : ℕ)
    → i.unknown_shrinks ≡ true
    → i.interference_mib ≡ some 0
    → i.total_reserve ≤ v
    → ((compute (record i { contention_mib = some v })).optional_mib ≡ 0)
      × (i.total_reserve
          ≤ 2 * (compute (record i { contention_mib = none })).optional_mib
            + i.maintenance_setpoint_mib
            + i.miss_rate_penalty_mib)
unfolding compute
unknown_not_worst i v h k big = ground arith
