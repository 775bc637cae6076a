-- ===== src/Metabolism/Reserve/Debt.antt =====
-- Debt and pressure of the accounts of har/crates/har-metabolism/src/reserve.rs.
use remora_lab.Base.{ℕ, ◌+◌, ◌-◌, ◌≡◌, ◌≤◌, ◌<◌, ◌⊎◌, true, false, arith, sat_add, u64_max, min}
use remora_lab.Base.Real.{F64, IsMonotone}
use remora_lab.Metabolism.Reserve.{
  ReserveAccount, pressure_index, borrowed, from_ratio, commit, release, mobilize, settle_debt,
}
use remora_lab.Metabolism.Reserve.Floor.{IsSound}

module _ (f : F64) where
  -- Mobilization is granted exactly when the amount fits in the physical headroom. Then the debt
  -- grows by exactly what the account newly borrows from the protected zone, and is due 100 epochs
  -- later; otherwise nothing changes.
  mobilize-debt :
      (a : ReserveAccount) (need now : ℕ)
      → IsSound f a
      → a.debt + a.capacity ≤ u64_max
      → now + 100 ≤ u64_max
      → let (b, done) = mobilize f a need now in
        ((done ≡ true)
          × (need ≤ a.capacity - a.committed)
          × (b.committed ≡ a.committed + need)
          × (b.debt + borrowed a ≡ a.debt + borrowed b)
          × (b.recovery_epoch ≡ now + 100))
        ⊎ ((done ≡ false) × (a.capacity - a.committed < need) × (b ≡ a))
  unfolding mobilize
  mobilize-debt a need now h room due = ground (arith, h.fits)

  -- Debt is forgiven exactly from its recovery epoch on, and the commitments stay.
  pub settle_debt-debt :
      (a : ReserveAccount) (epoch : ℕ)
      → let b = settle_debt f a epoch in
        (b.committed ≡ a.committed)
        × (((a.recovery_epoch ≤ epoch) × (b.debt ≡ 0)) ⊎ ((epoch < a.recovery_epoch) × (b ≡ a)))
  unfolding settle_debt
  settle_debt-debt a epoch = ground arith

  module _ (laws : IsMonotone f) where
    ratio_le :
        (lim : f.Carrier) (u v capacity : ℕ)
        → u ≤ v
        → 0 < capacity
        → f.le lim (f.divide (f.of_u64 u) (f.of_u64 capacity)) ≡ true
        → f.le lim (f.divide (f.of_u64 v) (f.of_u64 capacity)) ≡ true
    ratio_le lim u v capacity h pos e =
        laws.le_trans lim _ _ e (laws.divide_mono u v capacity h pos)

    -- More use of the same capacity is never a lower pressure class.
    pub from_ratio_mono :
        (u v capacity : ℕ)
        → u ≤ v
        → pressure_index (from_ratio f u capacity) ≤ pressure_index (from_ratio f v capacity)
    unfolding from_ratio
    from_ratio_mono u v capacity h = ground (
      arith,
      ratio_le (f.lit 95 100) u v capacity h,
      ratio_le (f.lit 8 10) u v capacity h,
      ratio_le (f.lit 6 10) u v capacity h,
    )

    -- On a sound account a commitment never lowers the pressure class, and a release never raises
    -- it.
    commit-release-pressure :
        (a : ReserveAccount) (need : ℕ)
        → IsSound f a
        → (pressure_index a.pressure ≤ pressure_index (commit f a need).0.pressure)
          × (pressure_index (release f a need).pressure ≤ pressure_index a.pressure)
    unfolding commit release
    commit-release-pressure a need h = (
      ground (
        arith,
        from_ratio_mono (sat_add a.committed a.debt) (sat_add (sat_add a.committed need) a.debt)
            a.capacity (omega (arith, h.fits, h.word)),
      ),
      rw h.current (
          from_ratio_mono (sat_add (a.committed - min need a.committed) a.debt)
            (sat_add a.committed a.debt) a.capacity (omega arith)),
    )
