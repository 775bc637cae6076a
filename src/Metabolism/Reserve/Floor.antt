-- ===== src/Metabolism/Reserve/Floor.antt =====
-- The accounts of har/crates/har-metabolism/src/reserve.rs: what every operation keeps, and the
-- protected floor.
use remora_lab.Base.{
  ℕ, ◌+◌, ◌-◌, ◌≡◌, ◌≤◌, ◌<◌, ◌⊎◌, true, false, List, [], ◌∷◌, refl, arith, sat_add, u64_max,
  if◌then◌else◌,
}
use remora_lab.Base.Real.{F64}
use remora_lab.Metabolism.Reserve.{
  ReserveAccount, available, from_ratio, new_account, commit, release, mobilize, settle_debt,
}

-- The commitments fit in the capacity, and the pressure is that of the current figures.
pub record IsSound (f : F64) (a : ReserveAccount) : Type 0 where
  pub fits : a.committed ≤ a.capacity
  pub word : a.capacity ≤ u64_max
  pub current : a.pressure ≡ from_ratio f (sat_add a.committed a.debt) a.capacity

-- The operations on an account.
pub data AccountOp : Type 0 where
  commit_op release_op settle_op : ℕ → AccountOp
  mobilize_op : (need now : ℕ) → AccountOp

module _ (f : F64) where
  pub new_account-IsSound :
      (capacity protected : ℕ) → capacity ≤ u64_max → IsSound f (new_account f capacity protected)
  unfolding new_account
  new_account-IsSound capacity protected h = record { fits = omega arith; word = h; current = refl }

  pub commit-IsSound : (a : ReserveAccount) (need : ℕ) → IsSound f a → IsSound f (commit f a need).0
  unfolding commit available
  commit-IsSound a need h = ground arith

  pub release-IsSound : (a : ReserveAccount) (need : ℕ) → IsSound f a → IsSound f (release f a need)
  unfolding release
  release-IsSound a need h = record { fits = omega (arith, h.fits); word = h.word; current = refl }

  pub mobilize-IsSound :
      (a : ReserveAccount) (need now : ℕ) → IsSound f a → IsSound f (mobilize f a need now).0
  unfolding mobilize
  mobilize-IsSound a need now h = ground arith

  pub settle_debt-IsSound :
      (a : ReserveAccount) (epoch : ℕ) → IsSound f a → IsSound f (settle_debt f a epoch)
  unfolding settle_debt
  settle_debt-IsSound a epoch h = ground arith

  -- A commitment of a positive amount is granted only above the protected floor: afterwards the
  -- floor, the commitments and the debt still fit in the capacity. One that is refused changes
  -- nothing.
  pub commit-floor :
      (a : ReserveAccount) (need : ℕ)
      → a.capacity ≤ u64_max
      → 0 < need
      → let (b, done) = commit f a need in
        ((done ≡ true)
          × (b.committed ≡ a.committed + need)
          × (b.protected_min + b.committed + b.debt ≤ b.capacity))
        ⊎ ((done ≡ false) × (b ≡ a) × (available a < need))
  unfolding commit available
  commit-floor a need h pos = ground arith

  -- To release what was just committed restores the account.
  pub release-commit :
      (a : ReserveAccount) (need : ℕ)
      → IsSound f a
      → (commit f a need).1 ≡ true
      → release f (commit f a need).0 need ≡ a
  unfolding commit available release
  release-commit a need h done = ground arith

  unfoldable pub apply : AccountOp → ReserveAccount → ReserveAccount
  apply (commit_op need) a = (commit f a need).0
  apply (release_op need) a = release f a need
  apply (mobilize_op need now) a = (mobilize f a need now).0
  apply (settle_op epoch) a = settle_debt f a epoch

  unfoldable pub run_account : List AccountOp → ReserveAccount → ReserveAccount
  run_account [] a = a
  run_account (op ∷ ops) a = run_account ops (apply op a)

  -- What an operation mobilizes, and what a run does. A refused mobilization counts for nothing.
  unfoldable pub mobilized : AccountOp → ReserveAccount → ℕ
  mobilized (mobilize_op need now) a = if (mobilize f a need now).1 then need else 0
  mobilized _ a = 0

  unfoldable pub all_mobilized : List AccountOp → ReserveAccount → ℕ
  all_mobilized [] a = 0
  all_mobilized (op ∷ ops) a = mobilized op a + all_mobilized ops (apply op a)

  -- How far the commitments reach into the protected zone.
  abbrev pub reach : ReserveAccount → ℕ
  reach a = a.committed - (a.capacity - a.protected_min)

  apply-reach :
      (op : AccountOp) (a : ReserveAccount)
      → a.capacity ≤ u64_max
      → (reach (apply op a) ≤ reach a + mobilized op a) × ((apply op a).capacity ≡ a.capacity)
  unfolding apply mobilized commit available release mobilize settle_debt
  apply-reach (commit_op need) a h = ground arith
  apply-reach (release_op need) a h = ground arith
  apply-reach (mobilize_op need now) a h = ground arith
  apply-reach (settle_op epoch) a h = ground arith

  -- However an account is committed, released, mobilized and settled, its commitments reach at most as
  -- much further into the protected zone as `mobilize` has granted: no other operation enters that zone.
  pub run_account-reach :
      (ops : List AccountOp) (a : ReserveAccount)
      → a.capacity ≤ u64_max
      → reach (run_account ops a) ≤ reach a + all_mobilized ops a
  unfolding run_account all_mobilized
  run_account-reach [] a h = omega arith
  run_account-reach (op ∷ ops) a h =
      let (less, same) = apply-reach op a h in
      omega (arith, less, run_account-reach ops (apply op a) (omega (arith, same)))
