-- ===== src/Residency/Slots/Refusal.antt =====
-- har/crates/har-residency/src/manager.rs: a reservation of a slot that fails.
use remora_lab.Base.{
  ℕ, ◌≡◌, refl, Bool, arith, Bool-cases, Option-cases, inl, inr, ◌==◌, ltb, nat_eq,
}
use remora_lab.Residency.Types.{PageId, ExpertProjection}
use remora_lab.Residency.Attempt.{ResidencyError, ok, err}
use remora_lab.Residency.Slots.{
  VramSlotTable, reserve, first_where, position_where, holds, is_free, get_slot,
}

-- A failed reservation leaves the table.
pub reserve-err :
    (p : PageId) (g : ℕ) (j : ExpertProjection) (bytes : ℕ) (x : Bool) (t : VramSlotTable)
    → (e : ResidencyError) → (reserve p g j bytes x t).1 ≡ err e
    → (reserve p g j bytes x t).0 ≡ t
unfolding reserve
reserve-err p g j bytes x t e = elim (Bool-cases (bytes == 0)) [
  | inl a ↦ rw a λ h. refl
  | inr a ↦ rw a (elim (Option-cases (first_where (holds p g j) t.slots)) [
    | inr (s, k) ↦ rw k λ h. absurd (ok_err h)
    | inl k ↦ rw k (elim (Option-cases (position_where is_free t.slots)) [
      | inl m ↦ rw m λ h. refl
      | inr (i, m) ↦ rw m (elim (Option-cases (get_slot i t.slots)) [
        | inl q ↦ rw q λ h. refl
        | inr (s, q) ↦ rw q (elim (Bool-cases (ltb s.capacity_bytes bytes)) [
          | inl v ↦ rw v λ h. refl
          | inr v ↦ rw v λ h. absurd (ok_err h)
        ])
      ])
    ])
  ])
]
  where
    ok_err : {n : ℕ} → ok n ≡ err e → ⊥
    ok_err h = ground arith
