-- ===== src/Metabolism/Errors.antt =====
-- har/crates/har-metabolism/src/error.rs. Of an error's text the fixed part is kept, or the value that
-- is put into it.
use remora_lab.Base.{ℕ, String}

-- `MetabolismError`.
pub data Error : Type 0 where
  unknown_input reserve_insufficient reserve_debt fail_closed double_credit : String → Error
  invalid_artifact trace_mismatch : String → Error
  invariant : ℕ → Error

pub data Result {ℓ} (A : Type ℓ) : Type ℓ where
  ok : A → Result A
  err : Error → Result A

abbrev pub IsErr {ℓ} : {A : Type ℓ} → Result A → Type 0
IsErr (ok a) = ⊥
IsErr (err e) = Unit
