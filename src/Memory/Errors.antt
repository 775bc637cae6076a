-- ===== src/Memory/Errors.antt =====
-- `HarError` of har/crates/har-core/src/lib.rs: of an error that has values in its text, the kind or the
-- field and the text without the values.
use remora_lab.Base.{String}

pub data Error : Type 0 where
  invalid unsupported : String → String → Error
  identity_mismatch io serialization : String → Error

pub data Result {ℓ} (A : Type ℓ) : Type ℓ where
  ok : A → Result A
  err : Error → Result A

abbrev pub IsErr {ℓ} : {A : Type ℓ} → Result A → Type 0
IsErr (ok a) = ⊥
IsErr (err e) = Unit
