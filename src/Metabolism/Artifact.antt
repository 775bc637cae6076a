-- ===== src/Metabolism/Artifact.antt =====
-- har/crates/har-metabolism/src/artifact.rs and common.rs: estimates, the provenance of a retained
-- artifact, its reuse class and the inputs of its salvage score. A signed quantity is an `i64`.
use remora_lab.Base.{ℕ, String, Bool, true, false, Option, ◌&&◌, is_some}
use remora_lab.Base.Int.{ℤ, pos}

pub data Certainty : Type 0 where
  measured estimated unknown : Certainty

pub record Estimate : Type 0 where
  pub value : ℤ
  pub certainty : Certainty

abbrev pub known : Estimate → Bool
known e = elim e.certainty [ unknown ↦ false | _ ↦ true ]

abbrev pub unknown_zero : Estimate
unknown_zero = record { value = pos 0; certainty = unknown }

pub data ReuseClass : Type 0 where
  exact_reusable conditional_reusable informational_only unrecoverable : ReuseClass

pub record ArtifactEnvelope : Type 0 where
  pub artifact_id : String
  pub payload_hash : String
  pub causal_prefix : String
  pub dependency_root : String
  pub token_identity : String
  pub model_root : String
  pub tensor_root : String
  pub package_root : String
  pub runtime_version : String
  pub graph_identity : String
  pub backend_identity : String
  pub kernel_identity : String
  pub precision : String
  pub quantization : String
  pub device : String
  pub creation_cost : ℕ
  pub creation_gen : ℕ
  pub validation_rule : String
  pub expiry_gen : ℕ
  pub correctness_class : ReuseClass

pub record SalvageInput : Type 0 where
  pub reuse_probability : Option ℕ
  pub expected_reuse_cost : Estimate
  pub holding_cost : Estimate
  pub validation_cost : Estimate
  pub memory_opportunity_cost : Estimate
  pub eviction_cost : Estimate
  pub contention_cost : Estimate
  pub expiry_risk_permille : Option ℕ

-- `SalvageInput::known`.
abbrev pub all_known : SalvageInput → Bool
all_known i =
    is_some i.reuse_probability
    && (known i.expected_reuse_cost
        && (known i.holding_cost
            && (known i.validation_cost
                && (known i.memory_opportunity_cost
                    && (known i.eviction_cost
                        && (known i.contention_cost && is_some i.expiry_risk_permille))))))
