-- ===== src/Metabolism/Portion.antt =====
-- har/crates/har-metabolism/src/portion.rs: the gate through which optional spending flows. The
-- counters of spends are plain `u64` sums.
use remora_lab.Base.{
  ℕ, ◌≡◌, ◌≤◌, ◌≢◌, ◌⊎◌, String, Bool, true, false, arith, ◌==◌, nat_eq, is_empty, if◌then◌else◌,
  sat_add, wrap_add,
}
use remora_lab.Base.Real.{F64}
use remora_lab.Metabolism.Errors.{Result, ok, err, fail_closed}
use remora_lab.Metabolism.Artifact.{ReuseClass, unrecoverable}
use remora_lab.Metabolism.Reserve.{
  ReserveTable, gpu_compute, vram, table_check, available, account, check,
}

pub record PortionInput : Type 0 where
  pub artifact_id : String
  pub expected_tokens : ℕ
  pub transfer_cost_bytes : ℕ
  pub compute_cost_ms : ℕ

pub data PortionDecision : Type 0 where
  admit : ℕ → PortionDecision
  deferred reject closed : String → PortionDecision

pub record Portion : Type 0 where
  pub approved_total_tokens : ℕ
  pub approved_spends : ℕ
  pub rejected_spends : ℕ

abbrev is_unrecoverable : ReuseClass → Bool
is_unrecoverable unrecoverable = true
is_unrecoverable _ = false

abbrev pub is_admitted : Result PortionDecision → Bool
is_admitted (ok (admit n)) = true
is_admitted _ = false

abbrev pub count_rejected : Portion → Portion
count_rejected p = record p { rejected_spends = wrap_add p.rejected_spends 1 }

module _ (f : F64) where
  unfoldable pub decide :
      PortionInput → ReserveTable → ReuseClass → Portion → Portion × Result PortionDecision
  unfolding table_check
  decide input reserve class p =
      if is_unrecoverable class
      then (p, err (fail_closed "artifact unrecoverable"))
      else if is_empty input.artifact_id
      then (p, err (fail_closed "missing artifact identity"))
      else if input.expected_tokens == 0
      then (count_rejected p, ok (deferred "zero expected tokens"))
      else if table_check f reserve gpu_compute 1
      then if table_check f reserve vram 1
        then (
          record p {
            approved_total_tokens = sat_add p.approved_total_tokens input.expected_tokens;
            approved_spends = wrap_add p.approved_spends 1;
          },
          ok (admit input.expected_tokens),
        )
        else (p, ok (deferred "vram reserve saturated"))
      else (count_rejected p, ok (reject "compute reserve saturated"))

  -- Work is admitted only for a recoverable, named artifact with expected tokens, while both the
  -- compute and the VRAM reserve have headroom; the admission is for exactly the expected tokens,
  -- and is counted. Any other outcome leaves the approvals alone.
  pub decide-admit :
      (input : PortionInput) (reserve : ReserveTable) (class : ReuseClass) (p : Portion)
      → let (p', r) = decide input reserve class p in
        ((r ≡ ok (admit input.expected_tokens))
          × (class ≢ unrecoverable)
          × (is_empty input.artifact_id ≡ false)
          × (1 ≤ input.expected_tokens)
          × (1 ≤ available (account f reserve gpu_compute))
          × (1 ≤ available (account f reserve vram))
          × (p'.approved_total_tokens ≡ sat_add p.approved_total_tokens input.expected_tokens)
          × (p'.approved_spends ≡ wrap_add p.approved_spends 1)
          × (p'.rejected_spends ≡ p.rejected_spends))
        ⊎ ((is_admitted r ≡ false)
            × (p'.approved_total_tokens ≡ p.approved_total_tokens)
            × (p'.approved_spends ≡ p.approved_spends))
  unfolding decide check
  decide-admit input reserve class p = ground arith

  -- An admission reserves nothing: the same request against the same table is admitted again.
  pub decide_again :
      (input : PortionInput) (reserve : ReserveTable) (class : ReuseClass) (p : Portion)
      → (decide input reserve class p).1 ≡ ok (admit input.expected_tokens)
      → (decide input reserve class (decide input reserve class p).0).1
        ≡ ok (admit input.expected_tokens)
  unfolding decide
  decide_again input reserve class p h = ground arith
