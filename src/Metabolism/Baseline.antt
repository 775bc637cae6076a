-- ===== src/Metabolism/Baseline.antt =====
-- har/crates/har-metabolism/src/baseline.rs: what an unmanaged pipeline would do.
use remora_lab.Base.{ℕ, ◌≡◌, ◌⊎◌, Bool, false, arith, if◌then◌else◌}

pub data BaselinePolicy : Type 0 where
  no_optimization lru_only fixed_prefetch fixed_reserve remora_v1 : BaselinePolicy

pub record BaselineObservation : Type 0 where
  pub vram_free_mib : ℕ
  pub pending_work_bytes : ℕ
  pub was_cache_hit : Bool

pub data BaselineAction : Type 0 where
  admit evict : ℕ → BaselineAction
  admit_none : BaselineAction

unfoldable pub step : BaselinePolicy → BaselineObservation → ℕ → BaselineAction
step no_optimization obs window_bytes = admit_none
step lru_only obs window_bytes =
    if obs.was_cache_hit then admit_none else evict obs.pending_work_bytes
step fixed_prefetch obs window_bytes =
    if obs.was_cache_hit then admit_none else admit obs.pending_work_bytes
step fixed_reserve obs window_bytes = admit window_bytes
step remora_v1 obs window_bytes =
    if obs.was_cache_hit then admit_none else admit obs.pending_work_bytes

-- The two baselines `FixedPrefetch` and `RemoraV1` are one policy, and every other policy but the
-- fixed reserve does nothing on a cache hit.
pub step_hits :
    (obs : BaselineObservation) (window_bytes : ℕ) (policy : BaselinePolicy)
    → (step remora_v1 obs window_bytes ≡ step fixed_prefetch obs window_bytes)
      × ((obs.was_cache_hit ≡ false)
          ⊎ (policy ≡ fixed_reserve)
          ⊎ (step policy obs window_bytes ≡ admit_none))
unfolding step
step_hits obs window_bytes policy = ground arith
