-- ===== src/Residency/Tests.antt =====
-- The expert cache of har/crates/har-residency/src/expert_lru.rs at concrete data.
use remora_lab.Base.{[], ◌∷◌, ℕ}
use remora_lab.Residency.Types.{PageId, weights}
use remora_lab.Residency.ExpertLru.{LruExpertCache}

abbrev page : ℕ → PageId
page n = record { model_root = "m"; kind = weights; ordinal = n }

-- A full cache of a pinned page and an unpinned one.
abbrev cache : LruExpertCache
cache = record {
  capacity_bytes = 100;
  entries =
      (page 1, record { bytes = 60; last_used_ns = 5; pins = 1 })
      ∷ (page 2, record { bytes = 40; last_used_ns = 7; pins = 0 })
      ∷ [];
  resident_bytes = 100;
  stats = record { hits = 0; misses = 0; insertions = 2; evictions = 0; rejected_oversize = 0 };
}
