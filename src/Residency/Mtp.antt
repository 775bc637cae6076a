-- ===== src/Residency/Mtp.antt =====
-- har/crates/har-residency/src/mtp.rs: what a union of expert pages costs, from the records of the manager.
-- The map of the unique slices is an association list in the order of their first occurrence; the sums
-- wrap as in a release build.
pub mod Cost
use remora_lab.Base.{
  ℕ, ◌+◌, ◌-◌, String, Bool, true, false, Option, none, some, List, [], ◌∷◌, ◌==◌, ◌&&◌, ◌||◌,
  nat_eq, if◌then◌else◌, wrap_add, length, is_some, pair_eq, PartialEq,
}
use remora_lab.Base.Dict.{Dict, lookup, insert, contains_key}
use remora_lab.Residency.Types.{PageId, page_eq, PageLocation, StorageSlice, is_vram, is_ram}
use remora_lab.Residency.State
use remora_lab.Residency.State.{ResidencyState, state_eq}
use remora_lab.Residency.Record.{ResidencyRecord, any_replica}
use remora_lab.Residency.Manager.{ResidencyManager, ResourceSnapshot}

unfoldable pub ram_pinned_slack : ResourceSnapshot → ℕ
ram_pinned_slack s = s.ram_pinned_capacity - s.ram_pinned_used

unfoldable pub vram_slot_slack : ResourceSnapshot → ℕ
vram_slot_slack s = s.vram_slot_capacity - s.vram_slot_used

unfoldable pub nvme_queue_slack : ResourceSnapshot → ℕ
nvme_queue_slack s = s.nvme_queue_capacity - s.nvme_queue_depth

unfoldable pub transfer_queue_slack : ResourceSnapshot → ℕ
transfer_queue_slack s = s.transfer_queue_capacity - s.transfer_queue_depth

unfoldable pub compute_queue_slack : ResourceSnapshot → ℕ
compute_queue_slack s = s.compute_queue_capacity - s.compute_queue_depth

unfoldable pub queue_backlog : ResidencyManager → ℕ × ℕ × ℕ
queue_backlog m =
    (m.snapshot.nvme_queue_depth, m.snapshot.transfer_queue_depth, m.snapshot.compute_queue_depth)

unfoldable pub resource_slack : ResidencyManager → ℕ × ℕ × ℕ × ℕ × ℕ
unfolding ram_pinned_slack vram_slot_slack nvme_queue_slack transfer_queue_slack compute_queue_slack
resource_slack m = (
  ram_pinned_slack m.snapshot,
  vram_slot_slack m.snapshot,
  nvme_queue_slack m.snapshot,
  transfer_queue_slack m.snapshot,
  compute_queue_slack m.snapshot,
)

pub record ExpertUnionEstimate : Type 0 where
  pub unique_pages : ℕ
  pub requested_bytes : ℕ
  pub ready_projection_count : ℕ
  pub resident_projection_count : ℕ
  pub ready_expert_overlap : ℕ
  pub incremental_nvme_bytes : ℕ
  pub incremental_pcie_bytes : ℕ
  pub projection_bytes : Dict ℕ ℕ
  pub projection_location : Dict ℕ String
  pub resource_snapshot : ResourceSnapshot

-- `entry(..).or_insert(..)`: the first slice with an ordinal counts.
unfoldable pub unique_slices : Dict ℕ StorageSlice → List StorageSlice → Dict ℕ StorageSlice
unique_slices unique [] = unique
unique_slices unique (slice ∷ rest) =
    unique_slices
      (if contains_key slice.page_id.ordinal unique
        then unique
        else insert slice.page_id.ordinal slice unique)
      rest

-- The variables of the loop.
pub record Tally : Type 0 where
  pub ready : ℕ
  pub resident : ℕ
  pub ready_experts : Dict (ℕ × ℕ) (Unit {0})
  pub nvme : ℕ
  pub pcie : ℕ
  pub locations : Dict ℕ String
  pub bytes : Dict ℕ ℕ

abbrev pub no_tally : Tally
no_tally = record {
  ready = 0;
  resident = 0;
  ready_experts = [];
  nvme = 0;
  pcie = 0;
  locations = [];
  bytes = [];
}

abbrev or_zero : Option ℕ → ℕ
or_zero none = 0
or_zero (some n) = n

instance abbrev expert_eq : PartialEq (ℕ × ℕ)
expert_eq = pair_eq nat_eq nat_eq

abbrev pub ready_in_vram : ResidencyRecord → Bool
ready_in_vram r =
    any_replica is_vram r.replicas
    && (r.state == State.uploaded || (r.state == State.compute_ready || r.state == State.in_use))

abbrev count_expert : StorageSlice → Dict (ℕ × ℕ) (Unit {0}) → Dict (ℕ × ℕ) (Unit {0})
count_expert slice seen = elim slice.expert [
  | none ↦ seen
  | some expert ↦ insert (or_zero slice.layer, expert) tt seen
]

-- The page is ready in a slot.
unfoldable pub tally_vram : ℕ → StorageSlice → Tally → Tally
tally_vram ordinal slice t = record t {
  ready = wrap_add t.ready 1;
  resident = wrap_add t.resident 1;
  ready_experts = count_expert slice t.ready_experts;
  locations = insert ordinal "VRAM_SLOT" t.locations;
  bytes = insert ordinal slice.payload_bytes t.bytes;
}

-- The page is in RAM.
unfoldable pub tally_ram : ℕ → StorageSlice → Tally → Tally
tally_ram ordinal slice t = record t {
  resident = wrap_add t.resident 1;
  pcie = wrap_add t.pcie slice.payload_bytes;
  locations = insert ordinal "RAM_PINNED" t.locations;
  bytes = insert ordinal slice.payload_bytes t.bytes;
}

-- The page has to be read.
unfoldable pub tally_nvme : ℕ → StorageSlice → Tally → Tally
tally_nvme ordinal slice t = record t {
  nvme = wrap_add t.nvme slice.payload_bytes;
  pcie = wrap_add t.pcie slice.payload_bytes;
  locations = insert ordinal "NVME_COLD" t.locations;
  bytes = insert ordinal slice.payload_bytes t.bytes;
}

unfoldable pub tally_slice : Option ResidencyRecord → ℕ → StorageSlice → Tally → Tally
unfolding tally_vram tally_ram tally_nvme
tally_slice none ordinal slice t = tally_nvme ordinal slice t
tally_slice (some r) ordinal slice t =
    if ready_in_vram r
    then tally_vram ordinal slice t
    else if any_replica is_ram r.replicas
    then tally_ram ordinal slice t
    else tally_nvme ordinal slice t

-- The loop.
unfoldable pub tally_all : Dict PageId ResidencyRecord → Dict ℕ StorageSlice → Tally → Tally
unfolding tally_slice
tally_all records [] t = t
tally_all records ((ordinal, slice) ∷ rest) t =
    tally_all records rest (tally_slice (lookup slice.page_id records) ordinal slice t)

abbrev pub sum_values : Dict ℕ ℕ → ℕ
sum_values [] = 0
sum_values ((_, v) ∷ d) = wrap_add v (sum_values d)

unfoldable pub expert_union_incremental_cost :
    ResidencyManager → List StorageSlice → ExpertUnionEstimate
unfolding unique_slices tally_all
expert_union_incremental_cost m slices =
    let t = tally_all m.records (unique_slices [] slices) no_tally in
    record {
      unique_pages = length t.bytes;
      requested_bytes = sum_values t.bytes;
      ready_projection_count = t.ready;
      resident_projection_count = t.resident;
      ready_expert_overlap = length t.ready_experts;
      incremental_nvme_bytes = t.nvme;
      incremental_pcie_bytes = t.pcie;
      projection_bytes = t.bytes;
      projection_location = t.locations;
      resource_snapshot = m.snapshot;
    }
