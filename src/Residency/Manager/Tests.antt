-- ===== src/Residency/Manager/Tests.antt =====
-- har/crates/har-residency: the manager's theorems, and the one on an estimate over it, at
-- concrete pages.
use remora_lab.Base.{
  length, u64_max, ◌≤◌, arith, ℕ, ◌≡◌, refl, none, some, [], ◌∷◌, List, false, true, nat_eq,
}
use remora_lab.Residency.Mtp.{ExpertUnionEstimate, expert_union_incremental_cost, unique_slices}
use remora_lab.Residency.Mtp.Cost.{payload, expert_union_incremental_cost_lem}
use remora_lab.Base.Dict.{lookup}
use remora_lab.Residency.Types.{
  PageId, weights, page_eq, StorageSlice, gate, representation, nvme_cold, ram_pinned,
}
use remora_lab.Residency.State
use remora_lab.Residency.State.{ResidencyState, legal_transition}
use remora_lab.Residency.Record.{
  ResidencyRecord, Replica, new_record, validate_slice, validate_record, validate_state, transition,
}
use remora_lab.Residency.Attempt.{resource_exhausted, ok, err, at_key}
use remora_lab.Residency.Slots
use remora_lab.Residency.Slots.{
  VramSlot, VramSlotTable, new_slot, slots_from, new_table, sum_capacity, get_slot, reserve, evict,
  acquire, release, compute_lease,
}
use remora_lab.Residency.Slots.Validity.{SlotIsValid}
use remora_lab.Residency.Slots.Users.{Evicts, evict_lem, release-acquire}
use remora_lab.Residency.Manager.{
  ResidencyManager, new_manager, register, register_valid, add_record, default_snapshot, on_record,
  get_record,
}
use remora_lab.Residency.Manager.Calls.{
  label, reserve_vram, attempt_reservation, try_slots, settle_reservation, get_snapshot,
  pinned_budget,
}
use remora_lab.Residency.Manager.Evictions.{evict_ram}
use remora_lab.Residency.Manager.Run
use remora_lab.Residency.Manager.Run.{ManagerCall, run, perform}
use remora_lab.Residency.Manager.Records.{Later}
use remora_lab.Residency.Manager.Lifecycle.{LivesOn, Born, run-Lives, run-failed}
use remora_lab.Residency.Manager.Soundness.{Leads, run-validate_record}
use remora_lab.Residency.Manager.Limits.{IsWithin}
use remora_lab.Residency.Manager.Limits.Any.{run-IsWithin}
use remora_lab.Residency.Manager.SlotTable.{run-SlotIsValid}
use remora_lab.Residency.Manager.Refusal.{IsUnmoved, reserve_vram-err}

abbrev page : PageId
page = record { model_root = "fixture"; kind = weights; ordinal = 7 }

abbrev slice : StorageSlice
slice = record {
  page_id = page;
  model_id = "fixture";
  source_path = "fixture.gguf";
  shard = "0";
  tensor = "blk.0.ffn_gate_exps.weight";
  offset = 0;
  payload_bytes = 60;
  alignment = 4096;
  quant_type = "Q8_0";
  layer = some 0;
  expert = some 0;
  projection = gate;
  checksum_sha256 = none;
  parent_offset = none;
  parent_payload_bytes = none;
}

abbrev fresh : ResidencyManager
fresh = record {
  records = [];
  tickets = [];
  slots = record { slots = new_slot 0 50 ∷ new_slot 1 50 ∷ []; next_epoch = 0 };
  snapshot = record default_snapshot {
    ram_pageable_capacity = 100;
    ram_pinned_capacity = 200;
    vram_slot_capacity = 100;
    nvme_queue_capacity = 2;
    transfer_queue_capacity = 2;
    compute_queue_capacity = 1;
  };
  next_ticket = 1;
  next_lease = 1;
  next_epoch = 1;
  ram_pageable_budget = 100;
  ram_pinned_budget = 200;
}

fresh_new : new_manager 100 200 2 50 2 2 1 ≡ ok fresh
unfolding new_manager new_table slots_from sum_capacity new_slot
fresh_new = refl

abbrev ticks : ℕ → ℕ
ticks n = n

abbrev script : List (ManagerCall × (ℕ → ℕ))
script =
    (Run.register slice 1, ticks)
    ∷ (Run.queue_nvme_read page true false, ticks)
    ∷ (Run.start_nvme_read 1, ticks)
    ∷ (Run.complete_nvme_read 1 none, ticks)
    ∷ (Run.reserve_vram page gate false, ticks)
    ∷ (Run.advance_generation page 2, ticks)
    ∷ []

run-Lives_example :
    Later LivesOn Born page (lookup page fresh.records) (lookup page (run script fresh).records)
run-Lives_example = run-Lives script fresh page

run-IsWithin_example : IsWithin (run script fresh)
run-IsWithin_example = run-IsWithin 100 200 2 50 2 2 1 fresh fresh_new script

abbrev registering : List (ManagerCall × (ℕ → ℕ))
registering = (Run.register slice 1, ticks) ∷ (Run.evict_ram page, ticks) ∷ []

abbrev registered : ResidencyRecord
registered = new_record page (representation slice) 1

registering_record : lookup page (run registering fresh).records ≡ some registered
unfolding run perform register register_valid validate_slice add_record evict_ram get_record
    new_record
registering_record = refl

run-validate_record_example :
    (registered.page_id ≡ page)
    × Leads State.indexed registered.transition_history registered.state
    × (validate_record registered ≡ validate_state registered)
run-validate_record_example =
    run-validate_record 100 200 2 50 2 2 1 fresh fresh_new registering page registered
      registering_record

registering_slot : get_slot 1 (run registering fresh).slots.slots ≡ some (new_slot 1 50)
unfolding run perform register register_valid validate_slice add_record evict_ram get_record
    new_record
registering_slot = refl

run-SlotIsValid_example : SlotIsValid 1 (new_slot 1 50)
run-SlotIsValid_example =
    run-SlotIsValid 100 200 2 50 2 2 1 fresh fresh_new registering 1 (new_slot 1 50)
      registering_slot

abbrev pinned_replica : Replica
pinned_replica = record {
  location = ram_pinned;
  representation = record { page_id = page; format = "Q8_0"; bytes = 60 };
  generation = 1;
  explicit_replication = true;
  replica_id = label "ram-pinned:" 1;
  checksum_sha256 = none;
}

abbrev at_state : ResidencyState → ResidencyRecord
at_state x = record {
  page_id = page;
  representation = record { page_id = page; format = "Q8_0"; bytes = 60 };
  generation = 1;
  state = x;
  authoritative = nvme_cold;
  replicas = (ram_pinned, pinned_replica) ∷ [];
  leases = [];
  transition_history = [];
}

abbrev with_page : ResidencyState → ResidencyManager
with_page x = record fresh { records = (page, at_state x) ∷ [] }

abbrev evicting : List (ManagerCall × (ℕ → ℕ))
evicting = (Run.evict_ram page, ticks) ∷ []

evicting_record :
    lookup page (run evicting (with_page State.failed)).records ≡ some (at_state State.failed)
unfolding run perform evict_ram get_record
evicting_record = refl

run-failed_example :
    ((at_state State.failed).generation ≤ (at_state State.failed).generation)
    × ((at_state State.failed).state ≡ State.failed
        → (at_state State.failed).generation ≡ (at_state State.failed).generation
        → (at_state State.failed).state ≡ State.failed)
run-failed_example =
    run-failed evicting (with_page State.failed) page (at_state State.failed)
      (at_state State.failed) refl evicting_record

too_large :
    (reserve_vram page gate false (with_page State.ram_ready)).1
    ≡ err (resource_exhausted "page bytes exceed slot bytes")
unfolding reserve_vram get_record get_snapshot pinned_budget attempt_reservation on_record at_key
    transition legal_transition try_slots reserve settle_reservation new_slot
too_large = refl

reserve_vram-err_example :
    IsUnmoved
      (with_page State.ram_ready)
      (reserve_vram page gate false (with_page State.ram_ready)).0
reserve_vram-err_example =
    reserve_vram-err page gate false (with_page State.ram_ready)
      (resource_exhausted "page bytes exceed slot bytes") too_large

abbrev ready : VramSlot
ready = record (new_slot 0 50) {
  state = Slots.compute_ready;
  page_id = some page;
  generation = some 1;
  projection = some gate;
  reserved_bytes = 40;
}

abbrev table : VramSlotTable
table = record { slots = ready ∷ []; next_epoch = 0 }

evict_lem_example : Evicts 0 page 1 table
evict_lem_example = evict_lem 0 page 1 table

ready_valid : SlotIsValid 0 ready
unfolding new_slot
ready_valid = record { number = refl; holder = refl; room = omega arith; users = refl }

abbrev pinned : VramSlot
pinned = record ready { state = Slots.in_use; pinned_users = 1; last_use_epoch = 9 }

release-acquire_example :
    (acquire 0 page 1 9 table
      ≡ (record table { slots = pinned ∷ [] }, ok (compute_lease 0 page 1 9)))
    × (release (compute_lease 0 page 1 9) (record table { slots = pinned ∷ [] })
        ≡ (record table { slots = record ready { last_use_epoch = 9 } ∷ [] }, ok tt))
unfolding new_slot
release-acquire_example = release-acquire 0 page 1 9 table ready ready_valid refl refl refl

abbrev union : List StorageSlice
union = slice ∷ record slice { expert = some 1 } ∷ []

abbrev estimate : ExpertUnionEstimate
estimate = expert_union_incremental_cost (with_page State.ram_ready) union

small_union : payload (unique_slices [] union) ≤ u64_max
unfolding unique_slices
small_union = omega arith

few_pages : length (unique_slices [] union) ≤ u64_max
unfolding unique_slices
few_pages = omega arith

expert_union_incremental_cost_lem_example :
    (estimate.incremental_nvme_bytes ≤ estimate.incremental_pcie_bytes)
    × (estimate.incremental_pcie_bytes ≤ estimate.requested_bytes)
    × (estimate.requested_bytes ≡ payload (unique_slices [] union))
    × (estimate.ready_projection_count ≤ estimate.resident_projection_count)
    × (estimate.resident_projection_count ≤ estimate.unique_pages)
    × (estimate.unique_pages ≡ length (unique_slices [] union))
expert_union_incremental_cost_lem_example =
    expert_union_incremental_cost_lem (with_page State.ram_ready) union small_union few_pages
      estimate refl
