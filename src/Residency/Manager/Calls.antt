-- ===== src/Residency/Manager/Calls.antt =====
-- har/crates/har-residency/src/manager.rs: the methods of `ResidencyManager` that move a page. `clock n`
-- is the reading that a call takes as its n-th.
use remora_lab.Base.{
  ℕ, ◌+◌, ◌-◌, ◌%◌, String, Bool, Option, some, ◌==◌, ◌!=◌, not, nat_eq, wrap_add, sat_add, ltb,
  leb, u32_size,
}
use remora_lab.Residency.Types.{
  PageId, page_eq, nvme_cold, ram_pageable, ram_pinned, location_eq, ExpertProjection,
}
use remora_lab.Residency.State
use remora_lab.Residency.State.{ResidencyState, state_eq}
use remora_lab.Residency.Record.{Label, has_replica, transition, add_replica, remove_replica}
use remora_lab.Residency.Ticket.{TransferKind, start, first_byte, complete, fail}
use remora_lab.Residency.Slots.{VramSlotTable, reserve, option_page_eq, option_nat_eq}
use remora_lab.Residency.Attempt.{
  illegal_transition, stale_generation, not_resident, resource_exhausted, queue_full, Result, ok,
  err, Attempt, Done, pure, throw, ◌>>=◌, ◌>>◌, refuse_if, when,
}
use remora_lab.Residency.Manager.{
  ResourceSnapshot, Call, on_record, on_ticket, adjust, get_record, get_ticket, new_ticket,
  ResidencyRecord,
}

pub data EvictionReason : Type 0 where
  capacity deadline stale explicit_release pressure speculative_waste in_use : EvictionReason

abbrev pub label : String → ℕ → Label
label text n = record { text = text; number = some n }

unfoldable pub get_snapshot : Call ResourceSnapshot
get_snapshot m = (m, ok m.snapshot)

unfoldable pub pageable_budget : Call ℕ
pageable_budget m = (m, ok m.ram_pageable_budget)

unfoldable pub pinned_budget : Call ℕ
pinned_budget m = (m, ok m.ram_pinned_budget)

unfoldable pub use_pageable : ℕ → ResourceSnapshot → ResourceSnapshot
use_pageable bytes s = record s { ram_pageable_used = sat_add s.ram_pageable_used bytes }

unfoldable pub free_pageable : ℕ → ResourceSnapshot → ResourceSnapshot
free_pageable bytes s = record s { ram_pageable_used = s.ram_pageable_used - bytes }

unfoldable pub use_pinned : ℕ → ResourceSnapshot → ResourceSnapshot
use_pinned bytes s = record s { ram_pinned_used = sat_add s.ram_pinned_used bytes }

unfoldable pub free_pinned : ℕ → ResourceSnapshot → ResourceSnapshot
free_pinned bytes s = record s { ram_pinned_used = s.ram_pinned_used - bytes }

unfoldable pub use_slot : ℕ → ResourceSnapshot → ResourceSnapshot
use_slot bytes s = record s { vram_slot_used = sat_add s.vram_slot_used bytes }

unfoldable pub free_slot : ℕ → ResourceSnapshot → ResourceSnapshot
free_slot bytes s = record s { vram_slot_used = s.vram_slot_used - bytes }

unfoldable pub leave_nvme_queue : ResourceSnapshot → ResourceSnapshot
leave_nvme_queue s = record s { nvme_queue_depth = s.nvme_queue_depth - 1 }

unfoldable pub enter_transfer_queue : ResourceSnapshot → ResourceSnapshot
enter_transfer_queue s = record s { transfer_queue_depth = (s.transfer_queue_depth + 1) % u32_size }

unfoldable pub leave_transfer_queue : ResourceSnapshot → ResourceSnapshot
leave_transfer_queue s = record s { transfer_queue_depth = s.transfer_queue_depth - 1 }

unfoldable pub enter_compute_queue : ResourceSnapshot → ResourceSnapshot
enter_compute_queue s = record s { compute_queue_depth = (s.compute_queue_depth + 1) % u32_size }

unfoldable pub leave_compute_queue : ResourceSnapshot → ResourceSnapshot
leave_compute_queue s = record s { compute_queue_depth = s.compute_queue_depth - 1 }

unfoldable pub publish_ram_pageable : PageId → Option String → Call Done
unfolding get_record get_snapshot pageable_budget on_record add_replica transition adjust
    use_pageable
publish_ram_pageable page_id checksum = do
  r ← get_record page_id
  s ← get_snapshot
  budget ← pageable_budget
  refuse_if (ltb budget (sat_add s.ram_pageable_used r.representation.bytes))
      (resource_exhausted "pageable RAM budget would be exceeded")
  when (not (has_replica r ram_pageable)) (do
    on_record page_id
        (add_replica ram_pageable r.generation (label "ram-pageable:" page_id.ordinal) checksum)
    adjust (use_pageable r.representation.bytes))
  when (r.state == State.indexed)
      (on_record page_id (transition State.ram_ready "pageable RAM replica published"))

unfoldable pub promote_pageable_to_pinned : PageId → Option String → Call Done
unfolding get_record get_snapshot pinned_budget on_record add_replica remove_replica adjust
    free_pageable use_pinned
promote_pageable_to_pinned page_id checksum = do
  r ← get_record page_id
  refuse_if (not (has_replica r ram_pageable)) (not_resident ram_pageable)
  s ← get_snapshot
  budget ← pinned_budget
  refuse_if (ltb budget (sat_add s.ram_pinned_used r.representation.bytes))
      (resource_exhausted "pinned RAM budget would be exceeded")
  on_record page_id (remove_replica ram_pageable)
  on_record page_id
      (add_replica ram_pinned r.generation (label "ram-pinned:promote:" page_id.ordinal) checksum)
  adjust (free_pageable r.representation.bytes)
  adjust (use_pinned r.representation.bytes)

unfoldable pub count_nvme_read : ℕ → ResourceSnapshot → ResourceSnapshot
count_nvme_read bytes s = record s {
  nvme_queue_depth = (s.nvme_queue_depth + 1) % u32_size;
  requested_bytes = wrap_add s.requested_bytes bytes;
  unique_bytes = wrap_add s.unique_bytes bytes;
  nvme_misses = wrap_add s.nvme_misses 1;
}

unfoldable pub queue_nvme_read : PageId → (mandatory speculative : Bool) (clock : ℕ → ℕ) → Call ℕ
unfolding get_record get_snapshot new_ticket on_record transition adjust count_nvme_read
queue_nvme_read page_id mandatory speculative clock = do
  s ← get_snapshot
  refuse_if (leb s.nvme_queue_capacity s.nvme_queue_depth)
      (queue_full "NVMe queue has no measured slack")
  r ← get_record page_id
  ticket_id ←
      new_ticket page_id TransferKind.nvme_read nvme_cold ram_pinned r.representation.bytes
        mandatory speculative (clock 0)
  on_record page_id (transition State.nvme_read_queued "NVMe read queued")
  adjust (count_nvme_read r.representation.bytes)
  pure ticket_id

unfoldable pub start_nvme_read : ℕ → (clock : ℕ → ℕ) → Call Done
unfolding get_record get_ticket on_record on_ticket start transition
start_nvme_read ticket_id clock = do
  t ← get_ticket ticket_id
  r ← get_record t.page_id
  refuse_if (t.generation != r.generation) (stale_generation t.page_id r.generation t.generation)
  on_ticket ticket_id (start (clock 0))
  on_record t.page_id (transition State.nvme_reading "NVMe read started")

-- The read does not fit: its ticket fails.
unfoldable pub fail_nvme_read : ℕ → (clock : ℕ → ℕ) → Call Done
unfolding on_ticket fail adjust leave_nvme_queue
fail_nvme_read ticket_id clock = do
  on_ticket ticket_id (fail "pinned RAM budget would be exceeded" (clock 0))
  adjust leave_nvme_queue
  throw (resource_exhausted "pinned RAM budget would be exceeded")

-- The end of a transfer: the ticket is completed and the record must be of its generation.
unfoldable pub finish_ticket : ℕ → PageId → ℕ → (clock : ℕ → ℕ) → Call Done
unfolding on_ticket first_byte complete get_record
finish_ticket ticket_id page_id generation clock = do
  on_ticket ticket_id (first_byte (clock 0))
  on_ticket ticket_id (complete (clock 1) (clock 2))
  r ← get_record page_id
  refuse_if (r.generation != generation) (stale_generation page_id r.generation generation)

unfoldable pub complete_nvme_read : ℕ → Option String → (clock : ℕ → ℕ) → Call Done
unfolding get_ticket get_snapshot pinned_budget fail_nvme_read finish_ticket on_record add_replica
    transition adjust leave_nvme_queue use_pinned
complete_nvme_read ticket_id checksum clock = do
  t ← get_ticket ticket_id
  s ← get_snapshot
  budget ← pinned_budget
  when (ltb budget (sat_add s.ram_pinned_used t.requested_bytes)) (fail_nvme_read ticket_id clock)
  finish_ticket ticket_id t.page_id t.generation clock
  on_record t.page_id (add_replica ram_pinned t.generation (label "ram-pinned:" ticket_id) checksum)
  on_record t.page_id (transition State.ram_ready "NVMe payload committed to pinned RAM")
  adjust leave_nvme_queue
  adjust (use_pinned t.requested_bytes)

-- What follows the attempt to reserve a slot.
unfoldable pub settle_reservation : PageId → Result ℕ → Call ℕ
unfolding on_record transition adjust use_slot
settle_reservation page_id (ok slot_id) = do
  on_record page_id (transition State.vram_reserved "persistent VRAM slot reserved")
  adjust (use_slot 0)
  pure slot_id
settle_reservation page_id (err e) = do
  on_record page_id (transition State.ram_ready "VRAM reservation refused; RAM retained")
  throw e

-- A result of the slot table, also an error, as a value.
unfoldable pub try_slots : {A : Type 0} → Attempt VramSlotTable A → Call (Result A)
try_slots op m = (record m { slots = (op m.slots).0 }, ok (op m.slots).1)

-- What `reserve_vram` does once its tests are passed.
unfoldable pub attempt_reservation :
    PageId → ResidencyRecord → ExpertProjection → (speculative : Bool) → Call ℕ
unfolding on_record transition reserve try_slots settle_reservation
attempt_reservation page_id r projection speculative = do
  on_record page_id (transition State.vram_reservation_queued "VRAM reservation queued")
  result ← try_slots (reserve page_id r.generation projection r.representation.bytes speculative)
  settle_reservation page_id result

unfoldable pub reserve_vram : PageId → ExpertProjection → (speculative : Bool) → Call ℕ
unfolding get_record get_snapshot pinned_budget attempt_reservation
reserve_vram page_id projection speculative = do
  r ← get_record page_id
  refuse_if (r.state != State.ram_ready) (illegal_transition r.state State.vram_reservation_queued)
  refuse_if (not (has_replica r ram_pinned)) (not_resident ram_pinned)
  s ← get_snapshot
  budget ← pinned_budget
  refuse_if (ltb budget s.ram_pinned_used)
      (resource_exhausted "pinned RAM budget is already exceeded")
  attempt_reservation page_id r projection speculative
