-- ===== src/Residency/Manager.antt =====
-- har/crates/har-residency/src/manager.rs: `ResidencyManager`: its state, and access to one record, one
-- ticket and the slots. Wrap-around is a release build's.
pub mod Calls
pub mod Uploads
pub mod Evictions
pub mod Frame
pub mod Run
pub mod Records
pub mod Lifecycle
pub mod Soundness
pub mod Limits
pub mod SlotTable
pub mod Refusal
pub mod Reads
mod Tests
use remora_lab.Base.{
  ℕ, String, Bool, Option, none, some, ◌==◌, nat_eq, if◌then◌else◌, wrap_add, is_some, [],
}
use remora_lab.Base.Dict.{Dict, lookup, insert, contains_key}
use remora_lab.Residency.Types.{PageId, page_eq, PageLocation, StorageSlice, representation}
use remora_lab.Residency.Record.{ResidencyRecord, new_record, validate_slice}
use remora_lab.Residency.Ticket.{TransferTicket, TransferKind, new_transfer_ticket}
use remora_lab.Residency.Slots.{VramSlotTable, new_table, sum_capacity}
use remora_lab.Residency.Attempt.{
  invalid, Result, ok, err, Attempt, Done, pure, throw, ◌>>=◌, ◌>>◌, refuse_if, modify, read, lift,
  at_key, ok_or,
}

pub record ResourceSnapshot : Type 0 where
  pub epoch : ℕ
  pub ram_pageable_capacity : ℕ
  pub ram_pageable_used : ℕ
  pub ram_pinned_capacity : ℕ
  pub ram_pinned_used : ℕ
  pub vram_page_capacity : ℕ
  pub vram_page_used : ℕ
  pub vram_slot_capacity : ℕ
  pub vram_slot_used : ℕ
  pub scratch_capacity : ℕ
  pub scratch_used : ℕ
  pub nvme_queue_depth : ℕ
  pub nvme_queue_capacity : ℕ
  pub transfer_queue_depth : ℕ
  pub transfer_queue_capacity : ℕ
  pub compute_queue_depth : ℕ
  pub compute_queue_capacity : ℕ
  pub requested_bytes : ℕ
  pub unique_bytes : ℕ
  pub useful_bytes : ℕ
  pub wasted_bytes : ℕ
  pub hidden_time_ns : ℕ
  pub exposed_time_ns : ℕ
  pub vram_hits : ℕ
  pub ram_hits : ℕ
  pub nvme_misses : ℕ

abbrev pub default_snapshot : ResourceSnapshot
default_snapshot = record {
  epoch = 0;
  ram_pageable_capacity = 0;
  ram_pageable_used = 0;
  ram_pinned_capacity = 0;
  ram_pinned_used = 0;
  vram_page_capacity = 0;
  vram_page_used = 0;
  vram_slot_capacity = 0;
  vram_slot_used = 0;
  scratch_capacity = 0;
  scratch_used = 0;
  nvme_queue_depth = 0;
  nvme_queue_capacity = 0;
  transfer_queue_depth = 0;
  transfer_queue_capacity = 0;
  compute_queue_depth = 0;
  compute_queue_capacity = 0;
  requested_bytes = 0;
  unique_bytes = 0;
  useful_bytes = 0;
  wasted_bytes = 0;
  hidden_time_ns = 0;
  exposed_time_ns = 0;
  vram_hits = 0;
  ram_hits = 0;
  nvme_misses = 0;
}

pub record ResidencyManager : Type 0 where
  pub records : Dict PageId ResidencyRecord
  pub tickets : Dict ℕ TransferTicket
  pub slots : VramSlotTable
  pub snapshot : ResourceSnapshot
  pub next_ticket : ℕ
  pub next_lease : ℕ
  pub next_epoch : ℕ
  pub ram_pageable_budget : ℕ
  pub ram_pinned_budget : ℕ

abbrev first_snapshot : (pageable pinned slot_capacity nvme transfer compute : ℕ) → ResourceSnapshot
first_snapshot pageable pinned slot_capacity nvme transfer compute = record default_snapshot {
  ram_pageable_capacity = pageable;
  ram_pinned_capacity = pinned;
  vram_slot_capacity = slot_capacity;
  nvme_queue_capacity = nvme;
  transfer_queue_capacity = transfer;
  compute_queue_capacity = compute;
}

unfoldable pub new_manager :
    (ram_pageable_budget ram_pinned_budget slot_count slot_bytes : ℕ)
    → (nvme_queue_capacity transfer_queue_capacity compute_queue_capacity : ℕ)
    → Result ResidencyManager
unfolding new_table sum_capacity
new_manager ram_pageable_budget ram_pinned_budget slot_count slot_bytes nvme_queue_capacity
      transfer_queue_capacity compute_queue_capacity =
    elim (new_table slot_count slot_bytes) [
      | err e ↦ err e
      | ok table ↦ ok (record {
        records = [];
        tickets = [];
        slots = table;
        snapshot =
            first_snapshot ram_pageable_budget ram_pinned_budget (sum_capacity table.slots)
              nvme_queue_capacity transfer_queue_capacity compute_queue_capacity;
        next_ticket = 1;
        next_lease = 1;
        next_epoch = 1;
        ram_pageable_budget = ram_pageable_budget;
        ram_pinned_budget = ram_pinned_budget;
      })
    ]

-- A method of the manager.
abbrev pub Call : Type 0 → Type 0
Call = Attempt ResidencyManager

-- `self.record_mut(page_id)?` and a method of the record.
unfoldable pub on_record : {A : Type 0} → PageId → Attempt ResidencyRecord A → Call A
unfolding at_key
on_record page_id op m =
    let out = at_key page_id (invalid "unknown page") op m.records in
    (record m { records = out.0 }, out.1)

-- `self.tickets.get_mut(&ticket_id)` and a method of the ticket.
unfoldable pub on_ticket : {A : Type 0} → ℕ → Attempt TransferTicket A → Call A
unfolding at_key
on_ticket ticket_id op m =
    let out = at_key ticket_id (invalid "unknown transfer ticket") op m.tickets in
    (record m { tickets = out.0 }, out.1)

unfoldable pub on_slots : {A : Type 0} → Attempt VramSlotTable A → Call A
on_slots op m = (record m { slots = (op m.slots).0 }, (op m.slots).1)

-- An assignment to counters of the snapshot.
unfoldable pub adjust : (ResourceSnapshot → ResourceSnapshot) → Call Done
adjust f m = (record m { snapshot = f m.snapshot }, ok tt)

unfoldable pub get_record : PageId → Call ResidencyRecord
get_record page_id m = (m, ok_or (lookup page_id m.records) (invalid "unknown page"))

unfoldable pub get_ticket : ℕ → Call TransferTicket
get_ticket ticket_id m = (m, ok_or (lookup ticket_id m.tickets) (invalid "unknown transfer ticket"))

unfoldable pub add_record : PageId → ResidencyRecord → Call Done
add_record page_id r m = (record m { records = insert page_id r m.records }, ok tt)

-- The rest of `register`, for a slice that is valid.
unfoldable pub register_valid : StorageSlice → ℕ → Call Done
unfolding representation new_record add_record
register_valid slice generation = do
  known ← read (λ m. contains_key slice.page_id m.records)
  refuse_if known (invalid "page already registered")
  add_record slice.page_id (new_record slice.page_id (representation slice) generation)

unfoldable pub register : StorageSlice → ℕ → Call Done
unfolding validate_slice register_valid
register slice generation = lift (validate_slice slice) >> register_valid slice generation

-- The number of the next ticket is taken.
unfoldable pub take_ticket_id : Call ℕ
take_ticket_id m = (record m { next_ticket = wrap_add m.next_ticket 1 }, ok m.next_ticket)

unfoldable pub add_ticket : ℕ → TransferTicket → Call Done
add_ticket ticket_id t m = (record m { tickets = insert ticket_id t m.tickets }, ok tt)

unfoldable pub new_ticket :
    PageId
    → TransferKind
    → (source destination : PageLocation) → (bytes : ℕ) → (mandatory speculative : Bool) (now : ℕ)
    → Call ℕ
unfolding get_record take_ticket_id add_ticket new_transfer_ticket
new_ticket page_id kind source destination bytes mandatory speculative now = do
  record_at ← get_record page_id
  ticket_id ← take_ticket_id
  add_ticket ticket_id (
      new_transfer_ticket ticket_id page_id record_at.generation source destination kind bytes
        mandatory speculative now)
  pure ticket_id
