-- ===== src/Residency/Manager/Evictions.antt =====
-- har/crates/har-residency/src/manager.rs: `ResidencyManager`'s evictions, the cancelling of transfers,
-- the next generation of a page, and `validate`.
use remora_lab.Base.{
  ℕ, String, Bool, Option, none, some, List, [], ◌∷◌, ◌++◌, ◌==◌, ◌!=◌, ◌&&◌, ◌||◌, not, nat_eq,
  if◌then◌else◌, leb, length,
}
use remora_lab.Base.Dict.{Dict, lookup}
use remora_lab.Residency.Types.{
  PageId, page_eq, ram_pageable, ram_pinned, vram_slot, location_eq, is_vram,
}
use remora_lab.Residency.State
use remora_lab.Residency.State.{ResidencyState, state_eq}
use remora_lab.Residency.Record.{
  ResidencyRecord, advanced, has_replica, transition, remove_replica, any_replica, validate_record,
}
use remora_lab.Residency.Ticket.{TransferKind, cancel}
use remora_lab.Residency.Slots
use remora_lab.Residency.Slots.{
  VramSlot, is_ready, evictable, get_slot, is_free, option_page_eq, option_nat_eq,
}
use remora_lab.Residency.Attempt.{
  invalid, stale_generation, not_resident, resource_exhausted, Result, ok, err, Done, pure, ◌>>=◌,
  ◌>>◌, refuse_if, when, modify, read, ok_or,
}
use remora_lab.Residency.Manager.{
  ResidencyManager, Call, on_record, on_ticket, on_slots, adjust, get_record, get_ticket,
}
use remora_lab.Residency.Manager.Calls.{
  EvictionReason, explicit_release, free_pageable, free_pinned, free_slot, leave_nvme_queue,
  leave_transfer_queue,
}

unfoldable pub evict_vram : PageId → (slot_id : ℕ) → Call EvictionReason
unfolding get_record on_record transition on_slots Slots.evict remove_replica adjust free_slot
evict_vram page_id slot_id = do
  r ← get_record page_id
  refuse_if (not (has_replica r (vram_slot slot_id))) (not_resident (vram_slot slot_id))
  refuse_if (not (r.state == State.compute_ready || r.state == State.uploaded))
      (invalid "VRAM eviction while page is in use or not ready")
  on_record page_id (transition State.eviction_queued "VRAM eviction queued")
  on_record page_id (transition State.evicting "VRAM eviction started")
  on_slots (Slots.evict slot_id page_id r.generation)
  on_record page_id (remove_replica (vram_slot slot_id))
  on_record page_id (transition State.ram_ready "VRAM evicted; pinned RAM retained")
  adjust (free_slot r.representation.bytes)
  pure explicit_release

-- The states from which a RAM replica may be evicted.
abbrev pub ram_evictable : ResidencyRecord → Bool
ram_evictable r = r.state == State.ram_ready || r.state == State.compute_ready

-- The last transition of both evictions from RAM.
unfoldable pub settle_ram_eviction : PageId → (retained gone : String) → Call Done
unfolding get_record on_record transition
settle_ram_eviction page_id retained gone = do
  r ← get_record page_id
  on_record page_id (
      if any_replica is_vram r.replicas
      then transition State.compute_ready retained
      else transition State.indexed gone)

unfoldable pub evict_pageable_ram : PageId → Call EvictionReason
unfolding get_record on_record transition remove_replica settle_ram_eviction adjust free_pageable
evict_pageable_ram page_id = do
  r ← get_record page_id
  refuse_if (not (has_replica r ram_pageable)) (not_resident ram_pageable)
  refuse_if (not (ram_evictable r)) (invalid "pageable RAM eviction while page is in use")
  on_record page_id (transition State.eviction_queued "pageable RAM eviction queued")
  on_record page_id (transition State.evicting "pageable RAM eviction started")
  on_record page_id (remove_replica ram_pageable)
  settle_ram_eviction page_id "pageable RAM evicted; VRAM retained" "pageable RAM replica evicted"
  adjust (free_pageable r.representation.bytes)
  pure explicit_release

unfoldable pub evict_ram : PageId → Call EvictionReason
unfolding get_record on_record transition remove_replica settle_ram_eviction adjust free_pinned
evict_ram page_id = do
  r ← get_record page_id
  refuse_if (not (has_replica r ram_pinned)) (not_resident ram_pinned)
  refuse_if (not (ram_evictable r)) (invalid "RAM eviction while page is in use")
  on_record page_id (transition State.eviction_queued "RAM eviction queued")
  on_record page_id (transition State.evicting "RAM eviction started")
  on_record page_id (remove_replica ram_pinned)
  settle_ram_eviction page_id "RAM replica evicted; VRAM retained" "RAM replica evicted"
  adjust (free_pinned r.representation.bytes)
  pure explicit_release

-- The queue that a cancelled ticket leaves.
unfoldable pub leave_queue : TransferKind → Call Done
unfolding adjust leave_nvme_queue leave_transfer_queue
leave_queue kind = elim kind [
  | TransferKind.nvme_read ↦ adjust leave_nvme_queue
  | TransferKind.ram_to_vram ↦ adjust leave_transfer_queue
  | _ ↦ pure tt
]

unfoldable pub cancel_ticket : ℕ → (reason : String) (clock : ℕ → ℕ) → Call Done
unfolding get_ticket on_ticket cancel leave_queue
cancel_ticket ticket_id reason clock = do
  on_ticket ticket_id (cancel reason (clock 0))
  t ← get_ticket ticket_id
  leave_queue t.kind

-- The numbers of the slots that hold a page in a generation.
unfoldable pub stale_slots : PageId → ℕ → List VramSlot → List ℕ
stale_slots page_id generation [] = []
stale_slots page_id generation (s ∷ rest) =
    if s.page_id == some page_id && s.generation == some generation
    then s.slot_id ∷ stale_slots page_id generation rest
    else stale_slots page_id generation rest

unfoldable pub slot_at : ℕ → Call VramSlot
slot_at slot_id m = (m, ok_or (get_slot slot_id m.slots.slots) (invalid "unknown VRAM slot"))

unfoldable pub evict_stale : PageId → ℕ → List ℕ → Call Done
unfolding slot_at on_slots Slots.evict
evict_stale page_id generation [] = pure tt
evict_stale page_id generation (slot_id ∷ rest) = do
  s ← slot_at slot_id
  refuse_if (not (evictable s)) (resource_exhausted "cannot advance a page with a busy slot")
  on_slots (Slots.evict slot_id page_id generation)
  evict_stale page_id generation rest

unfoldable pub restart : ℕ → ResidencyRecord → ResidencyRecord
restart generation r = record r {
  replicas = [];
  generation = generation;
  state = State.indexed;
  transition_history = r.transition_history ++ (advanced generation ∷ []);
}

-- What precedes the change of the record: the slots are given up, and the bytes in RAM.
unfoldable pub give_up : PageId → ResidencyRecord → Call Done
unfolding stale_slots evict_stale adjust free_pageable free_pinned
give_up page_id r = do
  ids ← read (λ m. stale_slots page_id r.generation m.slots.slots)
  evict_stale page_id r.generation ids
  when (has_replica r ram_pageable) (adjust (free_pageable r.representation.bytes))
  when (has_replica r ram_pinned) (adjust (free_pinned r.representation.bytes))

unfoldable pub advance_generation : PageId → ℕ → Call Done
unfolding get_record give_up on_record restart
advance_generation page_id generation = do
  r ← get_record page_id
  refuse_if (length r.leases != 0 || r.state == State.in_use)
      (resource_exhausted "cannot advance a page while it is leased")
  refuse_if (leb generation r.generation) (invalid "generation must increase monotonically")
  give_up page_id r
  on_record page_id (modify (restart generation))

-- The loop of `validate` over the records.
unfoldable pub validate_records : Dict PageId ResidencyRecord → Result Done
unfolding validate_record
validate_records [] = ok tt
validate_records ((_, r) ∷ rest) = elim (validate_record r) [
  | err e ↦ err e
  | ok _ ↦ validate_records rest
]

abbrev or_zero : Option ℕ → ℕ
or_zero none = 0
or_zero (some n) = n

unfoldable pub validate_slot : Dict PageId ResidencyRecord → VramSlot → Result Done
validate_slot records s = if is_free s then ok tt else elim s.page_id [
  | none ↦ err (invalid "occupied slot has no page identity")
  | some page_id ↦ elim (lookup page_id records) [
    | none ↦ err (invalid "unknown page")
    | some r ↦
        if s.generation != some r.generation
        then err (stale_generation page_id r.generation (or_zero s.generation))
        else if is_ready s && not (has_replica r (vram_slot s.slot_id))
        then err (invalid "ready slot lacks explicit record replica")
        else ok tt
  ]
]

-- The loop of `validate` over the slots.
unfoldable pub validate_slots : Dict PageId ResidencyRecord → List VramSlot → Result Done
unfolding validate_slot
validate_slots records [] = ok tt
validate_slots records (s ∷ rest) = elim (validate_slot records s) [
  | err e ↦ err e
  | ok _ ↦ validate_slots records rest
]

unfoldable pub validate : ResidencyManager → Result Done
unfolding validate_records validate_slots
validate m = elim (validate_records m.records) [
  | err e ↦ err e
  | ok _ ↦ validate_slots m.records m.slots.slots
]
