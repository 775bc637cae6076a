-- ===== src/Residency/Manager/Uploads.antt =====
-- har/crates/har-residency/src/manager.rs: `ResidencyManager`'s uploads to VRAM slots and the leases of
-- computations on them.
use remora_lab.Base.{ℕ, String, Bool, Option, ◌!=◌, nat_eq, wrap_add, leb}
use remora_lab.Residency.Types.{PageId, page_eq, ram_pinned, vram_slot, location_eq}
use remora_lab.Residency.State
use remora_lab.Residency.Record.{
  PageLease, transition, add_replica, insert_lease, drop_lease, validate_against,
}
use remora_lab.Residency.Ticket.{TransferKind, start}
use remora_lab.Residency.Slots
use remora_lab.Residency.Attempt.{
  stale_generation, queue_full, ok, Done, pure, ◌>>=◌, ◌>>◌, refuse_if, modify, lift,
}
use remora_lab.Residency.Manager.{
  Call, on_record, on_ticket, on_slots, adjust, get_record, get_ticket, new_ticket,
}
use remora_lab.Residency.Manager.Calls.{
  label, get_snapshot, finish_ticket, enter_transfer_queue, leave_transfer_queue,
  enter_compute_queue, leave_compute_queue, free_pinned, use_slot,
}

unfoldable pub queue_upload :
    PageId → (slot_id : ℕ) → (mandatory speculative : Bool) (clock : ℕ → ℕ) → Call ℕ
unfolding get_snapshot get_record new_ticket on_slots Slots.queue_upload on_record transition adjust
    enter_transfer_queue
queue_upload page_id slot_id mandatory speculative clock = do
  s ← get_snapshot
  refuse_if (leb s.transfer_queue_capacity s.transfer_queue_depth)
      (queue_full "transfer queue has no measured slack")
  r ← get_record page_id
  ticket_id ←
      new_ticket page_id TransferKind.ram_to_vram ram_pinned (vram_slot slot_id)
        r.representation.bytes mandatory speculative (clock 0)
  on_slots (Slots.queue_upload slot_id ticket_id)
  on_record page_id (transition State.upload_queued "RAM to VRAM upload queued")
  adjust enter_transfer_queue
  pure ticket_id

unfoldable pub start_upload : ℕ → (clock : ℕ → ℕ) → Call Done
unfolding get_ticket on_ticket start on_record transition
start_upload ticket_id clock = do
  t ← get_ticket ticket_id
  on_ticket ticket_id (start (clock 0))
  on_record t.page_id (transition State.vram_uploading "RAM to VRAM upload started")

unfoldable pub complete_upload : ℕ → (slot_id : ℕ) → Option String → (clock : ℕ → ℕ) → Call Done
unfolding get_ticket get_record on_slots Slots.complete_upload finish_ticket on_record add_replica
    transition adjust leave_transfer_queue free_pinned use_slot
complete_upload ticket_id slot_id checksum clock = do
  t ← get_ticket ticket_id
  r ← get_record t.page_id
  refuse_if (r.generation != t.generation) (stale_generation t.page_id r.generation t.generation)
  on_slots (Slots.complete_upload slot_id ticket_id checksum)
  finish_ticket ticket_id t.page_id t.generation clock
  on_record t.page_id
      (add_replica (vram_slot slot_id) t.generation (label "vram-slot:" slot_id) checksum)
  on_record t.page_id (transition State.uploaded "VRAM upload completed")
  adjust leave_transfer_queue
  adjust (free_pinned t.requested_bytes)
  adjust (use_slot t.requested_bytes)

unfoldable pub mark_compute_ready : PageId → (slot_id : ℕ) → Call Done
unfolding get_record on_slots Slots.mark_compute_ready on_record transition
mark_compute_ready page_id slot_id = do
  r ← get_record page_id
  on_slots (Slots.mark_compute_ready slot_id page_id r.generation)
  on_record page_id (transition State.compute_ready "GPU readiness event published")

unfoldable pub take_epoch : Call ℕ
take_epoch m = (record m { next_epoch = wrap_add m.next_epoch 1 }, ok m.next_epoch)

unfoldable pub take_lease_id : Call ℕ
take_lease_id m = (record m { next_lease = wrap_add m.next_lease 1 }, ok m.next_lease)

-- What `acquire_compute` does between the test of the queue and the count.
unfoldable pub lease_slot : PageId → (slot_id : ℕ) → Call PageLease
unfolding get_record take_epoch on_slots Slots.acquire take_lease_id on_record transition
lease_slot page_id slot_id = do
  r ← get_record page_id
  epoch ← take_epoch
  slot_lease ← on_slots (Slots.acquire slot_id page_id r.generation epoch)
  lease_id ← take_lease_id
  let lease = record slot_lease { lease_id = lease_id }
  on_record page_id (modify (insert_lease lease))
  on_record page_id (transition State.in_use "GPU compute lease acquired")
  pure lease

unfoldable pub acquire_compute : PageId → (slot_id : ℕ) → Call PageLease
unfolding get_snapshot lease_slot adjust enter_compute_queue
acquire_compute page_id slot_id = do
  s ← get_snapshot
  refuse_if (leb s.compute_queue_capacity s.compute_queue_depth)
      (queue_full "compute queue has no measured slack")
  lease ← lease_slot page_id slot_id
  adjust enter_compute_queue
  pure lease

unfoldable pub release_compute : PageLease → Call Done
unfolding get_record validate_against on_slots Slots.release on_record transition adjust
    leave_compute_queue
release_compute lease = do
  r ← get_record lease.page_id
  lift (validate_against lease r)
  on_slots (Slots.release lease)
  on_record lease.page_id (modify (drop_lease lease))
  on_record lease.page_id (transition State.compute_ready "GPU compute lease released")
  adjust leave_compute_queue
