-- ===== src/Residency/Manager/Frame.antt =====
-- har/crates/har-residency/src/manager.rs: what the primitive steps of the manager respect, every method
-- that is made of them respects.
use remora_lab.Base.{if◌then◌else◌, ℕ, String, Bool, true, false, Option, List, [], ◌∷◌}
use remora_lab.Residency.Types.{PageId, PageLocation, ExpertProjection, is_vram}
use remora_lab.Residency.State
use remora_lab.Residency.State.{ResidencyState}
use remora_lab.Residency.Record.{
  ResidencyRecord, Label, PageLease, transition, add_replica, remove_replica, insert_lease,
  drop_lease, any_replica,
}
use remora_lab.Residency.Ticket.{TransferKind, TransferTicket}
use remora_lab.Residency.Slots
use remora_lab.Residency.Slots.{VramSlotTable}
use remora_lab.Residency.Attempt.{Attempt, Done, modify, Result, ok, err}
use remora_lab.Residency.Attempt.Respect.{
  IsPreorder, Respects, bind, read-Respects, refuse_if-Respects, idle, pure-Respects,
  throw-Respects, lift-Respects, when-Respects,
}
use remora_lab.Residency.Manager.{
  ResidencyManager, on_record, on_ticket, on_slots, adjust, take_ticket_id, add_ticket, get_record,
  get_ticket, new_ticket,
}
use remora_lab.Residency.Manager.Calls
use remora_lab.Residency.Manager.Uploads
use remora_lab.Residency.Manager.Evictions

-- The steps that change one part of the state each; the counters that only fall or are not bounded.
pub record Steps (R : ResidencyManager → ResidencyManager → Type 0) : Type 0 where
  pub order : IsPreorder R
  pub transition :
      (p : PageId) (n : ResidencyState) (t : String) → Respects R (on_record p (transition n t))
  pub add_replica :
      (p : PageId) (l : PageLocation) (g : ℕ) (id : Label) (c : Option String)
      → Respects R (on_record p (add_replica l g id c))
  pub remove_replica : (p : PageId) (l : PageLocation) → Respects R (on_record p (remove_replica l))
  pub insert_lease :
      (p : PageId) (l : PageLease) → Respects R (on_record p (modify (insert_lease l)))
  pub drop_lease : (p : PageId) (l : PageLease) → Respects R (on_record p (modify (drop_lease l)))
  pub on_ticket : (id : ℕ) (op : Attempt TransferTicket Done) → Respects R (on_ticket id op)
  pub take_ticket_id : Respects R take_ticket_id
  pub add_ticket : (id : ℕ) (t : TransferTicket) → Respects R (add_ticket id t)
  pub take_epoch : Respects R Uploads.take_epoch
  pub take_lease_id : Respects R Uploads.take_lease_id
  pub reserve :
      (p : PageId) (g : ℕ) (j : ExpertProjection) (bytes : ℕ) (speculative : Bool)
      → Respects R (Calls.try_slots (Slots.reserve p g j bytes speculative))
  pub slot_queue : (id ticket : ℕ) → Respects R (on_slots (Slots.queue_upload id ticket))
  pub slot_complete :
      (id ticket : ℕ) (c : Option String)
      → Respects R (on_slots (Slots.complete_upload id ticket c))
  pub slot_ready :
      (id : ℕ) (p : PageId) (g : ℕ) → Respects R (on_slots (Slots.mark_compute_ready id p g))
  pub slot_acquire :
      (id : ℕ) (p : PageId) (g e : ℕ) → Respects R (on_slots (Slots.acquire id p g e))
  pub slot_release : (l : PageLease) → Respects R (on_slots (Slots.release l))
  pub slot_evict : (id : ℕ) (p : PageId) (g : ℕ) → Respects R (on_slots (Slots.evict id p g))
  pub free_pageable : (n : ℕ) → Respects R (adjust (Calls.free_pageable n))
  pub free_pinned : (n : ℕ) → Respects R (adjust (Calls.free_pinned n))
  pub free_slot : (n : ℕ) → Respects R (adjust (Calls.free_slot n))
  pub use_slot : (n : ℕ) → Respects R (adjust (Calls.use_slot n))
  pub leave_nvme_queue : Respects R (adjust Calls.leave_nvme_queue)
  pub leave_transfer_queue : Respects R (adjust Calls.leave_transfer_queue)
  pub leave_compute_queue : Respects R (adjust Calls.leave_compute_queue)

-- The counters that grow; each is under a test of the method that makes it grow.
pub record Growth (R : ResidencyManager → ResidencyManager → Type 0) : Type 0 where
  pub use_pageable : (n : ℕ) → Respects R (adjust (Calls.use_pageable n))
  pub use_pinned : (n : ℕ) → Respects R (adjust (Calls.use_pinned n))
  pub count_nvme_read : (n : ℕ) → Respects R (adjust (Calls.count_nvme_read n))
  pub enter_transfer_queue : Respects R (adjust Calls.enter_transfer_queue)
  pub enter_compute_queue : Respects R (adjust Calls.enter_compute_queue)

module _ {R : ResidencyManager → ResidencyManager → Type 0} (h : Steps R) where
  pub get_record-Respects : (p : PageId) → Respects R (get_record p)
  unfolding get_record
  get_record-Respects p = idle h.order _

  pub get_ticket-Respects : (id : ℕ) → Respects R (get_ticket id)
  unfolding get_ticket
  get_ticket-Respects id = idle h.order _

  pub get_snapshot-Respects : Respects R Calls.get_snapshot
  unfolding Calls.get_snapshot
  get_snapshot-Respects = idle h.order _

  pub pageable_budget-Respects : Respects R Calls.pageable_budget
  unfolding Calls.pageable_budget
  pageable_budget-Respects = idle h.order _

  pub pinned_budget-Respects : Respects R Calls.pinned_budget
  unfolding Calls.pinned_budget
  pinned_budget-Respects = idle h.order _

  pub new_ticket-Respects :
      (p : PageId) (k : TransferKind) (a b : PageLocation) (n : ℕ) (x y : Bool) (now : ℕ)
      → Respects R (new_ticket p k a b n x y now)
  unfolding new_ticket
  new_ticket-Respects p k a b n x y now = bind h.order _ _ (get_record-Respects p) λ r.
      bind h.order _ _ h.take_ticket_id
        λ id. bind h.order _ _ (h.add_ticket id _) λ _. pure-Respects h.order id

  take_epoch-Respects : Respects R Uploads.take_epoch
  take_epoch-Respects = h.take_epoch

  take_lease_id-Respects : Respects R Uploads.take_lease_id
  take_lease_id-Respects = h.take_lease_id

  leave_nvme_queue-Respects : Respects R (adjust Calls.leave_nvme_queue)
  leave_nvme_queue-Respects = h.leave_nvme_queue

  leave_transfer_queue-Respects : Respects R (adjust Calls.leave_transfer_queue)
  leave_transfer_queue-Respects = h.leave_transfer_queue

  leave_compute_queue-Respects : Respects R (adjust Calls.leave_compute_queue)
  leave_compute_queue-Respects = h.leave_compute_queue

module _ {R : ResidencyManager → ResidencyManager → Type 0} (g : Growth R) where
  enter_transfer_queue-Respects : Respects R (adjust Calls.enter_transfer_queue)
  enter_transfer_queue-Respects = g.enter_transfer_queue

  enter_compute_queue-Respects : Respects R (adjust Calls.enter_compute_queue)
  enter_compute_queue-Respects = g.enter_compute_queue

-- Search takes the fields without arguments as these lemmas.
ruleset step_rules = (
  take_epoch-Respects, take_lease_id-Respects, leave_nvme_queue-Respects,
  leave_transfer_queue-Respects, leave_compute_queue-Respects, enter_transfer_queue-Respects,
  enter_compute_queue-Respects, bind, when-Respects, refuse_if-Respects, pure-Respects,
  throw-Respects, lift-Respects, get_record-Respects, get_ticket-Respects, get_snapshot-Respects,
  pageable_budget-Respects, pinned_budget-Respects, new_ticket-Respects,
)

module _ {R : ResidencyManager → ResidencyManager → Type 0} (h : Steps R) where
  pub start_nvme_read-Respects :
      (id : ℕ) (clock : ℕ → ℕ) → Respects R (Calls.start_nvme_read id clock)
  unfolding Calls.start_nvme_read
  start_nvme_read-Respects id clock =
      search (step_rules, h.order, h.on_ticket, h.transition) fits 4000 depth 40

  pub fail_nvme_read-Respects :
      (id : ℕ) (clock : ℕ → ℕ) → Respects R (Calls.fail_nvme_read id clock)
  unfolding Calls.fail_nvme_read
  fail_nvme_read-Respects id clock = search (step_rules, h.order, h.on_ticket) fits 4000 depth 40

  pub finish_ticket-Respects :
      (id : ℕ) (p : PageId) (n : ℕ) (clock : ℕ → ℕ) → Respects R (Calls.finish_ticket id p n clock)
  unfolding Calls.finish_ticket
  finish_ticket-Respects id p n clock = search (step_rules, h.order, h.on_ticket) fits 4000 depth 40

  settle_reservation-Respects :
      (p : PageId) (r : Result ℕ) → Respects R (Calls.settle_reservation p r)
  unfolding Calls.settle_reservation
  settle_reservation-Respects p (ok n) =
      search (step_rules, h.order, h.transition, h.use_slot) fits 4000 depth 40
  settle_reservation-Respects p (err e) =
      search (step_rules, h.order, h.transition) fits 4000 depth 40

  attempt_reservation-Respects :
      (p : PageId) (r : ResidencyRecord) (j : ExpertProjection) (x : Bool)
      → Respects R (Calls.attempt_reservation p r j x)
  unfolding Calls.attempt_reservation
  attempt_reservation-Respects p r j x =
      search (step_rules, h.order, h.transition, h.reserve, settle_reservation-Respects) fits 4000
        depth 40

  pub reserve_vram-Respects :
      (p : PageId) (j : ExpertProjection) (x : Bool) → Respects R (Calls.reserve_vram p j x)
  unfolding Calls.reserve_vram
  reserve_vram-Respects p j x =
      search (step_rules, h.order, attempt_reservation-Respects) fits 4000 depth 40

  pub start_upload-Respects : (id : ℕ) (clock : ℕ → ℕ) → Respects R (Uploads.start_upload id clock)
  unfolding Uploads.start_upload
  start_upload-Respects id clock =
      search (step_rules, h.order, h.on_ticket, h.transition) fits 4000 depth 40

  pub complete_upload-Respects :
      (id slot_id : ℕ) (c : Option String) (clock : ℕ → ℕ)
      → Respects R (Uploads.complete_upload id slot_id c clock)
  unfolding Uploads.complete_upload
  complete_upload-Respects id slot_id c clock =
      search
        (
          step_rules, h.order, h.slot_complete, h.add_replica, h.transition, h.free_pinned,
          h.use_slot, finish_ticket-Respects,
        )
        fits 4000 depth 40

  pub mark_compute_ready-Respects :
      (p : PageId) (slot_id : ℕ) → Respects R (Uploads.mark_compute_ready p slot_id)
  unfolding Uploads.mark_compute_ready
  mark_compute_ready-Respects p slot_id =
      search (step_rules, h.order, h.slot_ready, h.transition) fits 4000 depth 40

  pub release_compute-Respects : (l : PageLease) → Respects R (Uploads.release_compute l)
  unfolding Uploads.release_compute
  release_compute-Respects l =
      search (step_rules, h.order, h.slot_release, h.drop_lease, h.transition) fits 4000 depth 40

  pub evict_vram-Respects : (p : PageId) (slot_id : ℕ) → Respects R (Evictions.evict_vram p slot_id)
  unfolding Evictions.evict_vram
  evict_vram-Respects p slot_id =
      search (step_rules, h.order, h.transition, h.slot_evict, h.remove_replica, h.free_slot) fits
        4000 depth 40

  settle_ram_eviction-Respects :
      (p : PageId) (a b : String) → Respects R (Evictions.settle_ram_eviction p a b)
  unfolding Evictions.settle_ram_eviction
  settle_ram_eviction-Respects p a b =
      bind h.order _ _ (get_record-Respects h p)
        λ r. either_transition (any_replica is_vram r.replicas)
    where
      either_transition :
          (x : Bool)
          → Respects R (
              on_record p
                (if x then transition State.compute_ready a else transition State.indexed b))
      either_transition true = h.transition p State.compute_ready a
      either_transition false = h.transition p State.indexed b

  pub evict_pageable_ram-Respects : (p : PageId) → Respects R (Evictions.evict_pageable_ram p)
  unfolding Evictions.evict_pageable_ram
  evict_pageable_ram-Respects p =
      search
        (
          step_rules, h.order, h.transition, h.remove_replica, h.free_pageable,
          settle_ram_eviction-Respects,
        )
        fits 4000 depth 40

  pub evict_ram-Respects : (p : PageId) → Respects R (Evictions.evict_ram p)
  unfolding Evictions.evict_ram
  evict_ram-Respects p =
      search
        (
          step_rules, h.order, h.transition, h.remove_replica, h.free_pinned,
          settle_ram_eviction-Respects,
        )
        fits 4000 depth 40

  leave_queue-Respects : (k : TransferKind) → Respects R (Evictions.leave_queue k)
  unfolding Evictions.leave_queue
  leave_queue-Respects TransferKind.nvme_read = h.leave_nvme_queue
  leave_queue-Respects TransferKind.ram_to_vram = h.leave_transfer_queue
  leave_queue-Respects TransferKind.vram_eviction = pure-Respects h.order tt
  leave_queue-Respects TransferKind.ram_eviction = pure-Respects h.order tt

  pub cancel_ticket-Respects :
      (id : ℕ) (reason : String) (clock : ℕ → ℕ)
      → Respects R (Evictions.cancel_ticket id reason clock)
  unfolding Evictions.cancel_ticket
  cancel_ticket-Respects id reason clock =
      search (step_rules, h.order, h.on_ticket, leave_queue-Respects) fits 4000 depth 40

module _ {R : ResidencyManager → ResidencyManager → Type 0} (o : IsPreorder R)
    (slot_evict : (id : ℕ) (p : PageId) (g : ℕ) → Respects R (on_slots (Slots.evict id p g))) where
  slot_at-Respects : (id : ℕ) → Respects R (Evictions.slot_at id)
  unfolding Evictions.slot_at
  slot_at-Respects id = idle o _

  evict_stale-Respects :
      (p : PageId) (n : ℕ) (ids : List ℕ) → Respects R (Evictions.evict_stale p n ids)
  unfolding Evictions.evict_stale
  evict_stale-Respects p n [] = pure-Respects o tt
  evict_stale-Respects p n (id ∷ ids) = bind o _ _ (slot_at-Respects id) λ s.
      bind o _ _ (refuse_if-Respects o _ _)
        λ _. bind o _ _ (slot_evict id p n) λ _. evict_stale-Respects p n ids

  pub give_up-Respects :
      ((n : ℕ) → Respects R (adjust (Calls.free_pageable n)))
      → ((n : ℕ) → Respects R (adjust (Calls.free_pinned n)))
      → (p : PageId) (r : ResidencyRecord) → Respects R (Evictions.give_up p r)
  unfolding Evictions.give_up
  give_up-Respects a b p r =
      search (bind o, when-Respects o, read-Respects o, evict_stale-Respects, a, b) fits 4000 depth
        40

module _ {R : ResidencyManager → ResidencyManager → Type 0} (h : Steps R) (g : Growth R) where
  pub publish_ram_pageable-Respects :
      (p : PageId) (c : Option String) → Respects R (Calls.publish_ram_pageable p c)
  unfolding Calls.publish_ram_pageable
  publish_ram_pageable-Respects p c =
      search (step_rules, h.order, h.add_replica, h.transition, g.use_pageable) fits 4000 depth 40

  pub promote_pageable_to_pinned-Respects :
      (p : PageId) (c : Option String) → Respects R (Calls.promote_pageable_to_pinned p c)
  unfolding Calls.promote_pageable_to_pinned
  promote_pageable_to_pinned-Respects p c =
      search (step_rules, h.order, h.add_replica, h.remove_replica, h.free_pageable, g.use_pinned)
        fits 4000 depth 40

  pub queue_nvme_read-Respects :
      (p : PageId) (x y : Bool) (clock : ℕ → ℕ) → Respects R (Calls.queue_nvme_read p x y clock)
  unfolding Calls.queue_nvme_read
  queue_nvme_read-Respects p x y clock =
      search (step_rules, h.order, h.transition, g.count_nvme_read) fits 4000 depth 40

  pub complete_nvme_read-Respects :
      (id : ℕ) (c : Option String) (clock : ℕ → ℕ)
      → Respects R (Calls.complete_nvme_read id c clock)
  unfolding Calls.complete_nvme_read
  complete_nvme_read-Respects id c clock =
      search
        (
          step_rules,
          h.order,
          h.add_replica,
          h.transition,
          g.use_pinned,
          finish_ticket-Respects h,
          fail_nvme_read-Respects h,
        )
        fits 4000 depth 40

  pub queue_upload-Respects :
      (p : PageId) (slot_id : ℕ) (x y : Bool) (clock : ℕ → ℕ)
      → Respects R (Uploads.queue_upload p slot_id x y clock)
  unfolding Uploads.queue_upload
  queue_upload-Respects p slot_id x y clock =
      search (step_rules, h.order, h.slot_queue, h.transition) fits 4000 depth 40

  lease_slot-Respects : (p : PageId) (slot_id : ℕ) → Respects R (Uploads.lease_slot p slot_id)
  unfolding Uploads.lease_slot
  lease_slot-Respects p slot_id =
      search (step_rules, h.order, h.slot_acquire, h.insert_lease, h.transition) fits 4000 depth 40

  pub acquire_compute-Respects :
      (p : PageId) (slot_id : ℕ) → Respects R (Uploads.acquire_compute p slot_id)
  unfolding Uploads.acquire_compute
  acquire_compute-Respects p slot_id =
      search (step_rules, h.order, lease_slot-Respects) fits 4000 depth 40
