-- ===== src/Residency/Manager/Limits/Growth.antt =====
-- har/crates/har-residency/src/manager.rs: the methods that make a counter grow keep the limits.
use remora_lab.Base.{ℕ, ◌≡◌, refl, Bool, false, arith, nat_eq, ltb, leb, Option, sat_add, String}
use remora_lab.Residency.Attempt.{Attempt, Done, ◌>>=◌}
use remora_lab.Residency.Attempt.Respect.{
  Respects, bind, when-Respects, pure-Respects, refuse_if-Respects,
}
use remora_lab.Residency.Manager.Limits.{Limits, IsWithin, StaysWithin-IsPreorder, within_steps}
use remora_lab.Residency.Manager.Limits.Rules.{
  From, SameLimits, SameLimits-IsPreorder, bind-From, refuse_if-From, get_snapshot-From,
  pageable_budget-From, pinned_budget-From, adjust-From, adjust_both-From, when-From,
  when_both-From, Fails, bind-Fails, throw-Fails, Fails-From, Respects-From,
}
use remora_lab.Residency.Manager.{
  ResidencyManager, ResourceSnapshot, Call, on_record, on_ticket, on_slots, take_ticket_id,
  add_ticket, get_record, get_ticket, new_ticket,
}
use remora_lab.Residency.Record.{ResidencyRecord}
use remora_lab.Residency.Slots.{VramSlotTable}
use remora_lab.Residency.Ticket.{TransferTicket, TransferKind}
use remora_lab.Residency.Manager.Calls
use remora_lab.Residency.Manager.Uploads
use remora_lab.Residency.Manager.Frame
use remora_lab.Residency.Types.{PageId, PageLocation}

module _ (s : ResourceSnapshot) (a b : ℕ) (h : Limits s a b) where
  use_pageable-Limits :
      (n : ℕ) → ltb a (sat_add s.ram_pageable_used n) ≡ false → Limits (Calls.use_pageable n s) a b
  unfolding Calls.use_pageable
  use_pageable-Limits n e = record {
    pageable_fits = ground (arith, h.pageable_fits);
    pinned_fits = h.pinned_fits;
    nvme_fits = h.nvme_fits;
    transfer_fits = h.transfer_fits;
    compute_fits = h.compute_fits;
  }

  promote-Limits :
      (n : ℕ)
      → ltb b (sat_add s.ram_pinned_used n) ≡ false
      → Limits (Calls.use_pinned n (Calls.free_pageable n s)) a b
  unfolding Calls.use_pinned Calls.free_pageable
  promote-Limits n e = record {
    pageable_fits = ground (arith, h.pageable_fits);
    pinned_fits = ground (arith, h.pinned_fits);
    nvme_fits = h.nvme_fits;
    transfer_fits = h.transfer_fits;
    compute_fits = h.compute_fits;
  }

  count_nvme_read-Limits :
      (n : ℕ)
      → leb s.nvme_queue_capacity s.nvme_queue_depth ≡ false
      → Limits (Calls.count_nvme_read n s) a b
  unfolding Calls.count_nvme_read
  count_nvme_read-Limits n e = record {
    pageable_fits = h.pageable_fits;
    pinned_fits = h.pinned_fits;
    nvme_fits = ground (arith, h.nvme_fits);
    transfer_fits = h.transfer_fits;
    compute_fits = h.compute_fits;
  }

  complete_read-Limits :
      (n : ℕ)
      → ltb b (sat_add s.ram_pinned_used n) ≡ false
      → Limits (Calls.use_pinned n (Calls.leave_nvme_queue s)) a b
  unfolding Calls.use_pinned Calls.leave_nvme_queue
  complete_read-Limits n e = record {
    pageable_fits = h.pageable_fits;
    pinned_fits = ground (arith, h.pinned_fits);
    nvme_fits = ground (arith, h.nvme_fits);
    transfer_fits = h.transfer_fits;
    compute_fits = h.compute_fits;
  }

  enter_transfer_queue-Limits :
      leb s.transfer_queue_capacity s.transfer_queue_depth ≡ false
      → Limits (Calls.enter_transfer_queue s) a b
  unfolding Calls.enter_transfer_queue
  enter_transfer_queue-Limits e = record {
    pageable_fits = h.pageable_fits;
    pinned_fits = h.pinned_fits;
    nvme_fits = h.nvme_fits;
    transfer_fits = ground (arith, h.transfer_fits);
    compute_fits = h.compute_fits;
  }

  enter_compute_queue-Limits :
      leb s.compute_queue_capacity s.compute_queue_depth ≡ false
      → Limits (Calls.enter_compute_queue s) a b
  unfolding Calls.enter_compute_queue
  enter_compute_queue-Limits e = record {
    pageable_fits = h.pageable_fits;
    pinned_fits = h.pinned_fits;
    nvme_fits = h.nvme_fits;
    transfer_fits = h.transfer_fits;
    compute_fits = ground (arith, h.compute_fits);
  }

-- The parts of the methods that leave the counters.
module _ {A : Type 0} where
  Same-on_record :
      (p : PageId) (op : Attempt ResidencyRecord A) → Respects SameLimits (on_record p op)
  unfolding on_record
  Same-on_record p op = record { step = λ s. (refl, refl, refl) }

  Same-on_ticket : (id : ℕ) (op : Attempt TransferTicket A) → Respects SameLimits (on_ticket id op)
  unfolding on_ticket
  Same-on_ticket id op = record { step = λ s. (refl, refl, refl) }

  Same-on_slots : (op : Attempt VramSlotTable A) → Respects SameLimits (on_slots op)
  unfolding on_slots
  Same-on_slots op = record { step = λ s. (refl, refl, refl) }

Same-get_record : (p : PageId) → Respects SameLimits (get_record p)
unfolding get_record
Same-get_record p = record { step = λ s. (refl, refl, refl) }

Same-get_ticket : (id : ℕ) → Respects SameLimits (get_ticket id)
unfolding get_ticket
Same-get_ticket id = record { step = λ s. (refl, refl, refl) }

Same-take_ticket_id : (x : Unit {0}) → Respects SameLimits take_ticket_id
unfolding take_ticket_id
Same-take_ticket_id x = record { step = λ s. (refl, refl, refl) }

Same-take_epoch : (x : Unit {0}) → Respects SameLimits Uploads.take_epoch
unfolding Uploads.take_epoch
Same-take_epoch x = record { step = λ s. (refl, refl, refl) }

Same-take_lease_id : (x : Unit {0}) → Respects SameLimits Uploads.take_lease_id
unfolding Uploads.take_lease_id
Same-take_lease_id x = record { step = λ s. (refl, refl, refl) }

Same-add_ticket : (id : ℕ) (t : TransferTicket) → Respects SameLimits (add_ticket id t)
unfolding add_ticket
Same-add_ticket id t = record { step = λ s. (refl, refl, refl) }

Same-new_ticket :
    (p : PageId) (k : TransferKind) (a b : PageLocation) (n : ℕ) (x y : Bool) (now : ℕ)
    → Respects SameLimits (new_ticket p k a b n x y now)
unfolding new_ticket
Same-new_ticket p k a b n x y now =
    search (bind SameLimits-IsPreorder, Same-get_record, Same-take_ticket_id) fits 4000 depth 40

Same-finish_ticket :
    (id : ℕ) (p : PageId) (g : ℕ) (clock : ℕ → ℕ)
    → Respects SameLimits (Calls.finish_ticket id p g clock)
unfolding Calls.finish_ticket
Same-finish_ticket id p g clock =
    search
      (
        bind SameLimits-IsPreorder,
        refuse_if-Respects SameLimits-IsPreorder,
        Same-get_record,
        Same-on_ticket,
      )
      fits 4000 depth 40

Same-lease_slot : (p : PageId) (n : ℕ) → Respects SameLimits (Uploads.lease_slot p n)
unfolding Uploads.lease_slot
Same-lease_slot p n =
    search
      (
        bind SameLimits-IsPreorder,
        pure-Respects SameLimits-IsPreorder,
        Same-get_record,
        Same-on_record,
        Same-on_slots,
        Same-take_epoch,
        Same-take_lease_id,
      )
      fits 4000 depth 40

ruleset same_rules = (
  Same-get_record, Same-get_ticket, Same-on_record, Same-on_ticket, Same-on_slots, Same-take_epoch,
  Same-take_lease_id, Same-new_ticket, Same-finish_ticket, Respects-From,
)

module _ (s : ResidencyManager) (w : IsWithin s) where
  pub publish_ram_pageable-From :
      (p : PageId) (c : Option String) → From s (Calls.publish_ram_pageable p c)
  unfolding Calls.publish_ram_pageable
  publish_ram_pageable-From p c =
      search
        (
          same_rules,
          bind-From,
          refuse_if-From,
          get_snapshot-From,
          pageable_budget-From,
          when_both-From,
          adjust-From,
          use_pageable-Limits,
          when-Respects StaysWithin-IsPreorder,
          within_steps.transition,
        )
        fits 4000 depth 40

  pub promote_pageable_to_pinned-From :
      (p : PageId) (c : Option String) → From s (Calls.promote_pageable_to_pinned p c)
  unfolding Calls.promote_pageable_to_pinned
  promote_pageable_to_pinned-From p c =
      search
        (
          same_rules, bind-From, refuse_if-From, get_snapshot-From, pinned_budget-From,
          adjust_both-From, promote-Limits,
        )
        fits 4000 depth 40

  pub queue_nvme_read-From :
      (p : PageId) (x y : Bool) (clock : ℕ → ℕ) → From s (Calls.queue_nvme_read p x y clock)
  unfolding Calls.queue_nvme_read
  queue_nvme_read-From p x y clock =
      search
        (
          same_rules,
          bind-From,
          refuse_if-From,
          get_snapshot-From,
          adjust-From,
          count_nvme_read-Limits,
          pure-Respects StaysWithin-IsPreorder,
        )
        fits 4000 depth 40

  pub queue_upload-From :
      (p : PageId) (n : ℕ) (x y : Bool) (clock : ℕ → ℕ)
      → From s (Uploads.queue_upload p n x y clock)
  unfolding Uploads.queue_upload
  queue_upload-From p n x y clock =
      search
        (
          same_rules,
          bind-From,
          refuse_if-From,
          get_snapshot-From,
          adjust-From,
          enter_transfer_queue-Limits,
          pure-Respects StaysWithin-IsPreorder,
        )
        fits 4000 depth 40

  pub acquire_compute-From : (p : PageId) (n : ℕ) → From s (Uploads.acquire_compute p n)
  unfolding Uploads.acquire_compute
  acquire_compute-From p n =
      search
        (
          Same-lease_slot,
          get_snapshot-From,
          refuse_if-From,
          bind-From,
          adjust-From,
          enter_compute_queue-Limits,
          pure-Respects StaysWithin-IsPreorder,
        )
        fits 4000 depth 40

  fail_nvme_read-Fails : (id : ℕ) (clock : ℕ → ℕ) → Fails (Calls.fail_nvme_read id clock)
  unfolding Calls.fail_nvme_read
  fail_nvme_read-Fails id clock = search (bind-Fails, throw-Fails)

  fail_nvme_read-From :
      {B : Type 0} (id : ℕ) (clock : ℕ → ℕ) (f : Done → Call B)
      → From s (Calls.fail_nvme_read id clock >>= f)
  fail_nvme_read-From id clock f =
      Fails-From w _ f (fail_nvme_read-Fails id clock)
        (Frame.fail_nvme_read-Respects within_steps id clock)

  pub complete_nvme_read-From :
      (id : ℕ) (c : Option String) (clock : ℕ → ℕ) → From s (Calls.complete_nvme_read id c clock)
  unfolding Calls.complete_nvme_read
  complete_nvme_read-From id c clock =
      search
        (
          fail_nvme_read-From, same_rules, bind-From, get_snapshot-From, pinned_budget-From,
          when-From, adjust_both-From, complete_read-Limits,
        )
        fits 4000 depth 40
