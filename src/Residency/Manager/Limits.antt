-- ===== src/Residency/Manager/Limits.antt =====
-- har/crates/har-residency/src/manager.rs: the RAM budgets and the capacities of the queues.
pub mod Rules
pub mod Growth
pub mod Any
use remora_lab.Base.{ℕ, ◌≡◌, ◌≤◌, refl, sym, ap, ◌∙◌, Bool, true, false, arith, nat_eq}
use mathlib.Core.Path.{subst}
use remora_lab.Residency.Attempt.{ResidencyError, Result, ok, err, ◌>>=◌, ◌>>◌, and_then, refuse_if}
use remora_lab.Residency.Attempt.Respect.{IsPreorder, Respects}
use remora_lab.Residency.Manager.{
  ResidencyManager, ResourceSnapshot, Call, on_record, on_ticket, on_slots, adjust, take_ticket_id,
  add_ticket,
}
use remora_lab.Residency.Manager
use remora_lab.Residency.Manager.Calls
use remora_lab.Residency.Manager.Uploads
use remora_lab.Residency.Manager.Evictions
use remora_lab.Residency.Manager.Frame.{Steps}

pub record Limits (s : ResourceSnapshot) (pageable pinned : ℕ) : Type 0 where
  pub pageable_fits : s.ram_pageable_used ≤ pageable
  pub pinned_fits : s.ram_pinned_used ≤ pinned
  pub nvme_fits : s.nvme_queue_depth ≤ s.nvme_queue_capacity
  pub transfer_fits : s.transfer_queue_depth ≤ s.transfer_queue_capacity
  pub compute_fits : s.compute_queue_depth ≤ s.compute_queue_capacity

abbrev pub IsWithin : ResidencyManager → Type 0
IsWithin m = Limits m.snapshot m.ram_pageable_budget m.ram_pinned_budget

abbrev pub StaysWithin : ResidencyManager → ResidencyManager → Type 0
StaysWithin s t = IsWithin s → IsWithin t

pub StaysWithin-IsPreorder : IsPreorder StaysWithin
StaysWithin-IsPreorder = record { stays = λ s x. x; trans = λ s t u x y z. y (x z) }

-- A change of the snapshot that keeps the limits.
adjust-Within :
    (f : ResourceSnapshot → ResourceSnapshot)
    → ((s : ResourceSnapshot) (a b : ℕ) → Limits s a b → Limits (f s) a b)
    → Respects StaysWithin (adjust f)
unfolding adjust
adjust-Within f h = record {
  step = λ m x. h m.snapshot m.ram_pageable_budget m.ram_pinned_budget x;
}

pub within_steps : Steps StaysWithin
unfolding on_record on_ticket on_slots take_ticket_id add_ticket Uploads.take_epoch
    Uploads.take_lease_id Calls.try_slots Calls.free_pageable Calls.free_pinned Calls.free_slot
    Calls.use_slot Calls.leave_nvme_queue Calls.leave_transfer_queue Calls.leave_compute_queue
within_steps = record {
  order = StaysWithin-IsPreorder;
  transition = λ p n t. record { step = λ s x. x };
  add_replica = λ p l g id c. record { step = λ s x. x };
  remove_replica = λ p l. record { step = λ s x. x };
  insert_lease = λ p l. record { step = λ s x. x };
  drop_lease = λ p l. record { step = λ s x. x };
  on_ticket = λ id op. record { step = λ s x. x };
  take_ticket_id = record { step = λ s x. x };
  add_ticket = λ id t. record { step = λ s x. x };
  take_epoch = record { step = λ s x. x };
  take_lease_id = record { step = λ s x. x };
  reserve = λ p g j n x. record { step = λ s x. x };
  slot_queue = λ id t. record { step = λ s x. x };
  slot_complete = λ id t c. record { step = λ s x. x };
  slot_ready = λ id p g. record { step = λ s x. x };
  slot_acquire = λ id p g e. record { step = λ s x. x };
  slot_release = λ l. record { step = λ s x. x };
  slot_evict = λ id p g. record { step = λ s x. x };
  free_pageable = λ n. adjust-Within _ λ s a b x. record {
    pageable_fits = omega (arith, x.pageable_fits);
    pinned_fits = x.pinned_fits;
    nvme_fits = x.nvme_fits;
    transfer_fits = x.transfer_fits;
    compute_fits = x.compute_fits;
  };
  free_pinned = λ n. adjust-Within _ λ s a b x. record {
    pageable_fits = x.pageable_fits;
    pinned_fits = omega (arith, x.pinned_fits);
    nvme_fits = x.nvme_fits;
    transfer_fits = x.transfer_fits;
    compute_fits = x.compute_fits;
  };
  free_slot = λ n. adjust-Within _ λ s a b x. record {
    pageable_fits = x.pageable_fits;
    pinned_fits = x.pinned_fits;
    nvme_fits = x.nvme_fits;
    transfer_fits = x.transfer_fits;
    compute_fits = x.compute_fits;
  };
  use_slot = λ n. adjust-Within _ λ s a b x. record {
    pageable_fits = x.pageable_fits;
    pinned_fits = x.pinned_fits;
    nvme_fits = x.nvme_fits;
    transfer_fits = x.transfer_fits;
    compute_fits = x.compute_fits;
  };
  leave_nvme_queue = adjust-Within _ λ s a b x. record {
    pageable_fits = x.pageable_fits;
    pinned_fits = x.pinned_fits;
    nvme_fits = omega (arith, x.nvme_fits);
    transfer_fits = x.transfer_fits;
    compute_fits = x.compute_fits;
  };
  leave_transfer_queue = adjust-Within _ λ s a b x. record {
    pageable_fits = x.pageable_fits;
    pinned_fits = x.pinned_fits;
    nvme_fits = x.nvme_fits;
    transfer_fits = omega (arith, x.transfer_fits);
    compute_fits = x.compute_fits;
  };
  leave_compute_queue = adjust-Within _ λ s a b x. record {
    pageable_fits = x.pageable_fits;
    pinned_fits = x.pinned_fits;
    nvme_fits = x.nvme_fits;
    transfer_fits = x.transfer_fits;
    compute_fits = omega (arith, x.compute_fits);
  };
}
