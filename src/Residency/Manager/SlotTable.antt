-- ===== src/Residency/Manager/SlotTable.antt =====
-- har/crates/har-residency/src/manager.rs: the slots of a manager stay valid.
use remora_lab.Base.{ℕ, ◌≡◌, List, some, arith}
use remora_lab.Residency.Types.{PageId, StorageSlice}
use remora_lab.Residency.Attempt.{ok, Attempt, Done}
use remora_lab.Residency.Attempt.Respect.{
  IsPreorder, Respects, bind, lift-Respects, read-Respects, refuse_if-Respects,
}
use remora_lab.Residency.Record.{ResidencyRecord}
use remora_lab.Residency.Slots.{new_table, get_slot, VramSlot}
use remora_lab.Residency.Slots.Validity.{TableIsValid, SlotIsValid, get_slot-IsValid}
use remora_lab.Residency.Slots.Table.{
  new_table-IsValid, queue_upload-IsValid, complete_upload-IsValid, mark_compute_ready-IsValid,
  acquire-IsValid, release-IsValid, evict-IsValid, reserve-IsValid,
}
use remora_lab.Residency.Manager
use remora_lab.Residency.Manager.{
  ResidencyManager, new_manager, on_record, on_slots, adjust, add_record, on_ticket, take_ticket_id,
  add_ticket,
}
use remora_lab.Residency.Manager.Calls
use remora_lab.Residency.Manager.Uploads
use remora_lab.Residency.Manager.Evictions
use remora_lab.Residency.Manager.Frame
use remora_lab.Residency.Manager.Frame.{Steps, Growth, give_up-Respects}
use remora_lab.Residency.Manager.Run.{ManagerCall, Moves, run, run-Respects}

abbrev KeepsSlots : ResidencyManager → ResidencyManager → Type 0
KeepsSlots s t = TableIsValid s.slots → TableIsValid t.slots

KeepsSlots-IsPreorder : IsPreorder KeepsSlots
KeepsSlots-IsPreorder = record { stays = λ s x. x; trans = λ s t u x y z. y (x z) }

slot_steps : Steps KeepsSlots
unfolding on_record on_ticket on_slots adjust take_ticket_id add_ticket Uploads.take_epoch
    Uploads.take_lease_id Calls.try_slots
slot_steps = record {
  order = KeepsSlots-IsPreorder;
  transition = λ p n t. record { step = λ s x. x };
  add_replica = λ p l g id c. record { step = λ s x. x };
  remove_replica = λ p l. record { step = λ s x. x };
  insert_lease = λ p l. record { step = λ s x. x };
  drop_lease = λ p l. record { step = λ s x. x };
  on_ticket = λ id op. record { step = λ s x. x };
  take_ticket_id = record { step = λ s x. x };
  add_ticket = λ id t. record { step = λ s x. x };
  take_epoch = record { step = λ s x. x };
  take_lease_id = record { step = λ s x. x };
  reserve = λ p g j n y. record { step = λ s x. reserve-IsValid s.slots x p g j n y };
  slot_queue = λ id t. record { step = λ s x. queue_upload-IsValid s.slots x id t };
  slot_complete = λ id t c. record { step = λ s x. complete_upload-IsValid s.slots x id t c };
  slot_ready = λ id p g. record { step = λ s x. mark_compute_ready-IsValid s.slots x id p g };
  slot_acquire = λ id p g e. record { step = λ s x. acquire-IsValid s.slots x id p g e };
  slot_release = λ l. record { step = λ s x. release-IsValid s.slots x l };
  slot_evict = λ id p g. record { step = λ s x. evict-IsValid s.slots x id p g };
  free_pageable = λ n. record { step = λ s x. x };
  free_pinned = λ n. record { step = λ s x. x };
  free_slot = λ n. record { step = λ s x. x };
  use_slot = λ n. record { step = λ s x. x };
  leave_nvme_queue = record { step = λ s x. x };
  leave_transfer_queue = record { step = λ s x. x };
  leave_compute_queue = record { step = λ s x. x };
}

add_record-KeepsSlots : (p : PageId) (r : ResidencyRecord) → Respects KeepsSlots (add_record p r)
unfolding add_record
add_record-KeepsSlots p r = record { step = λ s x. x }

on_record-KeepsSlots :
    (p : PageId) (op : Attempt ResidencyRecord Done) → Respects KeepsSlots (on_record p op)
unfolding on_record
on_record-KeepsSlots p op = record { step = λ s x. x }

register-KeepsSlots : (x : StorageSlice) (g : ℕ) → Respects KeepsSlots (Manager.register x g)
unfolding Manager.register Manager.register_valid
register-KeepsSlots x g =
    search
      (
        bind KeepsSlots-IsPreorder,
        lift-Respects KeepsSlots-IsPreorder,
        read-Respects KeepsSlots-IsPreorder,
        refuse_if-Respects KeepsSlots-IsPreorder,
        add_record-KeepsSlots,
      )
      fits 4000 depth 40

advance_generation-KeepsSlots :
    (p : PageId) (g : ℕ) → Respects KeepsSlots (Evictions.advance_generation p g)
unfolding Evictions.advance_generation
advance_generation-KeepsSlots p g =
    search
      (
        bind KeepsSlots-IsPreorder,
        refuse_if-Respects KeepsSlots-IsPreorder,
        Frame.get_record-Respects slot_steps,
        on_record-KeepsSlots,
        give_up-Respects KeepsSlots-IsPreorder slot_steps.slot_evict slot_steps.free_pageable
            slot_steps.free_pinned,
      )
      fits 4000 depth 40

slot_moves : Moves KeepsSlots
unfolding adjust
slot_moves = record {
  steps = slot_steps;
  growth = record {
    use_pageable = λ n. record { step = λ s x. x };
    use_pinned = λ n. record { step = λ s x. x };
    count_nvme_read = λ n. record { step = λ s x. x };
    enter_transfer_queue = record { step = λ s x. x };
    enter_compute_queue = record { step = λ s x. x };
  };
  register = register-KeepsSlots;
  advance = advance_generation-KeepsSlots;
}

new_manager-slots :
    (a b c d e f g : ℕ) (s : ResidencyManager)
    → new_manager a b c d e f g ≡ ok s
    → new_table c d ≡ ok s.slots
unfolding new_manager
new_manager-slots a b c d e f g s h = ground arith

-- Whatever the calls on a new manager, also when they fail, the slot at a position has that number, it
-- holds a page exactly when it is not free, what is reserved fits in it, and it has one user when it is
-- in use and none otherwise.
pub run-SlotIsValid :
    (a b c d e f g : ℕ) (s : ResidencyManager)
    → new_manager a b c d e f g ≡ ok s
    → (calls : List (ManagerCall × (ℕ → ℕ))) (n : ℕ) (x : VramSlot)
    → get_slot n (run calls s).slots.slots ≡ some x
    → SlotIsValid n x
run-SlotIsValid a b c d e f g s h calls n x q =
    get_slot-IsValid 0 n n _ x (omega arith)
      (run-Respects slot_moves calls s
        (new_table-IsValid c d s.slots (new_manager-slots a b c d e f g s h)))
      q
