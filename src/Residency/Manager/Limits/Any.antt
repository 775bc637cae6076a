-- ===== src/Residency/Manager/Limits/Any.antt =====
-- har/crates/har-residency/src/manager.rs: the limits hold after any calls.
use remora_lab.Base.{ℕ, ◌≡◌, refl, List, [], ◌∷◌, arith}
use remora_lab.Residency.Types.{PageId, StorageSlice}
use remora_lab.Residency.Attempt.{ok, Attempt, Done}
use remora_lab.Residency.Record.{ResidencyRecord}
use remora_lab.Residency.Attempt.Respect.{
  Respects, bind, lift-Respects, read-Respects, refuse_if-Respects,
}
use remora_lab.Residency.Manager
use remora_lab.Residency.Manager.{
  ResidencyManager, new_manager, on_record, on_slots, adjust, add_record,
}
use remora_lab.Residency.Slots.{new_table}
use remora_lab.Residency.Manager.Evictions
use remora_lab.Residency.Manager.Evictions.{restart}
use remora_lab.Residency.Manager.Frame
use remora_lab.Residency.Manager.Frame.{give_up-Respects}
use remora_lab.Residency.Manager.Run.{
  ManagerCall, run, perform, publish_ram_pageable, promote_pageable_to_pinned, queue_nvme_read,
  start_nvme_read, complete_nvme_read, reserve_vram, queue_upload, start_upload, complete_upload,
  mark_compute_ready, acquire_compute, release_compute, evict_vram, evict_pageable_ram, evict_ram,
  cancel_ticket, register, advance_generation,
}
use remora_lab.Residency.Manager.Limits.{
  IsWithin, StaysWithin, StaysWithin-IsPreorder, within_steps,
}
use remora_lab.Residency.Manager.Limits.Growth

add_record-Within : (p : PageId) (r : ResidencyRecord) → Respects StaysWithin (add_record p r)
unfolding add_record
add_record-Within p r = record { step = λ s w. w }

restart-Within :
    (p : PageId) (op : Attempt ResidencyRecord Done) → Respects StaysWithin (on_record p op)
unfolding on_record
restart-Within p op = record { step = λ s w. w }

register-Within : (x : StorageSlice) (g : ℕ) → Respects StaysWithin (Manager.register x g)
unfolding Manager.register Manager.register_valid
register-Within x g =
    search
      (
        bind StaysWithin-IsPreorder,
        lift-Respects StaysWithin-IsPreorder,
        read-Respects StaysWithin-IsPreorder,
        refuse_if-Respects StaysWithin-IsPreorder,
        add_record-Within,
      )
      fits 4000 depth 40

advance_generation-Within :
    (p : PageId) (g : ℕ) → Respects StaysWithin (Evictions.advance_generation p g)
unfolding Evictions.advance_generation
advance_generation-Within p g =
    search
      (
        bind StaysWithin-IsPreorder,
        refuse_if-Respects StaysWithin-IsPreorder,
        Frame.get_record-Respects within_steps,
        restart-Within,
        give_up-Respects StaysWithin-IsPreorder within_steps.slot_evict within_steps.free_pageable
            within_steps.free_pinned,
      )
      fits 4000 depth 40

perform-IsWithin :
    (c : ManagerCall) (clock : ℕ → ℕ) (s : ResidencyManager)
    → IsWithin s
    → IsWithin (perform c clock s)
unfolding perform
perform-IsWithin (register slice g) clock s w = (register-Within slice g).step s w
perform-IsWithin (advance_generation p g) clock s w = (advance_generation-Within p g).step s w
perform-IsWithin (publish_ram_pageable p c) clock s w =
    (Growth.publish_ram_pageable-From s w p c).ends s (refl, refl, refl)
perform-IsWithin (promote_pageable_to_pinned p c) clock s w =
    (Growth.promote_pageable_to_pinned-From s w p c).ends s (refl, refl, refl)
perform-IsWithin (queue_nvme_read p x y) clock s w =
    (Growth.queue_nvme_read-From s w p x y clock).ends s (refl, refl, refl)
perform-IsWithin (start_nvme_read id) clock s w =
    (Frame.start_nvme_read-Respects within_steps id clock).step s w
perform-IsWithin (complete_nvme_read id c) clock s w =
    (Growth.complete_nvme_read-From s w id c clock).ends s (refl, refl, refl)
perform-IsWithin (reserve_vram p j x) clock s w =
    (Frame.reserve_vram-Respects within_steps p j x).step s w
perform-IsWithin (queue_upload p n x y) clock s w =
    (Growth.queue_upload-From s w p n x y clock).ends s (refl, refl, refl)
perform-IsWithin (start_upload id) clock s w =
    (Frame.start_upload-Respects within_steps id clock).step s w
perform-IsWithin (complete_upload id n c) clock s w =
    (Frame.complete_upload-Respects within_steps id n c clock).step s w
perform-IsWithin (mark_compute_ready p n) clock s w =
    (Frame.mark_compute_ready-Respects within_steps p n).step s w
perform-IsWithin (acquire_compute p n) clock s w =
    (Growth.acquire_compute-From s w p n).ends s (refl, refl, refl)
perform-IsWithin (release_compute l) clock s w =
    (Frame.release_compute-Respects within_steps l).step s w
perform-IsWithin (evict_vram p n) clock s w = (Frame.evict_vram-Respects within_steps p n).step s w
perform-IsWithin (evict_pageable_ram p) clock s w =
    (Frame.evict_pageable_ram-Respects within_steps p).step s w
perform-IsWithin (evict_ram p) clock s w = (Frame.evict_ram-Respects within_steps p).step s w
perform-IsWithin (cancel_ticket id t) clock s w =
    (Frame.cancel_ticket-Respects within_steps id t clock).step s w

run_keeps :
    (calls : List (ManagerCall × (ℕ → ℕ))) (s : ResidencyManager)
    → IsWithin s
    → IsWithin (run calls s)
unfolding run
run_keeps [] s w = w
run_keeps ((c, clock) ∷ rest) s w =
    run_keeps rest (perform c clock s) (perform-IsWithin c clock s w)

new_manager-IsWithin :
    (a b c d e f g : ℕ) (s : ResidencyManager) → new_manager a b c d e f g ≡ ok s → IsWithin s
unfolding new_manager new_table
new_manager-IsWithin a b c d e f g s h = record {
  pageable_fits = ground arith;
  pinned_fits = ground arith;
  nvme_fits = ground arith;
  transfer_fits = ground arith;
  compute_fits = ground arith;
}

-- Whatever the calls on a new manager, in any order and also when they fail, the bytes counted in
-- pageable and in pinned RAM stay within the budgets, and the depth of each of the three queues stays
-- within its capacity.
pub run-IsWithin :
    (a b c d e f g : ℕ) (s : ResidencyManager)
    → new_manager a b c d e f g ≡ ok s
    → (calls : List (ManagerCall × (ℕ → ℕ))) → IsWithin (run calls s)
run-IsWithin a b c d e f g s h calls = run_keeps calls s (new_manager-IsWithin a b c d e f g s h)
