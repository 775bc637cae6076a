-- ===== src/Residency/Manager/Run.antt =====
-- har/crates/har-residency/src/manager.rs: sequences of calls of `ResidencyManager`, those that fail
-- included. Each comes with the clock that it reads.
use remora_lab.Base.{ℕ, String, Bool, Option, List, [], ◌∷◌}
use remora_lab.Residency.Types.{PageId, page_eq, StorageSlice, ExpertProjection}
use remora_lab.Residency.Record.{PageLease}
use remora_lab.Residency.Attempt.Respect.{Respects}
use remora_lab.Residency.Manager.{ResidencyManager, add_record}
use remora_lab.Residency.Manager
use remora_lab.Residency.Manager.Calls
use remora_lab.Residency.Manager.Uploads
use remora_lab.Residency.Manager.Evictions
use remora_lab.Residency.Manager.Frame
use remora_lab.Residency.Manager.Frame.{Steps, Growth}

pub data ManagerCall : Type 0 where
  register : StorageSlice → (generation : ℕ) → ManagerCall
  advance_generation : PageId → (generation : ℕ) → ManagerCall
  publish_ram_pageable : PageId → (checksum : Option String) → ManagerCall
  promote_pageable_to_pinned : PageId → (checksum : Option String) → ManagerCall
  queue_nvme_read : PageId → (mandatory speculative : Bool) → ManagerCall
  start_nvme_read : (ticket_id : ℕ) → ManagerCall
  complete_nvme_read : (ticket_id : ℕ) (checksum : Option String) → ManagerCall
  reserve_vram : PageId → ExpertProjection → (speculative : Bool) → ManagerCall
  queue_upload : PageId → (slot_id : ℕ) (mandatory speculative : Bool) → ManagerCall
  start_upload : (ticket_id : ℕ) → ManagerCall
  complete_upload : (ticket_id slot_id : ℕ) (checksum : Option String) → ManagerCall
  mark_compute_ready : PageId → (slot_id : ℕ) → ManagerCall
  acquire_compute : PageId → (slot_id : ℕ) → ManagerCall
  release_compute : PageLease → ManagerCall
  evict_vram : PageId → (slot_id : ℕ) → ManagerCall
  evict_pageable_ram : PageId → ManagerCall
  evict_ram : PageId → ManagerCall
  cancel_ticket : (ticket_id : ℕ) (reason : String) → ManagerCall

unfoldable pub perform : ManagerCall → (clock : ℕ → ℕ) → ResidencyManager → ResidencyManager
unfolding Manager.register Evictions.advance_generation Calls.publish_ram_pageable
    Calls.promote_pageable_to_pinned Calls.queue_nvme_read Calls.start_nvme_read
    Calls.complete_nvme_read Calls.reserve_vram Uploads.queue_upload Uploads.start_upload
    Uploads.complete_upload Uploads.mark_compute_ready Uploads.acquire_compute
    Uploads.release_compute Evictions.evict_vram Evictions.evict_pageable_ram Evictions.evict_ram
    Evictions.cancel_ticket
perform (register slice g) clock s = (Manager.register slice g s).0
perform (advance_generation p g) clock s = (Evictions.advance_generation p g s).0
perform (publish_ram_pageable p c) clock s = (Calls.publish_ram_pageable p c s).0
perform (promote_pageable_to_pinned p c) clock s = (Calls.promote_pageable_to_pinned p c s).0
perform (queue_nvme_read p x y) clock s = (Calls.queue_nvme_read p x y clock s).0
perform (start_nvme_read id) clock s = (Calls.start_nvme_read id clock s).0
perform (complete_nvme_read id c) clock s = (Calls.complete_nvme_read id c clock s).0
perform (reserve_vram p j x) clock s = (Calls.reserve_vram p j x s).0
perform (queue_upload p n x y) clock s = (Uploads.queue_upload p n x y clock s).0
perform (start_upload id) clock s = (Uploads.start_upload id clock s).0
perform (complete_upload id n c) clock s = (Uploads.complete_upload id n c clock s).0
perform (mark_compute_ready p n) clock s = (Uploads.mark_compute_ready p n s).0
perform (acquire_compute p n) clock s = (Uploads.acquire_compute p n s).0
perform (release_compute l) clock s = (Uploads.release_compute l s).0
perform (evict_vram p n) clock s = (Evictions.evict_vram p n s).0
perform (evict_pageable_ram p) clock s = (Evictions.evict_pageable_ram p s).0
perform (evict_ram p) clock s = (Evictions.evict_ram p s).0
perform (cancel_ticket id t) clock s = (Evictions.cancel_ticket id t clock s).0

unfoldable pub run : List (ManagerCall × (ℕ → ℕ)) → ResidencyManager → ResidencyManager
unfolding perform
run [] s = s
run ((c, clock) ∷ rest) s = run rest (perform c clock s)

-- What a relation needs to hold from before each call to after it.
pub record Moves (R : ResidencyManager → ResidencyManager → Type 0) : Type 0 where
  pub steps : Steps R
  pub growth : Growth R
  pub register : (slice : StorageSlice) (g : ℕ) → Respects R (Manager.register slice g)
  pub advance : (p : PageId) (g : ℕ) → Respects R (Evictions.advance_generation p g)

module _ {R : ResidencyManager → ResidencyManager → Type 0} (h : Moves R) where
  pub perform-Respects :
      (c : ManagerCall) (clock : ℕ → ℕ) (s : ResidencyManager) → R s (perform c clock s)
  unfolding perform
  perform-Respects (register slice g) clock s = (h.register slice g).step s
  perform-Respects (advance_generation p g) clock s = (h.advance p g).step s
  perform-Respects (publish_ram_pageable p c) clock s =
      (Frame.publish_ram_pageable-Respects h.steps h.growth p c).step s
  perform-Respects (promote_pageable_to_pinned p c) clock s =
      (Frame.promote_pageable_to_pinned-Respects h.steps h.growth p c).step s
  perform-Respects (queue_nvme_read p x y) clock s =
      (Frame.queue_nvme_read-Respects h.steps h.growth p x y clock).step s
  perform-Respects (start_nvme_read id) clock s =
      (Frame.start_nvme_read-Respects h.steps id clock).step s
  perform-Respects (complete_nvme_read id c) clock s =
      (Frame.complete_nvme_read-Respects h.steps h.growth id c clock).step s
  perform-Respects (reserve_vram p j x) clock s = (Frame.reserve_vram-Respects h.steps p j x).step s
  perform-Respects (queue_upload p n x y) clock s =
      (Frame.queue_upload-Respects h.steps h.growth p n x y clock).step s
  perform-Respects (start_upload id) clock s = (Frame.start_upload-Respects h.steps id clock).step s
  perform-Respects (complete_upload id n c) clock s =
      (Frame.complete_upload-Respects h.steps id n c clock).step s
  perform-Respects (mark_compute_ready p n) clock s =
      (Frame.mark_compute_ready-Respects h.steps p n).step s
  perform-Respects (acquire_compute p n) clock s =
      (Frame.acquire_compute-Respects h.steps h.growth p n).step s
  perform-Respects (release_compute l) clock s = (Frame.release_compute-Respects h.steps l).step s
  perform-Respects (evict_vram p n) clock s = (Frame.evict_vram-Respects h.steps p n).step s
  perform-Respects (evict_pageable_ram p) clock s =
      (Frame.evict_pageable_ram-Respects h.steps p).step s
  perform-Respects (evict_ram p) clock s = (Frame.evict_ram-Respects h.steps p).step s
  perform-Respects (cancel_ticket id t) clock s =
      (Frame.cancel_ticket-Respects h.steps id t clock).step s

  pub run-Respects :
      (calls : List (ManagerCall × (ℕ → ℕ))) (s : ResidencyManager) → R s (run calls s)
  unfolding run
  run-Respects [] s = h.steps.order.stays s
  run-Respects ((c, clock) ∷ rest) s =
      h.steps.order.trans s _ _ (perform-Respects c clock s) (run-Respects rest (perform c clock s))
