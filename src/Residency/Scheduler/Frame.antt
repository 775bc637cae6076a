-- ===== src/Residency/Scheduler/Frame.antt =====
-- har/crates/har-residency/src/scheduler.rs: what the primitive steps of the scheduler respect, the methods
-- that are made of them respect.
use remora_lab.Base.{ℕ, String, Option, Bool, ◌≡◌, arith, ◌<◌, refl}
use remora_lab.Residency.Types.{StorageSlice, PageId, ExpertProjection}
use remora_lab.Residency.Record.{PageLease}
use remora_lab.Residency.Attempt.{modify}
use remora_lab.Residency.Attempt.Respect.{
  IsPreorder, Respects, bind, pure-Respects, throw-Respects, lift-Respects, read-Respects,
  refuse_if-Respects, when-Respects, idle,
}
use remora_lab.Residency.Manager
use remora_lab.Residency.Manager.{ResidencyManager, Call, new_manager}
use remora_lab.Residency.Manager.Calls
use remora_lab.Residency.Manager.Uploads
use remora_lab.Residency.Scheduler.Types.{WavefrontWork, WavefrontEvent, WavefrontScheduler}
use remora_lab.Residency.Scheduler.Run.{
  Surroundings, on_manager, change_work, emit, count_mandatory, find_work, count_wasted, reject,
  start_read, finish_read, start_transfer, finish_transfer, start_compute, finish_compute,
  run_stages, run_one, Method,
}
use remora_lab.Residency.Scheduler.Works.{
  WorkRequest, add, take_work_id, push_work, count_speculative, new_work,
}

-- The calls of the manager, and the steps that change one part of the scheduler's own state each.
pub record Steps (R : WavefrontScheduler → WavefrontScheduler → Type 0) : Type 0 where
  pub order : IsPreorder R
  pub register : (slice : StorageSlice) (g : ℕ) → Respects R (on_manager (Manager.register slice g))
  pub queue_nvme_read :
      (page : PageId) (x y : Bool) (clock : ℕ → ℕ)
      → Respects R (on_manager (Calls.queue_nvme_read page x y clock))
  pub start_nvme_read :
      (id : ℕ) (clock : ℕ → ℕ) → Respects R (on_manager (Calls.start_nvme_read id clock))
  pub complete_nvme_read :
      (id : ℕ) (c : Option String) (clock : ℕ → ℕ)
      → Respects R (on_manager (Calls.complete_nvme_read id c clock))
  pub reserve_vram :
      (page : PageId) (j : ExpertProjection) (x : Bool)
      → Respects R (on_manager (Calls.reserve_vram page j x))
  pub queue_upload :
      (page : PageId) (n : ℕ) (x y : Bool) (clock : ℕ → ℕ)
      → Respects R (on_manager (Uploads.queue_upload page n x y clock))
  pub start_upload :
      (id : ℕ) (clock : ℕ → ℕ) → Respects R (on_manager (Uploads.start_upload id clock))
  pub complete_upload :
      (id n : ℕ) (c : Option String) (clock : ℕ → ℕ)
      → Respects R (on_manager (Uploads.complete_upload id n c clock))
  pub mark_compute_ready :
      (page : PageId) (n : ℕ) → Respects R (on_manager (Uploads.mark_compute_ready page n))
  pub acquire_compute :
      (page : PageId) (n : ℕ) → Respects R (on_manager (Uploads.acquire_compute page n))
  pub release_compute :
      (lease : PageLease) → Respects R (on_manager (Uploads.release_compute lease))
  pub emit : (event : WavefrontEvent) → Respects R (emit event)
  pub count_wasted : (n : ℕ) → Respects R (modify (count_wasted n))
  pub count_mandatory : (work : WavefrontWork) → Respects R (modify (count_mandatory work))
  pub take_work_id : Respects R take_work_id
  pub count_speculative : (r : WorkRequest) → Respects R (modify (count_speculative r))

module _ {R : WavefrontScheduler → WavefrontScheduler → Type 0} (h : Steps R) where
  find_work-Respects : (id : ℕ) → Respects R (find_work id)
  unfolding find_work
  find_work-Respects id = idle h.order _

  take_work_id-Respects : Respects R take_work_id
  take_work_id-Respects = h.take_work_id

ruleset rules = (
  bind, when-Respects, refuse_if-Respects, pure-Respects, throw-Respects, lift-Respects,
  read-Respects, find_work-Respects, take_work_id-Respects,
)

module _ {R : WavefrontScheduler → WavefrontScheduler → Type 0} (h : Steps R) where
  pub add-Respects :
      ((id : ℕ) (r : WorkRequest) → Respects R (push_work (new_work id r)))
      → (r : WorkRequest) → Respects R (add r)
  unfolding add
  add-Respects push_work r =
      search (rules, h.order, h.register, h.count_speculative, push_work) fits 4000 depth 40

  module _
      (change_work : (id : ℕ) (f : WavefrontWork → WavefrontWork)
        → Respects R (change_work id f)) where
    reject-Respects : (e : Surroundings) (work : WavefrontWork) → Respects R (reject e work)
    unfolding reject
    reject-Respects e work =
        search (rules, h.order, h.count_wasted, h.emit, change_work) fits 4000 depth 40

    module _ (e : Surroundings) (work : WavefrontWork) where
      start_read-Respects : Respects R (start_read e work)
      unfolding start_read
      start_read-Respects =
          search (rules, h.order, h.queue_nvme_read, h.start_nvme_read, h.emit, change_work) fits
            4000 depth 40

      finish_read-Respects : (id : ℕ) → Respects R (finish_read e work id)
      unfolding finish_read
      finish_read-Respects id =
          search (rules, h.order, h.complete_nvme_read, h.emit, h.count_mandatory) fits 4000 depth
            40

      start_transfer-Respects : Respects R (start_transfer e work)
      unfolding start_transfer
      start_transfer-Respects =
          search
            (rules, h.order, h.reserve_vram, h.queue_upload, h.start_upload, h.emit, change_work)
            fits 4000 depth 40

      finish_transfer-Respects : (a b : ℕ) → Respects R (finish_transfer e work a b)
      unfolding finish_transfer
      finish_transfer-Respects a b =
          search (rules, h.order, h.complete_upload, h.mark_compute_ready, change_work) fits 4000
            depth 40

      start_compute-Respects : (n : ℕ) → Respects R (start_compute e work n)
      unfolding start_compute
      start_compute-Respects n =
          search (rules, h.order, h.acquire_compute, h.emit, change_work) fits 4000 depth 40

      finish_compute-Respects :
          (n : ℕ) (lease : PageLease) → Respects R (finish_compute e work n lease)
      unfolding finish_compute
      finish_compute-Respects n lease =
          search (rules, h.order, h.release_compute, h.emit, change_work) fits 4000 depth 40

      run_stages-Respects : Respects R (run_stages e work)
      unfolding run_stages
      run_stages-Respects =
          search
            (
              rules, h.order, start_read-Respects, finish_read-Respects, start_transfer-Respects,
              finish_transfer-Respects, start_compute-Respects, finish_compute-Respects,
            )
            fits 4000 depth 40

    pub run_one-Respects : (e : Surroundings) (id : ℕ) → Respects R (run_one e id)
    unfolding run_one
    run_one-Respects e id =
        search (rules, h.order, reject-Respects, run_stages-Respects) fits 4000 depth 40

-- The works and the policy are as they were, and measured bytes stay measured.
pub record IsUntouched (s t : WavefrontScheduler) : Type 0 where
  pub works : t.works ≡ s.works
  pub policy : t.slack_policy ≡ s.slack_policy
  pub measured : 0 < s.mandatory_bytes_measured → 0 < t.mandatory_bytes_measured

IsUntouched-refl : (s : WavefrontScheduler) → IsUntouched s s
IsUntouched-refl s = record { works = refl; policy = refl; measured = λ h. h }

module _ {R : WavefrontScheduler → WavefrontScheduler → Type 0} (o : IsPreorder R)
    (untouched : (s t : WavefrontScheduler) → IsUntouched s t → R s t) where
  apart :
      {A : Type 0} (m : Method A)
      → ((s : WavefrontScheduler) → IsUntouched s (m s).0)
      → Respects R m
  apart m h = record { step = λ s. untouched s (m s).0 (h s) }

  on_manager-apart : {A : Type 0} (op : Call A) → Respects R (on_manager op)
  unfolding on_manager
  on_manager-apart op = apart _ λ s. record { works = refl; policy = refl; measured = λ h. h }

  -- A relation between states that only differ elsewhere.
  pub steps_apart : Steps R
  unfolding emit count_wasted count_mandatory take_work_id count_speculative
  steps_apart = record {
    order = o;
    register = λ x g. on_manager-apart _;
    queue_nvme_read = λ p x y clock. on_manager-apart _;
    start_nvme_read = λ id clock. on_manager-apart _;
    complete_nvme_read = λ id c clock. on_manager-apart _;
    reserve_vram = λ p j x. on_manager-apart _;
    queue_upload = λ p n x y clock. on_manager-apart _;
    start_upload = λ id clock. on_manager-apart _;
    complete_upload = λ id n c clock. on_manager-apart _;
    mark_compute_ready = λ p n. on_manager-apart _;
    acquire_compute = λ p n. on_manager-apart _;
    release_compute = λ l. on_manager-apart _;
    emit = λ x. apart _ λ s. record { works = refl; policy = refl; measured = λ h. h };
    count_wasted = λ n. apart _ λ s. record { works = refl; policy = refl; measured = λ h. h };
    count_mandatory =
        λ w. apart _ λ s. record { works = refl; policy = refl; measured = λ h. omega arith };
    take_work_id = apart _ λ s. record { works = refl; policy = refl; measured = λ h. h };
    count_speculative = λ r. apart _ λ s. ground arith;
  }
