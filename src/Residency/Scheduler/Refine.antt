-- ===== src/Residency/Scheduler/Refine.antt =====
-- har/crates/har-residency/src/scheduler.rs: the scheduler changes the residency manager by calls of its
-- methods and in no other way.
use remora_lab.Base.{ℕ, ◌≡◌, refl, sym, ap, ◌∙◌, List, [], ◌∷◌, ◌++◌, String, Option, Bool, arith}
use mathlib.Core.Path.{subst}
use remora_lab.Residency.Types.{StorageSlice, PageId, ExpertProjection}
use remora_lab.Residency.Record.{PageLease}
use remora_lab.Residency.Attempt.{ok}
use remora_lab.Residency.Attempt.Respect.{IsPreorder, Respects}
use remora_lab.Residency.Manager
use remora_lab.Residency.Manager.{ResidencyManager, Call, new_manager}
use remora_lab.Residency.Manager.Calls
use remora_lab.Residency.Manager.Uploads
use remora_lab.Residency.Manager.Run
use remora_lab.Residency.Manager.Run.{ManagerCall}
use remora_lab.Residency.Manager.Limits.{IsWithin}
use remora_lab.Residency.Manager.Limits.Any.{run-IsWithin}
use remora_lab.Residency.Scheduler.Types.{WavefrontScheduler, new_scheduler}
use remora_lab.Residency.Scheduler.Run.{
  Method, on_manager, change_work, emit, count_mandatory, count_wasted,
}
use remora_lab.Residency.Scheduler.Works.{
  take_work_id, push_work, count_speculative, cancel_speculative, SchedulerCall, run, Moves,
  run-Respects,
}
use remora_lab.Residency.Scheduler.Frame.{Steps, add-Respects, run_one-Respects}

abbrev Timed : Type 0
Timed = ManagerCall × (ℕ → ℕ)

-- The second manager is what some calls leave of the first.
abbrev pub ByCalls : ResidencyManager → ResidencyManager → Type 0
ByCalls m n = (calls : List Timed) × (Run.run calls m ≡ n)

run-append :
    (xs ys : List Timed) (m : ResidencyManager) → Run.run (xs ++ ys) m ≡ Run.run ys (Run.run xs m)
unfolding Run.run
run-append [] ys m = refl
run-append ((c, clock) ∷ xs) ys m = run-append xs ys (Run.perform c clock m)

abbrev pub Schedules : WavefrontScheduler → WavefrontScheduler → Type 0
Schedules s t = ByCalls s.manager t.manager

order : IsPreorder Schedules
unfolding Run.run
order = record {
  stays = λ s. ([], refl);
  trans = λ s t u x y. (x.0 ++ y.0, run-append x.0 y.0 s.manager ∙ ap (Run.run y.0) x.1 ∙ y.1);
}

-- One call of the manager.
one :
    (c : ManagerCall) (clock : ℕ → ℕ) (m n : ResidencyManager)
    → Run.perform c clock m ≡ n
    → ByCalls m n
unfolding Run.run
one c clock m n e = ((c, clock) ∷ [], e)

-- What leaves the manager as it is.
apart :
    {A : Type 0} (m : Method A)
    → ((s : WavefrontScheduler) → (m s).0.manager ≡ s.manager)
    → Respects Schedules m
unfolding Run.run
apart m h = record { step = λ s. ([], sym (h s)) }

module _ (page : PageId) (x y : Bool) (clock : ℕ → ℕ) where
  queue_nvme_read-Schedules : Respects Schedules (on_manager (Calls.queue_nvme_read page x y clock))
  unfolding on_manager Run.perform
  queue_nvme_read-Schedules = record {
    step = λ s. one (Run.queue_nvme_read page x y) clock s.manager _ refl;
  }

  queue_upload-Schedules :
      (slot_id : ℕ) → Respects Schedules (on_manager (Uploads.queue_upload page slot_id x y clock))
  unfolding on_manager Run.perform
  queue_upload-Schedules slot_id = record {
    step = λ s. one (Run.queue_upload page slot_id x y) clock s.manager _ refl;
  }

module _ (id : ℕ) (clock : ℕ → ℕ) where
  start_nvme_read-Schedules : Respects Schedules (on_manager (Calls.start_nvme_read id clock))
  unfolding on_manager Run.perform
  start_nvme_read-Schedules = record {
    step = λ s. one (Run.start_nvme_read id) clock s.manager _ refl;
  }

  start_upload-Schedules : Respects Schedules (on_manager (Uploads.start_upload id clock))
  unfolding on_manager Run.perform
  start_upload-Schedules = record { step = λ s. one (Run.start_upload id) clock s.manager _ refl }

  complete_nvme_read-Schedules :
      (c : Option String) → Respects Schedules (on_manager (Calls.complete_nvme_read id c clock))
  unfolding on_manager Run.perform
  complete_nvme_read-Schedules c = record {
    step = λ s. one (Run.complete_nvme_read id c) clock s.manager _ refl;
  }

  complete_upload-Schedules :
      (slot_id : ℕ) (c : Option String)
      → Respects Schedules (on_manager (Uploads.complete_upload id slot_id c clock))
  unfolding on_manager Run.perform
  complete_upload-Schedules slot_id c = record {
    step = λ s. one (Run.complete_upload id slot_id c) clock s.manager _ refl;
  }

-- The clock of a call that reads none.
abbrev still : ℕ → ℕ
still n = 0

module _ (page : PageId) where
  reserve_vram-Schedules :
      (j : ExpertProjection) (x : Bool)
      → Respects Schedules (on_manager (Calls.reserve_vram page j x))
  unfolding on_manager Run.perform
  reserve_vram-Schedules j x = record {
    step = λ s. one (Run.reserve_vram page j x) still s.manager _ refl;
  }

  mark_compute_ready-Schedules :
      (slot_id : ℕ) → Respects Schedules (on_manager (Uploads.mark_compute_ready page slot_id))
  unfolding on_manager Run.perform
  mark_compute_ready-Schedules slot_id = record {
    step = λ s. one (Run.mark_compute_ready page slot_id) still s.manager _ refl;
  }

  acquire_compute-Schedules :
      (slot_id : ℕ) → Respects Schedules (on_manager (Uploads.acquire_compute page slot_id))
  unfolding on_manager Run.perform
  acquire_compute-Schedules slot_id = record {
    step = λ s. one (Run.acquire_compute page slot_id) still s.manager _ refl;
  }

release_compute-Schedules :
    (lease : PageLease) → Respects Schedules (on_manager (Uploads.release_compute lease))
unfolding on_manager Run.perform
release_compute-Schedules lease = record {
  step = λ s. one (Run.release_compute lease) still s.manager _ refl;
}

register-Schedules :
    (slice : StorageSlice) (g : ℕ) → Respects Schedules (on_manager (Manager.register slice g))
unfolding on_manager Run.perform
register-Schedules slice g = record {
  step = λ s. one (Run.register slice g) still s.manager _ refl;
}

steps : Steps Schedules
unfolding emit count_wasted count_mandatory take_work_id count_speculative
steps = record {
  order = order;
  register = register-Schedules;
  queue_nvme_read = queue_nvme_read-Schedules;
  start_nvme_read = start_nvme_read-Schedules;
  complete_nvme_read = λ id c clock. complete_nvme_read-Schedules id clock c;
  reserve_vram = reserve_vram-Schedules;
  queue_upload = λ page n x y clock. queue_upload-Schedules page x y clock n;
  start_upload = start_upload-Schedules;
  complete_upload = λ id n c clock. complete_upload-Schedules id clock n c;
  mark_compute_ready = mark_compute_ready-Schedules;
  acquire_compute = acquire_compute-Schedules;
  release_compute = release_compute-Schedules;
  emit = λ x. apart _ λ s. refl;
  count_wasted = λ n. apart _ λ s. refl;
  count_mandatory = λ w. apart _ λ s. refl;
  take_work_id = apart _ λ s. refl;
  count_speculative = λ r. apart _ λ s. ground arith;
}

moves : Moves Schedules
unfolding cancel_speculative Run.run push_work change_work
moves = record {
  order = order;
  add = add-Respects steps λ id r. apart _ λ s. refl;
  run_one = run_one-Respects steps λ id f. apart _ λ s. refl;
  cancel = λ elapsed reason s. ([], refl);
}

-- Whatever is asked of the scheduler, also when it fails, what becomes of its manager is what calls of the
-- manager's methods make of it.
pub run-manager :
    (calls : List SchedulerCall) (s : WavefrontScheduler)
    → (inner : List Timed) × (Run.run inner s.manager ≡ (run calls s).manager)
run-manager calls s = run-Respects moves calls s

-- Whatever is asked of a scheduler over a new manager, also when it fails, the bytes counted in RAM stay
-- within the budgets and the depths of the queues within their capacities.
pub schedule-IsWithin :
    (a b c d e f g : ℕ) (m : ResidencyManager)
    → new_manager a b c d e f g ≡ ok m
    → (calls : List SchedulerCall) → IsWithin (run calls (new_scheduler m)).manager
unfolding new_scheduler
schedule-IsWithin a b c d e f g m h calls =
    let made = run-manager calls (new_scheduler m) in
    subst IsWithin made.1 (run-IsWithin a b c d e f g m h made.0)
