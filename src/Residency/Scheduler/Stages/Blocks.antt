-- ===== src/Residency/Scheduler/Stages/Blocks.antt =====
-- har/crates/har-residency/src/scheduler.rs: the stages of one run, a block after the other.
use remora_lab.Base.{ℕ, List, nat_eq}
use remora_lab.Residency.Attempt.{Result, Done, ◌>>=◌, lift, modify}
use remora_lab.Residency.Record.{PageLease}
use remora_lab.Residency.Manager.{Call}
use remora_lab.Residency.Scheduler.Types.{
  nvme_read, ram_to_vram, gpu_compute, done, stage_eq, WavefrontWork, WavefrontEvent,
  WavefrontScheduler,
}
use remora_lab.Residency.Scheduler.Run.{
  Surroundings, Method, on_manager, enter_stage, change_work, emit, count_mandatory, start_read,
  finish_read, start_transfer, finish_transfer, start_compute, finish_compute, run_stages,
}
use remora_lab.Residency.Scheduler.Stages.{
  Takes, bind, Progress, unmoved, reading, uploading, placed, computing, finished, Stops, At,
  Stopped, on_manager-Takes, emit-Takes, pure-Takes, lift-Takes, count_mandatory-Takes,
  enter_reading, enter_uploading, enter_placed, enter_computing, enter_finished,
}

-- The rules for the parts of a block, each with what follows it.
module _ {id : ℕ} {before : List WavefrontWork} {B : Type 0}
    {R : B → WavefrontScheduler → Type 0} where
  manager_then :
      {A : Type 0} (op : Call A) (f : A → Method B) (o : Progress)
      → Stops o
      → ((a : A) → Takes (At id before o) (f a) R (Stopped id before))
      → Takes (At id before o) (on_manager op >>= f) R (Stopped id before)
  manager_then op f o k h = bind _ f (on_manager-Takes id before op o k) h

  lift_then :
      {A : Type 0} (r : Result A) (f : A → Method B) (o : Progress)
      → Stops o
      → ((a : A) → Takes (At id before o) (f a) R (Stopped id before))
      → Takes (At id before o) (lift r >>= f) R (Stopped id before)
  lift_then r f o k h = bind _ f (lift-Takes id before r o k) h

  emit_then :
      (x : WavefrontEvent) (f : Done → Method B) (o : Progress)
      → ((a : Done) → Takes (At id before o) (f a) R (Stopped id before))
      → Takes (At id before o) (emit x >>= f) R (Stopped id before)
  emit_then x f o h = bind _ f (emit-Takes id before x o) h

  count_then :
      (w : WavefrontWork) (f : Done → Method B) (o : Progress)
      → ((a : Done) → Takes (At id before o) (f a) R (Stopped id before))
      → Takes (At id before o) (modify (count_mandatory w) >>= f) R (Stopped id before)
  count_then w f o h = bind _ f (count_mandatory-Takes id before w o) h

  reading_then :
      (f : Done → Method B)
      → ((a : Done) → Takes (At id before reading) (f a) R (Stopped id before))
      → Takes
          (At id before unmoved)
          (change_work id (enter_stage nvme_read) >>= f)
          R
          (Stopped id before)
  reading_then f h = bind _ f (enter_reading id before) h

  uploading_then :
      (f : Done → Method B)
      → ((a : Done) → Takes (At id before uploading) (f a) R (Stopped id before))
      → Takes
          (At id before reading)
          (change_work id (enter_stage ram_to_vram) >>= f)
          R
          (Stopped id before)
  uploading_then f h = bind _ f (enter_uploading id before) h

  computing_then :
      (n : ℕ) (f : Done → Method B)
      → ((a : Done) → Takes (At id before (computing n)) (f a) R (Stopped id before))
      → Takes
          (At id before (placed n))
          (change_work id (enter_stage gpu_compute) >>= f)
          R
          (Stopped id before)
  computing_then n f h = bind _ f (enter_computing id before n) h

  finished_then :
      (n : ℕ) (f : Done → Method B)
      → ((a : Done) → Takes (At id before (finished n)) (f a) R (Stopped id before))
      → Takes
          (At id before (computing n))
          (change_work id (enter_stage done) >>= f)
          R
          (Stopped id before)
  finished_then n f h = bind _ f (enter_finished id before n) h

ruleset takes_rules = (
  manager_then, lift_then, emit_then, count_then, reading_then, uploading_then, computing_then,
  finished_then, emit-Takes, pure-Takes, enter_placed,
)

module _ (e : Surroundings) (work : WavefrontWork) (before : List WavefrontWork) where
  abbrev pub On : Progress → WavefrontScheduler → Type 0
  On = At work.work_id before

  abbrev pub Halts : WavefrontScheduler → Type 0
  Halts = Stopped work.work_id before

  start_read-Takes : Takes (On unmoved) (start_read e work) (λ _. On reading) Halts
  unfolding start_read
  start_read-Takes = search (takes_rules, tt) fits 4000 depth 40

  finish_read-Takes :
      (ticket : ℕ) → Takes (On reading) (finish_read e work ticket) (λ _. On reading) Halts
  unfolding finish_read
  finish_read-Takes ticket = search (takes_rules, tt) fits 4000 depth 40

  start_transfer-Takes : Takes (On reading) (start_transfer e work) (λ _. On uploading) Halts
  unfolding start_transfer
  start_transfer-Takes = search (takes_rules, tt) fits 4000 depth 40

  finish_transfer-Takes :
      (slot_id ticket : ℕ)
      → Takes
          (On uploading)
          (finish_transfer e work slot_id ticket)
          (λ _. On (placed slot_id))
          Halts
  unfolding finish_transfer
  finish_transfer-Takes slot_id ticket = search (takes_rules, tt) fits 4000 depth 40

  start_compute-Takes :
      (slot_id : ℕ)
      → Takes
          (On (placed slot_id))
          (start_compute e work slot_id)
          (λ _. On (computing slot_id))
          Halts
  unfolding start_compute
  start_compute-Takes slot_id = search (takes_rules, tt) fits 4000 depth 40

  finish_compute-Takes :
      (slot_id : ℕ) (lease : PageLease)
      → Takes
          (On (computing slot_id))
          (finish_compute e work slot_id lease)
          (λ _. On (finished slot_id))
          Halts
  unfolding finish_compute
  finish_compute-Takes slot_id lease = search (takes_rules, tt) fits 4000 depth 40

  pub record Completed (s : WavefrontScheduler) : Type 0 where
    pub slot_id : ℕ
    pub works_done : At work.work_id before (finished slot_id) s

  pub run_stages-Takes : Takes (On unmoved) (run_stages e work) (λ _. Completed) Halts
  unfolding run_stages
  run_stages-Takes = bind _ _ start_read-Takes λ read_ticket.
      bind _ _ (finish_read-Takes read_ticket) λ payload. bind _ _ start_transfer-Takes λ p.
        bind _ _ (finish_transfer-Takes p.0 p.1) λ _. bind _ _ (start_compute-Takes p.0) λ lease.
          bind _ _ (finish_compute-Takes p.0 lease)
            λ _. record { run = λ s x. record { slot_id = p.0; works_done = x } }
