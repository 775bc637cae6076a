-- ===== src/Residency/Scheduler/Failures.antt =====
-- har/crates/har-residency/src/scheduler.rs: a run whose read gives nothing that can be committed.
use remora_lab.Base.{
  ℕ, ◌≡◌, ◌+◌, ◌<◌, refl, ap, ◌∙◌, false, none, some, arith, ne_false, leb, nat_eq, u32_size, ◌++◌,
  ◌∷◌, [],
}
use remora_lab.Base.Dict.{lookup, lookup-insert_self, insert}
use remora_lab.Residency.Types.{page_eq}
use remora_lab.Residency.State
use remora_lab.Residency.Record.{ResidencyRecord}
use remora_lab.Residency.Attempt.{pure, ResidencyError, ok, err, ◌>>=◌, ◌>>◌, and_then}
use remora_lab.Residency.Manager.{ResidencyManager, Call}
use remora_lab.Residency.Manager.Calls
use remora_lab.Residency.Manager.Calls.{count_nvme_read}
use remora_lab.Residency.Manager.Refusal.{life_at}
use remora_lab.Residency.Manager.Reads.{
  after_queueing, after_starting, reading_page, queued_page, queue_nvme_read-ok, start_nvme_read-ok,
  reading-life,
}
use remora_lab.Residency.Scheduler.Types.{
  WavefrontWork, WavefrontScheduler, waiting, nvme_read, stage_eq,
}
use remora_lab.Residency.Scheduler.Run.{
  Surroundings, Method, on_manager, change_first, change_work, enter_stage, emit, new_event,
  find_work, lacks_slack, start_read, finish_read, checked_payload, run_stages, run_one,
}
use remora_lab.Residency.Scheduler.Outcomes.{found, found-work_id}

on_manager-ok :
    {A : Type 0} (op : Call A) (s : WavefrontScheduler) (m : ResidencyManager) (a : A)
    → op s.manager ≡ (m, ok a)
    → on_manager op s ≡ (record s { manager = m }, ok a)
unfolding on_manager
on_manager-ok op s m a h = ap (λ out. (record s { manager = out.0 }, out.1)) h

then-ok :
    {A B : Type 0} (m : Method A) (f : A → Method B) (s : WavefrontScheduler)
    {t : WavefrontScheduler} {a : A}
    → m s ≡ (t, ok a)
    → (m >>= f) s ≡ f a t
then-ok m f s h = ap (λ out. and_then out f) h

module _ (e : Surroundings) (w : WavefrontWork) (s : WavefrontScheduler) (r : ResidencyRecord)
    (known : lookup w.slice.page_id s.manager.records ≡ some r) (q : r.state ≡ State.indexed)
    (room : leb s.manager.snapshot.nvme_queue_capacity s.manager.snapshot.nvme_queue_depth
      ≡ false) where
  abbrev queueing : ResidencyManager
  queueing =
      after_queueing w.slice.page_id w.mandatory w.speculative (e.clock 0) (e.clock 1) s.manager r
        known q room

  abbrev started : ResidencyManager
  started =
      after_starting w.slice.page_id w.mandatory w.speculative (e.clock 0) (e.clock 1) s.manager r
        known q room

  abbrev begun : WavefrontScheduler
  begun = record s {
    manager = started;
    works = change_first w.work_id (enter_stage nvme_read) s.works;
    events =
        s.events
        ++ (new_event w nvme_read (some s.manager.next_ticket) none (e.elapsed 0)
              "NVMe read stage entered"
            ∷ []);
  }

  start_read-ok : start_read e w s ≡ (begun, ok s.manager.next_ticket)
  unfolding start_read change_work emit
  start_read-ok =
      then-ok
        (on_manager (Calls.queue_nvme_read w.slice.page_id w.mandatory w.speculative (e.clock 0)))
        (λ id. on_manager (Calls.start_nvme_read id (e.clock 1)) >> noted id) s
        (on_manager-ok (Calls.queue_nvme_read w.slice.page_id w.mandatory w.speculative (e.clock 0))
          s queueing s.manager.next_ticket
          (queue_nvme_read-ok w.slice.page_id w.mandatory w.speculative (e.clock 0) (e.clock 1)
            s.manager r known q room))
      ∙ then-ok (on_manager (Calls.start_nvme_read s.manager.next_ticket (e.clock 1)))
          (λ _. noted s.manager.next_ticket) (record s { manager = queueing })
          (on_manager-ok (Calls.start_nvme_read s.manager.next_ticket (e.clock 1))
            (record s { manager = queueing }) started tt
            (start_nvme_read-ok w.slice.page_id w.mandatory w.speculative (e.clock 0) (e.clock 1)
              s.manager r known q room))
    where
      noted : ℕ → Method ℕ
      noted id =
          change_work w.work_id (enter_stage nvme_read)
          >> (emit (new_event w nvme_read (some id) none (e.elapsed 0) "NVMe read stage entered")
              >> pure id)

  module _ (x : ResidencyError) (lost : checked_payload e w.slice ≡ err x) where
    finish_read-err : (id : ℕ) (t : WavefrontScheduler) → finish_read e w id t ≡ (t, err x)
    unfolding finish_read
    finish_read-err id t = rw lost refl

    run_stages-err : run_stages e w s ≡ (begun, err x)
    unfolding run_stages
    run_stages-err = rw (start_read-ok, finish_read-err s.manager.next_ticket begun) refl

    module _ (id : ℕ) (here : found id s.works ≡ some w) (waits : w.stage ≡ waiting)
        (slack : lacks_slack w s ≡ false) where
      run_one-err : run_one e id s ≡ (begun, err x)
      unfolding run_one find_work
      run_one-err = rw (here, ne_false w.stage waiting waits, slack) run_stages-err

      -- A run of a work with slack, on a page that is indexed and with room in the queue, whose read fails, is
      -- short or has another checksum: the run fails with that error; the work stays in the reading stage, and
      -- the page in the state of a read that is going on; and the read keeps its place in the queue.
      pub run_one-lost :
          s.manager.snapshot.nvme_queue_capacity < u32_size
          → ((run_one e id s).1 ≡ err x)
            × ((run_one e id s).0.works ≡ change_first id (enter_stage nvme_read) s.works)
            × (life_at w.slice.page_id (run_one e id s).0.manager
                ≡ some (r.generation, State.nvme_reading))
            × ((run_one e id s).0.manager.snapshot.nvme_queue_depth
                ≡ s.manager.snapshot.nvme_queue_depth + 1)
      unfolding count_nvme_read
      run_one-lost fits = rw run_one-err (
        refl,
        rw (found-work_id id s.works w here) refl,
        rw
            (lookup-insert_self w.slice.page_id
              (reading_page w.slice.page_id w.mandatory w.speculative (e.clock 0) (e.clock 1)
                s.manager r known q room)
              (insert w.slice.page_id
                (queued_page w.slice.page_id w.mandatory w.speculative (e.clock 0) (e.clock 1)
                  s.manager r known q room)
                s.manager.records))
            (ap some (
              reading-life w.slice.page_id w.mandatory w.speculative (e.clock 0) (e.clock 1)
                s.manager r known q room)),
        ground arith,
      )
