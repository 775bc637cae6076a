-- ===== src/Residency/Scheduler/Tests.antt =====
-- har/crates/har-residency/src/scheduler.rs: the two tests of the file, and the theorems at a concrete work.
use remora_lab.Base.{
  ℕ, ◌≡◌, ◌+◌, ◌∷◌, [], List, refl, true, false, none, some, arith, Option, nat_eq, All,
}
use mathlib.Core.List.{Perm}
use remora_lab.Base.Int.{ℤ}
use remora_lab.Residency.Types.{weights, page_eq, StorageSlice, gate}
use remora_lab.Residency.State
use remora_lab.Residency.Record.{ResidencyRecord, new_record}
use remora_lab.Residency.Types.{representation}
use remora_lab.Residency.Attempt.{io, ok, err}
use remora_lab.Residency.Manager.{ResidencyManager, default_snapshot}
use remora_lab.Residency.Slots.{new_slot}
use remora_lab.Residency.Manager.Run
use remora_lab.Residency.Manager.Run.{ManagerCall}
use remora_lab.Residency.Manager.Refusal.{life_at}
use remora_lab.Residency.Scheduler.Types.{
  WorkStage, nvme_read, done, cancelled, stage_eq, WavefrontWork, WavefrontScheduler, new_scheduler,
}
use remora_lab.Residency.Scheduler.Order.{select}
use remora_lab.Residency.Scheduler.Order.Selection.{Chosen, InOrder, IsNegatable, select_lem}
use remora_lab.Residency.Scheduler.Run.{
  Surroundings, change_first, enter_stage, run_one, checked_payload, lacks_slack,
}
use remora_lab.Residency.Scheduler.Works.{
  WorkRequest, new_work, SchedulerCall, add_work, run_work, run_selected, cancel_all, run,
}
use remora_lab.Residency.Scheduler.Refine.{run-manager}
use remora_lab.Residency.Scheduler.Outcomes.{Outcome, run_one_lem}
use remora_lab.Residency.Scheduler.Fates.{Advances, get_work, run-Advances}
use remora_lab.Residency.Scheduler.Speculation.{IsMeasured, run-IsMeasured}
use remora_lab.Residency.Scheduler.Failures.{run_one-lost}
use remora_lab.Residency.Scheduler.Order.Selection.{Chosen, InOrder, IsNegatable}

abbrev slice : StorageSlice
slice = record {
  page_id = record { model_root = "test"; kind = weights; ordinal = 1 };
  model_id = "test";
  source_path = "fixture";
  shard = "0";
  tensor = "blk.0.ffn_gate_exps.weight";
  offset = 4;
  payload_bytes = 4;
  alignment = 4;
  quant_type = "Q8_0";
  layer = some 0;
  expert = some 0;
  projection = gate;
  checksum_sha256 = none;
  parent_offset = none;
  parent_payload_bytes = none;
}

abbrev second : StorageSlice
second = record slice { page_id = record { model_root = "test"; kind = weights; ordinal = 2 } }

abbrev request : WorkRequest
request = record {
  slice = slice;
  generation = 0;
  mandatory = true;
  speculative = false;
  deadline_ns = none;
  dependency_urgency = ℤ.pos 1;
  predicted_future_use = 0;
}

abbrev guess : WorkRequest
guess = record request { slice = second; mandatory = false; speculative = true }

-- A source with four bytes, and one that gives too few.
abbrev giving : List ℕ → Surroundings
giving bytes = record {
  read_slice = λ x. some (ok bytes);
  sha256_hex = λ bytes. "";
  to_ascii_lowercase = λ text. text;
  clock = λ n k. n;
  elapsed = λ n. n;
}

abbrev whole : Surroundings
whole = giving (4 ∷ 5 ∷ 6 ∷ 7 ∷ [])

abbrev manager : ResidencyManager
manager = record {
  records = [];
  tickets = [];
  slots = record { slots = new_slot 0 64 ∷ []; next_epoch = 0 };
  snapshot = record default_snapshot {
    ram_pageable_capacity = 1024;
    ram_pinned_capacity = 1024;
    vram_slot_capacity = 64;
    nvme_queue_capacity = 1;
    transfer_queue_capacity = 1;
    compute_queue_capacity = 1;
  };
  next_ticket = 1;
  next_lease = 1;
  next_epoch = 1;
  ram_pageable_budget = 1024;
  ram_pinned_budget = 1024;
}

abbrev added : List SchedulerCall
added = add_work request ∷ add_work guess ∷ []

abbrev ready : WavefrontScheduler
ready = run added (new_scheduler manager)

abbrev stage_at : ℕ → WavefrontScheduler → Option WorkStage
stage_at n s = elim (get_work n s.works) [ none ↦ none | some w ↦ some w.stage ]

scheduler_reaches_done : stage_at 0 (run (run_work whole 1 ∷ []) ready) ≡ some done
unfolding run new_scheduler
scheduler_reaches_done = refl

speculation_requires_measured_slack :
    stage_at 1 (run (run_work whole 2 ∷ []) ready) ≡ some cancelled
unfolding run new_scheduler
speculation_requires_measured_slack = refl

ready-IsNegatable : All IsNegatable ready.works
unfolding run new_scheduler
ready-IsNegatable = (omega arith, (omega arith, tt))

select_lem_example :
    ((ids : List ℕ) × Chosen true ready.works ids × Perm (select true ready) ids)
    × InOrder ready.works (select true ready)
select_lem_example = select_lem true ready ready-IsNegatable

-- The mandatory work comes before the guess.
selected_order : select true ready ≡ 1 ∷ 2 ∷ []
unfolding select run new_scheduler
selected_order = refl

run-manager_example :
    (inner : List (ManagerCall × (ℕ → ℕ))) × (Run.run inner ready.manager
      ≡ (run (run_selected (λ n. whole) true ∷ []) ready).manager)
run-manager_example = run-manager (run_selected (λ n. whole) true ∷ []) ready

run_one_lem_example : Outcome 1 ready (run_one whole 1 ready)
run_one_lem_example = run_one_lem whole 1 ready

abbrev first_work : WavefrontWork
first_work = record (new_work 1 request) { stage = nvme_read }

abbrev stuck : WavefrontScheduler
stuck = record (new_scheduler manager) { works = first_work ∷ [] }

abbrev later_calls : List SchedulerCall
later_calls = add_work guess ∷ run_work whole 1 ∷ cancel_all (λ n. n) "stop" ∷ []

run-Advances_example :
    (v : WavefrontWork) × (get_work 0 (run later_calls stuck).works ≡ some v)
    × Advances first_work v
unfolding new_scheduler
run-Advances_example = run-Advances later_calls stuck 0 first_work refl

run-IsMeasured_example : IsMeasured (
    run
      (add_work request ∷ run_work whole 1 ∷ add_work guess ∷ run_work whole 2 ∷ [])
      (new_scheduler manager))
run-IsMeasured_example =
    run-IsMeasured manager
      (add_work request ∷ run_work whole 1 ∷ add_work guess ∷ run_work whole 2 ∷ [])

abbrev waiting_work : WavefrontWork
waiting_work = new_work 1 request

abbrev fresh_record : ResidencyRecord
fresh_record = new_record slice.page_id (representation slice) 0

abbrev loaded : WavefrontScheduler
loaded = record (new_scheduler (record manager { records = (slice.page_id, fresh_record) ∷ [] })) {
  works = waiting_work ∷ [];
}

abbrev short : Surroundings
short = giving (4 ∷ [])

run_one-lost_example :
    ((run_one short 1 loaded).1 ≡ err (io "short expert slice"))
    × ((run_one short 1 loaded).0.works ≡ change_first 1 (enter_stage nvme_read) loaded.works)
    × (life_at slice.page_id (run_one short 1 loaded).0.manager ≡ some (0, State.nvme_reading))
    × ((run_one short 1 loaded).0.manager.snapshot.nvme_queue_depth
        ≡ loaded.manager.snapshot.nvme_queue_depth + 1)
unfolding new_scheduler new_record new_work representation checked_payload lacks_slack
run_one-lost_example =
    run_one-lost short waiting_work loaded fresh_record refl refl refl (io "short expert slice")
      refl 1 refl refl refl (omega arith)
