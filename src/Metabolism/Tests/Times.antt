-- ===== src/Metabolism/Tests/Times.antt =====
-- The clocks and the controller of har/crates/har-metabolism at concrete data.
use remora_lab.Base.{
  ◌≡◌, refl, true, false, List, [], ◌∷◌, ◌+◌, ◌%◌, arith, u64_size, some, none, nat_eq, string_eq,
  ℕ, ◌≢◌, String,
}
use remora_lab.Base.Real.{fractions}
use remora_lab.Metabolism.Ledger.{authoritative_useful}
use remora_lab.Metabolism.Clock.{
  ClockBasis, FastObservation, FastClock, SlowClock, no_basis, new_fast, new_slow, observe, advance,
  invalidate, basis_eq, basis_beq_iff,
}
use remora_lab.Metabolism.Clock.Fast.{observe_all, observe_all-Counts, Counts, IsWord}
use remora_lab.Metabolism.Clock.Slow.{IsOpen, Cycles}
use remora_lab.Metabolism.Setpoint.{MaintenanceSetpoint}
use remora_lab.Metabolism.Controller.{
  ControllerConfig, MetabolismController, started, observe_block, set_basis,
}
use remora_lab.Metabolism.Controller.Invariant.{
  Call, spent, block, rebase, reclaimed, run_calls, run_calls-IsValid, IsValid, started-IsValid,
}
use remora_lab.Metabolism.Controller.Trace.{
  TraceRecord, replay, replay_lem, with_epoch, total_ticks, deterministic_state_hash,
}

abbrev hit : FastObservation
hit = record { transfer_cost_ns = 900; compute_cost_ms = 3; was_useful = true; miss = false }

abbrev missed : FastObservation
missed = record { transfer_cost_ns = 1200; compute_cost_ms = 4; was_useful = false; miss = true }

abbrev clock : FastClock fractions
clock = new_fast fractions

clock-IsWord : IsWord fractions clock
clock-IsWord = omega arith

observe_all-Counts_example :
    Counts fractions (hit ∷ missed ∷ []) clock (observe_all fractions (hit ∷ missed ∷ []) clock)
observe_all-Counts_example =
    observe_all-Counts fractions (hit ∷ missed ∷ []) clock clock-IsWord (omega arith)

abbrev basis : ClockBasis
basis = record { model_root = "m"; graph_identity = "g"; worker_set = "w" }

abbrev empty_window : SlowClock
empty_window = new_slow 4

empty_window-IsOpen : IsOpen fractions empty_window
empty_window-IsOpen = omega arith

empty_window-Cycles : Cycles fractions no_basis 4 0 empty_window
empty_window-Cycles = record { same = refl; limit = refl; counted = refl }

-- Seven useful blocks were summed before.
abbrev summed : SlowClock
summed = record empty_window { acceptance_sum = 7; samples = 3; window = 3 }

abbrev config : ControllerConfig
config = record {
  vram_capacity_mib = 8192;
  ram_capacity_mib = 16384;
  protected_min_mib = 512;
  gpu_compute_budget = 100;
  slow_window = 4;
}

abbrev maintained : MaintenanceSetpoint
maintained = record { vram_mib = 512; ram_mib = 1280; compute_ms_per_token = 2; queue_depth = 2 }

abbrev controller : MetabolismController fractions
controller = started fractions config maintained

controller-IsValid : IsValid fractions controller
controller-IsValid =
    started-IsValid fractions config maintained (omega arith) (omega arith) (omega arith)

abbrev calls : List Call
calls =
    rebase basis
    ∷ block hit (some 800)
    ∷ spent authoritative_useful "kv" 10 40 1
    ∷ reclaimed "kv" 0
    ∷ []

run_calls-IsValid_example :
    (d : MetabolismController fractions) × (run_calls fractions calls controller ≡ some d)
    × IsValid fractions d
run_calls-IsValid_example = run_calls-IsValid fractions calls controller controller-IsValid

-- The controller after one block.
abbrev after_block : MetabolismController fractions
after_block = record controller {
  fast_clock = observe fractions hit clock;
  slow_clock = (advance fractions no_basis (observe fractions hit clock) empty_window).0;
}

block-after : observe_block fractions hit none controller ≡ some after_block
unfolding observe_block observe advance
block-after = refl

abbrev after_rebase : MetabolismController fractions
after_rebase = record controller {
  basis = basis;
  fast_clock = observe fractions hit clock;
  slow_clock = (advance fractions basis (observe fractions hit clock) (invalidate empty_window)).0;
}

rebase-after :
    observe_block fractions hit none (set_basis fractions basis controller) ≡ some after_rebase
unfolding observe_block observe advance set_basis invalidate
rebase-after = refl

other_basis : basis ≢ no_basis
other_basis e = cc ((basis_beq_iff basis no_basis).1 e)

abbrev some_hash : ℕ → ℕ → ℕ → ℕ → String
some_hash a b c d = "0"

abbrev trace : List TraceRecord
trace = TraceRecord.advance 3 ∷ TraceRecord.advance 4 ∷ []

replay_lem_example :
    let (d, r) = replay fractions some_hash trace controller in
    (d ≡ with_epoch fractions some_hash controller ((0 + total_ticks trace) % u64_size))
    × (r.replay_hash ≡ deterministic_state_hash fractions some_hash d)
    × (r.mismatches ≡ [])
replay_lem_example = replay_lem fractions some_hash trace controller (omega arith)
