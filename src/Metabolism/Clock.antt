-- ===== src/Metabolism/Clock.antt =====
-- har/crates/har-metabolism/src/clock.rs: the fast clock, one tick for each observation, and the slow
-- clock, a window over the fast one that is tied to a basis.
pub mod Fast
pub mod Slow
use remora_lab.Base.{
  ℕ, ◌+◌, ◌≡◌, ◌↔◌, String, Bool, true, false, Option, none, some, arith, ltb, leb, ◌==◌, nat_eq,
  string_eq, PartialEq, ◌&&◌, if◌then◌else◌, sat_add, sat_add32, wrap_add,
}
use remora_lab.Base.Real.{F64}

pub record ClockTicks : Type 0 where
  pub fast : ℕ
  pub slow : ℕ

pub record ClockBasis : Type 0 where
  pub model_root : String
  pub graph_identity : String
  pub worker_set : String

abbrev pub basis_beq : ClockBasis → ClockBasis → Bool
basis_beq a b =
    a.model_root == b.model_root
    && (a.graph_identity == b.graph_identity && a.worker_set == b.worker_set)

pub basis_beq_iff : (a b : ClockBasis) → (basis_beq a b ≡ true) ↔ (a ≡ b)
basis_beq_iff a b = ground (
  arith,
  string_eq.beq_iff a.model_root b.model_root,
  string_eq.beq_iff a.graph_identity b.graph_identity,
  string_eq.beq_iff a.worker_set b.worker_set,
)

instance abbrev pub basis_eq : PartialEq ClockBasis
basis_eq = record { beq = basis_beq; beq_iff = basis_beq_iff }

pub record FastObservation : Type 0 where
  pub transfer_cost_ns : ℕ
  pub compute_cost_ms : ℕ
  pub was_useful : Bool
  pub miss : Bool

pub record FastClock (f : F64) : Type 0 where
  pub epoch : ℕ
  pub window : ℕ
  pub accepted : ℕ
  pub rejected : ℕ
  pub last_acceptance_ratio : f.Carrier
  pub transfer_ns_total : ℕ
  pub compute_ms_total : ℕ

pub record SlowClock : Type 0 where
  pub basis : ClockBasis
  pub epoch : ℕ
  pub window : ℕ
  pub max_window : ℕ
  pub acceptance_sum : ℕ
  pub samples : ℕ
  pub hot_worker_bytes : ℕ
  pub queue_depth_avg : ℕ
  pub transfer_latency_ns_avg : ℕ
  pub valid : Bool

abbrev pub no_basis : ClockBasis
no_basis = record { model_root = ""; graph_identity = ""; worker_set = "" }

-- `SlowClock::new`.
abbrev pub new_slow : ℕ → SlowClock
new_slow max_window = record {
  basis = no_basis;
  epoch = 0;
  window = 0;
  max_window = max_window;
  acceptance_sum = 0;
  samples = 0;
  hot_worker_bytes = 0;
  queue_depth_avg = 0;
  transfer_latency_ns_avg = 0;
  valid = true;
}

-- The reset at the head of `advance`.
unfoldable pub rebase : ClockBasis → SlowClock → SlowClock
rebase basis s =
    if s.basis == basis
    then s
    else record s { basis = basis; valid = true; window = 0; samples = 0; acceptance_sum = 0 }

-- The rest of `advance`: the sample is counted, and the window rolls when it is full.
unfoldable pub count_sample : ℕ → SlowClock → SlowClock × Bool
count_sample accepted s =
    let counted = record s {
      window = sat_add32 s.window 1;
      acceptance_sum = sat_add s.acceptance_sum accepted;
      samples = sat_add s.samples 1;
      epoch = sat_add s.epoch 1;
    } in
    if leb s.max_window (sat_add32 s.window 1)
    then (record counted { window = 0 }, true)
    else (counted, false)

unfoldable pub invalidate : SlowClock → SlowClock
invalidate s = record s { valid = false; window = 0; samples = 0 }

unfoldable pub slow_ticks : SlowClock → ClockTicks
slow_ticks s = record { fast = 0; slow = s.epoch }

module _ (f : F64) where
  abbrev pub new_fast : FastClock f
  new_fast = record {
    epoch = 0;
    window = 0;
    accepted = 0;
    rejected = 0;
    last_acceptance_ratio = f.lit 1 1;
    transfer_ns_total = 0;
    compute_ms_total = 0;
  }

  unfoldable pub observe : FastObservation → FastClock f → FastClock f
  observe obs c =
      let accepted = if obs.was_useful then wrap_add c.accepted 1 else c.accepted in
      let rejected = if obs.was_useful then c.rejected else wrap_add c.rejected 1 in
      let total = sat_add accepted rejected in
      record {
        epoch = sat_add c.epoch 1;
        window = sat_add32 c.window 1;
        accepted = accepted;
        rejected = rejected;
        last_acceptance_ratio =
            if ltb 0 total
            then f.divide (f.of_u64 accepted) (f.of_u64 total)
            else c.last_acceptance_ratio;
        transfer_ns_total = sat_add c.transfer_ns_total obs.transfer_cost_ns;
        compute_ms_total = sat_add c.compute_ms_total obs.compute_cost_ms;
      }

  unfoldable pub fast_ticks : FastClock f → ClockTicks
  fast_ticks c = record { fast = c.epoch; slow = 0 }

  unfoldable pub advance : ClockBasis → FastClock f → SlowClock → SlowClock × Bool
  unfolding rebase count_sample
  advance basis fast s = count_sample fast.accepted (rebase basis s)

  unfoldable pub acceptance_ratio : SlowClock → Option f.Carrier
  acceptance_ratio s =
      if s.samples == 0
      then none
      else some (f.divide (f.of_u64 s.acceptance_sum) (f.of_u64 s.samples))
