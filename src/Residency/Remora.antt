-- ===== src/Residency/Remora.antt =====
-- har/crates/har-residency/src/remora.rs: the bridge from the resources of the residency manager to the
-- controller of the metabolism. `none` is the panic of an empty range of queue depths.
mod Tests
use remora_lab.Base.{
  ℕ, ◌+◌, ◌≡◌, refl, sym, ap, ◌∙◌, Bool, true, false, Option, none, some, arith, sat_add, sat_add32,
}
use remora_lab.Base.Real.{F64}
use remora_lab.Metabolism.Clock.{ClockBasis, FastObservation, FastClock, SlowClock, ClockTicks}
use remora_lab.Metabolism.Controller.{
  ControllerConfig, MetabolismController, MetabolismSnapshot, new, set_basis, update_setpoint,
  observe_block, snapshot, ticks, resolve,
}
use remora_lab.Metabolism.Controller.Invariant.{
  IsValid, update_setpoint-Succeeds, observe_block-Succeeds,
}
use remora_lab.Metabolism.Controller.Ticks.{Kept, resolve-Kept, observe_block-ticks}
use remora_lab.Metabolism.Setpoint.{MaintenanceObservations}
use remora_lab.Residency.Manager.{ResidencyManager, ResourceSnapshot}

pub record ResidencyObservation : Type 0 where
  pub transfer_cost_ns : ℕ
  pub compute_cost_ms : ℕ
  pub kv_occupancy : Option ℕ
  pub useful : Bool
  pub miss : Bool

abbrev or_zero : Option ℕ → ℕ
or_zero none = 0
or_zero (some n) = n

abbrev maintenance : ResourceSnapshot → ResidencyObservation → MaintenanceObservations
maintenance resources o = record {
  kv_occupancy = or_zero o.kv_occupancy;
  mtp_acceptance_permille = none;
  queue_depth =
      sat_add32 (sat_add32 resources.transfer_queue_depth resources.compute_queue_depth)
        resources.nvme_queue_depth;
}

abbrev fast : ResidencyObservation → FastObservation
fast o = record {
  transfer_cost_ns = o.transfer_cost_ns;
  compute_cost_ms = o.compute_cost_ms;
  was_useful = o.useful;
  miss = o.miss;
}

pub record ResidencyMetabolism (f : F64) : Type 0 where
  pub controller : MetabolismController f

module _ (f : F64) where
  unfoldable pub new_bridge : ControllerConfig → ClockBasis → Option (ResidencyMetabolism f)
  unfolding new set_basis
  new_bridge config basis = elim (new f config) [
    | none ↦ none
    | some c ↦ some (record { controller = set_basis f basis c })
  ]

  abbrev pub reported :
      MetabolismController f → Option (ResidencyMetabolism f × MetabolismSnapshot f)
  reported c = some (record { controller = c }, snapshot f c)

  -- What `observe` does after the block is observed, and after the setpoint is computed.
  abbrev pub report :
      Option (MetabolismController f) → Option (ResidencyMetabolism f × MetabolismSnapshot f)
  report none = none
  report (some d) = reported d

  abbrev pub observe_and_report :
      ResidencyObservation
      → Option (MetabolismController f)
      → Option (ResidencyMetabolism f × MetabolismSnapshot f)
  observe_and_report o none = none
  observe_and_report o (some c) = report (observe_block f (fast o) none c)

  unfoldable pub observe :
      ResourceSnapshot
      → ResidencyObservation
      → ResidencyMetabolism f
      → Option (ResidencyMetabolism f × MetabolismSnapshot f)
  unfolding update_setpoint observe_block snapshot
  observe resources o b =
      observe_and_report o (update_setpoint f (maintenance resources o) b.controller)

  -- `ResidencyManager::observe_remora`.
  unfoldable pub observe_remora :
      ResidencyManager
      → ResidencyMetabolism f
      → ResidencyObservation
      → Option (ResidencyMetabolism f × MetabolismSnapshot f)
  unfolding observe
  observe_remora m b o = observe m.snapshot o b

  pub record Observed (b d : ResidencyMetabolism f) (s : MetabolismSnapshot f) : Type 0 where
    pub valid : IsValid f d.controller
    pub fast_tick : s.fast_epoch ≡ sat_add b.controller.fast_clock.epoch 1
    pub slow_tick : s.slow_epoch ≡ sat_add b.controller.slow_clock.epoch 1
    pub tokens : s.exact_tokens ≡ b.controller.ledger.totals.useful_tokens
    pub reserve : d.controller.reserve ≡ b.controller.reserve
    pub ledger : d.controller.ledger ≡ b.controller.ledger

  -- On a bridge with a valid controller, whatever the manager's resources and the observation, the
  -- observation does not panic; the controller stays valid, both clocks advance by one tick, up to the
  -- largest word, and neither the reserve nor the ledger and its tokens change.
  pub observe_remora_lem :
      (m : ResidencyManager) (b : ResidencyMetabolism f) (o : ResidencyObservation)
      → IsValid f b.controller
      → (d : ResidencyMetabolism f) × (s : MetabolismSnapshot f) × (observe_remora m b o
          ≡ some (d, s))
        × Observed b d s
  unfolding observe_remora observe resolve snapshot ticks
  observe_remora_lem m b o v =
      let (c, e, w) = update_setpoint-Succeeds f (maintenance m.snapshot o) b.controller v in
      let (d, q, x) = observe_block-Succeeds f (fast o) none c w in
      let k = resolve-Kept f true (maintenance m.snapshot o) b.controller c e in
      let t = observe_block-ticks f (fast o) none c d q in
      (
        record { controller = d },
        snapshot f d,
        ap (observe_and_report o) e ∙ ap report q,
        record {
          valid = x;
          fast_tick = t.0 ∙ ap (λ (y : FastClock f). sat_add y.epoch 1) k.fast_clock;
          slow_tick = t.1 ∙ ap (λ (y : SlowClock). sat_add y.epoch 1) k.slow_clock;
          tokens = ap (λ y. y.totals.useful_tokens) (t.3 ∙ k.ledger);
          reserve = t.2 ∙ k.reserve;
          ledger = t.3 ∙ k.ledger;
        },
      )
