-- ===== src/Metabolism/Controller/Ticks.antt =====
-- The clocks of the controller of har/crates/har-metabolism/src/controller.rs.
use remora_lab.Base.{
  ℕ, ◌≡◌, Bool, true, false, Option, some, arith, min, u64_max, sat_add, ◌≢◌, sym, ap, ◌∙◌,
}
use remora_lab.Base.Real.{F64}
use remora_lab.Metabolism.Clock.{
  ClockBasis, FastObservation, advance, observe, invalidate, FastClock, SlowClock,
}
use remora_lab.Metabolism.Controller.{
  MetabolismController, ticks, observe_block, resolve, update_setpoint, set_basis,
  MaintenanceObservations,
}
use remora_lab.Metabolism.Clock.Slow.{advance-epoch, advance-rebase}

module _ (f : F64) where
  -- What the resolution of the setpoint leaves alone.
  pub record Kept (c d : MetabolismController f) : Type 0 where
    pub fast_clock : d.fast_clock ≡ c.fast_clock
    pub slow_clock : d.slow_clock ≡ c.slow_clock
    pub reserve : d.reserve ≡ c.reserve
    pub ledger : d.ledger ≡ c.ledger
    pub portion : d.portion ≡ c.portion

  pub resolve-Kept :
      (rolled : Bool) (base : MaintenanceObservations) (c d : MetabolismController f)
      → resolve f rolled base c ≡ some d
      → Kept c d
  unfolding resolve update_setpoint
  resolve-Kept true base c d e = ground arith
  resolve-Kept false base c d e = ground arith

  -- The controller before the resolution of the setpoint.
  abbrev observed : FastObservation → MetabolismController f → MetabolismController f
  observed obs c =
      let fast = observe f obs c.fast_clock in
      record c { fast_clock = fast; slow_clock = (advance f c.basis fast c.slow_clock).0 }

  observe_block-Kept :
      (obs : FastObservation) (mtp : Option ℕ) (c d : MetabolismController f)
      → observe_block f obs mtp c ≡ some d
      → Kept (observed obs c) d
  unfolding observe_block
  observe_block-Kept obs mtp c d e = resolve-Kept _ _ (observed obs c) d e

  -- An observation that does not panic advances both clocks by exactly one tick, up to the largest
  -- word, and changes neither the reserve, the ledger nor the portion counters.
  pub observe_block-ticks :
      (obs : FastObservation) (mtp : Option ℕ) (c d : MetabolismController f)
      → observe_block f obs mtp c ≡ some d
      → ((ticks f d).fast ≡ sat_add (ticks f c).fast 1)
        × ((ticks f d).slow ≡ sat_add (ticks f c).slow 1)
        × (d.reserve ≡ c.reserve)
        × (d.ledger ≡ c.ledger)
        × (d.portion ≡ c.portion)
  unfolding ticks observe
  observe_block-ticks obs mtp c d e =
      let fast = observe f obs c.fast_clock in
      let k = observe_block-Kept obs mtp c d e in
      let t = advance-epoch f c.basis fast c.slow_clock in
      (
        ap (λ (x : FastClock f). x.epoch) k.fast_clock,
        ap (λ (x : SlowClock). x.epoch) k.slow_clock ∙ t,
        k.reserve,
        k.ledger,
        k.portion,
      )

  -- After a change of basis, the next observation starts a window that holds its sample alone.
  pub set_basis-observe :
      (basis : ClockBasis) (obs : FastObservation) (mtp : Option ℕ) (c d : MetabolismController f)
      → basis ≢ c.slow_clock.basis
      → observe_block f obs mtp (set_basis f basis c) ≡ some d
      → (d.slow_clock.basis ≡ basis)
        × (d.slow_clock.samples ≡ 1)
        × (d.slow_clock.valid ≡ true)
        × (d.slow_clock.acceptance_sum ≡ min d.fast_clock.accepted u64_max)
  unfolding set_basis invalidate
  set_basis-observe basis obs mtp c d ne e =
      let fast = observe f obs c.fast_clock in
      let k = observe_block-Kept obs mtp (set_basis f basis c) d e in
      let other : (invalidate c.slow_clock).basis ≢ basis = λ q. ne (sym q) in
      let t = advance-rebase f basis fast (invalidate c.slow_clock) other in ground arith
