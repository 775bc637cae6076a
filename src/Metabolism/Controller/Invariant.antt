-- ===== src/Metabolism/Controller/Invariant.antt =====
-- What every call of the controller of har/crates/har-metabolism/src/controller.rs keeps.
use remora_lab.Base.{
  Bool, true, false, ℕ, ◌≡◌, ◌≤◌, ◌+◌, ◌*◌, ◌-◌, String, Option, none, some, List, [], ◌∷◌, arith,
  u64_max, sat_add, refl, inl,
}
use remora_lab.Base.Real.{F64}
use remora_lab.Metabolism.Artifact.{ReuseClass}
use remora_lab.Metabolism.Clock.{ClockBasis, FastObservation}
use remora_lab.Metabolism.Ledger.{LedgerClass, CreditEvidence}
use remora_lab.Metabolism.Ledger.Book
use remora_lab.Metabolism.Ledger.Book.{apply-IsBalanced, IsBalanced, new_ledger-IsBalanced}
use remora_lab.Metabolism.Ledger.Credit.{apply-IsReclaimed, IsReclaimed}
use remora_lab.Metabolism.Portion.{PortionInput}
use remora_lab.Metabolism.Reserve.Table.{IsSoundTable, new_table-IsSound}
use remora_lab.Metabolism.Reserve.{vram, available, account, total_committed}
use remora_lab.Metabolism.Setpoint
use remora_lab.Metabolism.Setpoint.{MaintenanceObservations, MaintenanceSetpoint, total_mib}
use remora_lab.Metabolism.Surplus
use remora_lab.Metabolism.Controller.{
  started, no_observations, ControllerConfig, MetabolismController, capacities, new,
  update_setpoint, decide_portion, observe_block, set_basis, record_spent, record_reclaim,
  grant_reuse_credit, grant_overlap_credit, snapshot, resolve,
}

-- A call of a method that changes the controller.
pub data Call : Type 0 where
  update : MaintenanceObservations → Call
  decide : PortionInput → ReuseClass → Call
  block : FastObservation → Option ℕ → Call
  rebase : ClockBasis → Call
  spent : LedgerClass → String → ℕ → ℕ → ℕ → Call
  reclaimed : String → ℕ → Call
  reuse : CreditEvidence → Call
  overlap : String → ℕ → Call

module _ (f : F64) where
  unfoldable pub call : Call → MetabolismController f → Option (MetabolismController f)
  call (update obs) c = update_setpoint f obs c
  call (decide input class) c = some (decide_portion f input class c).0
  call (block obs mtp) c = observe_block f obs mtp c
  call (rebase basis) c = some (set_basis f basis c)
  call (spent class id work tokens gen) c = some (record_spent f class id work tokens gen c).0
  call (reclaimed id base_seq) c = some (record_reclaim f id base_seq c).0
  call (reuse e) c = some (grant_reuse_credit f e c).0
  call (overlap id bytes) c = some (grant_overlap_credit f id bytes c).0

  unfoldable pub run_calls : List Call → MetabolismController f → Option (MetabolismController f)
  run_calls [] c = some c
  run_calls (k ∷ ks) c = elim (call k c) [ none ↦ none | some d ↦ run_calls ks d ]

  -- Every account is sound, the ledger's totals are those of its entries, and every reuse credit
  -- was preceded by a reclaim.
  pub record IsValid (c : MetabolismController f) : Type 0 where
    pub sound : IsSoundTable f c.reserve
    pub balanced : IsBalanced c.ledger
    pub earned : IsReclaimed c.ledger
    pub range : c.setpoint.queue_depth_min ≤ c.setpoint.queue_depth_max

  -- A ledger call is one of the ledger's own operations.
  book_call :
      (op : Book.Op) (c : MetabolismController f)
      → IsValid c
      → IsValid (record c { ledger = Book.apply op c.ledger })
  book_call op c v = record {
    sound = v.sound;
    balanced = apply-IsBalanced op c.ledger v.balanced;
    earned = apply-IsReclaimed op c.ledger v.earned;
    range = v.range;
  }

  -- The call returns a valid controller.
  abbrev pub Succeeds : Option (MetabolismController f) → Type 0
  Succeeds r = (d : MetabolismController f) × (r ≡ some d) × IsValid d

  pub update_setpoint-Succeeds :
      (obs : MaintenanceObservations) (c : MetabolismController f)
      → IsValid c
      → Succeeds (update_setpoint f obs c)
  unfolding update_setpoint
  update_setpoint-Succeeds obs c v =
      let (s, e) = Setpoint.compute-range c.setpoint obs v.range in
      (
        record c { maintenance = s },
        rw (e, update_setpoint) refl,
        record { sound = v.sound; balanced = v.balanced; earned = v.earned; range = v.range },
      )

  resolve-Succeeds :
      (rolled : Bool) (base : MaintenanceObservations) (c : MetabolismController f)
      → IsValid c
      → Succeeds (resolve f rolled base c)
  unfolding resolve
  resolve-Succeeds true base c v = update_setpoint-Succeeds base c v
  resolve-Succeeds false base c v = (c, refl, v)

  pub observe_block-Succeeds :
      (obs : FastObservation) (mtp : Option ℕ) (c : MetabolismController f)
      → IsValid c
      → Succeeds (observe_block f obs mtp c)
  unfolding observe_block
  observe_block-Succeeds obs mtp c v =
      resolve-Succeeds _ _ _
        (record { sound = v.sound; balanced = v.balanced; earned = v.earned; range = v.range })

  call-Succeeds : (k : Call) (c : MetabolismController f) → IsValid c → Succeeds (call k c)
  unfolding call decide_portion set_basis record_spent record_reclaim grant_reuse_credit
      grant_overlap_credit Book.apply
  call-Succeeds (update obs) c v = update_setpoint-Succeeds obs c v
  call-Succeeds (decide input class) c v = (
    _,
    refl,
    record { sound = v.sound; balanced = v.balanced; earned = v.earned; range = v.range },
  )
  call-Succeeds (block obs mtp) c v = observe_block-Succeeds obs mtp c v
  call-Succeeds (rebase basis) c v = (
    _,
    refl,
    record { sound = v.sound; balanced = v.balanced; earned = v.earned; range = v.range },
  )
  call-Succeeds (spent class id work tokens gen) c v =
      (_, refl, book_call (Book.spent class id work tokens gen) c v)
  call-Succeeds (reclaimed id base_seq) c v = (_, refl, book_call (Book.reclaim id base_seq) c v)
  call-Succeeds (reuse e) c v = (_, refl, book_call (Book.reuse e) c v)
  call-Succeeds (overlap id bytes) c v = (_, refl, book_call (Book.overlap id bytes) c v)

  -- On a valid controller no sequence of calls panics, and the controller stays valid: every
  -- account of the reserve sound, every total of the ledger the sum of its entries, and every reuse
  -- credit one for a reclaimed identity.
  pub run_calls-IsValid :
      (ks : List Call) (c : MetabolismController f) → IsValid c → Succeeds (run_calls ks c)
  unfolding run_calls
  run_calls-IsValid [] c v = (c, refl, v)
  run_calls-IsValid (k ∷ ks) c v =
      let (d, e, w) = call-Succeeds k c v in rw (e, run_calls) (run_calls-IsValid ks d w)

  pub started-IsValid :
      (config : ControllerConfig) (maintenance : MaintenanceSetpoint)
      → config.vram_capacity_mib ≤ u64_max
      → config.ram_capacity_mib ≤ u64_max
      → config.gpu_compute_budget ≤ u64_max
      → IsValid (started f config maintenance)
  started-IsValid config maintenance v r g = record {
    sound = new_table-IsSound f (capacities config) (omega arith);
    balanced = new_ledger-IsBalanced;
    earned = λ id. inl refl;
    range = omega arith;
  }

  -- A configuration whose capacities are words gives a valid controller.
  pub new-IsValid :
      (config : ControllerConfig)
      → config.vram_capacity_mib ≤ u64_max
      → config.ram_capacity_mib ≤ u64_max
      → config.gpu_compute_budget ≤ u64_max
      → Succeeds (new f config)
  unfolding new
  new-IsValid config v r g =
      let (s, e) = Setpoint.compute-range Setpoint.default_params no_observations (omega arith) in
      (started f config s, rw (e, new) refl, started-IsValid config s v r g)

  -- The snapshot's surplus is what is left of the reserve above the maintenance budget after two
  -- halvings, one for each unknown: at most a quarter of it, rounded up.
  snapshot-surplus :
      (c : MetabolismController f)
      → let s = snapshot f c in
        let gross =
          sat_add (total_committed c.reserve) (available (account f c.reserve vram))
          - s.maintenance_vram_mib in
        (s.optional_budget_mib ≡ s.safe_surplus_mib)
        × (4 * s.safe_surplus_mib ≤ gross + 3)
        × (gross ≤ 4 * s.safe_surplus_mib)
  unfolding snapshot Surplus.compute
  snapshot-surplus c = ground arith
