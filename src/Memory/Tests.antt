-- ===== src/Memory/Tests.antt =====
-- The residency machine, the registry and the budget of har/crates/har-memory at concrete data.
use remora_lab.Base.{◌≡◌, refl, true, List, [], ◌∷◌, inl, arith, some, nat_eq, ℕ}
use remora_lab.Memory.Errors.{Result}
use remora_lab.Memory.State.{error, indexed, read_queued, state_eq}
use remora_lab.Memory.Machine.{
  ModelRoot, ResidencyMachine, ResidencyRecord, new_machine, new_record, nvme_cold, ram_mapped,
  vram_slot, tier_eq,
}
use remora_lab.Memory.Machine.History.{
  IsLogged, move, fails, bump, run-IsLogged, run-error, require-bump, has_replica-add_replica,
  validate_lem,
}
use remora_lab.Memory.Machine.History
use remora_lab.Memory.Registry.{MemoryRegistry, new_registry}
use remora_lab.Memory.Registry.Transfers.{
  run_transfers, run_transfers-IsValid, complete_transfer_lem, add, queue, complete, ticket,
  map_ticket, done,
}
use remora_lab.Memory.Registry.Transfers
use remora_lab.Memory.Budget.{
  ElasticBudgetPolicy, ElasticVramBudget, idle, grow, decode, commit_idle, BudgetAdjustment,
}
use remora_lab.Memory.Budget.Limits.{Commits, commit_idle_total}
use remora_lab.Memory.Budget.Limits
use remora_lab.Memory.Budget.History.{
  adjust_all, adjust_all-IsValid, Ends, enter, ask, commit, cancel,
}
use remora_lab.Memory.Budget.History as Calls

abbrev root : ModelRoot
root = record { name = "m"; sha256 = "00" }

abbrev machine : ResidencyMachine
machine = new_machine "layer.0" root 1

run-IsLogged_example :
    IsLogged
      (History.run (move indexed "found" ∷ bump ∷ move read_queued "map" ∷ fails "io" ∷ []) machine)
run-IsLogged_example =
    run-IsLogged (move indexed "found" ∷ bump ∷ move read_queued "map" ∷ fails "io" ∷ []) machine
      refl

abbrev failed : ResidencyMachine
failed = record machine { state = error }

abbrev tensor : ResidencyRecord
tensor = new_record (record { index = 0; generation = 0; stable_id = "b" }) "layer.0" 4096 root

abbrev moves : List Transfers.Op
moves =
    add tensor
    ∷ queue "layer.0" nvme_cold ram_mapped 4096 "io" true
    ∷ queue "layer.0" ram_mapped vram_slot 8192 "dma" true
    ∷ complete 0 true
    ∷ []

new_registry-IsValid : Transfers.IsValid new_registry
new_registry-IsValid = record { numbered = tt; next = refl; covered = tt }

run_transfers-IsValid_example : Transfers.IsValid (run_transfers moves new_registry)
run_transfers-IsValid_example =
    run_transfers-IsValid moves new_registry new_registry-IsValid (omega arith)

abbrev first : ℕ
first = 0

abbrev queued : MemoryRegistry
queued =
    run_transfers (add tensor ∷ queue "layer.0" nvme_cold ram_mapped 4096 "io" true ∷ [])
      new_registry

abbrev policy : ElasticBudgetPolicy
policy = record {
  min_vram_bytes = 1000;
  max_vram_bytes = 8000;
  step_bytes = 500;
  headroom_bytes = 300;
}

-- A growth from 2000 to 6000 bytes is pending.
abbrev growing : ElasticVramBudget
growing = record {
  policy = policy;
  phase = idle;
  current_bytes = 2000;
  epoch = 0;
  pending = some (record { kind = grow; target_bytes = 6000; reason = "idle" });
  log = [];
}

growing-IsValid : Limits.IsValid growing
growing-IsValid = record {
  stepped = omega arith;
  word = omega arith;
  low = omega arith;
  high = omega arith;
  aimed = (omega arith, omega arith, inl (refl, omega arith));
}

commit_idle_total_example :
    (out : ElasticVramBudget × Result BudgetAdjustment) × (commit_idle 1900 growing ≡ some out)
    × Commits growing 1900 out
commit_idle_total_example = commit_idle_total 1900 growing growing-IsValid

abbrev adjustments : List Calls.Op
adjustments = commit 1900 ∷ ask 1500 "pressure" ∷ enter decode ∷ cancel ∷ []

adjust_all-IsValid_example : Ends (adjust_all adjustments growing) growing
adjust_all-IsValid_example = adjust_all-IsValid adjustments growing growing-IsValid
