-- ===== src/Memory/Budget/History.antt =====
-- Sequences of calls on the budget of har/crates/har-memory/src/elastic_budget.rs.
use remora_lab.Base.{ℕ, ◌≡◌, String, Option, none, some, List, [], ◌∷◌, refl, ◌∙◌}
use remora_lab.Memory.Budget.{
  ElasticVramBudget, EnginePhase, set_phase, cancel_pending, request, commit_idle,
}
use remora_lab.Memory.Budget.Limits.{IsValid, request-IsValid, commit_idle_total}

-- A call of a method that changes the budget.
pub data Op : Type 0 where
  enter : EnginePhase → Op
  ask : ℕ → String → Op
  commit : ℕ → Op
  cancel : Op

-- `none` would be a `commit_idle` that does not end.
unfoldable pub apply : Op → ElasticVramBudget → Option ElasticVramBudget
apply (enter phase) b = some (set_phase phase b)
apply (ask target reason) b = some (request target reason b).0
apply (commit free) b = elim (commit_idle free b) [ none ↦ none | some out ↦ some out.0 ]
apply cancel b = some (cancel_pending b)

unfoldable pub adjust_all : List Op → ElasticVramBudget → Option ElasticVramBudget
adjust_all [] b = some b
adjust_all (op ∷ ops) b = elim (apply op b) [ none ↦ none | some c ↦ adjust_all ops c ]

-- The calls end, in a valid budget of the same policy.
abbrev pub Ends : Option ElasticVramBudget → ElasticVramBudget → Type 0
Ends r b = (c : ElasticVramBudget) × (r ≡ some c) × IsValid c × (c.policy ≡ b.policy)

apply-Ends : (op : Op) (b : ElasticVramBudget) → IsValid b → Ends (apply op b) b
unfolding apply set_phase cancel_pending
apply-Ends (enter phase) b h = (
  set_phase phase b,
  refl,
  record { stepped = h.stepped; word = h.word; low = h.low; high = h.high; aimed = h.aimed },
  refl,
)
apply-Ends (ask target reason) b h = (
  (request target reason b).0,
  refl,
  (request-IsValid target reason b h).0,
  (request-IsValid target reason b h).1,
)
apply-Ends (commit free) b h =
    let (out, e, k) = commit_idle_total free b h in (out.0, rw (e, apply) refl, k.valid, k.policy)
apply-Ends cancel b h = (
  cancel_pending b,
  refl,
  record { stepped = h.stepped; word = h.word; low = h.low; high = h.high; aimed = tt },
  refl,
)

-- On a valid budget any sequence of calls ends, every ladder included, and leaves a valid budget of
-- the same policy: its size is always within the policy's range.
pub adjust_all-IsValid :
    (ops : List Op) (b : ElasticVramBudget) → IsValid b → Ends (adjust_all ops b) b
unfolding adjust_all
adjust_all-IsValid [] b h = (b, refl, h, refl)
adjust_all-IsValid (op ∷ ops) b h =
    let (c, e, v, p) = apply-Ends op b h in
    let (d, e', w, q) = adjust_all-IsValid ops c v in (d, rw (e, adjust_all) e', w, q ∙ p)
