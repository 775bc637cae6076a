-- ===== src/Memory/Budget.antt =====
-- har/crates/har-memory/src/elastic_budget.rs: the VRAM budget, which is repartitioned only while the
-- engine is idle. Requests and commits take a reason, whose text is kept.
pub mod Ladder
pub mod Limits
pub mod History
use remora_lab.Base.{
  wrap_sub, ℕ, zero, suc, ◌+◌, ◌-◌, ◌≡◌, ◌≤◌, ◌<◌, String, Bool, true, false, Option, none, some,
  List, [], ◌∷◌, ◌++◌, arith, ltb, leb, ◌==◌, nat_eq, ◌||◌, if◌then◌else◌, wrap_add, max, u32_size,
  ◌%◌,
}
use remora_lab.Memory.Errors.{Result, ok, err, invalid}

pub data EnginePhase : Type 0 where
  idle prefill decode : EnginePhase

pub record ElasticBudgetPolicy : Type 0 where
  pub min_vram_bytes : ℕ
  pub max_vram_bytes : ℕ
  pub step_bytes : ℕ
  pub headroom_bytes : ℕ

unfoldable pub validate : ElasticBudgetPolicy → Bool
validate p = if p.step_bytes == 0 || ltb p.max_vram_bytes p.min_vram_bytes then false else true

pub data AdjustmentKind : Type 0 where
  grow shrink : AdjustmentKind

pub record BudgetAdjustment : Type 0 where
  pub epoch : ℕ
  pub kind : AdjustmentKind
  pub requested_bytes : ℕ
  pub committed_bytes : ℕ
  pub rollback_rungs : ℕ
  pub reason : String

pub record PendingAdjustment : Type 0 where
  pub kind : AdjustmentKind
  pub target_bytes : ℕ
  pub reason : String

pub record ElasticVramBudget : Type 0 where
  pub policy : ElasticBudgetPolicy
  pub phase : EnginePhase
  pub current_bytes : ℕ
  pub epoch : ℕ
  pub pending : Option PendingAdjustment
  pub log : List BudgetAdjustment

unfoldable pub new : ElasticBudgetPolicy → ℕ → Result ElasticVramBudget
unfolding validate
new policy initial_bytes =
    if validate policy
    then if ltb initial_bytes policy.min_vram_bytes || ltb policy.max_vram_bytes initial_bytes
      then err (invalid "elastic budget" "initial outside")
      else ok (record {
        policy = policy;
        phase = idle;
        current_bytes = initial_bytes;
        epoch = 0;
        pending = none;
        log = [];
      })
    else err (invalid "elastic budget policy" "step must be > 0 and min <= max")

unfoldable pub set_phase : EnginePhase → ElasticVramBudget → ElasticVramBudget
set_phase phase b = record b { phase = phase }

unfoldable pub cancel_pending : ElasticVramBudget → ElasticVramBudget
cancel_pending b = record b { pending = none }

-- `clamp` on a range that `validate` has found not to be empty.
abbrev pub clamp : ℕ → ℕ → ℕ → ℕ
clamp x lo hi = if ltb x lo then lo else if ltb hi x then hi else x

unfoldable pub request : ℕ → String → ElasticVramBudget → ElasticVramBudget × Result (Unit {0})
request target_bytes reason b =
    let target = clamp target_bytes b.policy.min_vram_bytes b.policy.max_vram_bytes in
    let kind : AdjustmentKind = if leb b.current_bytes target then grow else shrink in
    if target == b.current_bytes then (b, ok tt) else elim b.pending [
      | some _ ↦ (b, err (invalid "elastic budget" "an adjustment is already pending"))
      | none ↦ (
        record b {
          pending = some (record { kind = kind; target_bytes = target; reason = reason });
        },
        ok tt,
      )
    ]

-- The `loop` of `commit_idle`, with fuel: the candidate, and the rungs gone down. `none` means that
-- the fuel ran out.
unfoldable pub descend : ℕ → ℕ → ℕ → ℕ → ℕ → ℕ → Option (ℕ × ℕ)
descend zero current step usable candidate rungs = none
descend (suc fuel) current step usable candidate rungs =
    let rest =
      descend fuel current step usable (max (candidate - step) current) ((rungs + 1) % u32_size) in
    if leb (wrap_sub candidate current) usable || candidate == current
    then some (candidate, rungs)
    else rest

-- The `match pending.kind`: the bytes to commit and the rungs. Each rung goes down by at least one
-- byte, so the distance to go is fuel enough.
unfoldable pub choose : ElasticVramBudget → PendingAdjustment → ℕ → Option (ℕ × ℕ)
unfolding descend
choose b p measured_free = elim p.kind [
  | shrink ↦ some (p.target_bytes, 0)
  | grow ↦
      descend (p.target_bytes - b.current_bytes + 1) b.current_bytes b.policy.step_bytes
        (measured_free - b.policy.headroom_bytes) p.target_bytes 0
]

-- The end of `commit_idle`, on the budget whose pending adjustment has been taken.
unfoldable pub settle :
    ElasticVramBudget → PendingAdjustment → ℕ × ℕ → ElasticVramBudget × Result BudgetAdjustment
settle b p (committed, rungs) =
    let adjustment : BudgetAdjustment = record {
      epoch = wrap_add b.epoch 1;
      kind = p.kind;
      requested_bytes = p.target_bytes;
      committed_bytes = committed;
      rollback_rungs = rungs;
      reason = p.reason;
    } in
    if committed == b.current_bytes
    then (b, err (invalid "elastic budget" "grow refused: no rung satisfied headroom constraint"))
    else (
      record b {
        current_bytes = committed;
        epoch = wrap_add b.epoch 1;
        log = b.log ++ adjustment ∷ [];
      },
      ok adjustment,
    )

abbrev pub is_idle : EnginePhase → Bool
is_idle idle = true
is_idle _ = false

-- `none` would be a loop that does not end.
unfoldable pub commit_idle :
    ℕ → ElasticVramBudget → Option (ElasticVramBudget × Result BudgetAdjustment)
unfolding choose settle
commit_idle measured_free b =
    if is_idle b.phase
    then elim b.pending [
      | none ↦ some (b, err (invalid "elastic budget" "no pending adjustment"))
      | some p ↦ elim (choose b p measured_free) [
        | none ↦ none
        | some chosen ↦ some (settle (record b { pending = none }) p chosen)
      ]
    ]
    else some (b, err (invalid "elastic budget" "adjustments are idle-only"))
