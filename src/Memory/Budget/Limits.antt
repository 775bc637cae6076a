-- ===== src/Memory/Budget/Limits.antt =====
-- The limits that the budget of har/crates/har-memory/src/elastic_budget.rs keeps.
use remora_lab.Base.{
  ◌-◌, ℕ, ◌≡◌, ◌≤◌, ◌<◌, ◌⊎◌, inl, inr, String, Option, none, some, arith, u64_max, Option-cases,
  nat_eq, Bool-cases, ◌≢◌, wrap_add, ◌+◌, ◌==◌, ◌++◌, ◌∷◌, [], refl, nat_beq_iff, true, false, max,
  ◌%◌, u32_size, ◌*◌, ◌∙◌, ap,
}
use remora_lab.Memory.Errors.{ok, IsErr}
use remora_lab.Memory.Budget.{
  idle, prefill, decode, ElasticBudgetPolicy, grow, shrink, PendingAdjustment, ElasticVramBudget,
  new, request, choose, Result, settle, BudgetAdjustment, commit_idle, EnginePhase, err, invalid,
  is_idle,
}
use remora_lab.Memory.Budget.Ladder.{descend_total, count_rungs-zero}

-- A pending target lies in the policy's range, away from the current budget and on the side of its
-- kind.
abbrev pub IsAimed : ElasticVramBudget → Option PendingAdjustment → Type 0
IsAimed b none = Unit
IsAimed b (some p) =
    (b.policy.min_vram_bytes ≤ p.target_bytes)
    × (p.target_bytes ≤ b.policy.max_vram_bytes)
    × (((p.kind ≡ grow) × (b.current_bytes < p.target_bytes))
        ⊎ ((p.kind ≡ shrink) × (p.target_bytes < b.current_bytes)))

pub record IsValid (b : ElasticVramBudget) : Type 0 where
  pub stepped : 0 < b.policy.step_bytes
  pub word : b.policy.max_vram_bytes ≤ u64_max
  pub low : b.policy.min_vram_bytes ≤ b.current_bytes
  pub high : b.current_bytes ≤ b.policy.max_vram_bytes
  pub aimed : IsAimed b b.pending

-- A budget that is made lies in its policy's range, and has nothing pending.
pub new-IsValid :
    (policy : ElasticBudgetPolicy) (initial : ℕ) {b : ElasticVramBudget}
    → policy.max_vram_bytes ≤ u64_max
    → new policy initial ≡ ok b
    → IsValid b × (b.current_bytes ≡ initial) × (b.pending ≡ none) × (b.phase ≡ idle)
unfolding new
new-IsValid policy initial word e = ground arith

pub request-IsValid :
    (target : ℕ) (reason : String) (b : ElasticVramBudget)
    → IsValid b
    → IsValid (request target reason b).0 × ((request target reason b).0.policy ≡ b.policy)
unfolding request
request-IsValid target reason b h = elim (Option-cases b.pending) [
  | inl free ↦ ground (arith, h.aimed)
  | inr (p, busy) ↦ ground (arith, h.aimed)
]

-- Where a grow stands that has gone some steps down from its target.
abbrev pub rung : ElasticVramBudget → PendingAdjustment → (steps : ℕ) → ℕ
rung b p steps = max (p.target_bytes - steps * b.policy.step_bytes) b.current_bytes

-- Growing to some bytes leaves the headroom free.
abbrev pub IsRoom : ElasticVramBudget → (free committed : ℕ) → Type 0
IsRoom b free committed = committed - b.current_bytes + b.policy.headroom_bytes ≤ free

-- What the choice of `commit_idle` promises about the committed bytes and the number of steps that it has
-- gone down from the target.
pub record IsChoice (b : ElasticVramBudget) (p : PendingAdjustment) (free steps committed : ℕ)
    : Type 0 where
  pub low : b.policy.min_vram_bytes ≤ committed
  pub high : committed ≤ b.policy.max_vram_bytes
  -- a shrink is granted whole; a grow stands on the rung of its steps, leaves the headroom free or
  -- changes nothing, and no rung above leaves the headroom free
  pub side :
      ((p.kind ≡ shrink)
        × (steps ≡ 0)
        × (committed ≡ p.target_bytes)
        × (committed < b.current_bytes))
      ⊎ ((p.kind ≡ grow)
          × (committed ≡ rung b p steps)
          × (IsRoom b free committed ⊎ (committed ≡ b.current_bytes))
          × ((m : ℕ) → (steps ≤ m) ⊎ ¬ IsRoom b free (rung b p m)))

choose_total :
    (b : ElasticVramBudget) (p : PendingAdjustment) (free : ℕ)
    → IsValid b
    → IsAimed b (some p)
    → (committed : ℕ) × (steps : ℕ) × (choose b p free ≡ some (committed, steps % u32_size))
      × IsChoice b p free steps committed
unfolding choose
choose_total b p free h a = elim a.2 [
  | inr (k, lt) ↦ (
    p.target_bytes,
    0,
    rw (k, choose) refl,
    record { low = a.0; high = a.1; side = inl (k, refl, refl, lt) },
  )
  | inl (k, lt) ↦
      let usable = free - b.policy.headroom_bytes in
      let (committed, n, e, rung) =
        descend_total (p.target_bytes - b.current_bytes + 1) b.current_bytes b.policy.step_bytes
          usable p.target_bytes 0 (omega arith) h.stepped (omega arith) (omega (arith, h.word)) in
      (
        committed,
        n,
        rw (k, choose) (e ∙ ap (λ x. some (committed, x)) (count_rungs-zero n)),
        record {
          low = omega (arith, h.low, rung.above);
          high = omega (arith, rung.below);
          side = inr (
            k,
            rung.rung,
            ground (arith, rung.above, rung.fits),
            λ m. ground (arith, rung.first m),
          );
        },
      )
]

-- What a commit is logged as, and returns.
abbrev pub adjustment :
    ElasticVramBudget → PendingAdjustment → (steps committed : ℕ) → BudgetAdjustment
adjustment b p steps committed = record {
  epoch = wrap_add b.epoch 1;
  kind = p.kind;
  requested_bytes = p.target_bytes;
  committed_bytes = committed;
  rollback_rungs = steps % u32_size;
  reason = p.reason;
}

-- What a commit does. Outside idleness, or with nothing pending, it fails and changes nothing.
-- Else it takes the pending adjustment and either commits it or refuses it and keeps the budget:
-- a shrink is committed whole; a grow goes down from its target by whole steps to the first rung that
-- leaves the headroom free. The log and the epoch record every commit, and nothing else.
pub record Commits (b : ElasticVramBudget) (free : ℕ)
    (out : ElasticVramBudget × Result BudgetAdjustment) : Type 0 where
  pub valid : IsValid out.0
  pub policy : out.0.policy ≡ b.policy
  pub result :
      (((b.phase ≢ idle) ⊎ (b.pending ≡ none)) × (out.0 ≡ b) × IsErr out.1)
      ⊎ ((p : PendingAdjustment) × (b.phase ≡ idle)
          × (b.pending ≡ some p)
          × (out.0.pending ≡ none)
          × (steps : ℕ) × IsChoice b p free steps out.0.current_bytes
          × (((out.0.current_bytes ≡ b.current_bytes)
                × (out.0.log ≡ b.log)
                × (out.0.epoch ≡ b.epoch)
                × IsErr out.1)
              ⊎ ((out.0.current_bytes ≢ b.current_bytes)
                  × (out.0.epoch ≡ wrap_add b.epoch 1)
                  × (out.0.log ≡ b.log ++ adjustment b p steps out.0.current_bytes ∷ [])
                  × (out.1 ≡ ok (adjustment b p steps out.0.current_bytes)))))

commit_taken :
    (b : ElasticVramBudget) (p : PendingAdjustment) (free : ℕ)
    → IsValid b
    → b.phase ≡ idle
    → b.pending ≡ some p
    → (committed steps : ℕ) → IsChoice b p free steps committed
    → Commits b free (settle (record b { pending = none }) p (committed, steps % u32_size))
unfolding settle
commit_taken b p free h i e committed steps k = elim (Bool-cases (committed == b.current_bytes)) [
  | inl same ↦
      let s : committed ≡ b.current_bytes = (nat_beq_iff _ _).0 same in
      rw (same, settle)
        (record {
          valid = record {
            stepped = h.stepped;
            word = h.word;
            low = h.low;
            high = h.high;
            aimed = tt;
          };
          policy = refl;
          result = inr (p, i, e, refl, steps, rw s at k, inl (refl, refl, refl, tt));
        })
  | inr other ↦
      let n : committed ≢ b.current_bytes = ground arith in
      rw (other, settle)
        (record {
          valid = record {
            stepped = h.stepped;
            word = h.word;
            low = k.low;
            high = k.high;
            aimed = tt;
          };
          policy = refl;
          result = inr (p, i, e, refl, steps, k, inr (n, refl, refl, refl));
        })
]

is_idle-cases :
    (p : EnginePhase) → ((is_idle p ≡ true) × (p ≡ idle)) ⊎ ((is_idle p ≡ false) × (p ≢ idle))
is_idle-cases idle = inl (refl, refl)
is_idle-cases prefill = inr (refl, λ e. ground arith)
is_idle-cases decode = inr (refl, λ e. ground arith)

-- On a valid budget `commit_idle` ends in a valid budget of the same policy. Outside idleness, or with
-- nothing pending, it fails and changes nothing. Else it takes the pending adjustment: a shrink is
-- committed whole; a grow is committed on the first rung, from its target down by whole steps and not
-- below the current size, that leaves the headroom free; it is refused if only the current size is left.
-- A commit changes the size, raises
-- the epoch, and is logged and returned with the number of its steps; a refusal changes none of them.
pub commit_idle_total :
    (free : ℕ) (b : ElasticVramBudget)
    → IsValid b
    → (out : ElasticVramBudget × Result BudgetAdjustment) × (commit_idle free b ≡ some out)
      × Commits b free out
unfolding commit_idle
commit_idle_total free b h = elim (is_idle-cases b.phase) [
  | inr (e, n) ↦ (
    (b, err (invalid "elastic budget" "adjustments are idle-only")),
    rw e refl,
    record { valid = h; policy = refl; result = inl (inl n, refl, tt) },
  )
  | inl (e, i) ↦ elim (Option-cases b.pending) [
    | inl q ↦ (
      (b, err (invalid "elastic budget" "no pending adjustment")),
      simp (e, q),
      record { valid = h; policy = refl; result = inl (inr q, refl, tt) },
    )
    | inr (p, q) ↦
        let a : IsAimed b (some p) = rw q at h.aimed in
        let (committed, n, c, k) = choose_total b p free h a in
        (
          settle (record b { pending = none }) p (committed, n % u32_size),
          simp (e, q, c),
          commit_taken b p free h i q committed n k,
        )
  ]
]
