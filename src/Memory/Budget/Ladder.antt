-- ===== src/Memory/Budget/Ladder.antt =====
-- The rollback ladder of `commit_idle` in har/crates/har-memory/src/elastic_budget.rs.
use remora_lab.Base.{
  ℕ, zero, suc, ◌+◌, ◌-◌, ◌≡◌, ◌≤◌, ◌<◌, ◌⊎◌, inl, inr, some, arith, max, ◌%◌, u32_size, u64_max,
  ◌==◌, nat_eq, ◌||◌, leb, wrap_sub, wrap_sub_lem, Bool-cases, ◌∙◌, ◌*◌,
}
use remora_lab.Memory.Budget.{descend}

-- The rung that the ladder stops at: the first from the candidate down, by whole steps and not
-- below the current budget, whose growth fits in the usable bytes. It lies `steps` below the candidate.
pub record IsRung (current step usable candidate steps committed : ℕ) : Type 0 where
  pub rung : committed ≡ max (candidate - steps * step) current
  pub above : current ≤ committed
  pub below : committed ≤ candidate
  pub fits : (committed - current ≤ usable) ⊎ (committed ≡ current)
  -- no rung above it fits
  pub first : (m : ℕ) → (steps ≤ m) ⊎ (usable < max (candidate - m * step) current - current)

-- The count of the rungs, an `u32`, after some more.
abbrev pub count_rungs : (rungs steps : ℕ) → ℕ
count_rungs rungs zero = rungs
count_rungs rungs (suc steps) = count_rungs ((rungs + 1) % u32_size) steps

pub count_rungs_lem :
    (rungs steps : ℕ) → rungs < u32_size → count_rungs rungs steps ≡ (rungs + steps) % u32_size
count_rungs_lem rungs zero h = omega arith
count_rungs_lem rungs (suc steps) h =
    count_rungs_lem ((rungs + 1) % u32_size) steps (omega arith) ∙ omega arith

pub count_rungs-zero : (steps : ℕ) → count_rungs 0 steps ≡ steps % u32_size
count_rungs-zero steps = omega (arith, count_rungs_lem 0 steps (omega arith))

go_first :
    (current step usable candidate steps : ℕ)
    → usable < candidate - current
    → ((m : ℕ)
        → (steps ≤ m)
          ⊎ (usable < max (max (candidate - step) current - m * step) current - current))
    → (m : ℕ) → (suc steps ≤ m) ⊎ (usable < max (candidate - m * step) current - current)
go_first current step usable candidate steps big h zero = inr (omega arith)
go_first current step usable candidate steps big h (suc m) = elim (h m) [
  | inl e ↦ inl (omega arith)
  | inr e ↦ inr (omega arith)
]

-- With fuel for the distance to the current budget the ladder ends, at its first rung that fits.
pub descend_total :
    (fuel current step usable candidate rungs : ℕ)
    → candidate - current < fuel
    → 0 < step
    → current ≤ candidate
    → candidate ≤ u64_max
    → (committed : ℕ) × (steps : ℕ) × (descend fuel current step usable candidate rungs
        ≡ some (committed, count_rungs rungs steps))
      × IsRung current step usable candidate steps committed
unfolding descend
descend_total zero current step usable candidate rungs enough pos above word = absurd (omega arith)
descend_total (suc fuel) current step usable candidate rungs enough pos above word =
    elim (Bool-cases (leb (wrap_sub candidate current) usable || candidate == current)) [
      | inl stop ↦ (
        candidate,
        0,
        rw stop,
        record {
          rung = omega arith;
          above = above;
          below = omega arith;
          fits = ground (arith, wrap_sub_lem candidate current above word);
          first = λ m. inl (omega arith);
        },
      )
      | inr go ↦
          let next = max (candidate - step) current in
          let apart : current < candidate =
            ground (arith, wrap_sub_lem candidate current above word) in
          let big : usable < candidate - current =
            ground (arith, wrap_sub_lem candidate current above word) in
          let (committed, n, e, h) =
            descend_total fuel current step usable next ((rungs + 1) % u32_size) (omega arith) pos
              (omega arith) (omega arith) in
          (
            committed,
            suc n,
            rw go e,
            record {
              rung = omega (arith, h.rung);
              above = h.above;
              below = omega (arith, h.below);
              fits = h.fits;
              first = go_first current step usable candidate n big h.first;
            },
          )
    ]
