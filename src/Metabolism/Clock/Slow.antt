-- ===== src/Metabolism/Clock/Slow.antt =====
-- The slow clock of har/crates/har-metabolism/src/clock.rs: its window and its stale samples.
use native.Mathlib.Nat.{mod-lt, mod_self, mod-add-mod, mod-eq_of_lt}
use remora_lab.Base.{
  ◌≢◌, min, u64_max, sat_add, sym, ◌∙◌, leb, inl, inr, ◌⊎◌, true, false, ℕ, ◌+◌, ◌%◌, ◌≡◌, ◌≤◌, ◌<◌,
  arith, if◌then◌else◌, u32_max, List, [], ◌∷◌, length, ◌==◌, some,
}
use remora_lab.Base.Real.{F64}
use remora_lab.Metabolism.Clock.{
  ClockBasis, basis_beq_iff, basis_eq, FastClock, SlowClock, invalidate, advance, acceptance_ratio,
}

le_or_lt : (a b : ℕ) → (a ≤ b) ⊎ (b < a)
le_or_lt a b = omega arith

mod_step : (m k : ℕ) → 0 < m → (k + 1) % m ≡ (if leb m (k % m + 1) then 0 else k % m + 1)
mod_step m k pos = elim (le_or_lt m (k % m + 1)) [
  | inl full ↦
      let e : k % m + 1 ≡ m = omega (arith, mod-lt k pos) in
      let z : (k % m + 1) % m ≡ 0 = rw e (mod_self m) in
      let t : leb m (k % m + 1) ≡ true = ground arith in rw t (sym (mod-add-mod k m 1) ∙ z)
  | inr room ↦
      let t : leb m (k % m + 1) ≡ false = ground arith in
      rw t (sym (mod-add-mod k m 1) ∙ mod-eq_of_lt room)
]

module _ (f : F64) where
  -- The window lies below its limit, which is a positive word.
  pub record IsOpen (s : SlowClock) : Type 0 where
    pub below : s.window < s.max_window
    pub word : s.max_window ≤ u32_max

  -- Samples of one basis, one after the other.
  unfoldable pub advance_all : ClockBasis → List (FastClock f) → SlowClock → SlowClock
  advance_all basis [] s = s
  advance_all basis (c ∷ cs) s = advance_all basis cs (advance f basis c s).0

  pub advance-epoch :
      (basis : ClockBasis) (c : FastClock f) (s : SlowClock)
      → (advance f basis c s).0.epoch ≡ sat_add s.epoch 1
  unfolding advance
  advance-epoch basis c s = ground arith

  -- A sample of another basis starts over: it is the only one, and the clock is valid.
  pub advance-rebase :
      (basis : ClockBasis) (c : FastClock f) (s : SlowClock)
      → s.basis ≢ basis
      → let t = (advance f basis c s).0 in
        (t.basis ≡ basis)
        × (t.samples ≡ 1)
        × (t.valid ≡ true)
        × (t.acceptance_sum ≡ min c.accepted u64_max)
  unfolding advance
  advance-rebase basis c s ne = let b = basis_beq_iff s.basis basis in ground arith

  -- A sample keeps the window below its limit. It rolls exactly when it fills the window, which
  -- then is empty; a sample of another basis starts a window of its own.
  pub advance-window :
      (basis : ClockBasis) (c : FastClock f) (s : SlowClock)
      → IsOpen s
      → let (t, rolled) = advance f basis c s in
        let before = if s.basis == basis then s.window else 0 in
        IsOpen t
        × (t.basis ≡ basis)
        × (((rolled ≡ true) × (before + 1 ≡ s.max_window) × (t.window ≡ 0))
            ⊎ ((rolled ≡ false) × (before + 1 < s.max_window) × (t.window ≡ before + 1)))
  unfolding advance
  advance-window basis c s h = let b = basis_beq_iff s.basis basis in ground arith

  -- The window counts the samples of one basis modulo its limit.
  pub record Cycles (basis : ClockBasis) (m k : ℕ) (s : SlowClock) : Type 0 where
    pub same : s.basis ≡ basis
    pub limit : s.max_window ≡ m
    pub counted : s.window ≡ k % m

  advance-Cycles :
      (basis : ClockBasis) (c : FastClock f) (m k : ℕ) (s : SlowClock)
      → 0 < m
      → m ≤ u32_max
      → Cycles basis m k s
      → Cycles basis m (k + 1) (advance f basis c s).0
  unfolding advance
  advance-Cycles basis c m k s pos word h =
      let b = basis_beq_iff s.basis basis in
      let step = mod_step m k pos in
      record { same = ground arith; limit = ground arith; counted = ground arith }

  -- After any number of further samples of one basis, the window is the number of samples since
  -- it was last empty, modulo its limit.
  pub advance_all-window :
      (basis : ClockBasis) (cs : List (FastClock f)) (m k : ℕ) (s : SlowClock)
      → 0 < m
      → m ≤ u32_max
      → Cycles basis m k s
      → (advance_all basis cs s).window ≡ (k + length cs) % m
  unfolding advance_all
  advance_all-window basis [] m k s pos word h = ground arith
  advance_all-window basis (c ∷ cs) m k s pos word h =
      let ih =
        advance_all-window basis cs m (k + 1) (advance f basis c s).0 pos word
          (advance-Cycles basis c m k s pos word h) in
      ground arith

  -- After `invalidate`, a sample of the same basis leaves a mean over one sample whose sum still
  -- holds all that was summed before, and the clock stays invalid.
  pub invalidate-stale :
      (c : FastClock f) (s : SlowClock)
      → let (t, _) = advance f s.basis c (invalidate s) in
        (t.samples ≡ 1)
        × (t.acceptance_sum ≡ sat_add s.acceptance_sum c.accepted)
        × (t.valid ≡ false)
        × (acceptance_ratio f t
            ≡ some (f.divide (f.of_u64 (sat_add s.acceptance_sum c.accepted)) (f.of_u64 1)))
  unfolding advance invalidate acceptance_ratio
  invalidate-stale c s = let b = basis_beq_iff s.basis s.basis in ground arith
