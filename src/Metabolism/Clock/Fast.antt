-- ===== src/Metabolism/Clock/Fast.antt =====
-- The fast clock of har/crates/har-metabolism/src/clock.rs over a stream of observations.
use remora_lab.Base.{
  ℕ, ◌+◌, ◌≡◌, ◌≤◌, ◌<◌, List, [], ◌∷◌, arith, length, if◌then◌else◌, min, u64_max, u32_max,
}
use remora_lab.Base.Real.{F64}
use remora_lab.Metabolism.Clock.{FastObservation, FastClock, observe}

-- How many observations were useful, and the sum of a cost over them.
abbrev pub useful_count : List FastObservation → ℕ
useful_count [] = 0
useful_count (o ∷ os) = (if o.was_useful then 1 else 0) + useful_count os

abbrev pub sum_of : (FastObservation → ℕ) → List FastObservation → ℕ
sum_of g [] = 0
sum_of g (o ∷ os) = g o + sum_of g os

useful_count-le : (os : List FastObservation) → useful_count os ≤ length os
useful_count-le [] = omega arith
useful_count-le (o ∷ os) = ground (arith, useful_count-le os)

module _ (f : F64) where
  unfoldable pub observe_all : List FastObservation → FastClock f → FastClock f
  observe_all [] c = c
  observe_all (o ∷ os) c = observe_all os (observe f o c)

  -- A clock that counts words.
  pub record IsWord (c : FastClock f) : Type 0 where
    pub epoch : c.epoch ≤ u64_max
    pub window : c.window ≤ u32_max
    pub transfer : c.transfer_ns_total ≤ u64_max
    pub compute : c.compute_ms_total ≤ u64_max

  observe-IsWord : (o : FastObservation) (c : FastClock f) → IsWord (observe f o c)
  unfolding observe
  observe-IsWord o c = omega arith

  -- What a stream of observations does to a clock.
  pub record Counts (os : List FastObservation) (c d : FastClock f) : Type 0 where
    pub epoch : d.epoch ≡ min (c.epoch + length os) u64_max
    pub window : d.window ≡ min (c.window + length os) u32_max
    pub accepted : d.accepted ≡ c.accepted + useful_count os
    pub total : d.accepted + d.rejected ≡ c.accepted + c.rejected + length os
    pub transfer :
        d.transfer_ns_total
        ≡ min (c.transfer_ns_total + sum_of (λ o. o.transfer_cost_ns) os) u64_max
    pub compute :
        d.compute_ms_total ≡ min (c.compute_ms_total + sum_of (λ o. o.compute_cost_ms) os) u64_max

  -- While the observations stay countable in a u64, the clock is exactly their summary: the epoch
  -- and the window advance by one for each, each is counted as accepted or as rejected, and the
  -- costs are summed; epoch, window and costs stop at the largest word.
  pub observe_all-Counts :
      (os : List FastObservation) (c : FastClock f)
      → IsWord c
      → c.accepted + c.rejected + length os ≤ u64_max
      → Counts os c (observe_all os c)
  unfolding observe_all observe
  observe_all-Counts [] c w room = omega (arith, w.epoch, w.window, w.transfer, w.compute)
  observe_all-Counts (o ∷ os) c w room =
      let ih = observe_all-Counts os (observe f o c) (observe-IsWord o c) (ground arith) in
      ground arith

  -- After any countable number of observations, at least one, the ratio is that of the counts.
  pub ratio-observe :
      (o : FastObservation) (c : FastClock f)
      → c.accepted + c.rejected < u64_max
      → let d = observe f o c in
        d.last_acceptance_ratio
        ≡ f.divide (f.of_u64 d.accepted) (f.of_u64 (d.accepted + d.rejected))
  unfolding observe
  ratio-observe o c room = ground arith
