-- ===== src/Metabolism/Controller/Trace.antt =====
-- har/crates/har-metabolism/src/trace.rs: recording and replaying the inputs of a controller. The
-- hash of the standard library is a parameter.
use remora_lab.Base.{
  ap, ◌∙◌, ℕ, zero, suc, ◌≡◌, ◌≤◌, ◌+◌, ◌%◌, String, List, [], ◌∷◌, ◌++◌, arith, u64_max, u64_size,
  wrap_add, refl, length,
}
use remora_lab.Base.Real.{F64}
use remora_lab.Metabolism.Reserve.{account, vram}
use remora_lab.Metabolism.Controller.{MetabolismController}

pub data TraceRecord : Type 0 where
  advance : ℕ → TraceRecord

pub record Replay : Type 0 where
  pub replay_hash : String
  pub mismatches : List String

unfoldable pub record_input : TraceRecord → List TraceRecord → List TraceRecord
record_input r trace = trace ++ r ∷ []

-- The ticks that a trace asks for.
abbrev pub total_ticks : List TraceRecord → ℕ
total_ticks [] = 0
total_ticks (advance n ∷ rest) = n + total_ticks rest

-- `DefaultHasher` over the four numbers that are fed to it, printed in hexadecimal.
module _ (f : F64) (hash : ℕ → ℕ → ℕ → ℕ → String) where
  unfoldable pub deterministic_state_hash : MetabolismController f → String
  deterministic_state_hash c =
      hash c.fast_clock.epoch c.slow_clock.epoch (length c.ledger.entries)
        (account f c.reserve vram).committed

  abbrev tick : MetabolismController f → MetabolismController f
  tick c = record c { fast_clock = record c.fast_clock { epoch = wrap_add c.fast_clock.epoch 1 } }

  -- The inner loop of `replay`.
  unfoldable pub tick_times : ℕ → MetabolismController f → MetabolismController f
  tick_times zero c = c
  tick_times (suc n) c = tick_times n (tick c)

  unfoldable pub replay_records : List TraceRecord → MetabolismController f → MetabolismController f
  unfolding tick_times
  replay_records [] c = c
  replay_records (advance n ∷ rest) c = replay_records rest (tick_times n c)

  unfoldable pub replay :
      List TraceRecord → MetabolismController f → MetabolismController f × Replay
  unfolding replay_records deterministic_state_hash
  replay trace c =
      let d = replay_records trace c in
      (d, record { replay_hash = deterministic_state_hash d; mismatches = [] })

  abbrev pub with_epoch : MetabolismController f → ℕ → MetabolismController f
  with_epoch c n = record c { fast_clock = record c.fast_clock { epoch = n } }

  tick_times_lem :
      (n : ℕ) (c : MetabolismController f)
      → c.fast_clock.epoch ≤ u64_max
      → tick_times n c ≡ with_epoch c ((c.fast_clock.epoch + n) % u64_size)
  unfolding tick_times
  tick_times_lem zero c w =
      let e : (c.fast_clock.epoch + 0) % u64_size ≡ c.fast_clock.epoch = omega arith in rw e
  tick_times_lem (suc n) c w =
      let e : (wrap_add c.fast_clock.epoch 1 + n) % u64_size
          ≡ (c.fast_clock.epoch + suc n) % u64_size =
        omega arith in
      tick_times_lem n (tick c) (omega arith) ∙ ap (with_epoch c) e

  replay_records_lem :
      (trace : List TraceRecord) (c : MetabolismController f)
      → c.fast_clock.epoch ≤ u64_max
      → replay_records trace c ≡ with_epoch c ((c.fast_clock.epoch + total_ticks trace) % u64_size)
  unfolding replay_records
  replay_records_lem [] c w = tick_times_lem zero c w
  replay_records_lem (advance n ∷ rest) c w =
      let e : ((c.fast_clock.epoch + n) % u64_size + total_ticks rest) % u64_size
          ≡ (c.fast_clock.epoch + (n + total_ticks rest)) % u64_size =
        omega arith in
      rw (tick_times_lem n c w) (
        replay_records_lem rest (with_epoch c ((c.fast_clock.epoch + n) % u64_size)) (omega arith)
        ∙ ap (with_epoch c) e)

  -- A replay moves the fast epoch by the sum of the recorded advances, modulo the word size,
  -- and nothing else of the controller; it never reports a mismatch.
  pub replay_lem :
      (trace : List TraceRecord) (c : MetabolismController f)
      → c.fast_clock.epoch ≤ u64_max
      → let (d, r) = replay trace c in
        (d ≡ with_epoch c ((c.fast_clock.epoch + total_ticks trace) % u64_size))
        × (r.replay_hash ≡ deterministic_state_hash d)
        × (r.mismatches ≡ [])
  unfolding replay
  replay_lem trace c w = (replay_records_lem trace c w, refl, refl)
