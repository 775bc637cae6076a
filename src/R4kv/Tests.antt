-- ===== src/R4kv/Tests.antt =====
-- The transfer queue of har/crates/r4kv/src/dma.rs at concrete data.
use remora_lab.Base.{◌≡◌, refl, List, [], ◌∷◌, arith, some, none, true, ◌⊎◌, suc, map}
use remora_lab.Base.Real.{fractions}
use remora_lab.R4kv.Dma.{
  TransferRecord, DmaEngine, new_engine, mirror, promote, failed, queued, is_over, await_completion,
  poll_completion, submit_batch, queued_record,
}
use remora_lab.R4kv.Dma.Arena.{IsSound}
use remora_lab.R4kv.Dma.Polling.{
  Op, ask, submit, poll, reclaim, run_transport, run_transport-IsSound,
  poll_completion-submit_batch, finished, unfinished,
}
use remora_lab.R4kv.Dma.Awaiting.{found, await_completion_lem}

abbrev engine : DmaEngine fractions
engine = new_engine fractions 8

engine-IsSound : IsSound fractions engine
engine-IsSound = record {
  arena = refl;
  room = omega arith;
  bound = omega arith;
  queue = refl;
  numbered = omega arith;
}

abbrev transport : List (Op fractions)
transport = ask mirror 101 16777216 ∷ ask promote 202 4096 ∷ submit ∷ poll (5, 1) ∷ reclaim ∷ []

run_transport-IsSound_example : IsSound fractions (run_transport fractions transport engine)
run_transport-IsSound_example =
    run_transport-IsSound fractions transport engine (omega arith) (omega arith) engine-IsSound

-- An engine that has one transfer queued.
abbrev loaded : DmaEngine fractions
loaded = record engine {
  arena_used = 4096;
  queue = record { id = 1; kind = mirror; page_id = 101; bytes = 4096 } ∷ [];
  records =
      queued_record fractions (record { id = 1; kind = mirror; page_id = 101; bytes = 4096 }) ∷ [];
  next_id = 2;
}

loaded-IsSound : IsSound fractions loaded
loaded-IsSound = record {
  arena = refl;
  room = omega arith;
  bound = omega arith;
  queue = refl;
  numbered = omega arith;
}

poll_completion-submit_batch_example :
    let (d, done) = poll_completion fractions (7, 1) (submit_batch fractions loaded).0 in
    (d.records ≡ map (finished fractions (7, 1)) loaded.records)
    × (done ≡ unfinished fractions loaded.records)
    × (d.arena_used ≡ 0)
    × (d.queue ≡ [])
poll_completion-submit_batch_example =
    poll_completion-submit_batch fractions (7, 1) loaded loaded-IsSound

await_completion_lem_example :
    let d = (poll_completion fractions (7, 1) loaded).0 in
    ((found fractions 1 d ≡ none)
      × (await_completion fractions (suc 9) 1 (7, 1) loaded ≡ some (d, failed)))
    ⊎ ((r : TransferRecord fractions) × (found fractions 1 d ≡ some r)
        × (is_over r.state ≡ true)
        × (await_completion fractions (suc 9) 1 (7, 1) loaded ≡ some (d, r.state)))
    ⊎ ((r : TransferRecord fractions) × (found fractions 1 d ≡ some r)
        × (r.state ≡ queued)
        × (await_completion fractions (suc 9) 1 (7, 1) loaded ≡ none))
await_completion_lem_example = await_completion_lem fractions 9 1 (7, 1) loaded
