-- ===== src/Metabolism/Tests/Accounts.antt =====
-- Accounts and tables of har/crates/har-metabolism/src/reserve.rs, and the portion gate over them.
use remora_lab.Base.{◌≡◌, refl, true, false, List, [], ◌∷◌, ◌≤◌, ◌+◌, arith, ℕ, u64_max, ◌⊎◌, ◌<◌}
use remora_lab.Metabolism.Reserve.{dim_eq}
use remora_lab.Base.Real.{fractions}
use remora_lab.Metabolism.Reserve.{
  ReserveTable, new_account, ReserveDim, commit, ReserveAccount, vram, new_table, available,
  gpu_compute,
}
use remora_lab.Metabolism.Portion.{Portion, PortionInput}
use remora_lab.Metabolism.Reserve.Table.{
  TableOp, IsSoundTable, run, new_table-IsSound, run-IsSound, advance_op,
}
use remora_lab.Metabolism.Reserve.Floor.{
  IsSound, new_account-IsSound, commit_op, release_op, commit-floor, AccountOp, reach, settle_op,
  run_account, all_mobilized, run_account-reach, mobilize_op,
}

-- 100 MiB, of which 20 are protected.
abbrev fresh : ReserveAccount
fresh = new_account fractions 100 20

fresh-IsSound : IsSound fractions fresh
fresh-IsSound = new_account-IsSound fractions 100 20 (omega arith)

fresh-admits : (commit fractions fresh 30).1 ≡ true
unfolding commit available new_account
fresh-admits = refl

fresh-room : fresh.debt + fresh.capacity ≤ u64_max
unfolding new_account
fresh-room = omega arith

commit-floor_example :
    let (b, done) = commit fractions fresh 30 in
    ((done ≡ true)
      × (b.committed ≡ fresh.committed + 30)
      × (b.protected_min + b.committed + b.debt ≤ b.capacity))
    ⊎ ((done ≡ false) × (b ≡ fresh) × (available fresh < 30))
commit-floor_example = commit-floor fractions fresh 30 fresh-IsSound.word (omega arith)

abbrev ops : List AccountOp
ops = commit_op 50 ∷ mobilize_op 40 3 ∷ release_op 10 ∷ settle_op 200 ∷ []

run_account-reach_example :
    reach fractions (run_account fractions ops fresh)
    ≤ reach fractions fresh + all_mobilized fractions ops fresh
run_account-reach_example = run_account-reach fractions ops fresh fresh-IsSound.word

abbrev triples : List (ReserveDim × ℕ × ℕ)
triples = (vram, 100, 20) ∷ (gpu_compute, 8, 0) ∷ []

abbrev table : ReserveTable
table = new_table fractions triples

table-IsSound : IsSoundTable fractions table
table-IsSound = new_table-IsSound fractions triples (omega arith)

abbrev table_calls : List TableOp
table_calls = TableOp.commit_op vram 30 ∷ TableOp.mobilize_op vram 60 1 ∷ advance_op 200 ∷ []

run-IsSound_example : IsSoundTable fractions (run fractions table_calls table)
run-IsSound_example = run-IsSound fractions table_calls table table-IsSound

abbrev request : PortionInput
request = record {
  artifact_id = "kv";
  expected_tokens = 16;
  transfer_cost_bytes = 4096;
  compute_cost_ms = 2;
}

abbrev no_spends : Portion
no_spends = record { approved_total_tokens = 0; approved_spends = 0; rejected_spends = 0 }
