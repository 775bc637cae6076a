-- ===== src/Metabolism/Tests/Book.antt =====
-- A ledger of har/crates/har-metabolism/src/ledger.rs with one credited identity.
use remora_lab.Base.{
  ◌≡◌, refl, true, false, List, [], ◌∷◌, ◌+◌, ◌⊎◌, inl, min, u64_max, is_empty, nat_eq, string_eq,
}
use remora_lab.Base.Dict.{contains_key}
use remora_lab.Metabolism.Errors.{IsErr, ok}
use remora_lab.Metabolism.Artifact.{ArtifactEnvelope, ReuseClass}
use remora_lab.Metabolism.Ledger.{
  WasteLedger, CreditEvidence, authoritative_useful, new_ledger, speculation_miss, record_spent,
  record_reclaim, grant_reuse_credit, grant_overlap_credit,
}
use remora_lab.Metabolism.Ledger.Book.{
  IsBalanced, Op, run, apply, spent, reclaim, reuse, overlap, run-IsBalanced, new_ledger-IsBalanced,
}
use remora_lab.Metabolism.Ledger.Credit.{
  credited, IsReclaimed, no_double_credit, grant_reuse_credit-exact, run-IsReclaimed,
}
use remora_lab.Metabolism.Ledger.Sequence.{IsCounted}

-- The identity "kv" is reclaimed and then credited.
abbrev evidence : CreditEvidence
evidence = record {
  witness_identity = "kv";
  redeems_tokens = 40;
  bytes_moved = 4096;
  replay_gen = 1;
}

abbrev first_calls : List Op
first_calls = spent authoritative_useful "kv" 10 40 1 ∷ reclaim "kv" 0 ∷ reuse evidence ∷ []

abbrev later_calls : List Op
later_calls = spent speculation_miss "draft" 7 3 2 ∷ reclaim "kv" 1 ∷ overlap "draft" 512 ∷ []

abbrev used : WasteLedger
used = run first_calls new_ledger

used-credited : credited "kv" used ≡ true
unfolding run apply record_spent record_reclaim grant_reuse_credit
used-credited = refl

new_ledger-IsReclaimed : IsReclaimed new_ledger
new_ledger-IsReclaimed id = inl refl

new_ledger-IsCounted : IsCounted new_ledger
new_ledger-IsCounted = record { numbered = tt; next = refl }

no_double_credit_example :
    let l = run later_calls used in
    ((grant_reuse_credit evidence l).0 ≡ l)
    × IsErr (grant_reuse_credit evidence l).1
    × ((grant_overlap_credit "kv" 512 l).0 ≡ l)
    × IsErr (grant_overlap_credit "kv" 512 l).1
no_double_credit_example = no_double_credit later_calls evidence 512 used used-credited

grant_reuse_credit-exact_example :
    let (l', r) = grant_reuse_credit evidence used in
    ((r ≡ ok true)
      × (is_empty "kv" ≡ false)
      × (contains_key "kv" used.reclaimed ≡ true)
      × (credited "kv" used ≡ false)
      × (credited "kv" l' ≡ true)
      × (l'.totals.reuse_credit_ms ≡ min (used.totals.reuse_credit_ms + 40) u64_max)
      × (l'.totals.overlap_credit_ms ≡ used.totals.overlap_credit_ms))
    ⊎ (IsErr r
        × (l' ≡ used)
        × ((is_empty "kv" ≡ true)
            ⊎ (contains_key "kv" used.reclaimed ≡ false)
            ⊎ (credited "kv" used ≡ true)))
grant_reuse_credit-exact_example = grant_reuse_credit-exact evidence used

run-IsBalanced_example : IsBalanced (run later_calls new_ledger)
run-IsBalanced_example = run-IsBalanced later_calls new_ledger new_ledger-IsBalanced

run-IsReclaimed_example : IsReclaimed (run first_calls new_ledger)
run-IsReclaimed_example = run-IsReclaimed first_calls new_ledger new_ledger-IsReclaimed

abbrev envelope : ArtifactEnvelope
envelope = record {
  artifact_id = "kv";
  payload_hash = "p";
  causal_prefix = "c";
  dependency_root = "d";
  token_identity = "t";
  model_root = "m";
  tensor_root = "t";
  package_root = "p";
  runtime_version = "1";
  graph_identity = "g";
  backend_identity = "b";
  kernel_identity = "k";
  precision = "f16";
  quantization = "q4";
  device = "gpu";
  creation_cost = 3;
  creation_gen = 1;
  validation_rule = "exact";
  expiry_gen = 9;
  correctness_class = ReuseClass.exact_reusable;
}
