-- ===== src/Metabolism/Reclaim.antt =====
-- har/crates/har-metabolism/src/reclaim.rs: which spent work may be presented as reusable.
use remora_lab.Base.{ℕ, ◌≡◌, String, none, some, find, ◌==◌, nat_eq, arith}
use remora_lab.Metabolism.Errors.{Result, ok, err, invariant}
use remora_lab.Metabolism.Artifact.{ArtifactEnvelope, ReuseClass}
use remora_lab.Metabolism.Ledger.{
  LedgerClass, LedgerEntry, WasteLedger, authoritative_useful, authoritative_discarded,
  speculation_miss, record_spent,
}
use remora_lab.Metabolism.Ledger.Sequence.{IsCounted, find-record_spent}

-- The decisions have the names of the reuse classes.
pub data ReclaimDecision : Type 0 where
  exact_reusable conditional_reusable informational_only unrecoverable : ReclaimDecision

-- The `match` on the correctness class at the end of `classify`.
abbrev pub of_class : ReuseClass → ReclaimDecision
of_class ReuseClass.exact_reusable = exact_reusable
of_class ReuseClass.conditional_reusable = conditional_reusable
of_class ReuseClass.informational_only = informational_only
of_class ReuseClass.unrecoverable = unrecoverable

abbrev pub decide : LedgerClass → ReuseClass → ReclaimDecision
decide authoritative_useful c = of_class c
decide authoritative_discarded c = unrecoverable
decide speculation_miss c = unrecoverable

unfoldable pub classify : WasteLedger → ℕ → ArtifactEnvelope → Result ReclaimDecision
classify l entry_seq current = elim (find (λ e. e.seq == entry_seq) l.entries) [
  | none ↦ err (invariant entry_seq)
  | some e ↦ ok (decide e.class current.correctness_class)
]

-- Work that has just been recorded is classified by its own class and the current envelope:
-- only useful work can be reused, and then exactly as far as the envelope allows.
pub classify-record_spent :
    (class : LedgerClass) (id : String) (work tokens gen : ℕ) (l : WasteLedger)
    (current : ArtifactEnvelope)
    → IsCounted l
    → let (l', seq) = record_spent class id work tokens gen l in
      classify l' seq current ≡ ok (decide class current.correctness_class)
unfolding classify
classify-record_spent class id work tokens gen l current h =
    rw (find-record_spent class id work tokens gen l h, classify)

-- Only an entry of the ledger that was useful exact work is ever called exactly reusable, and only
-- under an envelope that says so.
pub classify-exact :
    (l : WasteLedger) (seq : ℕ) (current : ArtifactEnvelope)
    → classify l seq current ≡ ok exact_reusable
    → (e : LedgerEntry) × (find (λ x. x.seq == seq) l.entries ≡ some e)
      × (e.class ≡ authoritative_useful)
      × (current.correctness_class ≡ ReuseClass.exact_reusable)
unfolding classify
classify-exact l seq current h = ground arith
