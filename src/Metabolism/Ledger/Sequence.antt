-- ===== src/Metabolism/Ledger/Sequence.antt =====
-- The entries of the ledger of har/crates/har-metabolism/src/ledger.rs: append-only and numbered.
use remora_lab.Base.{
  ℕ, ◌+◌, ◌≡◌, ◌≤◌, ◌<◌, String, List, [], ◌∷◌, ◌++◌, length, arith, u64_max, nat_eq, ◌==◌, find,
  some, length-append,
}
use remora_lab.Metabolism.Ledger.{
  LedgerClass, LedgerEntry, WasteLedger, record_spent, record_reclaim, grant_reuse_credit,
  grant_overlap_credit,
}
use remora_lab.Metabolism.Ledger.Book.{Op, spent, reclaim, reuse, overlap, apply, run}

-- The entries carry the numbers from `k` on.
abbrev pub IsNumbered : ℕ → List LedgerEntry → Type 0
IsNumbered k [] = Unit
IsNumbered k (e ∷ es) = (e.seq ≡ k) × IsNumbered (k + 1) es

IsNumbered-append :
    (k : ℕ) (es : List LedgerEntry) (e : LedgerEntry)
    → IsNumbered k es
    → e.seq ≡ k + length es
    → IsNumbered k (es ++ e ∷ [])
IsNumbered-append k [] e h q = omega arith
IsNumbered-append k (x ∷ es) e h q = (h.0, IsNumbered-append (k + 1) es e h.1 (omega arith))

-- The entries are numbered from 0, and the next number is their count.
pub record IsCounted (l : WasteLedger) : Type 0 where
  pub numbered : IsNumbered 0 l.entries
  pub next : l.next_seq ≡ length l.entries

record_spent-IsCounted :
    (class : LedgerClass) (id : String) (work tokens gen : ℕ) (l : WasteLedger)
    → IsCounted l
    → length l.entries < u64_max
    → IsCounted (record_spent class id work tokens gen l).0
unfolding record_spent
record_spent-IsCounted class id work tokens gen l h room = record {
  numbered = IsNumbered-append 0 l.entries _ h.numbered (omega (arith, h.next));
  next = omega (arith, h.next, length-append {0} l.entries);
}

length-apply : (op : Op) (l : WasteLedger) → length (apply op l).entries ≤ length l.entries + 1
unfolding apply record_spent record_reclaim grant_reuse_credit grant_overlap_credit
length-apply (spent class id work tokens gen) l = omega (arith, length-append {0} l.entries)
length-apply (reclaim id base_seq) l = ground arith
length-apply (reuse e) l = ground arith
length-apply (overlap id bytes) l = ground arith

apply-IsCounted :
    (op : Op) (l : WasteLedger) → IsCounted l → length l.entries < u64_max → IsCounted (apply op l)
unfolding apply record_reclaim grant_reuse_credit grant_overlap_credit
apply-IsCounted (spent class id work tokens gen) l h room =
    record_spent-IsCounted class id work tokens gen l h room
apply-IsCounted (reclaim id base_seq) l h room = ground arith
apply-IsCounted (reuse e) l h room = ground arith
apply-IsCounted (overlap id bytes) l h room = ground arith

-- As long as the number of calls stays below the largest u64, the entries are numbered 0, 1, 2, …
-- in the order in which they were recorded, so no two entries share a number.
pub run-IsCounted :
    (ops : List Op) (l : WasteLedger)
    → IsCounted l
    → length l.entries + length ops ≤ u64_max
    → IsCounted (run ops l)
unfolding run
run-IsCounted [] l h room = h
run-IsCounted (op ∷ ops) l h room =
    run-IsCounted ops (apply op l) (apply-IsCounted op l h (omega arith))
      (omega (arith, length-apply op l))

find-numbered :
    (k : ℕ) (es : List LedgerEntry) (e : LedgerEntry)
    → IsNumbered k es
    → e.seq ≡ k + length es
    → find (λ x. x.seq == e.seq) (es ++ e ∷ []) ≡ some e
find-numbered k [] e h q = ground arith
find-numbered k (x ∷ es) e h q = ground (arith, find-numbered (k + 1) es e h.1 (omega arith))

-- The number that `record_spent` returns finds the entry that it recorded.
pub find-record_spent :
    (class : LedgerClass) (id : String) (work tokens gen : ℕ) (l : WasteLedger)
    → IsCounted l
    → let (l', seq) = record_spent class id work tokens gen l in
      find (λ e. e.seq == seq) l'.entries
      ≡ some (record {
        seq = seq;
        gen = gen;
        class = class;
        token_identity = id;
        work_mib_ms = work;
        tokens = tokens;
      })
unfolding record_spent
find-record_spent class id work tokens gen l h =
    find-numbered 0 l.entries
      (record {
        seq = l.next_seq;
        gen = gen;
        class = class;
        token_identity = id;
        work_mib_ms = work;
        tokens = tokens;
      })
      h.numbered (omega (arith, h.next))
