-- ===== src/Metabolism/Ledger/Book.antt =====
-- The totals of the ledger of har/crates/har-metabolism/src/ledger.rs against its entries.
use remora_lab.Base.{
  ℕ, ◌+◌, ◌≡◌, String, List, [], ◌∷◌, ◌++◌, arith, u64_max, min, string_eq, nat_eq, ◌==◌,
  if◌then◌else◌,
}
use remora_lab.Metabolism.Ledger.{
  LedgerClass, authoritative_useful, authoritative_discarded, speculation_miss, LedgerEntry,
  CreditEvidence, WasteLedger, new_ledger, record_spent, record_reclaim, grant_reuse_credit,
  grant_overlap_credit,
}

-- A call of a method that changes the ledger.
pub data Op : Type 0 where
  spent : LedgerClass → String → ℕ → ℕ → ℕ → Op
  reclaim : String → ℕ → Op
  reuse : CreditEvidence → Op
  overlap : String → ℕ → Op

unfoldable pub apply : Op → WasteLedger → WasteLedger
apply (spent class id work tokens gen) l = (record_spent class id work tokens gen l).0
apply (reclaim id base_seq) l = (record_reclaim id base_seq l).0
apply (reuse e) l = (grant_reuse_credit e l).0
apply (overlap id bytes) l = (grant_overlap_credit id bytes l).0

unfoldable pub run : List Op → WasteLedger → WasteLedger
run [] l = l
run (op ∷ ops) l = run ops (apply op l)

-- The sum of a quantity over the entries.
abbrev pub sum_of : (LedgerEntry → ℕ) → List LedgerEntry → ℕ
sum_of g [] = 0
sum_of g (e ∷ es) = g e + sum_of g es

sum_of-append :
    (g : LedgerEntry → ℕ) (es : List LedgerEntry) (e : LedgerEntry)
    → sum_of g (es ++ e ∷ []) ≡ sum_of g es + g e
sum_of-append g [] e = omega arith
sum_of-append g (x ∷ es) e = omega (arith, sum_of-append g es e)

abbrev pub class_index : LedgerClass → ℕ
class_index authoritative_useful = 0
class_index authoritative_discarded = 1
class_index speculation_miss = 2

-- A quantity of the entries of one class.
abbrev pub of_class : LedgerClass → (LedgerEntry → ℕ) → LedgerEntry → ℕ
of_class c g e = if class_index c == class_index e.class then g e else 0

-- Each total is the saturated sum over the entries of its class.
pub record IsBalanced (l : WasteLedger) : Type 0 where
  pub spent : l.totals.spent_work_mib_ms ≡ min (sum_of (λ e. e.work_mib_ms) l.entries) u64_max
  pub useful :
      l.totals.useful_tokens
      ≡ min (sum_of (of_class authoritative_useful (λ e. e.tokens)) l.entries) u64_max
  pub wasted :
      l.totals.wasted_tokens
      ≡ min (sum_of (of_class authoritative_discarded (λ e. e.tokens)) l.entries) u64_max
  pub misses :
      l.totals.speculation_misses
      ≡ min (sum_of (of_class speculation_miss (λ e. 1)) l.entries) u64_max
  pub missed_ms :
      l.totals.waste_spec_ms
      ≡ min (sum_of (of_class speculation_miss (λ e. e.tokens)) l.entries) u64_max
  pub missed_mib :
      l.totals.wasted_mib
      ≡ min (sum_of (of_class speculation_miss (λ e. e.work_mib_ms)) l.entries) u64_max

record_spent-IsBalanced :
    (class : LedgerClass) (id : String) (work tokens gen : ℕ) (l : WasteLedger)
    → IsBalanced l
    → IsBalanced (record_spent class id work tokens gen l).0
unfolding record_spent
record_spent-IsBalanced authoritative_useful id work tokens gen l h = grind (arith, sum_of-append)
record_spent-IsBalanced authoritative_discarded id work tokens gen l h =
    grind (arith, sum_of-append)
record_spent-IsBalanced speculation_miss id work tokens gen l h = grind (arith, sum_of-append)

pub apply-IsBalanced : (op : Op) (l : WasteLedger) → IsBalanced l → IsBalanced (apply op l)
unfolding apply record_reclaim grant_reuse_credit grant_overlap_credit
apply-IsBalanced (spent class id work tokens gen) l h =
    record_spent-IsBalanced class id work tokens gen l h
apply-IsBalanced (reclaim id base_seq) l h = ground arith
apply-IsBalanced (reuse e) l h = ground arith
apply-IsBalanced (overlap id bytes) l h = ground arith

-- After any sequence of calls on a balanced ledger, each total of spent, useful, discarded and
-- speculative work is the sum over the recorded entries of its class, cut off at the largest u64.
pub run-IsBalanced : (ops : List Op) (l : WasteLedger) → IsBalanced l → IsBalanced (run ops l)
unfolding run
run-IsBalanced [] l h = h
run-IsBalanced (op ∷ ops) l h = run-IsBalanced ops (apply op l) (apply-IsBalanced op l h)

pub new_ledger-IsBalanced : IsBalanced new_ledger
new_ledger-IsBalanced = omega arith
