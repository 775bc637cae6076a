-- ===== src/Metabolism/Ledger.antt =====
-- har/crates/har-metabolism/src/ledger.rs: the append-only book of spent work, and the credits that
-- it grants.
pub mod Credit
pub mod Book
pub mod Sequence
use remora_lab.Base.{
  ℕ, Bool, true, false, String, List, [], ◌∷◌, ◌++◌, length, arith, ◌==◌, nat_eq, string_eq, ◌||◌,
  is_empty, if◌then◌else◌, sat_add,
}
use remora_lab.Base.Dict.{Dict, contains_key, insert}
use remora_lab.Metabolism.Errors.{Result, ok, err, double_credit, fail_closed, invalid_artifact}

pub data LedgerClass : Type 0 where
  authoritative_useful authoritative_discarded speculation_miss : LedgerClass

pub record LedgerEntry : Type 0 where
  pub seq : ℕ
  pub gen : ℕ
  pub class : LedgerClass
  pub token_identity : String
  pub work_mib_ms : ℕ
  pub tokens : ℕ

pub record LedgerTotals : Type 0 where
  pub spent_work_mib_ms : ℕ
  pub useful_tokens : ℕ
  pub wasted_tokens : ℕ
  pub speculation_misses : ℕ
  pub waste_spec_ms : ℕ
  pub wasted_mib : ℕ
  pub reuse_credit_ms : ℕ
  pub overlap_credit_ms : ℕ

pub record CreditEvidence : Type 0 where
  pub witness_identity : String
  pub redeems_tokens : ℕ
  pub bytes_moved : ℕ
  pub replay_gen : ℕ

unfoldable pub is_known : CreditEvidence → Bool
is_known e = if is_empty e.witness_identity then false else true

pub record WasteLedger : Type 0 where
  pub entries : List LedgerEntry
  pub totals : LedgerTotals
  pub reclaimed : Dict String ℕ
  pub reuse_credit_given : Dict String ℕ
  pub overlap_credit_given : Dict String ℕ
  pub next_seq : ℕ

abbrev pub no_totals : LedgerTotals
no_totals = record {
  spent_work_mib_ms = 0;
  useful_tokens = 0;
  wasted_tokens = 0;
  speculation_misses = 0;
  waste_spec_ms = 0;
  wasted_mib = 0;
  reuse_credit_ms = 0;
  overlap_credit_ms = 0;
}

abbrev pub new_ledger : WasteLedger
new_ledger = record {
  entries = [];
  totals = no_totals;
  reclaimed = [];
  reuse_credit_given = [];
  overlap_credit_given = [];
  next_seq = 0;
}

-- The `match class` of `record_spent`.
unfoldable pub count_class : LedgerClass → ℕ → ℕ → LedgerTotals → LedgerTotals
count_class authoritative_useful work tokens t = record t {
  useful_tokens = sat_add t.useful_tokens tokens;
}
count_class authoritative_discarded work tokens t = record t {
  wasted_tokens = sat_add t.wasted_tokens tokens;
}
count_class speculation_miss work tokens t = record t {
  speculation_misses = sat_add t.speculation_misses 1;
  waste_spec_ms = sat_add t.waste_spec_ms tokens;
  wasted_mib = sat_add t.wasted_mib work;
}

abbrev count_work : ℕ → LedgerTotals → LedgerTotals
count_work work t = record t { spent_work_mib_ms = sat_add t.spent_work_mib_ms work }

-- It never fails.
unfoldable pub record_spent : LedgerClass → String → ℕ → ℕ → ℕ → WasteLedger → WasteLedger × ℕ
unfolding count_class
record_spent class token_identity work_mib_ms tokens gen l = (
  record l {
    next_seq = sat_add l.next_seq 1;
    totals = count_work work_mib_ms (count_class class work_mib_ms tokens l.totals);
    entries =
        l.entries
        ++ record {
          seq = l.next_seq;
          gen = gen;
          class = class;
          token_identity = token_identity;
          work_mib_ms = work_mib_ms;
          tokens = tokens;
        }
          ∷ [];
  },
  l.next_seq,
)

unfoldable pub record_reclaim : String → ℕ → WasteLedger → WasteLedger × Result Bool
record_reclaim identity base_seq l =
    if is_empty identity
    then (l, err (invalid_artifact "empty reclaim identity"))
    else if contains_key identity l.reclaimed
    then (l, err (double_credit identity))
    else (record l { reclaimed = insert identity base_seq l.reclaimed }, ok true)

unfoldable pub grant_reuse_credit : CreditEvidence → WasteLedger → WasteLedger × Result Bool
unfolding is_known
grant_reuse_credit e l =
    let id = e.witness_identity in
    if is_known e
    then if contains_key id l.reclaimed
      then if contains_key id l.reuse_credit_given || contains_key id l.overlap_credit_given
        then (l, err (double_credit id))
        else (
          record l {
            reuse_credit_given = insert id e.redeems_tokens l.reuse_credit_given;
            totals = record l.totals {
              reuse_credit_ms = sat_add l.totals.reuse_credit_ms e.redeems_tokens;
            };
          },
          ok true,
        )
      else (l, err (invalid_artifact "reuse credit requires a prior reclaim for the same identity"))
    else (l, err (fail_closed "unknown credit evidence"))

unfoldable pub grant_overlap_credit : String → ℕ → WasteLedger → WasteLedger × Result Bool
grant_overlap_credit witness_identity bytes_moved l =
    if bytes_moved == 0
    then (l, err (fail_closed "overlap credit without measured bytes"))
    else if contains_key witness_identity l.reuse_credit_given
        || contains_key witness_identity l.overlap_credit_given
    then (l, err (double_credit witness_identity))
    else (
      record l {
        overlap_credit_given = insert witness_identity bytes_moved l.overlap_credit_given;
        totals = record l.totals {
          overlap_credit_ms = sat_add l.totals.overlap_credit_ms bytes_moved;
        };
      },
      ok true,
    )
