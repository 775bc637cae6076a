-- ===== src/Metabolism/Ledger/Credit.antt =====
-- The credits of the ledger of har/crates/har-metabolism/src/ledger.rs.
use remora_lab.Metabolism.Errors.{ok, IsErr}
use remora_lab.Base.{
  ℕ, ◌+◌, ◌≡◌, ◌<◌, ◌⊎◌, String, Bool, true, false, List, [], ◌∷◌, arith, u64_max, min, string_eq,
  nat_eq, ◌==◌, ◌||◌, is_empty,
}
use remora_lab.Base.Dict.{Dict, insert, contains_key, lookup-insert}
use remora_lab.Metabolism.Ledger.{
  CreditEvidence, WasteLedger, record_spent, record_reclaim, grant_reuse_credit,
  grant_overlap_credit,
}
use remora_lab.Metabolism.Ledger.Book.{Op, spent, reclaim, reuse, overlap, apply, run}

-- The identity has received a credit of either kind.
abbrev pub credited : String → WasteLedger → Bool
credited id l = contains_key id l.reuse_credit_given || contains_key id l.overlap_credit_given

contains_key-insert :
    (k j : String) (v : ℕ) (d : Dict String ℕ)
    → contains_key j (insert k v d) ≡ (k == j || contains_key j d)
contains_key-insert k j v d = ground (arith, lookup-insert k j v d)

credited-apply :
    (op : Op) (id : String) (l : WasteLedger)
    → credited id l ≡ true
    → credited id (apply op l) ≡ true
unfolding apply record_spent record_reclaim grant_reuse_credit grant_overlap_credit
credited-apply (spent class i work tokens gen) id l h = ground arith
credited-apply (reclaim i base_seq) id l h = ground arith
credited-apply (reuse e) id l h =
    ground (arith, contains_key-insert e.witness_identity id e.redeems_tokens l.reuse_credit_given)
credited-apply (overlap i bytes) id l h =
    ground (arith, contains_key-insert i id bytes l.overlap_credit_given)

credited-run :
    (ops : List Op) (id : String) (l : WasteLedger)
    → credited id l ≡ true
    → credited id (run ops l) ≡ true
unfolding run
credited-run [] id l h = h
credited-run (op ∷ ops) id l h = credited-run ops id (apply op l) (credited-apply op id l h)

refused_reuse :
    (e : CreditEvidence) (l : WasteLedger)
    → credited e.witness_identity l ≡ true
    → ((grant_reuse_credit e l).0 ≡ l) × IsErr (grant_reuse_credit e l).1
unfolding grant_reuse_credit
refused_reuse e l h = ground arith

refused_overlap :
    (id : String) (bytes : ℕ) (l : WasteLedger)
    → credited id l ≡ true
    → ((grant_overlap_credit id bytes l).0 ≡ l) × IsErr (grant_overlap_credit id bytes l).1
unfolding grant_overlap_credit
refused_overlap id bytes l h = ground arith

-- No identity is credited twice: once it has received a reuse or an overlap credit, then after any
-- further calls both kinds of credit are refused for it, with an error and an unchanged ledger.
pub no_double_credit :
    (ops : List Op) (e : CreditEvidence) (bytes : ℕ) (l : WasteLedger)
    → credited e.witness_identity l ≡ true
    → let l' = run ops l in
      ((grant_reuse_credit e l').0 ≡ l')
      × IsErr (grant_reuse_credit e l').1
      × ((grant_overlap_credit e.witness_identity bytes l').0 ≡ l')
      × IsErr (grant_overlap_credit e.witness_identity bytes l').1
no_double_credit ops e bytes l h =
    let c = credited-run ops e.witness_identity l h in
    let r = refused_reuse e (run ops l) c in
    let o = refused_overlap e.witness_identity bytes (run ops l) c in (r.0, r.1, o.0, o.1)

-- A reuse credit is granted exactly for a named identity that was reclaimed before and has no
-- credit. The grant adds the redeemed tokens to the total and marks the identity; a refusal
-- changes nothing.
pub grant_reuse_credit-exact :
    (e : CreditEvidence) (l : WasteLedger)
    → let (l', r) = grant_reuse_credit e l in
      ((r ≡ ok true)
        × (is_empty e.witness_identity ≡ false)
        × (contains_key e.witness_identity l.reclaimed ≡ true)
        × (credited e.witness_identity l ≡ false)
        × (credited e.witness_identity l' ≡ true)
        × (l'.totals.reuse_credit_ms ≡ min (l.totals.reuse_credit_ms + e.redeems_tokens) u64_max)
        × (l'.totals.overlap_credit_ms ≡ l.totals.overlap_credit_ms))
      ⊎ (IsErr r
          × (l' ≡ l)
          × ((is_empty e.witness_identity ≡ true)
              ⊎ (contains_key e.witness_identity l.reclaimed ≡ false)
              ⊎ (credited e.witness_identity l ≡ true)))
unfolding grant_reuse_credit
grant_reuse_credit-exact e l =
    let m =
      contains_key-insert e.witness_identity e.witness_identity e.redeems_tokens
        l.reuse_credit_given in
    let s = string_eq.beq_iff e.witness_identity e.witness_identity in ground arith

-- An overlap credit asks for no earlier reclaim: measured bytes and an identity without a credit
-- are enough, whatever has been reclaimed.
pub overlap_without_reclaim :
    (id : String) (bytes : ℕ) (l : WasteLedger)
    → 0 < bytes
    → credited id l ≡ false
    → (grant_overlap_credit id bytes l).1 ≡ ok true
unfolding grant_overlap_credit
overlap_without_reclaim id bytes l pos fresh = ground arith

-- Every reuse credit was preceded by a reclaim of the same identity.
abbrev pub IsReclaimed : WasteLedger → Type 0
IsReclaimed l =
    (id : String)
    → (contains_key id l.reuse_credit_given ≡ false) ⊎ (contains_key id l.reclaimed ≡ true)

pub apply-IsReclaimed : (op : Op) (l : WasteLedger) → IsReclaimed l → IsReclaimed (apply op l)
unfolding apply record_spent record_reclaim grant_reuse_credit grant_overlap_credit
apply-IsReclaimed (spent class i work tokens gen) l h id = ground (arith, h id)
apply-IsReclaimed (reclaim i base_seq) l h id =
    ground (arith, h id, contains_key-insert i id base_seq l.reclaimed)
apply-IsReclaimed (reuse e) l h id = ground (
  arith,
  h id,
  contains_key-insert e.witness_identity id e.redeems_tokens l.reuse_credit_given,
  string_eq.beq_iff e.witness_identity id,
)
apply-IsReclaimed (overlap i bytes) l h id = ground (arith, h id)

-- After any sequence of calls on a ledger in which every reuse credit was preceded by a reclaim,
-- every reuse credit is still one for a reclaimed identity.
pub run-IsReclaimed : (ops : List Op) (l : WasteLedger) → IsReclaimed l → IsReclaimed (run ops l)
unfolding run
run-IsReclaimed [] l h = h
run-IsReclaimed (op ∷ ops) l h = run-IsReclaimed ops (apply op l) (apply-IsReclaimed op l h)
