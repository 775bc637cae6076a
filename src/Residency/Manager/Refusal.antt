-- ===== src/Residency/Manager/Refusal.antt =====
-- har/crates/har-residency/src/manager.rs: what a reservation leaves when it fails.
use remora_lab.Base.{
  ℕ, ◌≡◌, refl, sym, ap, ◌∙◌, Bool, true, Option, none, some, arith, Bool-cases, Option-cases, inl,
  inr, ◌==◌, ◌!=◌, not_ne, ltb, nat_eq, String,
}
use mathlib.Core.Path.{subst}
use remora_lab.Base.Dict.{Dict, lookup, insert, lookup-insert, lookup-insert_self}
use remora_lab.Residency.Types.{PageId, page_eq, ram_pinned, ExpertProjection}
use remora_lab.Residency.State
use remora_lab.Residency.State.{ResidencyState, state_eq, legal_transition}
use remora_lab.Residency.Record.{ResidencyRecord, transition, has_replica}
use remora_lab.Residency.Slots.{VramSlotTable, reserve}
use remora_lab.Residency.Slots.Refusal.{reserve-err}
use remora_lab.Residency.Attempt.{ResidencyError, Result, ok, err, Attempt, Done, at_key-some}
use remora_lab.Residency.Manager.{get_record, ResidencyManager, on_record, adjust}
use remora_lab.Residency.Manager.Calls.{
  get_snapshot, pinned_budget, reserve_vram, attempt_reservation, settle_reservation, try_slots,
}
use remora_lab.Residency.Manager.Lifecycle.{Life, life}

pub on_record-some :
    (p : PageId) (op : Attempt ResidencyRecord Done) (s : ResidencyManager) (r : ResidencyRecord)
    → lookup p s.records ≡ some r
    → on_record p op s ≡ (record s { records = insert p (op r).0 s.records }, (op r).1)
unfolding on_record
on_record-some p op s r h =
    ap (λ x. (record s { records = x.0 }, x.1)) (at_key-some p _ op s.records r h)

ok_err : {n : ℕ} {e : ResidencyError} → ok n ≡ err e → ⊥
ok_err h = ground arith

-- A legal transition.
pub transition-legal :
    (n : ResidencyState) (t : String) (r : ResidencyRecord)
    → legal_transition r.state n ≡ true
    → ((transition n t r).1 ≡ ok tt) × (life (transition n t r).0 ≡ (r.generation, n))
unfolding transition
transition-legal n t r h = rw h (refl, refl)

abbrev pub life_of : Option ResidencyRecord → Option Life
life_of none = none
life_of (some r) = some (life r)

abbrev pub life_at : PageId → ResidencyManager → Option Life
life_at k m = life_of (lookup k m.records)

-- The slots, the counters and the tickets are as before, and so are the generation and the state of
-- every page.
pub record IsUnmoved (s t : ResidencyManager) : Type 0 where
  pub slots : t.slots ≡ s.slots
  pub snapshot : t.snapshot ≡ s.snapshot
  pub tickets : t.tickets ≡ s.tickets
  pub lives : (k : PageId) → life_at k t ≡ life_at k s

IsUnmoved-refl : (s : ResidencyManager) → IsUnmoved s s
IsUnmoved-refl s = record { slots = refl; snapshot = refl; tickets = refl; lives = λ k. refl }

module _ (p : PageId) (u : ResidencyManager) (r : ResidencyRecord) (h : lookup p u.records ≡ some r)
    (q : r.state ≡ State.vram_reservation_queued) where
  legal_from :
      (n : ResidencyState)
      → legal_transition State.vram_reservation_queued n ≡ true
      → legal_transition r.state n ≡ true
  legal_from n e = ap (λ x. legal_transition x n) q ∙ e

  settle_reservation-ok : (n : ℕ) → (settle_reservation p (ok n) u).1 ≡ ok n
  unfolding settle_reservation adjust legal_transition
  settle_reservation-ok n =
      rw
        (
          on_record-some p (transition State.vram_reserved "persistent VRAM slot reserved") u r h,
          (transition-legal State.vram_reserved "persistent VRAM slot reserved" r
              (legal_from State.vram_reserved refl)).0,
        )
        refl

  abbrev returned : ResidencyRecord
  returned = (transition State.ram_ready "VRAM reservation refused; RAM retained" r).0

  returned-life : life returned ≡ (r.generation, State.ram_ready)
  unfolding legal_transition
  returned-life =
      (transition-legal State.ram_ready "VRAM reservation refused; RAM retained" r
        (legal_from State.ram_ready refl)).1

  settle_reservation-err :
      (e : ResidencyError)
      → (settle_reservation p (err e) u).0 ≡ record u { records = insert p returned u.records }
  unfolding settle_reservation legal_transition
  settle_reservation-err e =
      rw
        (
          on_record-some p (transition State.ram_ready "VRAM reservation refused; RAM retained") u r
              h,
          (transition-legal State.ram_ready "VRAM reservation refused; RAM retained" r
              (legal_from State.ram_ready refl)).0,
        )
        refl

-- Two changes of one record that end in the same generation and state.
life_of-insert :
    (p : PageId) (r x y : ResidencyRecord) (d : Dict PageId ResidencyRecord)
    → lookup p d ≡ some r
    → life y ≡ life r
    → (k : PageId) → life_of (lookup k (insert p y (insert p x d))) ≡ life_of (lookup k d)
life_of-insert p r x y d h e k = elim (Bool-cases (p == k)) [
  | inr n ↦ rw (lookup-insert p k y (insert p x d), n, lookup-insert p k x d, n) refl
  | inl n ↦
      rw (lookup-insert p k y (insert p x d), n)
        (ap some e
          ∙ sym (ap (λ j. life_of (lookup j d)) (sym ((page_eq.beq_iff p k).0 n)) ∙ ap life_of h))
]

module _ (p : PageId) (j : ExpertProjection) (x : Bool) (s : ResidencyManager) (r : ResidencyRecord)
    (h : lookup p s.records ≡ some r) (q : r.state ≡ State.ram_ready) where
  abbrev queued_record : ResidencyRecord
  queued_record = (transition State.vram_reservation_queued "VRAM reservation queued" r).0

  abbrev attempted : VramSlotTable × Result ℕ
  attempted = reserve p r.generation j r.representation.bytes x s.slots

  abbrev reserving : ResidencyManager
  reserving = record s { records = insert p queued_record s.records; slots = attempted.0 }

  queued-legal :
      ((transition State.vram_reservation_queued "VRAM reservation queued" r).1 ≡ ok tt)
      × (life queued_record ≡ (r.generation, State.vram_reservation_queued))
  unfolding legal_transition
  queued-legal =
      transition-legal State.vram_reservation_queued "VRAM reservation queued" r
        (ap (λ y. legal_transition y State.vram_reservation_queued) q)

  attempt_reservation-settle :
      attempt_reservation p r j x s ≡ settle_reservation p attempted.1 reserving
  unfolding attempt_reservation try_slots
  attempt_reservation-settle =
      rw
        (
          on_record-some p (transition State.vram_reservation_queued "VRAM reservation queued") s r
              h,
          queued-legal.0,
        )
        refl

  reserving-lookup : lookup p reserving.records ≡ some queued_record
  reserving-lookup = lookup-insert_self p queued_record s.records

  settled :
      (o : Result ℕ)
      → attempted.1 ≡ o
      → (e : ResidencyError) → (settle_reservation p o reserving).1 ≡ err e
      → IsUnmoved s (settle_reservation p o reserving).0
  settled (ok n) a e b = absurd (
      ok_err (
        sym (
          settle_reservation-ok p reserving queued_record reserving-lookup
            (ap (λ y. y.1) queued-legal.1) n)
        ∙ b))
  settled (err m) a e b =
      rw
        (settle_reservation-err p reserving queued_record reserving-lookup
          (ap (λ y. y.1) queued-legal.1) m)
        record {
          slots = reserve-err p r.generation j r.representation.bytes x s.slots m a;
          snapshot = refl;
          tickets = refl;
          lives = life_of-insert p r queued_record _ s.records h (
              returned-life p reserving queued_record reserving-lookup
                (ap (λ y. y.1) queued-legal.1)
              ∙ (λ i. ((queued-legal.1 i).0, sym q i)));
        }

  attempt_reservation-err :
      (e : ResidencyError)
      → (attempt_reservation p r j x s).1 ≡ err e
      → IsUnmoved s (attempt_reservation p r j x s).0
  attempt_reservation-err e b =
      subst (λ y. y.1 ≡ err e → IsUnmoved s y.0) (sym attempt_reservation-settle)
        (settled attempted.1 refl e) b

-- A reservation that fails, for whatever reason, leaves the slots, the counters and the tickets as they
-- were, and every page in the generation and the state that it had.
pub reserve_vram-err :
    (p : PageId) (j : ExpertProjection) (x : Bool) (s : ResidencyManager) (e : ResidencyError)
    → (reserve_vram p j x s).1 ≡ err e
    → IsUnmoved s (reserve_vram p j x s).0
unfolding reserve_vram get_record get_snapshot pinned_budget
reserve_vram-err p j x s e = elim (Option-cases (lookup p s.records)) [
  | inl n ↦ rw n λ b. IsUnmoved-refl s
  | inr (r, n) ↦ rw n (elim (Bool-cases (r.state != State.ram_ready)) [
    | inl a ↦ rw a λ b. IsUnmoved-refl s
    | inr a ↦ rw a (elim (Bool-cases (has_replica r ram_pinned)) [
      | inr c ↦ rw c λ b. IsUnmoved-refl s
      | inl c ↦ rw c (elim (Bool-cases (ltb s.ram_pinned_budget s.snapshot.ram_pinned_used)) [
        | inl d ↦ rw d λ b. IsUnmoved-refl s
        | inr d ↦
            rw d λ b. attempt_reservation-err p j x s r n (not_ne r.state State.ram_ready a) e b
      ])
    ])
  ])
]
