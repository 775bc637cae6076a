-- ===== src/Residency/Manager/Records.antt =====
-- har/crates/har-residency/src/manager.rs: a relation that the operations on one record respect holds
-- of every page's record before and after each call.
use remora_lab.Base.{
  refl, ◌∙◌, leb, length, ◌||◌, ◌!=◌, ◌<◌, ◌≢◌, arith, nat_eq, true, false, Bool, ℕ, ◌≡◌, sym,
  String, Option, none, some, ◌==◌, Bool-cases, Option-cases, inl, inr,
}
use remora_lab.Base.Dict.{Dict, lookup, insert, lookup-insert}
use remora_lab.Residency.Types.{PageId, page_eq, PageLocation, StorageSlice, representation}
use remora_lab.Residency.State
use remora_lab.Residency.State.{ResidencyState, state_eq}
use remora_lab.Residency.Record.{
  ResidencyRecord, Label, PageLease, new_record, transition, add_replica, remove_replica,
  insert_lease, drop_lease, validate_slice,
}
use remora_lab.Residency.Attempt.{
  ResidencyError, Attempt, modify, refuse_if, ◌>>◌, Done, Result, ok, err, and_then, at_key,
  at_key-none, at_key-some,
}
use remora_lab.Residency.Attempt.Respect.{Respects, IsPreorder, bind, lift-Respects}
use remora_lab.Residency.Manager.{
  get_record, on_slots, adjust, on_ticket, take_ticket_id, add_ticket, ResidencyManager, on_record,
  add_record, validate_slice,
}
use remora_lab.Residency.Manager
use remora_lab.Residency.Manager.Evictions
use remora_lab.Residency.Manager.Calls
use remora_lab.Residency.Manager.Uploads
use remora_lab.Residency.Manager.Evictions.{restart}
use remora_lab.Residency.Manager.Frame.{give_up-Respects}
use remora_lab.Residency.Manager.Run.{Moves}

-- `V` relates a record to a later one of the same page, and `N` is what a new record and what
-- becomes of it have.
pub record RecordMoves (V : PageId → ResidencyRecord → ResidencyRecord → Type 0)
    (N : PageId → ResidencyRecord → Type 0) : Type 0 where
  pub stays : (p : PageId) (r : ResidencyRecord) → V p r r
  pub trans : (p : PageId) (r s t : ResidencyRecord) → V p r s → V p s t → V p r t
  pub begin : (p : PageId) (r s : ResidencyRecord) → N p r → V p r s → N p s
  pub transition :
      (p : PageId) (r : ResidencyRecord) (n : ResidencyState) (t : String)
      → V p r (transition n t r).0
  pub add_replica :
      (p : PageId) (r : ResidencyRecord) (l : PageLocation) (g : ℕ) (id : Label) (c : Option String)
      → V p r (add_replica l g id c r).0
  pub remove_replica :
      (p : PageId) (r : ResidencyRecord) (l : PageLocation) → V p r (remove_replica l r).0
  pub insert_lease : (p : PageId) (r : ResidencyRecord) (l : PageLease) → V p r (insert_lease l r)
  pub drop_lease : (p : PageId) (r : ResidencyRecord) (l : PageLease) → V p r (drop_lease l r)
  pub created :
      (slice : StorageSlice) (g : ℕ)
      → N slice.page_id (new_record slice.page_id (representation slice) g)
  pub restart :
      (p : PageId) (r : ResidencyRecord) (g : ℕ)
      → r.generation < g
      → r.state ≢ State.in_use
      → V p r (restart g r)

module _ (V : PageId → ResidencyRecord → ResidencyRecord → Type 0)
    (N : PageId → ResidencyRecord → Type 0) where
  -- A page is never forgotten.
  abbrev pub Later : PageId → Option ResidencyRecord → Option ResidencyRecord → Type 0
  Later p none none = Unit
  Later p none (some r) = N p r
  Later p (some r) none = ⊥
  Later p (some r) (some s) = V p r s

  abbrev pub AllLater : ResidencyManager → ResidencyManager → Type 0
  AllLater s t = (p : PageId) → Later p (lookup p s.records) (lookup p t.records)

-- The records stay.
abbrev SameRecords : ResidencyManager → ResidencyManager → Type 0
SameRecords s t = t.records ≡ s.records

SameRecords-IsPreorder : IsPreorder SameRecords
SameRecords-IsPreorder = record { stays = λ s. refl; trans = λ s t u x y. y ∙ x }

give_up-SameRecords :
    (p : PageId) (r : ResidencyRecord) → Respects SameRecords (Evictions.give_up p r)
unfolding on_slots adjust
give_up-SameRecords =
    give_up-Respects SameRecords-IsPreorder (λ id p g. record { step = λ s. refl })
      (λ n. record { step = λ s. refl }) (λ n. record { step = λ s. refl })

module _ {V : PageId → ResidencyRecord → ResidencyRecord → Type 0}
    {N : PageId → ResidencyRecord → Type 0} (h : RecordMoves V N) where
  Later-stays : (p : PageId) (o : Option ResidencyRecord) → Later V N p o o
  Later-stays p none = tt
  Later-stays p (some r) = h.stays p r

  Later-trans :
      (p : PageId) (a b c : Option ResidencyRecord)
      → Later V N p a b
      → Later V N p b c
      → Later V N p a c
  Later-trans p none none c x y = y
  Later-trans p none (some r) none x y = absurd y
  Later-trans p none (some r) (some s) x y = h.begin p r s x y
  Later-trans p (some r) none c x y = absurd x
  Later-trans p (some r) (some s) none x y = absurd y
  Later-trans p (some r) (some s) (some t) x y = h.trans p r s t x y

  -- The record of one page is replaced.
  Later-insert :
      (p : PageId) (r : ResidencyRecord) (d : Dict PageId ResidencyRecord)
      → Later V N p (lookup p d) (some r)
      → (j : PageId) → Later V N j (lookup j d) (lookup j (insert p r d))
  Later-insert p r d x j = elim (Bool-cases (p == j)) [
    | inr e ↦ rw (lookup-insert p j r d, e) (Later-stays j (lookup j d))
    | inl e ↦ rw (lookup-insert p j r d, e, sym ((page_eq.beq_iff p j).0 e)) x
  ]

  -- A method of a record, through the map.
  at_key-Later :
      (p : PageId) (e : ResidencyError) (op : Attempt ResidencyRecord Done)
      → ((r : ResidencyRecord) → V p r (op r).0)
      → (d : Dict PageId ResidencyRecord) (j : PageId)
      → Later V N j (lookup j d) (lookup j (at_key p e op d).0)
  at_key-Later p e op k d j = elim (Option-cases (lookup p d)) [
    | inl n ↦ rw (at_key-none p e op d n) (Later-stays j (lookup j d))
    | inr (r, n) ↦ rw (at_key-some p e op d r n) (Later-insert p (op r).0 d (rw n (k r)) j)
  ]

  on_record-Later :
      (p : PageId) (op : Attempt ResidencyRecord Done)
      → ((r : ResidencyRecord) → V p r (op r).0)
      → Respects (AllLater V N) (on_record p op)
  unfolding on_record
  on_record-Later p op k = record { step = λ s j. at_key-Later p _ op k s.records j }

  -- What leaves the records as they are.
  untouched :
      {A : Type 0} (m : Attempt ResidencyManager A)
      → ((s : ResidencyManager) → (m s).0.records ≡ s.records)
      → Respects (AllLater V N) m
  untouched m e = record { step = λ s j. rw (e s) (Later-stays j (lookup j s.records)) }

  AllLater-IsPreorder : IsPreorder (AllLater V N)
  AllLater-IsPreorder = record {
    stays = λ s p. Later-stays p (lookup p s.records);
    trans = λ s t u x y p.
        Later-trans p (lookup p s.records) (lookup p t.records) (lookup p u.records) (x p) (y p);
  }

  register_valid-Later :
      (slice : StorageSlice) (g : ℕ) → Respects (AllLater V N) (Manager.register_valid slice g)
  unfolding Manager.register_valid add_record
  register_valid-Later slice g = record {
    step = λ s. elim (Option-cases (lookup slice.page_id s.records)) [
      | inl n ↦ rw n (Later-insert slice.page_id _ s.records (rw n (h.created slice g)))
      | inr (r, n) ↦ rw n λ j. Later-stays j (lookup j s.records)
    ];
  }

  register-Later :
      (slice : StorageSlice) (g : ℕ) → Respects (AllLater V N) (Manager.register slice g)
  unfolding Manager.register
  register-Later slice g =
      bind AllLater-IsPreorder _ _ (lift-Respects AllLater-IsPreorder (validate_slice slice))
        λ _. register_valid-Later slice g

  -- A method of the record that was read, after a part that leaves the records as they are.
  on_record_after :
      (p : PageId) (op : Attempt ResidencyRecord Done) (r : ResidencyRecord) (s : ResidencyManager)
      → lookup p s.records ≡ some r
      → V p r (op r).0
      → (out : ResidencyManager × Result Done) → out.0.records ≡ s.records
      → AllLater V N s (and_then out (λ _. on_record p op)).0
  unfolding on_record
  on_record_after p op r s n v (t, err e) q j = rw q (Later-stays j (lookup j s.records))
  on_record_after p op r s n v (t, ok _) q j =
      rw (q, at_key-some p _ op s.records r n) (Later-insert p (op r).0 s.records (rw n v) j)

  -- The rest of `advance_generation` for a page in no use and a later generation.
  advance_allowed :
      (p : PageId) (g : ℕ) (r : ResidencyRecord) (s : ResidencyManager)
      → lookup p s.records ≡ some r
      → (leased stale : Bool) → (leased ≡ false → r.state ≢ State.in_use)
      → (stale ≡ false → r.generation < g)
      → (e₁ e₂ : ResidencyError)
      → AllLater V N s
          ((refuse_if leased e₁
              >> (refuse_if stale e₂
                  >> (Evictions.give_up p r >> on_record p (modify (restart g)))))
            s).0
  advance_allowed p g r s n true stale a b e₁ e₂ = AllLater-IsPreorder.stays s
  advance_allowed p g r s n false true a b e₁ e₂ = AllLater-IsPreorder.stays s
  advance_allowed p g r s n false false a b e₁ e₂ =
      on_record_after p (modify (restart g)) r s n (h.restart p r g (b refl) (a refl))
        (Evictions.give_up p r s) ((give_up-SameRecords p r).step s)

  advance_generation-Later :
      (p : PageId) (g : ℕ) → Respects (AllLater V N) (Evictions.advance_generation p g)
  unfolding Evictions.advance_generation get_record
  advance_generation-Later p g = record {
    step = λ s. elim (Option-cases (lookup p s.records)) [
      | inl n ↦ rw n (AllLater-IsPreorder.stays s)
      | inr (r, n) ↦ rw n (
          advance_allowed p g r s n (length r.leases != 0 || r.state == State.in_use)
            (leb g r.generation) (λ x. ground (arith, state_eq.beq_iff r.state State.in_use))
            (λ x. ground arith) _ _)
    ];
  }

  pub record_moves : Moves (AllLater V N)
  unfolding on_ticket on_slots adjust take_ticket_id add_ticket Uploads.take_epoch
      Uploads.take_lease_id Calls.try_slots
  record_moves = record {
    steps = record {
      order = AllLater-IsPreorder;
      transition = λ p n t. on_record-Later p _ λ r. h.transition p r n t;
      add_replica = λ p l g id c. on_record-Later p _ λ r. h.add_replica p r l g id c;
      remove_replica = λ p l. on_record-Later p _ λ r. h.remove_replica p r l;
      insert_lease = λ p l. on_record-Later p _ λ r. h.insert_lease p r l;
      drop_lease = λ p l. on_record-Later p _ λ r. h.drop_lease p r l;
      on_ticket = λ id op. untouched _ λ s. refl;
      take_ticket_id = untouched _ λ s. refl;
      add_ticket = λ id t. untouched _ λ s. refl;
      take_epoch = untouched _ λ s. refl;
      take_lease_id = untouched _ λ s. refl;
      reserve = λ p g j n x. untouched _ λ s. refl;
      slot_queue = λ id t. untouched _ λ s. refl;
      slot_complete = λ id t c. untouched _ λ s. refl;
      slot_ready = λ id p g. untouched _ λ s. refl;
      slot_acquire = λ id p g e. untouched _ λ s. refl;
      slot_release = λ l. untouched _ λ s. refl;
      slot_evict = λ id p g. untouched _ λ s. refl;
      free_pageable = λ n. untouched _ λ s. refl;
      free_pinned = λ n. untouched _ λ s. refl;
      free_slot = λ n. untouched _ λ s. refl;
      use_slot = λ n. untouched _ λ s. refl;
      leave_nvme_queue = untouched _ λ s. refl;
      leave_transfer_queue = untouched _ λ s. refl;
      leave_compute_queue = untouched _ λ s. refl;
    };
    growth = record {
      use_pageable = λ n. untouched _ λ s. refl;
      use_pinned = λ n. untouched _ λ s. refl;
      count_nvme_read = λ n. untouched _ λ s. refl;
      enter_transfer_queue = untouched _ λ s. refl;
      enter_compute_queue = untouched _ λ s. refl;
    };
    register = register-Later;
    advance = advance_generation-Later;
  }
