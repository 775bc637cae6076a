-- ===== src/Residency/Slots/Table.antt =====
-- har/crates/har-residency/src/manager.rs: the operations of `VramSlotTable` keep its slots valid.
use remora_lab.Base.{
  ℕ, ◌≡◌, refl, String, Bool, false, Option, arith, Bool-cases, Option-cases, inl, inr, ◌==◌, ltb,
  nat_eq,
}
use remora_lab.Residency.Types.{
  PageId, PageLocation, nvme_cold, ram_pageable, ram_pinned, vram_page, vram_slot, scratch,
  ExpertProjection,
}
use remora_lab.Residency.Record.{PageLease}
use remora_lab.Residency.Attempt.{Result, ok, err, Done, and_then}
use remora_lab.Residency.Slots
use remora_lab.Residency.Slots.{
  VramSlot, VramSlotTable, new_table, slots_from, get_slot, on_slot, identified, reserve,
  reserved_slot, queue_upload, complete_upload, mark_compute_ready, acquire, release, evict, holds,
  position_where, is_free, pin_slot, unpin_slot, first_where,
}
use remora_lab.Residency.Slots.Validity.{
  SlotIsValid, TableIsValid, slots_from-IsValid, get_slot-IsValid, set_slot-IsValid,
  on_slot-IsValid, identified-Keeps, start_slot_upload-IsValid, finish_slot_upload-IsValid,
  ready_slot-IsValid, pin_slot-IsValid, unpin_slot-IsValid, clear_slot-IsValid,
}

pub new_table-IsValid :
    (count bytes : ℕ) (t : VramSlotTable) → new_table count bytes ≡ ok t → TableIsValid t
unfolding new_table
new_table-IsValid count bytes t h = ground (arith, slots_from-IsValid 0 count bytes)

module _ (t : VramSlotTable) (h : TableIsValid t) where
  pub queue_upload-IsValid : (n ticket : ℕ) → TableIsValid (queue_upload n ticket t).0
  unfolding queue_upload
  queue_upload-IsValid n ticket =
      on_slot-IsValid n _ t (λ s x. start_slot_upload-IsValid n s x ticket) h

  pub complete_upload-IsValid :
      (n ticket : ℕ) (c : Option String) → TableIsValid (complete_upload n ticket c t).0
  unfolding complete_upload
  complete_upload-IsValid n ticket c =
      on_slot-IsValid n _ t (λ s x. finish_slot_upload-IsValid n s x ticket c) h

  pub mark_compute_ready-IsValid :
      (n : ℕ) (p : PageId) (g : ℕ) → TableIsValid (mark_compute_ready n p g t).0
  unfolding mark_compute_ready
  mark_compute_ready-IsValid n p g =
      on_slot-IsValid n _ t (identified-Keeps n p g _ λ s x. ready_slot-IsValid n s x) h

  and_then-state :
      {A : Type 0} (out : VramSlotTable × Result Done) (a : A)
      → (and_then out (λ _ s. (s, ok a))).0 ≡ out.0
  and_then-state (s, ok x) a = refl
  and_then-state (s, err e) a = refl

  pub acquire-IsValid : (n : ℕ) (p : PageId) (g e : ℕ) → TableIsValid (acquire n p g e t).0
  unfolding acquire
  acquire-IsValid n p g e =
      rw (and_then-state (on_slot n (identified p g (pin_slot e)) t) (Slots.compute_lease n p g e))
        (on_slot-IsValid n _ t (identified-Keeps n p g _ λ s x. pin_slot-IsValid n s x e) h)

  release_at-IsValid :
      (n : ℕ) (p : PageId) (g : ℕ) → TableIsValid (on_slot n (identified p g unpin_slot) t).0
  release_at-IsValid n p g =
      on_slot-IsValid n _ t (identified-Keeps n p g _ λ s x. unpin_slot-IsValid n s x) h

  pub release-IsValid : (l : PageLease) → TableIsValid (release l t).0
  unfolding release
  release-IsValid l = released l.location
    where
      released : (x : PageLocation) → TableIsValid (release (record l { location = x }) t).0
      released nvme_cold = h
      released ram_pageable = h
      released ram_pinned = h
      released (vram_page n) = h
      released (vram_slot n) = release_at-IsValid n l.page_id l.generation
      released (scratch n) = h

  pub evict-IsValid : (n : ℕ) (p : PageId) (g : ℕ) → TableIsValid (evict n p g t).0
  unfolding evict
  evict-IsValid n p g =
      on_slot-IsValid n _ t (identified-Keeps n p g _ λ s x. clear_slot-IsValid n s x) h

  reserved_slot-IsValid :
      (n : ℕ) (s : VramSlot) (p : PageId) (g : ℕ) (j : ExpertProjection) (bytes : ℕ) (x : Bool)
      → SlotIsValid n s
      → ltb s.capacity_bytes bytes ≡ false
      → SlotIsValid n (reserved_slot p g j bytes x t.next_epoch s)
  unfolding reserved_slot
  reserved_slot-IsValid n s p g j bytes x v e = record {
    number = v.number;
    holder = refl;
    room = ground arith;
    users = refl;
  }

  pub reserve-IsValid :
      (p : PageId) (g : ℕ) (j : ExpertProjection) (bytes : ℕ) (x : Bool)
      → TableIsValid (reserve p g j bytes x t).0
  unfolding reserve
  reserve-IsValid p g j bytes x = elim (Bool-cases (bytes == 0)) [
    | inl e ↦ rw e h
    | inr e ↦ rw e (elim (Option-cases (first_where (holds p g j) t.slots)) [
      | inr (s, k) ↦ rw k h
      | inl k ↦ rw k (elim (Option-cases (position_where is_free t.slots)) [
        | inl m ↦ rw m h
        | inr (i, m) ↦ rw m (elim (Option-cases (get_slot i t.slots)) [
          | inl q ↦ rw q h
          | inr (s, q) ↦ rw q (elim (Bool-cases (ltb s.capacity_bytes bytes)) [
            | inl v ↦ rw v h
            | inr v ↦ rw v (
                set_slot-IsValid 0 i i t.slots _ (omega arith) h (
                  reserved_slot-IsValid i s p g j bytes x
                    (get_slot-IsValid 0 i i t.slots s (omega arith) h q) v))
          ])
        ])
      ])
    ])
  ]
