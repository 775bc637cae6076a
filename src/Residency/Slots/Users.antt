-- ===== src/Residency/Slots/Users.antt =====
-- har/crates/har-residency/src/manager.rs: the users of a slot, and its eviction.
use remora_lab.Base.{
  ℕ, zero, suc, ◌≡◌, ◌⊎◌, refl, sym, ap, ◌∙◌, true, false, some, List, [], ◌∷◌, Bool-cases,
  Option-cases, none, arith, inl, inr, nat_eq,
}
use mathlib.Core.Option.{some-injective}
use remora_lab.Residency.Types.{PageId, page_eq}
use remora_lab.Residency.Attempt.{
  invalid, stale_generation, resource_exhausted, and_then, pure, ResidencyError, ok, err, Attempt,
  Done,
}
use remora_lab.Residency.Slots.{
  or_zero, VramSlot, VramSlotTable, compute_ready, in_use, slot_eq, get_slot, set_slot, on_slot,
  identified, wrong_identity, acquire, release, evict, pin_slot, unpin_slot, clear_slot, evictable,
  new_slot, compute_lease, option_page_eq, option_nat_eq, uploaded,
}
use remora_lab.Residency.Slots.Validity.{SlotIsValid, users_in}

set_slot-get_slot :
    (n : ℕ) (d : List VramSlot) (s : VramSlot) → get_slot n d ≡ some s → set_slot n s d ≡ d
set_slot-get_slot n [] s h = refl
set_slot-get_slot zero (x ∷ d) s h = ap (λ y. y ∷ d) (sym (some-injective x s h))
set_slot-get_slot (suc n) (x ∷ d) s h = ap (λ y. x ∷ y) (set_slot-get_slot n d s h)

set_slot-set_slot :
    (n : ℕ) (v w : VramSlot) (d : List VramSlot) → set_slot n v (set_slot n w d) ≡ set_slot n v d
set_slot-set_slot n v w [] = refl
set_slot-set_slot zero v w (x ∷ d) = refl
set_slot-set_slot (suc n) v w (x ∷ d) = ap (λ y. x ∷ y) (set_slot-set_slot n v w d)

get_slot-set_slot :
    (n : ℕ) (v s : VramSlot) (d : List VramSlot)
    → get_slot n d ≡ some s
    → get_slot n (set_slot n v d) ≡ some v
get_slot-set_slot n v s [] h = absurd (cc)
get_slot-set_slot zero v s (x ∷ d) h = refl
get_slot-set_slot (suc n) v s (x ∷ d) h = get_slot-set_slot n v s d h

on_slot-some :
    (n : ℕ) (op : Attempt VramSlot Done) (t : VramSlotTable) (s : VramSlot)
    → get_slot n t.slots ≡ some s
    → on_slot n op t ≡ (record t { slots = set_slot n (op s).0 t.slots }, (op s).1)
on_slot-some n op t s h = rw (on_slot, h) refl

-- A method that refuses leaves the table.
on_slot-refused :
    (n : ℕ) (op : Attempt VramSlot Done) (t : VramSlotTable) (s : VramSlot) (e : ResidencyError)
    → get_slot n t.slots ≡ some s
    → op s ≡ (s, err e)
    → on_slot n op t ≡ (t, err e)
on_slot-refused n op t s e h k =
    on_slot-some n op t s h
    ∙ (λ i. (record t { slots = set_slot n (k i).0 t.slots }, (k i).1))
    ∙ λ i. (record t { slots = set_slot-get_slot n t.slots s h i }, err e)

-- How an eviction of a page in a generation from a slot ends.
abbrev pub IsNamed : PageId → ℕ → VramSlot → Type 0
IsNamed p g s = (s.page_id ≡ some p) × (s.generation ≡ some g)

abbrev pub IsIdle : VramSlot → Type 0
IsIdle s = ((s.state ≡ compute_ready) ⊎ (s.state ≡ uploaded)) × (s.pinned_users ≡ 0)

abbrev pub Evicts : ℕ → PageId → ℕ → VramSlotTable → Type 0
Evicts n p g t =
    ((get_slot n t.slots ≡ none) × (evict n p g t ≡ (t, err (invalid "unknown VRAM slot"))))
    ⊎ ((s : VramSlot) × (get_slot n t.slots ≡ some s)
        × ((¬ IsNamed p g s
              × (evict n p g t ≡ (t, err (stale_generation p (or_zero s.generation) g))))
            ⊎ (IsNamed p g s
                × (¬ IsIdle s)
                × (evict n p g t ≡ (t, err (resource_exhausted "slot is pinned or not evictable"))))
            ⊎ (IsNamed p g s
                × IsIdle s
                × (evict n p g t ≡ (
                  record t { slots = set_slot n (new_slot n s.capacity_bytes) t.slots },
                  ok tt,
                )))))

named_lem : (p : PageId) (g : ℕ) (s : VramSlot) → wrong_identity p g s ≡ false → IsNamed p g s
named_lem p g s h =
    ground (
      arith,
      option_page_eq.beq_iff s.page_id (some p),
      option_nat_eq.beq_iff s.generation (some g),
    )

not_named_lem : (p : PageId) (g : ℕ) (s : VramSlot) → wrong_identity p g s ≡ true → ¬ IsNamed p g s
not_named_lem p g s h =
    ground (
      arith,
      option_page_eq.beq_iff s.page_id (some p),
      option_nat_eq.beq_iff s.generation (some g),
    )

idle_lem : (s : VramSlot) → evictable s ≡ true → IsIdle s
idle_lem s h = ground (
  arith,
  slot_eq.beq_iff s.state compute_ready,
  slot_eq.beq_iff s.state uploaded,
  nat_eq.beq_iff s.pinned_users 0,
)

not_idle_lem : (s : VramSlot) → evictable s ≡ false → ¬ IsIdle s
not_idle_lem s h = ground (
  arith,
  slot_eq.beq_iff s.state compute_ready,
  slot_eq.beq_iff s.state uploaded,
  nat_eq.beq_iff s.pinned_users 0,
)

-- An eviction of a page in a generation fails on a slot that is not there, on one that does not hold the
-- page in the generation, and on one that has a user or is neither ready nor uploaded; the table is then
-- as before. In every other case it succeeds, and the slot is as new.
pub evict_lem : (n : ℕ) (p : PageId) (g : ℕ) (t : VramSlotTable) → Evicts n p g t
unfolding evict clear_slot
evict_lem n p g t = elim (Option-cases (get_slot n t.slots)) [
  | inl h ↦ inl (h, rw (on_slot, h) refl)
  | inr (s, h) ↦ inr (
    s,
    h,
    elim (Bool-cases (wrong_identity p g s)) [
      | inl k ↦ inl (
        not_named_lem p g s k,
        on_slot-refused n _ t s (stale_generation p (or_zero s.generation) g) h (rw k refl),
      )
      | inr k ↦ elim (Bool-cases (evictable s)) [
        | inr m ↦ inr (
            inl (
              named_lem p g s k,
              not_idle_lem s m,
              on_slot-refused n _ t s (resource_exhausted "slot is pinned or not evictable") h
                  (rw (k, m) refl),
            ))
        | inl m ↦
            inr (inr (named_lem p g s k, idle_lem s m, on_slot-some n _ t s h ∙ rw (k, m) refl))
      ]
    ],
  )
]

module _ (n : ℕ) (p : PageId) (g e : ℕ) (t : VramSlotTable) (s : VramSlot) (v : SlotIsValid n s)
    (h : get_slot n t.slots ≡ some s) (i : wrong_identity p g s ≡ false)
    (q : s.state ≡ compute_ready) where
  abbrev pinned : VramSlot
  pinned = record s { state = in_use; pinned_users = 1; last_use_epoch = e }

  pin_slot-ready : identified p g (pin_slot e) s ≡ (pinned, ok tt)
  unfolding pin_slot
  pin_slot-ready = rw (i, q, users_in n s v compute_ready q) refl

  unpin_slot-pinned : identified p g unpin_slot pinned ≡ (record s { last_use_epoch = e }, ok tt)
  unfolding unpin_slot
  unpin_slot-pinned = rw i (λ j. (
    record s {
      state = sym q j;
      pinned_users = sym (users_in n s v compute_ready q) j;
      last_use_epoch = e;
    },
    ok tt,
  ))

  abbrev with_slot : VramSlot → VramSlotTable
  with_slot x = record t { slots = set_slot n x t.slots }

  acquire-ready : acquire n p g e t ≡ (with_slot pinned, ok (compute_lease n p g e))
  unfolding acquire
  acquire-ready =
      ap (λ x. and_then x (λ _. pure (compute_lease n p g e)))
        (on_slot-some n _ t s h ∙ (λ j. (with_slot (pin_slot-ready j).0, (pin_slot-ready j).1)))

  release-pinned :
      release (compute_lease n p g e) (with_slot pinned)
      ≡ (with_slot (record s { last_use_epoch = e }), ok tt)
  unfolding release
  release-pinned =
      on_slot-some n _ (with_slot pinned) pinned (get_slot-set_slot n pinned s t.slots h)
      ∙ (λ j. (
        record t {
          slots = set_slot-set_slot n (identified p g unpin_slot pinned).0 pinned t.slots j;
        },
        (identified p g unpin_slot pinned).1,
      ))
      ∙ λ j. (with_slot (unpin_slot-pinned j).0, (unpin_slot-pinned j).1)

  -- A computation acquires a slot that is ready, under its page and generation, and its lease gives it
  -- back: the table is as before but for the epoch of the last use.
  pub release-acquire :
      (acquire n p g e t ≡ (with_slot pinned, ok (compute_lease n p g e)))
      × (release (compute_lease n p g e) (with_slot pinned)
          ≡ (with_slot (record s { last_use_epoch = e }), ok tt))
  release-acquire = (acquire-ready, release-pinned)
