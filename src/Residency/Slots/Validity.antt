-- ===== src/Residency/Slots/Validity.antt =====
-- har/crates/har-residency/src/manager.rs: what holds of every slot of a table.
use remora_lab.Base.{
  not_ne, ℕ, zero, suc, ◌+◌, ◌≡◌, ◌≤◌, refl, String, Option, some, List, [], ◌∷◌, arith, Bool-cases,
  Option-cases, inl, inr, ◌==◌, ◌!=◌, not, is_some, if◌then◌else◌, nat_eq,
}
use mathlib.Core.Option.{some-injective}
use mathlib.Core.Path.{subst, subst₂}
use remora_lab.Residency.Types.{PageId}
use remora_lab.Residency.Attempt.{Attempt, Done}
use remora_lab.Residency.Slots.{
  option_nat_eq, SlotState, VramSlot, VramSlotTable, free, reserved, uploading, uploaded,
  compute_ready, in_use, slot_eq, is_free, new_slot, slots_from, get_slot, set_slot, on_slot,
  identified, wrong_identity, start_slot_upload, finish_slot_upload, ready_slot, pin_slot,
  unpin_slot, clear_slot, evictable,
}

-- The slot at a position has that number, holds a page unless it is free, has room for what is reserved,
-- and has one user exactly when it is in use.
pub record SlotIsValid (n : ℕ) (s : VramSlot) : Type 0 where
  pub number : s.slot_id ≡ n
  pub holder : is_some s.page_id ≡ not (is_free s)
  pub room : s.reserved_bytes ≤ s.capacity_bytes
  pub users : s.pinned_users ≡ (if s.state == in_use then 1 else 0)

abbrev pub AllValid : ℕ → List VramSlot → Type 0
AllValid n [] = Unit
AllValid n (s ∷ rest) = SlotIsValid n s × AllValid (suc n) rest

new_slot-IsValid : (n capacity : ℕ) → SlotIsValid n (new_slot n capacity)
unfolding new_slot
new_slot-IsValid n capacity = record {
  number = refl;
  holder = refl;
  room = omega arith;
  users = refl;
}

pub slots_from-IsValid : (n count capacity : ℕ) → AllValid n (slots_from n count capacity)
unfolding slots_from
slots_from-IsValid n zero capacity = tt
slots_from-IsValid n (suc count) capacity = (
  new_slot-IsValid n capacity,
  subst (λ k. AllValid k (slots_from (n + 1) count capacity)) (omega arith)
      (slots_from-IsValid (n + 1) count capacity),
)

pub get_slot-IsValid :
    (n i k : ℕ) (d : List VramSlot) (s : VramSlot)
    → k ≡ i + n
    → AllValid n d
    → get_slot i d ≡ some s
    → SlotIsValid k s
get_slot-IsValid n i k [] s q h e = absurd (cc)
get_slot-IsValid n zero k (x ∷ d) s q h e =
    subst₂ SlotIsValid (omega arith) (some-injective x s e) h.0
get_slot-IsValid n (suc i) k (x ∷ d) s q h e = get_slot-IsValid (suc n) i k d s (omega arith) h.1 e

pub set_slot-IsValid :
    (n i k : ℕ) (d : List VramSlot) (v : VramSlot)
    → k ≡ i + n
    → AllValid n d
    → SlotIsValid k v
    → AllValid n (set_slot i v d)
set_slot-IsValid n i k [] v q h x = tt
set_slot-IsValid n zero k (s ∷ d) v q h x = (subst (λ m. SlotIsValid m v) (omega arith) x, h.1)
set_slot-IsValid n (suc i) k (s ∷ d) v q h x =
    (h.0, set_slot-IsValid (suc n) i k d v (omega arith) h.1 x)

-- A method of the slot with a number keeps it valid.
abbrev pub Keeps : ℕ → Attempt VramSlot Done → Type 0
Keeps n op = (s : VramSlot) → SlotIsValid n s → SlotIsValid n (op s).0

abbrev pub TableIsValid : VramSlotTable → Type 0
TableIsValid t = AllValid 0 t.slots

pub on_slot-IsValid :
    (n : ℕ) (op : Attempt VramSlot Done) (t : VramSlotTable)
    → Keeps n op
    → TableIsValid t
    → TableIsValid (on_slot n op t).0
on_slot-IsValid n op t k h = elim (Option-cases (get_slot n t.slots)) [
  | inl e ↦ rw (on_slot, e) h
  | inr (s, e) ↦
      rw (on_slot, e)
        (set_slot-IsValid 0 n n t.slots (op s).0 (omega arith) h
          (k s (get_slot-IsValid 0 n n t.slots s (omega arith) h e)))
]

pub identified-Keeps :
    (n : ℕ) (p : PageId) (g : ℕ) (op : Attempt VramSlot Done)
    → Keeps n op
    → Keeps n (identified p g op)
identified-Keeps n p g op k s h = elim (Bool-cases (wrong_identity p g s)) [
  | inl e ↦ rw e h
  | inr e ↦ rw e (k s h)
]

module _ (n : ℕ) (s : VramSlot) (h : SlotIsValid n s) where
  holder_in : (x : SlotState) → s.state ≡ x → is_some s.page_id ≡ not (x == free)
  holder_in x q = subst (λ y. is_some s.page_id ≡ not (y == free)) q h.holder

  pub users_in : (x : SlotState) → s.state ≡ x → s.pinned_users ≡ (if x == in_use then 1 else 0)
  users_in x q = subst (λ y. s.pinned_users ≡ (if y == in_use then 1 else 0)) q h.users

  pub start_slot_upload-IsValid : (ticket : ℕ) → SlotIsValid n (start_slot_upload ticket s).0
  unfolding start_slot_upload
  start_slot_upload-IsValid ticket = elim (Bool-cases (s.state != reserved)) [
    | inl e ↦ rw e h
    | inr e ↦ rw e record {
      number = h.number;
      holder = holder_in reserved (not_ne s.state reserved e);
      room = h.room;
      users = users_in reserved (not_ne s.state reserved e);
    }
  ]

  pub finish_slot_upload-IsValid :
      (ticket : ℕ) (c : Option String) → SlotIsValid n (finish_slot_upload ticket c s).0
  unfolding finish_slot_upload
  finish_slot_upload-IsValid ticket c = elim (Bool-cases (s.state != uploading)) [
    | inl e ↦ rw e h
    | inr e ↦ rw e (elim (Bool-cases (s.upload_ticket != some ticket)) [
      | inl k ↦ rw k h
      | inr k ↦ rw k record {
        number = h.number;
        holder = holder_in uploading (not_ne s.state uploading e);
        room = h.room;
        users = users_in uploading (not_ne s.state uploading e);
      }
    ])
  ]

  pub ready_slot-IsValid : SlotIsValid n (ready_slot s).0
  unfolding ready_slot
  ready_slot-IsValid = elim (Bool-cases (s.state != uploaded)) [
    | inl e ↦ rw e h
    | inr e ↦ rw e record {
      number = h.number;
      holder = holder_in uploaded (not_ne s.state uploaded e);
      room = h.room;
      users = users_in uploaded (not_ne s.state uploaded e);
    }
  ]

  pub pin_slot-IsValid : (epoch : ℕ) → SlotIsValid n (pin_slot epoch s).0
  unfolding pin_slot
  pin_slot-IsValid epoch = elim (Bool-cases (s.state != compute_ready)) [
    | inl e ↦ rw e h
    | inr e ↦ rw e record {
      number = h.number;
      holder = holder_in compute_ready (not_ne s.state compute_ready e);
      room = h.room;
      users = rw (users_in compute_ready (not_ne s.state compute_ready e)) refl;
    }
  ]

  pub unpin_slot-IsValid : SlotIsValid n (unpin_slot s).0
  unfolding unpin_slot
  unpin_slot-IsValid = elim (Bool-cases (s.state != in_use)) [
    | inl e ↦ rw e h
    | inr e ↦
        rw (e, users_in in_use (not_ne s.state in_use e))
          record {
            number = h.number;
            holder = holder_in in_use (not_ne s.state in_use e);
            room = h.room;
            users = refl;
          }
  ]

  pub clear_slot-IsValid : SlotIsValid n (clear_slot n s).0
  unfolding clear_slot
  clear_slot-IsValid = elim (Bool-cases (evictable s)) [
    | inl e ↦ rw e (new_slot-IsValid n s.capacity_bytes)
    | inr e ↦ rw e h
  ]
