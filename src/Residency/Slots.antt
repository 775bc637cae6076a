-- ===== src/Residency/Slots.antt =====
-- har/crates/har-residency/src/manager.rs: the persistent VRAM slots and their table. A slot is found
-- at the position that is its number. Wrap-around is a release build's.
pub mod Validity
pub mod Table
pub mod Users
pub mod Refusal
use remora_lab.Base.{
  ℕ, zero, suc, ◌+◌, ◌-◌, ◌≡◌, refl, String, Bool, false, Option, none, some, List, [], ◌∷◌, ◌==◌,
  ◌!=◌, ◌&&◌, ◌||◌, not, nat_eq, PartialEq, if◌then◌else◌, eq_by_code, nth_or, ltb, min, u32_max,
  wrap_add, option_eq, bitxor, ◌*◌, u32_size, ◌%◌, u64_size,
}
use remora_lab.Residency.Types.{
  PageId, weights, page_eq, vram_slot, ExpertProjection, projection_eq,
}
use remora_lab.Residency.Record.{PageLease}
use remora_lab.Residency.Attempt.{
  invalid, stale_generation, resource_exhausted, Result, ok, err, Attempt, Done, pure, ◌>>◌,
}

pub data SlotState : Type 0 where
  free reserved uploading uploaded compute_ready in_use evicting : SlotState

abbrev slot_index : SlotState → ℕ
slot_index s = elim s [
  | free ↦ 0
  | reserved ↦ 1
  | uploading ↦ 2
  | uploaded ↦ 3
  | compute_ready ↦ 4
  | in_use ↦ 5
  | evicting ↦ 6
]

abbrev of_slot_index : ℕ → SlotState
of_slot_index =
    nth_or evicting (free ∷ reserved ∷ uploading ∷ uploaded ∷ compute_ready ∷ in_use ∷ [])

pub slot_index_lem : (s : SlotState) → of_slot_index (slot_index s) ≡ s
slot_index_lem free = refl
slot_index_lem reserved = refl
slot_index_lem uploading = refl
slot_index_lem uploaded = refl
slot_index_lem compute_ready = refl
slot_index_lem in_use = refl
slot_index_lem evicting = refl

instance abbrev pub slot_eq : PartialEq SlotState
slot_eq = eq_by_code nat_eq slot_index of_slot_index slot_index_lem

pub record VramSlot : Type 0 where
  pub slot_id : ℕ
  pub capacity_bytes : ℕ
  pub state : SlotState
  pub page_id : Option PageId
  pub generation : Option ℕ
  pub projection : Option ExpertProjection
  pub reserved_bytes : ℕ
  pub pinned_users : ℕ
  pub upload_ticket : Option ℕ
  pub checksum_sha256 : Option String
  pub last_use_epoch : ℕ
  pub speculative : Bool

unfoldable pub new_slot : ℕ → ℕ → VramSlot
new_slot slot_id capacity_bytes = record {
  slot_id = slot_id;
  capacity_bytes = capacity_bytes;
  state = free;
  page_id = none;
  generation = none;
  projection = none;
  reserved_bytes = 0;
  pinned_users = 0;
  upload_ticket = none;
  checksum_sha256 = none;
  last_use_epoch = 0;
  speculative = false;
}

abbrev pub is_ready : VramSlot → Bool
is_ready s = s.state == compute_ready || s.state == in_use

abbrev pub evictable : VramSlot → Bool
evictable s = (s.state == compute_ready || s.state == uploaded) && s.pinned_users == 0

pub record VramSlotTable : Type 0 where
  pub slots : List VramSlot
  pub next_epoch : ℕ

-- The slots from a number on.
unfoldable pub slots_from : ℕ → ℕ → ℕ → List VramSlot
unfolding new_slot
slots_from id zero slot_bytes = []
slots_from id (suc n) slot_bytes = new_slot id slot_bytes ∷ slots_from (id + 1) n slot_bytes

unfoldable pub new_table : (slot_count slot_bytes : ℕ) → Result VramSlotTable
unfolding slots_from
new_table slot_count slot_bytes =
    if slot_count == 0 || slot_bytes == 0
    then err (invalid "VRAM slot count and size must be non-zero")
    else ok (record { slots = slots_from 0 slot_count slot_bytes; next_epoch = 0 })

unfoldable pub sum_capacity : List VramSlot → ℕ
sum_capacity [] = 0
sum_capacity (s ∷ rest) = wrap_add s.capacity_bytes (sum_capacity rest)

abbrev pub get_slot : ℕ → List VramSlot → Option VramSlot
get_slot n [] = none
get_slot zero (s ∷ rest) = some s
get_slot (suc n) (s ∷ rest) = get_slot n rest

abbrev pub set_slot : ℕ → VramSlot → List VramSlot → List VramSlot
set_slot n v [] = []
set_slot zero v (s ∷ rest) = v ∷ rest
set_slot (suc n) v (s ∷ rest) = s ∷ set_slot n v rest

-- `get_mut` and what is done with the slot.
abbrev pub on_slot : ℕ → Attempt VramSlot Done → Attempt VramSlotTable Done
on_slot slot_id op t = elim (get_slot slot_id t.slots) [
  | none ↦ (t, err (invalid "unknown VRAM slot"))
  | some s ↦ (record t { slots = set_slot slot_id (op s).0 t.slots }, (op s).1)
]

instance abbrev pub option_page_eq : PartialEq (Option PageId)
option_page_eq = option_eq page_eq

instance abbrev pub option_nat_eq : PartialEq (Option ℕ)
option_nat_eq = option_eq nat_eq

instance abbrev option_projection_eq : PartialEq (Option ExpertProjection)
option_projection_eq = option_eq projection_eq

abbrev first_where : (VramSlot → Bool) → List VramSlot → Option VramSlot
first_where test [] = none
first_where test (s ∷ rest) = if test s then some s else first_where test rest

unfoldable pub find_ready : PageId → ℕ → VramSlotTable → Option VramSlot
find_ready page_id generation t =
    first_where (λ s. is_ready s && (s.page_id == some page_id && s.generation == some generation))
      t.slots

abbrev pub position_where : (VramSlot → Bool) → List VramSlot → Option ℕ
position_where test [] = none
position_where test (s ∷ rest) =
    let later = position_where test rest in
    if test s then some 0 else elim later [ none ↦ none | some n ↦ some (suc n) ]

abbrev pub is_free : VramSlot → Bool
is_free s = s.state == free

abbrev pub holds : PageId → ℕ → ExpertProjection → VramSlot → Bool
holds page_id generation projection s =
    s.page_id == some page_id
    && (s.generation == some generation && (s.projection == some projection && not (is_free s)))

-- What `reserve` writes into a free slot.
unfoldable pub reserved_slot :
    PageId → ℕ → ExpertProjection → ℕ → Bool → (epoch : ℕ) → VramSlot → VramSlot
unfolding new_slot
reserved_slot page_id generation projection bytes speculative epoch s =
    record (new_slot s.slot_id s.capacity_bytes) {
      state = reserved;
      page_id = some page_id;
      generation = some generation;
      projection = some projection;
      reserved_bytes = bytes;
      speculative = speculative;
      last_use_epoch = epoch;
    }

unfoldable pub reserve : PageId → ℕ → ExpertProjection → ℕ → Bool → Attempt VramSlotTable ℕ
unfolding reserved_slot
reserve page_id generation projection bytes speculative t =
    if bytes == 0
    then (t, err (invalid "cannot reserve zero-byte slot"))
    else elim (first_where (holds page_id generation projection) t.slots) [
      | some s ↦ (t, ok s.slot_id)
      | none ↦ elim (position_where is_free t.slots) [
        | none ↦ (t, err (resource_exhausted "no free or evictable VRAM slot"))
        | some index ↦ elim (get_slot index t.slots) [
          | none ↦ (t, err (invalid "unknown VRAM slot"))
          | some s ↦
              if ltb s.capacity_bytes bytes
              then (t, err (resource_exhausted "page bytes exceed slot bytes"))
              else (
                record t {
                  slots =
                      set_slot index
                        (reserved_slot page_id generation projection bytes speculative t.next_epoch
                          s)
                        t.slots;
                },
                ok s.slot_id,
              )
        ]
      ]
    ]

abbrev pub or_zero : Option ℕ → ℕ
or_zero none = 0
or_zero (some n) = n

abbrev unknown_page : PageId
unknown_page = record { model_root = "unknown"; kind = weights; ordinal = 0 }

abbrev or_unknown : Option PageId → PageId
or_unknown none = unknown_page
or_unknown (some p) = p

unfoldable pub start_slot_upload : (ticket_id : ℕ) → Attempt VramSlot Done
start_slot_upload ticket_id s =
    if s.state != reserved
    then (s, err (invalid "upload requires a reserved slot"))
    else (record s { state = uploading; upload_ticket = some ticket_id }, ok tt)

unfoldable pub queue_upload : (slot_id ticket_id : ℕ) → Attempt VramSlotTable Done
unfolding start_slot_upload
queue_upload slot_id ticket_id = on_slot slot_id (start_slot_upload ticket_id)

unfoldable pub finish_slot_upload : (ticket_id : ℕ) → Option String → Attempt VramSlot Done
finish_slot_upload ticket_id checksum s =
    if s.state != uploading || s.upload_ticket != some ticket_id
    then (s, err (stale_generation (or_unknown s.page_id) (or_zero s.generation) 0))
    else (record s { state = uploaded; checksum_sha256 = checksum }, ok tt)

unfoldable pub complete_upload :
    (slot_id ticket_id : ℕ) → Option String → Attempt VramSlotTable Done
unfolding finish_slot_upload
complete_upload slot_id ticket_id checksum = on_slot slot_id (finish_slot_upload ticket_id checksum)

abbrev pub wrong_identity : PageId → ℕ → VramSlot → Bool
wrong_identity page_id generation s = s.page_id != some page_id || s.generation != some generation

-- `validate_slot_identity`, before the rest of a method on the slot.
abbrev pub identified : PageId → ℕ → Attempt VramSlot Done → Attempt VramSlot Done
identified page_id generation op s =
    if wrong_identity page_id generation s
    then (s, err (stale_generation page_id (or_zero s.generation) generation))
    else op s

unfoldable pub ready_slot : Attempt VramSlot Done
ready_slot s =
    if s.state != uploaded
    then (s, err (invalid "compute readiness requires uploaded slot"))
    else (record s { state = compute_ready }, ok tt)

unfoldable pub mark_compute_ready : (slot_id : ℕ) → PageId → ℕ → Attempt VramSlotTable Done
unfolding ready_slot
mark_compute_ready slot_id page_id generation =
    on_slot slot_id (identified page_id generation ready_slot)

unfoldable pub pin_slot : (epoch : ℕ) → Attempt VramSlot Done
pin_slot epoch s =
    if s.state != compute_ready then (s, err (invalid "slot is not compute ready")) else (
      record s {
        state = in_use;
        pinned_users = min (s.pinned_users + 1) u32_max;
        last_use_epoch = epoch;
      },
      ok tt,
    )

abbrev pub compute_lease : (slot_id : ℕ) → PageId → ℕ → (epoch : ℕ) → PageLease
compute_lease slot_id page_id generation epoch = record {
  lease_id = bitxor 64 ((slot_id * u32_size) % u64_size) epoch;
  page_id = page_id;
  generation = generation;
  epoch = epoch;
  location = vram_slot slot_id;
  purpose = "gpu-compute";
}

unfoldable pub acquire : (slot_id : ℕ) → PageId → ℕ → (epoch : ℕ) → Attempt VramSlotTable PageLease
unfolding pin_slot
acquire slot_id page_id generation epoch = do
  on_slot slot_id (identified page_id generation (pin_slot epoch))
  pure (compute_lease slot_id page_id generation epoch)

unfoldable pub unpin_slot : Attempt VramSlot Done
unpin_slot s =
    if s.state != in_use || s.pinned_users == 0
    then (s, err (invalid "slot release without an active pin"))
    else (
      record s {
        pinned_users = s.pinned_users - 1;
        state = if s.pinned_users - 1 == 0 then compute_ready else in_use;
      },
      ok tt,
    )

unfoldable pub release : PageLease → Attempt VramSlotTable Done
unfolding unpin_slot
release lease t = elim lease.location [
  | vram_slot slot_id ↦ on_slot slot_id (identified lease.page_id lease.generation unpin_slot) t
  | _ ↦ (t, err (invalid "VRAM slot lease has wrong location"))
]

unfoldable pub clear_slot : (slot_id : ℕ) → Attempt VramSlot Done
unfolding new_slot
clear_slot slot_id s =
    if not (evictable s)
    then (s, err (resource_exhausted "slot is pinned or not evictable"))
    else (new_slot slot_id s.capacity_bytes, ok tt)

unfoldable pub evict : (slot_id : ℕ) → PageId → ℕ → Attempt VramSlotTable Done
unfolding clear_slot
evict slot_id page_id generation =
    on_slot slot_id (identified page_id generation (clear_slot slot_id))
