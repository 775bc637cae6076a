-- ===== src/Residency/State.antt =====
-- har/crates/har-residency/src/types.rs: the states of a page and the legal transitions between them.
use remora_lab.Base.{ℕ, ◌≡◌, refl, Bool, true, false, PartialEq, nat_eq, [], ◌∷◌, nth_or}
use remora_lab.Base.{eq_by_code}

pub data ResidencyState : Type 0 where
  indexed nvme_read_queued nvme_reading ram_ready : ResidencyState
  vram_reservation_queued vram_reserved upload_queued vram_uploading : ResidencyState
  uploaded compute_ready in_use eviction_queued : ResidencyState
  evicting evicted cancelled failed : ResidencyState

abbrev state_index : ResidencyState → ℕ
state_index s = elim s [
  | indexed ↦ 0
  | nvme_read_queued ↦ 1
  | nvme_reading ↦ 2
  | ram_ready ↦ 3
  | vram_reservation_queued ↦ 4
  | vram_reserved ↦ 5
  | upload_queued ↦ 6
  | vram_uploading ↦ 7
  | uploaded ↦ 8
  | compute_ready ↦ 9
  | in_use ↦ 10
  | eviction_queued ↦ 11
  | evicting ↦ 12
  | evicted ↦ 13
  | cancelled ↦ 14
  | failed ↦ 15
]

abbrev of_state_index : ℕ → ResidencyState
of_state_index = nth_or failed (
    indexed ∷ nvme_read_queued ∷ nvme_reading ∷ ram_ready ∷ vram_reservation_queued ∷ vram_reserved
    ∷ upload_queued ∷ vram_uploading ∷ uploaded ∷ compute_ready ∷ in_use ∷ eviction_queued
    ∷ evicting ∷ evicted ∷ cancelled ∷ [])

pub state_index_lem : (s : ResidencyState) → of_state_index (state_index s) ≡ s
state_index_lem indexed = refl
state_index_lem nvme_read_queued = refl
state_index_lem nvme_reading = refl
state_index_lem ram_ready = refl
state_index_lem vram_reservation_queued = refl
state_index_lem vram_reserved = refl
state_index_lem upload_queued = refl
state_index_lem vram_uploading = refl
state_index_lem uploaded = refl
state_index_lem compute_ready = refl
state_index_lem in_use = refl
state_index_lem eviction_queued = refl
state_index_lem evicting = refl
state_index_lem evicted = refl
state_index_lem cancelled = refl
state_index_lem failed = refl

instance abbrev pub state_eq : PartialEq ResidencyState
state_eq = eq_by_code nat_eq state_index of_state_index state_index_lem

unfoldable pub legal_transition : ResidencyState → ResidencyState → Bool
legal_transition from to = elim from [
  | indexed ↦ elim to [ nvme_read_queued ↦ true | ram_ready ↦ true | evicted ↦ true | _ ↦ false ]
  | nvme_read_queued ↦ elim to [
    | nvme_reading ↦ true
    | cancelled ↦ true
    | failed ↦ true
    | _ ↦ false
  ]
  | nvme_reading ↦ elim to [ ram_ready ↦ true | cancelled ↦ true | failed ↦ true | _ ↦ false ]
  | ram_ready ↦ elim to [
    | vram_reservation_queued ↦ true
    | upload_queued ↦ true
    | eviction_queued ↦ true
    | indexed ↦ true
    | _ ↦ false
  ]
  | vram_reservation_queued ↦ elim to [
    | vram_reserved ↦ true
    | ram_ready ↦ true
    | cancelled ↦ true
    | failed ↦ true
    | _ ↦ false
  ]
  | vram_reserved ↦ elim to [
    | upload_queued ↦ true
    | eviction_queued ↦ true
    | failed ↦ true
    | _ ↦ false
  ]
  | upload_queued ↦ elim to [ vram_uploading ↦ true | cancelled ↦ true | failed ↦ true | _ ↦ false ]
  | vram_uploading ↦ elim to [ uploaded ↦ true | cancelled ↦ true | failed ↦ true | _ ↦ false ]
  | uploaded ↦ elim to [ compute_ready ↦ true | eviction_queued ↦ true | failed ↦ true | _ ↦ false ]
  | compute_ready ↦ elim to [
    | in_use ↦ true
    | eviction_queued ↦ true
    | ram_ready ↦ true
    | indexed ↦ true
    | _ ↦ false
  ]
  | in_use ↦ elim to [ compute_ready ↦ true | eviction_queued ↦ true | failed ↦ true | _ ↦ false ]
  | eviction_queued ↦ elim to [ evicting ↦ true | cancelled ↦ true | failed ↦ true | _ ↦ false ]
  | evicting ↦ elim to [
    | ram_ready ↦ true
    | indexed ↦ true
    | evicted ↦ true
    | failed ↦ true
    | _ ↦ false
  ]
  | evicted ↦ elim to [ nvme_read_queued ↦ true | indexed ↦ true | _ ↦ false ]
  | cancelled ↦ elim to [ indexed ↦ true | evicted ↦ true | _ ↦ false ]
  | failed ↦ false
]
