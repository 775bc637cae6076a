-- ===== src/Residency/ExpertLru/Insertion.antt =====
-- What an insertion into the cache of har/crates/har-residency/src/expert_lru.rs promises.
use remora_lab.Base.{ℕ, ◌+◌, ◌≡◌, ◌≤◌, ◌<◌, ◌⊎◌, none, some, nat_eq}
use remora_lab.Base.Dict.{Dict, lookup, insert}
use remora_lab.Residency.Types.{PageId, page_eq}
use remora_lab.Residency.ExpertLru.{Result, ok, Entry, LruExpertCache}
use remora_lab.Residency.ExpertLru.Eviction.{IsInvalid, pins_in, IsSound, AllPinned}

-- What becomes of a page that was there. Nothing is evicted unless the resized cache is too full, and the
-- cache may stay too full of pinned pages.
abbrev pub Resizes :
    (page : PageId) (bytes now_ns : ℕ) (old : Entry) (c d : LruExpertCache) → Type 0
Resizes page bytes now_ns old c d =
    let new : Entry = record { bytes = bytes; last_used_ns = now_ns; pins = old.pins } in
    ((lookup page d.entries ≡ some new) ⊎ ((lookup page d.entries ≡ none) × (old.pins ≡ 0)))
    × ((d.entries ≡ insert page new c.entries)
        ⊎ (c.capacity_bytes + old.bytes < c.resident_bytes + bytes))
    × ((d.resident_bytes ≤ d.capacity_bytes) ⊎ AllPinned d.entries)

-- What an insertion of a page does to a cache, and to the pins of any page `j`.
pub record Inserts (page : PageId) (bytes now_ns : ℕ) (c d : LruExpertCache) (r : Result (Unit {0}))
    (j : PageId) : Type 0 where
  pub sound : IsSound d
  pub capacity : d.capacity_bytes ≡ c.capacity_bytes
  pub pins : pins_in j d.entries ≡ pins_in j c.entries
  -- another page stays as it is, or is evicted without a pin
  pub other :
      (j ≡ page)
      ⊎ (lookup j d.entries ≡ lookup j c.entries)
      ⊎ ((lookup j d.entries ≡ none) × (pins_in j c.entries ≡ 0))
  pub result :
      -- too large a page is refused
      ((c.capacity_bytes < bytes) × IsInvalid r × (d.entries ≡ c.entries))
      -- a new page is there, within the capacity, or everything else is pinned
      ⊎ ((lookup page c.entries ≡ none)
          × (r ≡ ok tt)
          × (d.resident_bytes ≤ d.capacity_bytes)
          × (lookup page d.entries
              ≡ some (record { bytes = bytes; last_used_ns = now_ns; pins = 0 })))
      ⊎ ((lookup page c.entries ≡ none) × IsInvalid r × AllPinned d.entries)
      -- a page that was there is resized and keeps its pins, or is evicted as it has none
      ⊎ ((old : Entry) × (lookup page c.entries ≡ some old)
          × (r ≡ ok tt)
          × Resizes page bytes now_ns old c d)

-- How the search for room ends.
abbrev IsRoom : LruExpertCache → ℕ → Result (Unit {0}) → Type 0
IsRoom d bytes r =
    ((r ≡ ok tt) × (d.resident_bytes + bytes ≤ d.capacity_bytes))
    ⊎ (IsInvalid r × AllPinned d.entries)
