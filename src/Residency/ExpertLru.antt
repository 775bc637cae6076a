-- ===== src/Residency/ExpertLru.antt =====
-- har/crates/har-residency/src/expert_lru.rs: the cache of expert pages, evicted by last use. The map of
-- entries is an association list in its order of iteration, on which nothing that is stated relies.
pub mod Eviction
pub mod Insertion
use remora_lab.Base.{
  ℕ, zero, suc, ◌+◌, ◌-◌, ◌≡◌, ◌↔◌, String, Bool, true, false, Option, none, some, [], ◌∷◌, arith,
  ltb, leb, ◌==◌, ◌&&◌, ◌||◌, nat_eq, string_eq, nat_beq, PartialEq, if◌then◌else◌, wrap_add,
  wrap_sub, length, u32_max, min,
}
use remora_lab.Base.Dict.{Dict, lookup, insert, remove}
use remora_lab.Residency.Types.{PageId, page_eq}

-- `ResidencyError::Invalid` is the only error that is raised here; its text without the values.
pub data Result {ℓ} (A : Type ℓ) : Type ℓ where
  ok : A → Result A
  invalid : String → Result A

pub record Entry : Type 0 where
  pub bytes : ℕ
  pub last_used_ns : ℕ
  pub pins : ℕ

pub record LruCacheStats : Type 0 where
  pub hits : ℕ
  pub misses : ℕ
  pub insertions : ℕ
  pub evictions : ℕ
  pub rejected_oversize : ℕ

pub record LruExpertCache : Type 0 where
  pub capacity_bytes : ℕ
  pub entries : Dict PageId Entry
  pub resident_bytes : ℕ
  pub stats : LruCacheStats

abbrev no_stats : LruCacheStats
no_stats = record { hits = 0; misses = 0; insertions = 0; evictions = 0; rejected_oversize = 0 }

unfoldable pub new_cache : ℕ → Result LruExpertCache
new_cache capacity_bytes =
    if capacity_bytes == 0
    then invalid "expert cache capacity must be > 0"
    else ok (record {
      capacity_bytes = capacity_bytes;
      entries = [];
      resident_bytes = 0;
      stats = no_stats;
    })

abbrev count_insertion : LruCacheStats → LruCacheStats
count_insertion s = record s { insertions = wrap_add s.insertions 1 }

unfoldable pub touch : PageId → ℕ → LruExpertCache → LruExpertCache × Bool
touch page now_ns c = elim (lookup page c.entries) [
  | some e ↦ (
    record c {
      entries = insert page (record e { last_used_ns = now_ns }) c.entries;
      stats = record c.stats { hits = wrap_add c.stats.hits 1 };
    },
    true,
  )
  | none ↦ (record c { stats = record c.stats { misses = wrap_add c.stats.misses 1 } }, false)
]

unfoldable pub pin : PageId → ℕ → LruExpertCache → LruExpertCache × Result (Unit {0})
pin page now_ns c = elim (lookup page c.entries) [
  | none ↦ (c, invalid "cannot pin a page that is not resident")
  | some e ↦ (
    record c {
      entries =
          insert page (record e { last_used_ns = now_ns; pins = min (e.pins + 1) u32_max })
            c.entries;
    },
    ok tt,
  )
]

unfoldable pub unpin : PageId → LruExpertCache → LruExpertCache × Result (Unit {0})
unpin page c = elim (lookup page c.entries) [
  | none ↦ (c, invalid "cannot unpin a page that is not resident")
  | some e ↦
      if e.pins == 0
      then (c, invalid "unpin below zero")
      else (record c { entries = insert page (record e { pins = e.pins - 1 }) c.entries }, ok tt)
]

-- The order of the keys of `min_by_key`.
abbrev older : Entry → Entry → Bool
older a b =
    ltb a.last_used_ns b.last_used_ns || (a.last_used_ns == b.last_used_ns && leb a.bytes b.bytes)

-- The first of the least recently used entries that have no pin.
unfoldable pub victim : Dict PageId Entry → Option (PageId × Entry)
victim [] = none
victim ((k, e) ∷ d) =
    let rest = victim d in
    if e.pins == 0
    then elim rest [
      | none ↦ some (k, e)
      | some (j, b) ↦ if older e b then some (k, e) else some (j, b)
    ]
    else rest

-- The body of both loops, on the key of the victim.
unfoldable pub evict : PageId → LruExpertCache → LruExpertCache
evict k c = elim (lookup k c.entries) [
  | none ↦ c
  | some e ↦ record c {
    entries = remove k c.entries;
    resident_bytes = wrap_sub c.resident_bytes e.bytes;
    stats = record c.stats { evictions = wrap_add c.stats.evictions 1 };
  }
]

-- The `while`, with fuel: `none` means that the fuel ran out.
unfoldable pub make_room : ℕ → ℕ → LruExpertCache → Option (LruExpertCache × Result (Unit {0}))
unfolding victim evict
make_room zero incoming_bytes c = none
make_room (suc fuel) incoming_bytes c =
    if leb (wrap_add c.resident_bytes incoming_bytes) c.capacity_bytes
    then some (c, ok tt)
    else elim (victim c.entries) [
      | none ↦ some (c, invalid "cache full of pinned pages; cannot evict")
      | some v ↦ make_room fuel incoming_bytes (evict v.0 c)
    ]

unfoldable pub evict_until_fit : ℕ → LruExpertCache → Option LruExpertCache
unfolding victim evict
evict_until_fit zero c = none
evict_until_fit (suc fuel) c =
    if leb c.resident_bytes c.capacity_bytes
    then some c
    else elim (victim c.entries) [ none ↦ some c | some v ↦ evict_until_fit fuel (evict v.0 c) ]

-- Each eviction removes an entry, so the number of entries plus one is fuel enough for both loops.
abbrev pub loop_fuel : LruExpertCache → ℕ
loop_fuel c = suc (length c.entries)

-- A page that is there is resized, and keeps its pins.
unfoldable pub refresh : PageId → Entry → ℕ → ℕ → LruExpertCache → LruExpertCache
refresh page old bytes now_ns c = record c {
  resident_bytes = wrap_add (wrap_sub c.resident_bytes old.bytes) bytes;
  entries =
      insert page (record { bytes = bytes; last_used_ns = now_ns; pins = old.pins }) c.entries;
  stats = count_insertion c.stats;
}

-- A page that is not there is added once there is room.
unfoldable pub admit_page : PageId → ℕ → ℕ → LruExpertCache → LruExpertCache
admit_page page bytes now_ns c = record c {
  entries = insert page (record { bytes = bytes; last_used_ns = now_ns; pins = 0 }) c.entries;
  resident_bytes = wrap_add c.resident_bytes bytes;
  stats = count_insertion c.stats;
}

abbrev pub admitted :
    PageId → ℕ → ℕ → LruExpertCache × Result (Unit {0}) → LruExpertCache × Result (Unit {0})
admitted page bytes now_ns (c, ok _) = (admit_page page bytes now_ns c, ok tt)
admitted page bytes now_ns (c, invalid m) = (c, invalid m)

unfoldable pub insert_page :
    PageId → ℕ → ℕ → LruExpertCache → Option (LruExpertCache × Result (Unit {0}))
unfolding make_room evict_until_fit refresh admit_page
insert_page page bytes now_ns c =
    if ltb c.capacity_bytes bytes
    then some (
      record c {
        stats = record c.stats { rejected_oversize = wrap_add c.stats.rejected_oversize 1 };
      },
      invalid "page exceeds cache capacity",
    )
    else elim (lookup page c.entries) [
      | some old ↦
          let r = refresh page old bytes now_ns c in
          elim (evict_until_fit (loop_fuel r) r) [ none ↦ none | some d ↦ some (d, ok tt) ]
      | none ↦ elim (make_room (loop_fuel c) bytes c) [
        | none ↦ none
        | some out ↦ some (admitted page bytes now_ns out)
      ]
    ]
