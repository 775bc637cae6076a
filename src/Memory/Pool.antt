-- ===== src/Memory/Pool.antt =====
-- har/crates/har-memory/src/pinned_pool.rs: a first-fit allocator over one pinned region. The `BTreeMap` of
-- the free blocks is the list of them in the order of their starts; wrap-around is a release build's.
pub mod Cover
pub mod History
pub mod Joined
pub mod Keeps
pub mod Partition
pub mod Reserved
mod Tests
use remora_lab.Base.{
  zero, suc, ℕ, ◌+◌, ◌-◌, ◌/◌, ◌%◌, Bool, true, false, Option, none, some, ◌==◌, ◌||◌, ◌&&◌, not,
  nat_eq, List, [], ◌∷◌, if◌then◌else◌, ltb, leb, max, wrap_add, wrap_sub, wrap_mul,
}
use remora_lab.Base.Dict.{Dict, lookup, insert, remove}
use remora_lab.Memory.Errors.{Result, ok, err, invalid}

pub record PinnedPoolConfig : Type 0 where
  pub capacity_bytes : ℕ
  pub alignment : ℕ

-- `is_power_of_two` on 64 bits.
unfoldable pub power_from : (bits : ℕ) → ℕ → Bool
power_from zero n = false
power_from (suc bits) n =
    let half = power_from bits (n / 2) in if n == 1 then true else n % 2 == 0 && half

unfoldable pub validate : PinnedPoolConfig → Result (Unit {0})
unfolding power_from
validate c =
    if c.capacity_bytes == 0 || (c.alignment == 0 || not (power_from 64 c.alignment))
    then err
        (invalid "pinned pool config" "capacity must be > 0 and alignment a nonzero power of two")
    else ok tt

pub record FreeBlock : Type 0 where
  pub start : ℕ
  pub end : ℕ

pub record PinnedHandle : Type 0 where
  pub id : ℕ
  pub generation : ℕ
  pub offset : ℕ
  pub bytes : ℕ

abbrev pub handle_beq : PinnedHandle → PinnedHandle → Bool
handle_beq a b =
    a.id == b.id && (a.generation == b.generation && (a.offset == b.offset && a.bytes == b.bytes))

pub record PinnedPoolStats : Type 0 where
  pub acquisitions : ℕ
  pub releases : ℕ
  pub coalesces : ℕ
  pub peak_in_use_bytes : ℕ

pub record PinnedHostPool : Type 0 where
  pub config : PinnedPoolConfig
  pub free : List FreeBlock
  pub in_use : Dict ℕ PinnedHandle
  pub next_id : ℕ
  pub stats : PinnedPoolStats

unfoldable pub new_pool : PinnedPoolConfig → Result PinnedHostPool
unfolding validate
new_pool c = elim (validate c) [
  | err e ↦ err e
  | ok _ ↦ ok (record {
    config = c;
    free = record { start = 0; end = c.capacity_bytes } ∷ [];
    in_use = [];
    next_id = 1;
    stats = record { acquisitions = 0; releases = 0; coalesces = 0; peak_in_use_bytes = 0 };
  })
]

unfoldable pub sum_bytes : Dict ℕ PinnedHandle → ℕ
sum_bytes [] = 0
sum_bytes ((_, h) ∷ rest) = wrap_add h.bytes (sum_bytes rest)

unfoldable pub in_use_bytes : PinnedHostPool → ℕ
unfolding sum_bytes
in_use_bytes p = sum_bytes p.in_use

-- `bytes.div_ceil(align) * align`.
unfoldable pub rounded : (align bytes : ℕ) → ℕ
rounded align bytes =
    wrap_mul (if bytes % align == 0 then bytes / align else bytes / align + 1) align

unfoldable pub misalign : (align start : ℕ) → ℕ
misalign align start = (align - start % align) % align

-- The block that is chosen, with what stands before it in the map and after it.
unfoldable pub choose : (align size : ℕ) → List FreeBlock → Option (FreeBlock × ℕ)
unfolding misalign
choose align size [] = none
choose align size (b ∷ rest) =
    if leb (wrap_add (misalign align b.start) size) (wrap_sub b.end b.start)
    then some (b, misalign align b.start)
    else choose align size rest

-- `remove` of the block that starts at a key, and `insert` in the order of the starts.
unfoldable pub remove_block : ℕ → List FreeBlock → List FreeBlock
remove_block start [] = []
remove_block start (b ∷ rest) = if b.start == start then rest else b ∷ remove_block start rest

unfoldable pub insert_block : FreeBlock → List FreeBlock → List FreeBlock
insert_block x [] = x ∷ []
insert_block x (b ∷ rest) =
    if ltb x.start b.start
    then x ∷ b ∷ rest
    else if x.start == b.start
    then x ∷ rest
    else b ∷ insert_block x rest

-- The parts of the chosen block that stay free.
unfoldable pub split_block :
    FreeBlock → (payload_start reserved_end : ℕ) → List FreeBlock → List FreeBlock
unfolding remove_block insert_block
split_block b payload_start reserved_end free =
    let rest = remove_block b.start free in
    let before =
      if ltb b.start payload_start
      then insert_block (record { start = b.start; end = payload_start }) rest
      else rest in
    if ltb reserved_end b.end
    then insert_block (record { start = reserved_end; end = b.end }) before
    else before

unfoldable pub acquire : (bytes : ℕ) → PinnedHostPool → PinnedHostPool × Result PinnedHandle
unfolding rounded choose split_block in_use_bytes
acquire bytes p =
    if bytes == 0
    then (p, err (invalid "pinned pool" "zero-byte acquisition"))
    else elim (choose p.config.alignment (rounded p.config.alignment bytes) p.free) [
      | none ↦ (p, err (invalid "pinned pool" "no contiguous aligned block free"))
      | some (b, offset) ↦
          let payload_start = wrap_add b.start offset in
          let reserved_end = wrap_add payload_start (rounded p.config.alignment bytes) in
          let handle : PinnedHandle = record {
            id = p.next_id;
            generation = p.next_id;
            offset = payload_start;
            bytes = bytes;
          } in
          let in_use = insert payload_start handle p.in_use in
          (
            record p {
              free = split_block b payload_start reserved_end p.free;
              in_use = in_use;
              next_id = wrap_add p.next_id 1;
              stats = record p.stats {
                acquisitions = wrap_add p.stats.acquisitions 1;
                peak_in_use_bytes = max p.stats.peak_in_use_bytes (sum_bytes in_use);
              };
            },
            ok handle,
          )
    ]

-- The last block that starts before a place.
unfoldable pub last_before : ℕ → List FreeBlock → Option FreeBlock
last_before start [] = none
last_before start (b ∷ rest) =
    let later = last_before start rest in
    if ltb b.start start then elim later [ none ↦ some b | some c ↦ some c ] else none

unfoldable pub block_at : ℕ → List FreeBlock → Option FreeBlock
block_at start [] = none
block_at start (b ∷ rest) = if b.start == start then some b else block_at start rest

unfoldable pub retain_outside : (start end : ℕ) → List FreeBlock → List FreeBlock
retain_outside start end [] = []
retain_outside start end (b ∷ rest) =
    if not (leb start b.start && ltb b.start end)
    then b ∷ retain_outside start end rest
    else retain_outside start end rest

-- Where the block that comes back starts once it is joined to the one before it.
unfoldable pub joined_start : ℕ → List FreeBlock → ℕ
unfolding last_before
joined_start start free = elim (last_before start free) [
  | none ↦ start
  | some b ↦ if wrap_add b.start (wrap_sub b.end b.start) == start then b.start else start
]

unfoldable pub joined_end : ℕ → List FreeBlock → ℕ
unfolding block_at
joined_end end free = elim (block_at end free) [ none ↦ end | some b ↦ b.end ]

abbrev count_joins : ℕ → ℕ → List FreeBlock → ℕ
count_joins start end free =
    (if joined_start start free == start then 0 else 1)
    + elim (block_at end free) [ none ↦ 0 | some b ↦ 1 ]

unfoldable pub insert_free : (start reserved_end : ℕ) → PinnedHostPool → PinnedHostPool
unfolding joined_start joined_end block_at retain_outside insert_block
insert_free start reserved_end p =
    let s = joined_start start p.free in
    let e = joined_end reserved_end p.free in
    record p {
      free = insert_block (record { start = s; end = e }) (retain_outside s e p.free);
      stats = record p.stats {
        coalesces = wrap_add p.stats.coalesces (count_joins start reserved_end p.free);
      };
    }

unfoldable pub release : PinnedHandle → PinnedHostPool → PinnedHostPool × Result (Unit {0})
unfolding rounded insert_free
release handle p = elim (lookup handle.offset p.in_use) [
  | none ↦ (p, err (invalid "pinned pool" "release of unknown offset"))
  | some live ↦
      if not (handle_beq live handle) then (p, err (invalid "pinned pool" "stale handle")) else (
        insert_free handle.offset (wrap_add handle.offset (rounded p.config.alignment handle.bytes))
            (record p {
              in_use = remove handle.offset p.in_use;
              stats = record p.stats { releases = wrap_add p.stats.releases 1 };
            }),
        ok tt,
      )
]
