-- ===== src/Memory/Pool/Partition.antt =====
-- har/crates/har-memory/src/pinned_pool.rs: every byte of the region is in one place: free or reserved.
use remora_lab.Base.{
  List, ◌≡◌, ◌+◌, ◌≤◌, ◌<◌, inl, inr, arith, ◌^◌, ℕ, All, if◌then◌else◌, ltb, Bool-cases, ◌-◌,
}
use remora_lab.Memory.Pool.{FreeBlock, PinnedHostPool, split_block, remove_block, insert_block}
use remora_lab.Memory.Pool.Cover.{
  inside, cover, covers, IsFilled, In, All-In, All-remove_block, cover-remove_block,
  All-insert_block, cover-insert_block, cover-In,
}
use remora_lab.Memory.Pool.Reserved.{reserved, IsEntry}

pub record IsPartition (p : PinnedHostPool) : Type 0 where
  pub aligned : 0 < p.config.alignment
  pub bounded : p.config.capacity_bytes < 2 ^ 64
  pub filled : All IsFilled p.free
  pub entries : All (IsEntry p.config.alignment) p.in_use
  pub once :
      (n : ℕ)
      → cover p.free n + reserved p.config.alignment p.in_use n
        ≡ (if ltb n p.config.capacity_bytes then 1 else 0)

-- A free block ends in the region.
pub end_lem :
    (p : PinnedHostPool)
    → IsPartition p
    → (b : FreeBlock) → In b p.free
    → b.end ≤ p.config.capacity_bytes
end_lem p h b i =
    ground (arith, All-In IsFilled i h.filled, cover-In (b.end - 1) i, h.once (b.end - 1))

-- A part that stays free is inserted where it is not empty.
abbrev keep : FreeBlock → List FreeBlock → List FreeBlock
keep x l = if ltb x.start x.end then insert_block x l else l

cover-keep :
    (n : ℕ) (x : FreeBlock) (l : List FreeBlock)
    → All IsFilled l
    → (IsFilled x → cover l x.start ≡ 0)
    → cover (keep x l) n ≡ covers x n + cover l n
cover-keep n x l f h = elim (Bool-cases (ltb x.start x.end)) [
  | inl e ↦ rw e (cover-insert_block n x l f (h (ground arith)))
  | inr e ↦ rw e (ground arith)
]

All-keep : (x : FreeBlock) (l : List FreeBlock) → All IsFilled l → All IsFilled (keep x l)
All-keep x l f = elim (Bool-cases (ltb x.start x.end)) [
  | inl e ↦ rw e (All-insert_block IsFilled x l (ground arith) f)
  | inr e ↦ rw e f
]

-- Taking a range out of a free block.
module _ (b : FreeBlock) (s e : ℕ) (l : List FreeBlock) (i : In b l) (f : All IsFilled l)
    (once : (k : ℕ) → cover l k ≤ 1) where
  abbrev front : FreeBlock
  front = record { start = b.start; end = s }

  abbrev back : FreeBlock
  back = record { start = e; end = b.end }

  removed : (n : ℕ) → cover (remove_block b.start l) n + covers b n ≡ cover l n
  removed n = cover-remove_block n i f (once b.start)

  rest-IsFilled : All IsFilled (remove_block b.start l)
  rest-IsFilled = All-remove_block IsFilled b.start l f

  cover-front :
      (n : ℕ)
      → s ≤ b.end
      → cover (keep front (remove_block b.start l)) n
        ≡ inside b.start s n + cover (remove_block b.start l) n
  cover-front n hs =
      cover-keep n front (remove_block b.start l) rest-IsFilled
        (λ h. ground (arith, removed b.start, once b.start, h, hs))

  pub cover-split_block :
      (n : ℕ)
      → b.start ≤ s
      → s < e
      → e ≤ b.end
      → cover (split_block b s e l) n + inside s e n ≡ cover l n
  unfolding split_block
  cover-split_block n hs hse he = ground (
    arith,
    cover-keep n back (keep front (remove_block b.start l))
        (All-keep front (remove_block b.start l) rest-IsFilled)
        (λ h. ground (arith, removed e, once e, h, cover-front e (omega arith))),
    cover-front n (omega arith),
    removed n,
  )

  pub split_block-IsFilled : All IsFilled (split_block b s e l)
  unfolding split_block
  split_block-IsFilled =
      All-keep back (keep front (remove_block b.start l))
        (All-keep front (remove_block b.start l) rest-IsFilled)
