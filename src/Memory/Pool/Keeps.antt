-- ===== src/Memory/Pool/Keeps.antt =====
-- har/crates/har-memory/src/pinned_pool.rs: acquisitions and releases keep the partition of the region.
use native.Mathlib.Nat.{mod-lt, div-add-mod', add-mod-mod, mul-mod_left}
use mathlib.Core.Path.{subst, sym, ap}
use remora_lab.Base.{
  ◌≡◌, ◌+◌, ◌-◌, ◌≤◌, ◌<◌, ◌==◌, true, false, inl, inr, some, none, arith, refl, ℕ, ◌^◌, ◌%◌,
  if◌then◌else◌, nat_eq, ltb, Option-cases, ◌*◌, wrap_mul, ◌/◌, Bool-cases, wrap_add, wrap_sub, ◌∙◌,
}
use remora_lab.Base.Dict.{lookup, insert, remove}
use remora_lab.Memory.Pool.{
  FreeBlock, PinnedHostPool, PinnedHandle, acquire, release, rounded, misalign, split_block,
  insert_free, PinnedPoolStats, choose, handle_beq,
}
use remora_lab.Memory.Pool.Cover.{cover, IsFilled, In, cover-In, choose-In, All-In}
use remora_lab.Memory.Pool.Reserved.{
  reserved, reserved_end, reserved-insert, IsEntry-lookup, reserved-lookup, All-insert-IsEntry,
  All-remove-IsEntry, reserved-remove,
}
use remora_lab.Memory.Pool.Partition.{IsPartition, end_lem, cover-split_block, split_block-IsFilled}
use remora_lab.Memory.Pool.Joined.{joined-IsFilled, joined-cover}

rounded-bounds :
    (align bytes : ℕ)
    → 0 < align
    → bytes + align < 2 ^ 64
    → (bytes ≤ rounded align bytes) × (rounded align bytes < bytes + align)
unfolding rounded
rounded-bounds align bytes h k = elim (Bool-cases (bytes % align == 0)) [
  | inl e ↦ rw e (exact e)
  | inr e ↦ rw e (more e)
]
  where
    exact :
        (bytes % align == 0) ≡ true
        → (bytes ≤ wrap_mul (bytes / align) align)
          × (wrap_mul (bytes / align) align < bytes + align)
    exact e =
        ground
          (arith, div-add-mod' bytes align, mod-lt bytes h, nat_eq.beq_iff (bytes % align) 0, e)

    more :
        (bytes % align == 0) ≡ false
        → (bytes ≤ wrap_mul (bytes / align + 1) align)
          × (wrap_mul (bytes / align + 1) align < bytes + align)
    more e =
        ground
          (arith, div-add-mod' bytes align, mod-lt bytes h, nat_eq.beq_iff (bytes % align) 0, e)

misalign-bound : (align start : ℕ) → 0 < align → misalign align start < align
unfolding misalign
misalign-bound align start h = mod-lt (align - start % align) h

misalign-aligned : (align start : ℕ) → 0 < align → (start + misalign align start) % align ≡ 0
unfolding misalign
misalign-aligned align start h =
    add-mod-mod start (align - start % align) align
    ∙ ap (λ x. x % align) up
    ∙ mul-mod_left (start / align + 1) align
  where
    up : start + (align - start % align) ≡ (start / align + 1) * align
    up = ground (arith, div-add-mod' start align, mod-lt start h)

module _ (p : PinnedHostPool) (h : IsPartition p) where
  free_once : (n : ℕ) → cover p.free n ≤ 1
  free_once n = ground (arith, h.once n)

  -- The pool that has reserved a range of a free block.
  abbrev taken : FreeBlock → (s e : ℕ) → PinnedHandle → PinnedHostPool
  taken b s e handle = record p {
    free = split_block b s e p.free;
    in_use = insert s handle p.in_use;
  }

  taken-once :
      (b : FreeBlock) (s e : ℕ) (handle : PinnedHandle)
      → In b p.free
      → b.start ≤ s
      → s < e
      → e ≤ b.end
      → handle.offset ≡ s
      → reserved_end p.config.alignment handle ≡ e
      → (n : ℕ)
      → cover (split_block b s e p.free) n
          + reserved p.config.alignment (insert s handle p.in_use) n
        ≡ (if ltb n p.config.capacity_bytes then 1 else 0)
  taken-once b s e handle i hs hse he hh hr n = ground (
    arith,
    h.once n,
    cover-split_block b s e p.free i h.filled free_once n hs hse he,
    reserved-insert p.config.alignment n s handle p.in_use h.entries
        (ground (arith, cover-In s i, h.once s)),
    hh,
    hr,
  )

  pub taken-IsPartition :
      (b : FreeBlock) (s e : ℕ) (handle : PinnedHandle) (id : ℕ) (stats : PinnedPoolStats)
      → In b p.free
      → b.start ≤ s
      → s < e
      → e ≤ b.end
      → handle.offset ≡ s
      → reserved_end p.config.alignment handle ≡ e
      → s + handle.bytes ≤ e
      → s % p.config.alignment ≡ 0
      → IsPartition (record (taken b s e handle) { next_id = id; stats = stats })
  taken-IsPartition b s e handle id stats i hs hse he hh hr room placed = record {
    aligned = h.aligned;
    bounded = h.bounded;
    filled = split_block-IsFilled b s e p.free i h.filled free_once;
    entries =
        All-insert-IsEntry p.config.alignment s handle p.in_use
          (sym hh, omega arith, omega arith, ap (λ x. x % p.config.alignment) hh ∙ placed)
          h.entries;
    once = taken-once b s e handle i hs hse he hh hr;
  }

  -- A range of a live handle is outside of the free blocks, and comes back to them.
  returned-IsPartition :
      (handle : PinnedHandle) (stats : PinnedPoolStats)
      → lookup handle.offset p.in_use ≡ some handle
      → IsPartition (
          insert_free handle.offset
            (reserved_end p.config.alignment handle)
            (record p { in_use = remove handle.offset p.in_use; stats = stats }))
  unfolding insert_free
  returned-IsPartition handle stats q = record {
    aligned = h.aligned;
    bounded = h.bounded;
    filled =
        joined-IsFilled handle.offset (reserved_end p.config.alignment handle) p.free h.filled
          free_once ends nonempty outside;
    entries = All-remove-IsEntry p.config.alignment handle.offset p.in_use h.entries;
    once = λ n. ground (
      arith,
      h.once n,
      reserved-remove p.config.alignment n handle.offset handle p.in_use q,
      joined-cover handle.offset (reserved_end p.config.alignment handle) p.free h.filled free_once
          ends nonempty outside n,
    );
  }
    where
      ends : (b : FreeBlock) → In b p.free → b.end < 2 ^ 64
      ends b i = omega (arith, end_lem p h b i, h.bounded)

      nonempty : handle.offset < reserved_end p.config.alignment handle
      nonempty = (IsEntry-lookup p.config.alignment handle.offset handle p.in_use q h.entries).1

      outside :
          (k : ℕ)
          → handle.offset ≤ k
          → k < reserved_end p.config.alignment handle
          → cover p.free k ≡ 0
      outside k hk ke =
          ground
            (arith, h.once k, reserved-lookup p.config.alignment k handle.offset handle p.in_use q)

  -- The reserved range of an acquisition lies in the chosen block.
  reserved-fits :
      (bytes : ℕ) (b : FreeBlock) (m : ℕ)
      → 0 < bytes
      → bytes + 2 * p.config.alignment < 2 ^ 64
      → choose p.config.alignment (rounded p.config.alignment bytes) p.free ≡ some (b, m)
      → (b.start ≤ wrap_add b.start m)
        × (wrap_add b.start m < wrap_add (wrap_add b.start m) (rounded p.config.alignment bytes))
        × (wrap_add (wrap_add b.start m) (rounded p.config.alignment bytes) ≤ b.end)
        × (wrap_add b.start m + bytes
            ≤ wrap_add (wrap_add b.start m) (rounded p.config.alignment bytes))
        × (wrap_add b.start m ≡ b.start + misalign p.config.alignment b.start)
  reserved-fits bytes b m hb small q = ground (
    arith,
    rounded-bounds p.config.alignment bytes h.aligned (omega arith),
    misalign-bound p.config.alignment b.start h.aligned,
    found,
    All-In IsFilled found.0 h.filled,
    end_lem p h b found.0,
    h.bounded,
  )
    where
      found :
          In b p.free
          × (m ≡ misalign p.config.alignment b.start)
          × (wrap_add m (rounded p.config.alignment bytes) ≤ wrap_sub b.end b.start)
      found = choose-In p.config.alignment (rounded p.config.alignment bytes) b m p.free q

  acquired-IsPartition :
      (bytes : ℕ) (b : FreeBlock) (m : ℕ)
      → (bytes == 0) ≡ false
      → bytes + 2 * p.config.alignment < 2 ^ 64
      → choose p.config.alignment (rounded p.config.alignment bytes) p.free ≡ some (b, m)
      → IsPartition (acquire bytes p).0
  unfolding acquire
  acquired-IsPartition bytes b m e small q =
      rw (e, q)
        (taken-IsPartition b (wrap_add b.start m)
          (wrap_add (wrap_add b.start m) (rounded p.config.alignment bytes)) _ _ _
          (choose-In p.config.alignment (rounded p.config.alignment bytes) b m p.free q).0 fits.0
          fits.1 fits.2 refl refl fits.3
          (ap (λ x. x % p.config.alignment) fits.4
            ∙ misalign-aligned p.config.alignment b.start h.aligned))
    where
      fits :
          (b.start ≤ wrap_add b.start m)
          × (wrap_add b.start m < wrap_add (wrap_add b.start m) (rounded p.config.alignment bytes))
          × (wrap_add (wrap_add b.start m) (rounded p.config.alignment bytes) ≤ b.end)
          × (wrap_add b.start m + bytes
              ≤ wrap_add (wrap_add b.start m) (rounded p.config.alignment bytes))
          × (wrap_add b.start m ≡ b.start + misalign p.config.alignment b.start)
      fits = reserved-fits bytes b m (ground (arith, nat_eq.beq_iff bytes 0, e)) small q

  pub acquire-IsPartition :
      (bytes : ℕ) → bytes + 2 * p.config.alignment < 2 ^ 64 → IsPartition (acquire bytes p).0
  unfolding acquire
  acquire-IsPartition bytes small = elim (Bool-cases (bytes == 0)) [
    | inl e ↦ rw e h
    | inr e ↦
        elim (Option-cases (choose p.config.alignment (rounded p.config.alignment bytes) p.free)) [
          | inl q ↦ rw (e, q) h
          | inr ((b, m), q) ↦ acquired-IsPartition bytes b m e small q
        ]
  ]

  pub release-IsPartition : (handle : PinnedHandle) → IsPartition (release handle p).0
  unfolding release
  release-IsPartition handle = elim (Option-cases (lookup handle.offset p.in_use)) [
    | inl q ↦ subst IsPartition (sym (unknown q)) h
    | inr (live, q) ↦ elim (Bool-cases (handle_beq live handle)) [
      | inl e ↦
          subst IsPartition (sym (released live q e))
            (returned-IsPartition handle _ (q ∙ ap some (same live e)))
      | inr e ↦ subst IsPartition (sym (stale live q e)) h
    ]
  ]
    where
      unknown : lookup handle.offset p.in_use ≡ none → (release handle p).0 ≡ p
      unknown q = ground arith

      stale :
          (live : PinnedHandle)
          → lookup handle.offset p.in_use ≡ some live
          → handle_beq live handle ≡ false
          → (release handle p).0 ≡ p
      stale live q e = ground arith

      same : (live : PinnedHandle) → handle_beq live handle ≡ true → live ≡ handle
      same live e = ground (
        arith,
        nat_eq.beq_iff live.id handle.id,
        nat_eq.beq_iff live.generation handle.generation,
        nat_eq.beq_iff live.offset handle.offset,
        nat_eq.beq_iff live.bytes handle.bytes,
      )

      released :
          (live : PinnedHandle)
          → lookup handle.offset p.in_use ≡ some live
          → handle_beq live handle ≡ true
          → (release handle p).0
            ≡ insert_free handle.offset (reserved_end p.config.alignment handle) (record p {
              in_use = remove handle.offset p.in_use;
              stats = record p.stats { releases = wrap_add p.stats.releases 1 };
            })
      released live q e = ground arith
