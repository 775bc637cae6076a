-- ===== src/Memory/Pool/Joined.antt =====
-- har/crates/har-memory/src/pinned_pool.rs: a range that comes back is joined to its neighbours.
use mathlib.Core.Path.{subst, ap, sym}
use remora_lab.Base.{
  List, [], ◌∷◌, ◌≡◌, ◌+◌, ◌≤◌, ◌<◌, ◌==◌, true, false, inl, inr, some, none, arith, All, ℕ, ◌⊎◌,
  ◌^◌, Bool-cases, if◌then◌else◌, wrap_add, Option-cases, wrap_sub, leb, ◌&&◌, nat_eq, ◌∙◌, ltb,
  max,
}
use remora_lab.Memory.Pool.{
  FreeBlock, retain_outside, joined_start, joined_end, insert_block, block_at, last_before,
}
use remora_lab.Memory.Pool.Cover.{
  inside, cover, IsFilled, In, here, All-In, cover-insert_block, there, All-insert_block, Respects,
  All-retain_outside, cover-In, In-unique, last_before-In, block_at-In, cover-retain_outside,
}

-- Two free blocks are apart, or are the same.
apart :
    {b c : FreeBlock} {l : List FreeBlock}
    → In b l
    → In c l
    → All IsFilled l
    → ((k : ℕ) → cover l k ≤ 1)
    → (b.end ≤ c.start) ⊎ ((c.end ≤ b.start) ⊎ ((b.start ≡ c.start) × (b.end ≡ c.end)))
apart {b} {c} {l} i j f once = elim (Bool-cases (leb b.end c.start)) [
  | inl h ↦ inl (ground arith)
  | inr h ↦ elim (Bool-cases (leb c.end b.start)) [
    | inl k ↦ inr (inl (ground arith))
    | inr k ↦ inr (inr (ap (λ x. x.start) (same h k), ap (λ x. x.end) (same h k)))
  ]
]
  where
    filled : IsFilled b × IsFilled c
    filled = (All-In IsFilled i f, All-In IsFilled j f)

    same : leb b.end c.start ≡ false → leb c.end b.start ≡ false → b ≡ c
    same h k =
        In-unique (max b.start c.start) i j (ground (arith, filled)) (ground (arith, filled))
          (once (max b.start c.start))

All-intro :
    (P : FreeBlock → Type 0) (l : List FreeBlock) → ((b : FreeBlock) → In b l → P b) → All P l
All-intro P [] h = tt
All-intro P (b ∷ l) h = (h b here, All-intro P l (λ c i. h c (there i)))

module _ (o e : ℕ) (l : List FreeBlock) (f : All IsFilled l) (once : (k : ℕ) → cover l k ≤ 1)
    (bounded : (b : FreeBlock) → In b l → b.end < 2 ^ 64) (oe : o < e)
    (outside : (k : ℕ) → o ≤ k → k < e → cover l k ≡ 0) where
  -- Where the joined range starts: at the returned one, or at a free block that ends there.
  data Front : ℕ → Type 0 where
    alone_front : Front o
    with_front : (b : FreeBlock) → In b l → b.end ≡ o → Front b.start

  data Back : ℕ → Type 0 where
    alone_back : Back e
    with_back : (b : FreeBlock) → In b l → b.start ≡ e → Back b.end

  ends :
      (b : FreeBlock) → In b l → (wrap_add b.start (wrap_sub b.end b.start) == o) ≡ true → b.end ≡ o
  ends b i w = ground (
    arith,
    nat_eq.beq_iff (wrap_add b.start (wrap_sub b.end b.start)) o,
    bounded b i,
    All-In IsFilled i f,
  )

  joined_start-Front : Front (joined_start o l)
  unfolding joined_start
  joined_start-Front = elim (Option-cases (last_before o l)) [
    | inl q ↦ subst Front (sym (alone q)) alone_front
    | inr (b, q) ↦ elim (Bool-cases (wrap_add b.start (wrap_sub b.end b.start) == o)) [
      | inl w ↦
          subst Front (sym (joins b q w))
            (with_front b (last_before-In o b l q).0 (ends b (last_before-In o b l q).0 w))
      | inr w ↦ subst Front (sym (apart_from b q w)) alone_front
    ]
  ]
    where
      alone : last_before o l ≡ none → joined_start o l ≡ o
      alone q = ground arith

      joins :
          (b : FreeBlock)
          → last_before o l ≡ some b
          → (wrap_add b.start (wrap_sub b.end b.start) == o) ≡ true
          → joined_start o l ≡ b.start
      joins b q w = ground arith

      apart_from :
          (b : FreeBlock)
          → last_before o l ≡ some b
          → (wrap_add b.start (wrap_sub b.end b.start) == o) ≡ false
          → joined_start o l ≡ o
      apart_from b q w = ground arith

  joined_end-Back : Back (joined_end e l)
  unfolding joined_end
  joined_end-Back = elim (Option-cases (block_at e l)) [
    | inl q ↦ subst Back (sym (alone q)) alone_back
    | inr (b, q) ↦
        subst Back (sym (joins b q)) (with_back b (block_at-In e b l q).0 (block_at-In e b l q).1)
  ]
    where
      alone : block_at e l ≡ none → joined_end e l ≡ e
      alone q = ground arith

      joins : (b : FreeBlock) → block_at e l ≡ some b → joined_end e l ≡ b.end
      joins b q = ground arith

  outside_lem : (b : FreeBlock) → In b l → (b.end ≤ o) ⊎ (e ≤ b.start)
  outside_lem b i = elim (Bool-cases (leb b.end o)) [
    | inl h ↦ inl (ground arith)
    | inr h ↦ inr (
        ground
          (arith, oe, All-In IsFilled i f, cover-In (max o b.start) i, outside (max o b.start)))
  ]

  joined-Respects : {s t : ℕ} → Front s → Back t → (b : FreeBlock) → In b l → Respects s t b
  joined-Respects alone_front alone_back b i = ground (arith, outside_lem b i, All-In IsFilled i f)
  joined-Respects (with_front p j h) alone_back b i =
      ground
        (arith, oe, outside_lem b i, All-In IsFilled i f, All-In IsFilled j f, apart i j f once, h)
  joined-Respects alone_front (with_back q k h) b i =
      ground
        (arith, oe, outside_lem b i, All-In IsFilled i f, All-In IsFilled k f, apart i k f once, h)
  joined-Respects (with_front p j h) (with_back q k m) b i = ground (
    arith,
    oe,
    outside_lem b i,
    All-In IsFilled i f,
    All-In IsFilled j f,
    All-In IsFilled k f,
    apart i j f once,
    apart i k f once,
    h,
    m,
  )

  joined-fills :
      (n : ℕ) {s t : ℕ}
      → Front s
      → Back t
      → inside s t n + (if leb s n && ltb n t then 0 else cover l n) ≡ inside o e n + cover l n
  joined-fills n alone_front alone_back = ground (arith, outside n)
  joined-fills n (with_front p j h) alone_back =
      ground (arith, oe, outside n, once n, cover-In n j, h, All-In IsFilled j f)
  joined-fills n alone_front (with_back q k m) =
      ground (arith, oe, outside n, once n, cover-In n k, m, All-In IsFilled k f)
  joined-fills n (with_front p j h) (with_back q k m) = ground (
    arith,
    oe,
    outside n,
    once n,
    cover-In n j,
    cover-In n k,
    h,
    m,
    All-In IsFilled j f,
    All-In IsFilled k f,
  )

  widened-IsFilled : {s t : ℕ} → Front s → Back t → s < t
  widened-IsFilled alone_front alone_back = oe
  widened-IsFilled (with_front p j h) alone_back = ground (arith, oe, h, All-In IsFilled j f)
  widened-IsFilled alone_front (with_back q k m) = ground (arith, oe, m, All-In IsFilled k f)
  widened-IsFilled (with_front p j h) (with_back q k m) =
      ground (arith, oe, h, m, All-In IsFilled j f, All-In IsFilled k f)

  -- The free blocks once the range is back.
  abbrev pub joined : List FreeBlock
  joined =
      insert_block (record { start = joined_start o l; end = joined_end e l })
        (retain_outside (joined_start o l) (joined_end e l) l)

  retained :
      (n : ℕ)
      → cover (retain_outside (joined_start o l) (joined_end e l) l) n
        ≡ (if leb (joined_start o l) n && ltb n (joined_end e l) then 0 else cover l n)
  retained n = cover-retain_outside n (joined_start o l) (joined_end e l) l (
      All-intro (Respects (joined_start o l) (joined_end e l)) l
        (joined-Respects joined_start-Front joined_end-Back))

  pub joined-cover : (n : ℕ) → cover joined n ≡ inside o e n + cover l n
  joined-cover n =
      cover-insert_block n (record { start = joined_start o l; end = joined_end e l })
        (retain_outside (joined_start o l) (joined_end e l) l)
        (All-retain_outside IsFilled (joined_start o l) (joined_end e l) l f)
        (ground
          (arith, retained (joined_start o l), widened-IsFilled joined_start-Front joined_end-Back))
      ∙ ap (λ x. inside (joined_start o l) (joined_end e l) n + x) (retained n)
      ∙ joined-fills n joined_start-Front joined_end-Back

  pub joined-IsFilled : All IsFilled joined
  joined-IsFilled =
      All-insert_block IsFilled (record { start = joined_start o l; end = joined_end e l })
        (retain_outside (joined_start o l) (joined_end e l) l)
        (widened-IsFilled joined_start-Front joined_end-Back)
        (All-retain_outside IsFilled (joined_start o l) (joined_end e l) l f)
