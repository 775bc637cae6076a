-- ===== src/Memory/Pool/Cover.antt =====
-- har/crates/har-memory/src/pinned_pool.rs: how often a byte of the region is covered by blocks.
use remora_lab.Base.{
  ℕ, ◌+◌, ◌≡◌, ◌≤◌, ◌<◌, refl, sym, ap, ◌∙◌, true, false, none, some, ◌==◌, ◌&&◌, not, nat_eq, List,
  [], ◌∷◌, if◌then◌else◌, ltb, leb, Bool-cases, inl, inr, All, arith, wrap_add, Option-cases,
  wrap_sub,
}
use mathlib.Core.Path.{subst}
use remora_lab.Memory.Pool.{
  FreeBlock, remove_block, insert_block, last_before, block_at, retain_outside, choose, misalign,
}

-- A byte is in a block, or not.
abbrev pub inside : (start end n : ℕ) → ℕ
inside start end n = if leb start n && ltb n end then 1 else 0

abbrev pub covers : FreeBlock → ℕ → ℕ
covers b n = inside b.start b.end n

abbrev pub cover : List FreeBlock → ℕ → ℕ
cover [] n = 0
cover (b ∷ rest) n = covers b n + cover rest n

abbrev pub IsFilled : FreeBlock → Type 0
IsFilled b = b.start < b.end

pub data In (b : FreeBlock) : List FreeBlock → Type 0 where
  here : {l : List FreeBlock} → In b (b ∷ l)
  there : {c : FreeBlock} {l : List FreeBlock} → In b l → In b (c ∷ l)

pub All-In : (P : FreeBlock → Type 0) {b : FreeBlock} {l : List FreeBlock} → In b l → All P l → P b
All-In P here h = h.0
All-In P (there i) h = All-In P i h.1

pub cover-In : (n : ℕ) {b : FreeBlock} {l : List FreeBlock} → In b l → covers b n ≤ cover l n
cover-In n here = omega arith
cover-In n (there i) = omega (arith, cover-In n i)

-- Of two blocks that cover a byte that is covered once, one is the other.
pub In-unique :
    (n : ℕ) {b c : FreeBlock} {l : List FreeBlock}
    → In b l
    → In c l
    → covers b n ≡ 1
    → covers c n ≡ 1
    → cover l n ≤ 1
    → b ≡ c
In-unique n here here hb hc h = refl
In-unique n here (there j) hb hc h = absurd (omega (arith, cover-In n j))
In-unique n (there i) here hb hc h = absurd (omega (arith, cover-In n i))
In-unique n (there i) (there j) hb hc h = In-unique n i j hb hc (omega arith)

covers-start : (b : FreeBlock) → IsFilled b → covers b b.start ≡ 1
covers-start b h = ground arith

pub cover-remove_block :
    (n : ℕ) {b : FreeBlock} {l : List FreeBlock}
    → In b l
    → All IsFilled l
    → cover l b.start ≤ 1
    → cover (remove_block b.start l) n + covers b n ≡ cover l n
unfolding remove_block
cover-remove_block n {b} (here) f h = ground arith
cover-remove_block n {b} (there {c = c} {l = l} i) f h = elim (Bool-cases (c.start == b.start)) [
  | inl e ↦ absurd (twice e)
  | inr e ↦ rw e (omega (arith, cover-remove_block n i f.1 (omega arith)))
]
  where
    twice : (c.start == b.start) ≡ true → ⊥
    twice e = ground (
      arith,
      nat_eq.beq_iff c.start b.start,
      f.0,
      h,
      cover-In b.start i,
      covers-start b (All-In IsFilled i f.1),
    )

pub All-remove_block :
    (P : FreeBlock → Type 0) (k : ℕ) (l : List FreeBlock) → All P l → All P (remove_block k l)
unfolding remove_block
All-remove_block P k [] h = tt
All-remove_block P k (b ∷ l) h = elim (Bool-cases (b.start == k)) [
  | inl e ↦ rw e h.1
  | inr e ↦ rw e (h.0, All-remove_block P k l h.1)
]

pub All-insert_block :
    (P : FreeBlock → Type 0) (x : FreeBlock) (l : List FreeBlock)
    → P x
    → All P l
    → All P (insert_block x l)
unfolding insert_block
All-insert_block P x [] p h = (p, tt)
All-insert_block P x (b ∷ l) p h = elim (Bool-cases (ltb x.start b.start)) [
  | inl e ↦ rw e (p, h)
  | inr e ↦ elim (Bool-cases (x.start == b.start)) [
    | inl q ↦ rw (e, q) (p, h.1)
    | inr q ↦ rw (e, q) (h.0, All-insert_block P x l p h.1)
  ]
]

-- A block is added where no block starts.
pub cover-insert_block :
    (n : ℕ) (x : FreeBlock) (l : List FreeBlock)
    → All IsFilled l
    → cover l x.start ≡ 0
    → cover (insert_block x l) n ≡ covers x n + cover l n
unfolding insert_block
cover-insert_block n x [] f h = refl
cover-insert_block n x (b ∷ l) f h = elim (Bool-cases (ltb x.start b.start)) [
  | inl e ↦ rw e refl
  | inr e ↦ elim (Bool-cases (x.start == b.start)) [
    | inl q ↦ absurd (taken q)
    | inr q ↦ rw (e, q) (omega (arith, cover-insert_block n x l f.1 (omega arith)))
  ]
]
  where
    taken : (x.start == b.start) ≡ true → ⊥
    taken q = ground (arith, nat_eq.beq_iff x.start b.start, f.0, h)

-- A block that starts in a range lies in it, and one that starts before it ends before it.
abbrev pub Respects : (start end : ℕ) → FreeBlock → Type 0
Respects start end b =
    (leb start b.start && ltb b.start end) && ltb end b.end ≡ false
    × (ltb b.start start && ltb start b.end ≡ false)

pub cover-retain_outside :
    (n start end : ℕ) (l : List FreeBlock)
    → All (Respects start end) l
    → cover (retain_outside start end l) n ≡ (if leb start n && ltb n end then 0 else cover l n)
unfolding retain_outside
cover-retain_outside n start end [] h = ground arith
cover-retain_outside n start end (b ∷ l) h =
    ground (arith, cover-retain_outside n start end l h.1, h.0)

pub All-retain_outside :
    (P : FreeBlock → Type 0) (start end : ℕ) (l : List FreeBlock)
    → All P l
    → All P (retain_outside start end l)
unfolding retain_outside
All-retain_outside P start end [] h = tt
All-retain_outside P start end (b ∷ l) h =
    elim (Bool-cases (not (leb start b.start && ltb b.start end))) [
      | inl e ↦ rw e (h.0, All-retain_outside P start end l h.1)
      | inr e ↦ rw e (All-retain_outside P start end l h.1)
    ]

-- What the searches find.
pub last_before-In :
    (start : ℕ) (b : FreeBlock) (l : List FreeBlock)
    → last_before start l ≡ some b
    → In b l × (b.start < start)
unfolding last_before
last_before-In start b [] h = absurd (cc)
last_before-In start b (c ∷ l) h = elim (Bool-cases (ltb c.start start)) [
  | inr e ↦ absurd (ground arith)
  | inl e ↦ elim (Option-cases (last_before start l)) [
    | inl q ↦ (subst (λ x. In x (c ∷ l)) (first e q) here, ground (arith, first e q))
    | inr (d, q) ↦ later (last_before-In start b l (again e d q))
  ]
]
  where
    first : ltb c.start start ≡ true → last_before start l ≡ none → c ≡ b
    first e q = ground arith

    again :
        ltb c.start start ≡ true
        → (d : FreeBlock) → last_before start l ≡ some d
        → last_before start l ≡ some b
    again e d q = ground arith

    later : In b l × (b.start < start) → In b (c ∷ l) × (b.start < start)
    later (i, k) = (there i, k)

pub block_at-In :
    (start : ℕ) (b : FreeBlock) (l : List FreeBlock)
    → block_at start l ≡ some b
    → In b l × (b.start ≡ start)
unfolding block_at
block_at-In start b [] h = absurd (cc)
block_at-In start b (c ∷ l) h = elim (Bool-cases (c.start == start)) [
  | inl e ↦ (
    subst (λ x. In x (c ∷ l)) (found e) here,
    ground (arith, nat_eq.beq_iff c.start start, found e),
  )
  | inr e ↦ later (block_at-In start b l (ground arith))
]
  where
    found : (c.start == start) ≡ true → c ≡ b
    found e = ground arith

    later : In b l × (b.start ≡ start) → In b (c ∷ l) × (b.start ≡ start)
    later (i, k) = (there i, k)

abbrev IsLarge : (align size : ℕ) → FreeBlock → Type 0
IsLarge align size c = leb (wrap_add (misalign align c.start) size) (wrap_sub c.end c.start) ≡ true

-- What `choose` finds is a free block that is large enough.
pub choose-In :
    (align size : ℕ) (b : FreeBlock) (m : ℕ) (l : List FreeBlock)
    → choose align size l ≡ some (b, m)
    → In b l × (m ≡ misalign align b.start) × (wrap_add m size ≤ wrap_sub b.end b.start)
unfolding choose
choose-In align size b m [] h = absurd (cc)
choose-In align size b m (c ∷ l) h =
    elim (Bool-cases (leb (wrap_add (misalign align c.start) size) (wrap_sub c.end c.start))) [
      | inl e ↦ (subst (λ x. In x (c ∷ l)) (block e) here, chosen e, fits e)
      | inr e ↦ later (choose-In align size b m l (ground arith))
    ]
  where
    pair : IsLarge align size c → ◌≡◌ {A = FreeBlock × ℕ} (c, misalign align c.start) (b, m)
    pair e = ground arith

    block : IsLarge align size c → c ≡ b
    block e = ap (λ x. x.0) (pair e)

    chosen : IsLarge align size c → m ≡ misalign align b.start
    chosen e = sym (ap (λ x. x.1) (pair e)) ∙ ap (λ x. misalign align x.start) (block e)

    fits : IsLarge align size c → wrap_add m size ≤ wrap_sub b.end b.start
    fits e = subst (λ x. wrap_add x.1 size ≤ wrap_sub x.0.end x.0.start) (pair e) (ground arith)

    later :
        In b l × (m ≡ misalign align b.start) × (wrap_add m size ≤ wrap_sub b.end b.start)
        → In b (c ∷ l) × (m ≡ misalign align b.start) × (wrap_add m size ≤ wrap_sub b.end b.start)
    later (i, k, j) = (there i, k, j)
