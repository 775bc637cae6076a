-- ===== src/Memory/Pool/Reserved.antt =====
-- har/crates/har-memory/src/pinned_pool.rs: the ranges that the live handles reserve.
use remora_lab.Base.{
  [], ◌∷◌, ◌≡◌, ◌+◌, ◌≤◌, ◌<◌, ◌==◌, true, inl, inr, some, arith, refl, Bool-cases, nat_eq, ◌%◌,
}
use mathlib.Core.Path.{subst}
use remora_lab.Base.Dict.{Dict, lookup, insert, remove}
use remora_lab.Memory.Pool.{PinnedHandle, rounded, ℕ, Dict, wrap_add}
use remora_lab.Memory.Pool.Cover.{inside}
use remora_lab.Base.{◌≡◌, wrap_add, ◌<◌, All, some, ◌+◌, ◌≤◌}
use mathlib.Core.Path.{subst}
use remora_lab.Base.Dict.{Dict, lookup, remove, insert}

-- The range that a handle reserves: its bytes rounded up to the alignment.
abbrev pub reserved_end : (align : ℕ) → PinnedHandle → ℕ
reserved_end align h = wrap_add h.offset (rounded align h.bytes)

-- How often a byte is in a reserved range.
abbrev pub reserved : (align : ℕ) → Dict ℕ PinnedHandle → ℕ → ℕ
reserved align [] n = 0
reserved align ((_, h) ∷ rest) n = inside h.offset (reserved_end align h) n + reserved align rest n

-- An entry stands under its handle's offset, which is aligned, and its range is not empty and has room
-- for its bytes.
abbrev pub IsEntry : (align : ℕ) → ℕ × PinnedHandle → Type 0
IsEntry align e =
    (e.0 ≡ e.1.offset)
    × (e.1.offset < reserved_end align e.1)
    × (e.1.offset + e.1.bytes ≤ reserved_end align e.1)
    × (e.1.offset % align ≡ 0)

found :
    (j k : ℕ) (i h : PinnedHandle) (d : Dict ℕ PinnedHandle)
    → (j == k) ≡ true
    → lookup k ((j, i) ∷ d) ≡ some h
    → i ≡ h
found j k i h d e q = ground arith

pub reserved-lookup :
    (align n : ℕ) (k : ℕ) (h : PinnedHandle) (d : Dict ℕ PinnedHandle)
    → lookup k d ≡ some h
    → inside h.offset (reserved_end align h) n ≤ reserved align d n
reserved-lookup align n k h [] q = absurd (cc)
reserved-lookup align n k h ((j, i) ∷ d) q = elim (Bool-cases (j == k)) [
  | inl e ↦
      subst (λ x. inside x.offset (reserved_end align x) n ≤ reserved align ((j, i) ∷ d) n)
        (found j k i h d e q) (omega arith)
  | inr e ↦ omega (arith, reserved-lookup align n k h d (ground arith))
]

pub reserved-insert :
    (align n k : ℕ) (h : PinnedHandle) (d : Dict ℕ PinnedHandle)
    → All (IsEntry align) d
    → reserved align d k ≡ 0
    → reserved align (insert k h d) n
      ≡ inside h.offset (reserved_end align h) n + reserved align d n
reserved-insert align n k h [] f q = refl
reserved-insert align n k h ((j, i) ∷ d) f q = elim (Bool-cases (j == k)) [
  | inl e ↦ absurd (ground (arith, nat_eq.beq_iff j k, f.0.0, f.0.1, q))
  | inr e ↦ rw e (omega (arith, reserved-insert align n k h d f.1 (omega arith)))
]

pub reserved-remove :
    (align n k : ℕ) (h : PinnedHandle) (d : Dict ℕ PinnedHandle)
    → lookup k d ≡ some h
    → reserved align (remove k d) n + inside h.offset (reserved_end align h) n ≡ reserved align d n
reserved-remove align n k h [] q = absurd (cc)
reserved-remove align n k h ((j, i) ∷ d) q = elim (Bool-cases (j == k)) [
  | inl e ↦
      subst
        (λ x.
          reserved align (remove k ((j, i) ∷ d)) n + inside x.offset (reserved_end align x) n
          ≡ reserved align ((j, i) ∷ d) n)
        (found j k i h d e q) (rw e (omega arith))
  | inr e ↦ rw e (omega (arith, reserved-remove align n k h d (ground arith)))
]

pub All-insert-IsEntry :
    (align k : ℕ) (h : PinnedHandle) (d : Dict ℕ PinnedHandle)
    → IsEntry align (k, h)
    → All (IsEntry align) d
    → All (IsEntry align) (insert k h d)
All-insert-IsEntry align k h [] p f = (p, tt)
All-insert-IsEntry align k h ((j, i) ∷ d) p f = elim (Bool-cases (j == k)) [
  | inl e ↦ rw e ((ground (arith, nat_eq.beq_iff j k, p.0), p.1, p.2, p.3), f.1)
  | inr e ↦ rw e (f.0, All-insert-IsEntry align k h d p f.1)
]

pub All-remove-IsEntry :
    (align k : ℕ) (d : Dict ℕ PinnedHandle)
    → All (IsEntry align) d
    → All (IsEntry align) (remove k d)
All-remove-IsEntry align k [] f = tt
All-remove-IsEntry align k ((j, i) ∷ d) f = elim (Bool-cases (j == k)) [
  | inl e ↦ rw e f.1
  | inr e ↦ rw e (f.0, All-remove-IsEntry align k d f.1)
]

pub IsEntry-lookup :
    (align k : ℕ) (h : PinnedHandle) (d : Dict ℕ PinnedHandle)
    → lookup k d ≡ some h
    → All (IsEntry align) d
    → IsEntry align (k, h)
IsEntry-lookup align k h [] q f = absurd (cc)
IsEntry-lookup align k h ((j, i) ∷ d) q f = elim (Bool-cases (j == k)) [
  | inl e ↦
      subst (λ x. IsEntry align (k, x)) (found j k i h d e q)
        (ground (arith, nat_eq.beq_iff j k, f.0.0), f.0.1, f.0.2, f.0.3)
  | inr e ↦ IsEntry-lookup align k h d (ground arith) f.1
]
