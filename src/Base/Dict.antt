-- ===== src/Base/Dict.antt =====
-- Rust's maps as association lists: `HashMap` and `BTreeMap` where the code only looks up, inserts,
-- removes and counts.
use Prim.Native.Nat.{◌+◌}
use mathlib.Core.Path.{◌≡◌, refl, sym, subst}
use mathlib.Core.Logic.{◌≢◌, inl, inr}
use mathlib.Core.Bool.{Bool}
use mathlib.Core.Option.{Option, none, some}
use mathlib.Core.List.{List, [], ◌∷◌}
use native.Mathlib.Omega.{arith}
use remora_lab.Base.Tests.{Bool-cases, PartialEq, ◌==◌, if◌then◌else◌, is_some}
use remora_lab.Base.Lists.{All, length}

abbrev pub Dict {ℓ κ} : Type ℓ → Type κ → Type (ℓ ⊔ κ)
Dict K V = List (K × V)

module _ {ℓ κ} {K : Type ℓ} {V : Type κ} ⦃e : PartialEq K⦄ where
  abbrev pub lookup : K → Dict K V → Option V
  lookup k [] = none
  lookup k ((j, v) ∷ d) = if j == k then some v else lookup k d

  abbrev pub contains_key : K → Dict K V → Bool
  contains_key k d = is_some (lookup k d)

  -- An insertion at a key that is there keeps its place.
  abbrev pub insert : K → V → Dict K V → Dict K V
  insert k v [] = (k, v) ∷ []
  insert k v ((j, w) ∷ d) = if j == k then (j, v) ∷ d else (j, w) ∷ insert k v d

  abbrev pub remove : K → Dict K V → Dict K V
  remove k [] = []
  remove k ((j, w) ∷ d) = if j == k then d else (j, w) ∷ remove k d

  pub lookup-insert :
      (k j : K) (v : V) (d : Dict K V)
      → lookup j (insert k v d) ≡ (if k == j then some v else lookup j d)
  lookup-insert k j v [] = refl
  lookup-insert k j v ((i, w) ∷ d) =
      ground (arith, e.beq_iff k j, e.beq_iff i k, e.beq_iff i j, lookup-insert k j v d)

  pub lookup-insert_self : (k : K) (v : V) (d : Dict K V) → lookup k (insert k v d) ≡ some v
  lookup-insert_self k v d = ground (arith, lookup-insert k k v d, e.beq_iff k k)

  pub lookup-insert_ne :
      (k j : K) (v : V) (d : Dict K V) → k ≢ j → lookup j (insert k v d) ≡ lookup j d
  lookup-insert_ne k j v d h = ground (arith, lookup-insert k j v d, e.beq_iff k j)

  -- A new key adds one entry.
  pub length-insert_new :
      (k : K) (v : V) (d : Dict K V) → lookup k d ≡ none → length (insert k v d) ≡ length d + 1
  length-insert_new k v [] h = omega arith
  length-insert_new k v ((i, w) ∷ d) h = ground (arith, length-insert_new k v d)

  -- No key occurs twice.
  abbrev pub IsDistinct : Dict K V → Type κ
  IsDistinct [] = Unit
  IsDistinct ((k, v) ∷ d) = (lookup k d ≡ none) × IsDistinct d

  pub lookup-remove :
      (k j : K) (d : Dict K V)
      → IsDistinct d
      → lookup j (remove k d) ≡ (if k == j then none else lookup j d)
  lookup-remove k j [] h = ground arith
  lookup-remove k j ((i, w) ∷ d) h =
      ground (arith, lookup-remove k j d h.1, h.0, e.beq_iff k j, e.beq_iff i k, e.beq_iff i j)

  pub IsDistinct-remove : (k : K) (d : Dict K V) → IsDistinct d → IsDistinct (remove k d)
  IsDistinct-remove k [] h = tt
  IsDistinct-remove k ((i, w) ∷ d) h =
      ground (arith, IsDistinct-remove k d h.1, lookup-remove k i d h.1, h.0, h.1)

  pub IsDistinct-insert : (k : K) (v : V) (d : Dict K V) → IsDistinct d → IsDistinct (insert k v d)
  IsDistinct-insert k v [] h = ground arith
  IsDistinct-insert k v ((i, w) ∷ d) h = ground (
    arith,
    IsDistinct-insert k v d h.1,
    lookup-insert k i v d,
    h.0,
    h.1,
    e.beq_iff i k,
    e.beq_iff k i,
  )

  -- What holds of every value is found by a look-up, and kept by an insertion and a removal.
  module _ {μ} (P : V → Type μ) where
    abbrev pub AllValues : Dict K V → Type μ
    AllValues d = All (λ (p : K × V). P p.1) d

    pub AllValues-lookup : (k : K) (v : V) (d : Dict K V) → AllValues d → lookup k d ≡ some v → P v
    AllValues-lookup k v [] h q = absurd (cc)
    AllValues-lookup k v ((i, w) ∷ d) h q = ground (arith, AllValues-lookup k v d h.1)

    pub AllValues-insert :
        (k : K) (v : V) (d : Dict K V) → P v → AllValues d → AllValues (insert k v d)
    AllValues-insert k v [] p h = (p, tt)
    AllValues-insert k v ((i, w) ∷ d) p h = ground (arith, AllValues-insert k v d p h.1)

  -- What holds of every entry.
  module _ {μ} (P : K × V → Type μ) where
    pub All-insert : (k : K) (v : V) (d : Dict K V) → P (k, v) → All P d → All P (insert k v d)
    All-insert k v [] p h = (p, tt)
    All-insert k v ((i, w) ∷ d) p h = elim (Bool-cases (i == k)) [
      | inl q ↦ rw q (subst (λ j. P (j, v)) (sym ((e.beq_iff i k).0 q)) p, h.1)
      | inr q ↦ rw q (h.0, All-insert k v d p h.1)
    ]

    pub All-remove : (k : K) (d : Dict K V) → All P d → All P (remove k d)
    All-remove k [] h = tt
    All-remove k ((i, w) ∷ d) h = elim (Bool-cases (i == k)) [
      | inl q ↦ rw q h.1
      | inr q ↦ rw q (h.0, All-remove k d h.1)
    ]
