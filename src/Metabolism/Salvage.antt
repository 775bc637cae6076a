-- ===== src/Metabolism/Salvage.antt =====
-- har/crates/har-metabolism/src/salvage.rs: the score of a retained artifact, and the order of the
-- candidates. `sort_unstable_by_key` is an insertion sort here; it leaves candidates of one key in
-- some order, which no statement relies on.
use mathlib.Core.List.{Perm}
use mathlib.Core.List.Perm
use remora_lab.Base.{
  ℕ, ◌≡◌, ◌≤◌, ◌<◌, ◌⊎◌, inl, inr, Bool, true, false, Option, none, some, List, [], ◌∷◌, map, arith,
  if◌then◌else◌, nat_eq, ◌==◌, ltb, leb, ◌||◌, ◌&&◌, All, Bool-cases, refl,
}
use remora_lab.Base.Int.{ℤ, pos, ◌+ℤ◌, ◌-ℤ◌, ◌*ℤ◌, ltb_ℤ, ◌≤ℤ◌, sat_i64, wrap_i64, div_trunc}
use remora_lab.Metabolism.Artifact.{SalvageInput, Estimate, all_known, known}

pub record SalvageCandidate : Type 0 where
  pub input : SalvageInput
  pub base_seq : ℕ
  pub bucket : ℕ

pub data SalvageDecision : Type 0 where
  admit : ℤ → SalvageDecision
  reject_below_cost fail_closed : SalvageDecision

-- `unwrap` of an input that `known` has found to be there.
abbrev pub value_of : Option ℕ → ℤ
value_of none = pos 0
value_of (some n) = pos n

unfoldable pub reuse_ms_permille : ℤ → ℤ → ℤ
reuse_ms_permille reuse_ms risk = div_trunc (sat_i64 (reuse_ms *ℤ risk)) 1000

-- The costs of keeping the artifact.
unfoldable pub retained : SalvageInput → ℤ
retained i = sat_i64 (
    sat_i64
      (sat_i64 (i.holding_cost.value +ℤ i.validation_cost.value) +ℤ i.memory_opportunity_cost.value)
    +ℤ i.contention_cost.value)

-- The product of the plain expression is an `i64` product.
unfoldable pub projected_value : SalvageInput → ℤ
unfolding reuse_ms_permille retained
projected_value i =
    let reuse_ms = i.expected_reuse_cost.value in
    let expected = div_trunc (wrap_i64 (reuse_ms *ℤ value_of i.reuse_probability)) 1000 in
    let after_expiry =
      sat_i64 (expected -ℤ reuse_ms_permille reuse_ms (value_of i.expiry_risk_permille)) in
    sat_i64 (after_expiry -ℤ retained i)

unfoldable pub score : SalvageCandidate → SalvageDecision
score c =
    let value = projected_value c.input in
    if all_known c.input
    then if ltb_ℤ (pos 0) value then admit value else reject_below_cost
    else fail_closed

-- The derived order of `SalvageRank`: by bucket, then by base sequence.
abbrev pub rank_le : SalvageCandidate → SalvageCandidate → Bool
rank_le a b = ltb a.bucket b.bucket || (a.bucket == b.bucket && leb a.base_seq b.base_seq)

unfoldable pub insert_ranked : SalvageCandidate → List SalvageCandidate → List SalvageCandidate
insert_ranked c [] = c ∷ []
insert_ranked c (d ∷ ds) = if rank_le c d then c ∷ d ∷ ds else d ∷ insert_ranked c ds

unfoldable pub ranked : List SalvageCandidate → List SalvageCandidate
unfolding insert_ranked
ranked [] = []
ranked (c ∷ cs) = insert_ranked c (ranked cs)

-- `Salvage::admit`.
unfoldable pub admit_all : List SalvageCandidate → List (SalvageCandidate × SalvageDecision)
unfolding ranked
admit_all cs = map (λ c. (c, score c)) (ranked cs)

-- A candidate with an unknown input fails closed. One with all inputs known is admitted, with its
-- projected value, exactly if that value is positive, and else rejected.
pub score_cases :
    (c : SalvageCandidate)
    → ((all_known c.input ≡ false) × (score c ≡ fail_closed))
      ⊎ ((all_known c.input ≡ true)
          × (pos 1 ≤ℤ projected_value c.input)
          × (score c ≡ admit (projected_value c.input)))
      ⊎ ((all_known c.input ≡ true)
          × (projected_value c.input ≤ℤ pos 0)
          × (score c ≡ reject_below_cost))
unfolding score
score_cases c = ground arith

-- The eviction cost must be known, and has no other effect: the score is the same for any two known
-- eviction costs.
pub score-eviction_cost :
    (c : SalvageCandidate) (cost : Estimate)
    → known cost ≡ true
    → known c.input.eviction_cost ≡ true
    → score (record c { input = record c.input { eviction_cost = cost } }) ≡ score c
unfolding score projected_value
score-eviction_cost c cost k e = rw (k, e)

-- A candidate comes before another: by its bucket, then by its base sequence.
abbrev pub IsBefore : SalvageCandidate → SalvageCandidate → Type 0
IsBefore a b = (a.bucket < b.bucket) ⊎ ((a.bucket ≡ b.bucket) × (a.base_seq ≤ b.base_seq))

abbrev pub IsRanked : List SalvageCandidate → Type 0
IsRanked [] = Unit
IsRanked (c ∷ cs) = All (IsBefore c) cs × IsRanked cs

rank_le-IsBefore : (a b : SalvageCandidate) → rank_le a b ≡ true → IsBefore a b
rank_le-IsBefore a b h = ground (arith, nat_eq.beq_iff a.bucket b.bucket)

not_rank_le-IsBefore : (a b : SalvageCandidate) → rank_le a b ≡ false → IsBefore b a
not_rank_le-IsBefore a b h = ground (arith, nat_eq.beq_iff a.bucket b.bucket)

IsBefore-trans : (a b c : SalvageCandidate) → IsBefore a b → IsBefore b c → IsBefore a c
IsBefore-trans a b c h k = ground arith

All-IsBefore :
    (a b : SalvageCandidate) (cs : List SalvageCandidate)
    → IsBefore a b
    → All (IsBefore b) cs
    → All (IsBefore a) cs
All-IsBefore a b [] h k = tt
All-IsBefore a b (c ∷ cs) h k = (IsBefore-trans a b c h k.0, All-IsBefore a b cs h k.1)

All-insert_ranked {ℓ} :
    (P : SalvageCandidate → Type ℓ) (c : SalvageCandidate) (cs : List SalvageCandidate)
    → P c
    → All P cs
    → All P (insert_ranked c cs)
unfolding insert_ranked
All-insert_ranked P c [] p h = (p, tt)
All-insert_ranked P c (d ∷ ds) p h = elim (Bool-cases (rank_le c d)) [
  | inl first ↦ rw (first, insert_ranked) (p, h)
  | inr later ↦ rw (later, insert_ranked) (h.0, All-insert_ranked P c ds p h.1)
]

insert_ranked-IsRanked :
    (c : SalvageCandidate) (cs : List SalvageCandidate)
    → IsRanked cs
    → IsRanked (insert_ranked c cs)
unfolding insert_ranked
insert_ranked-IsRanked c [] h = (tt, tt)
insert_ranked-IsRanked c (d ∷ ds) h = elim (Bool-cases (rank_le c d)) [
  | inl first ↦
      let before = rank_le-IsBefore c d first in
      rw (first, insert_ranked) ((before, All-IsBefore c d ds before h.0), h)
  | inr later ↦
      rw (later, insert_ranked)
        (
          All-insert_ranked (IsBefore d) c ds (not_rank_le-IsBefore c d later) h.0,
          insert_ranked-IsRanked c ds h.1,
        )
]

ranked-IsRanked : (cs : List SalvageCandidate) → IsRanked (ranked cs)
unfolding ranked
ranked-IsRanked [] = tt
ranked-IsRanked (c ∷ cs) = insert_ranked-IsRanked c (ranked cs) (ranked-IsRanked cs)

insert_ranked-perm :
    (c : SalvageCandidate) (cs : List SalvageCandidate) → Perm (insert_ranked c cs) (c ∷ cs)
unfolding insert_ranked
insert_ranked-perm c [] = Perm.refl (c ∷ [])
insert_ranked-perm c (d ∷ ds) = elim (Bool-cases (rank_le c d)) [
  | inl first ↦ rw (first, insert_ranked) (Perm.refl _)
  | inr later ↦
      rw (later, insert_ranked)
        (Perm.trans (Perm.cons d (insert_ranked-perm c ds)) (Perm.swap c d ds))
]

ranked-perm : (cs : List SalvageCandidate) → Perm (ranked cs) cs
unfolding ranked
ranked-perm [] = Perm.refl []
ranked-perm (c ∷ cs) = Perm.trans (insert_ranked-perm c (ranked cs)) (Perm.cons c (ranked-perm cs))

firsts :
    (cs : List SalvageCandidate)
    → map (λ (p : SalvageCandidate × SalvageDecision). p.0) (map (λ c. (c, score c)) cs) ≡ cs
firsts [] = refl
firsts (c ∷ cs) = rw (firsts cs)

-- What is decided on a candidate: an unknown input fails closed; else a positive projected value is
-- admitted, and no other.
abbrev pub Decides : SalvageCandidate × SalvageDecision → Type 0
Decides (c, d) =
    ((all_known c.input ≡ false) × (d ≡ fail_closed))
    ⊎ ((all_known c.input ≡ true)
        × (pos 1 ≤ℤ projected_value c.input)
        × (d ≡ admit (projected_value c.input)))
    ⊎ ((all_known c.input ≡ true) × (projected_value c.input ≤ℤ pos 0) × (d ≡ reject_below_cost))

scores : (cs : List SalvageCandidate) → All Decides (map (λ c. (c, score c)) cs)
scores [] = tt
scores (c ∷ cs) = (score_cases c, scores cs)

-- `admit` returns every candidate once, the rejected ones too, by bucket and then by base sequence.
-- A candidate with an unknown input fails closed; one with all inputs known is admitted, with its
-- projected value, if that value is positive, and else rejected.
pub admit_all_lem :
    (cs : List SalvageCandidate)
    → let out = admit_all cs in
      Perm (map (λ (p : SalvageCandidate × SalvageDecision). p.0) out) cs
      × IsRanked (map (λ (p : SalvageCandidate × SalvageDecision). p.0) out)
      × All Decides out
unfolding admit_all
admit_all_lem cs = rw (firsts (ranked cs)) (ranked-perm cs, ranked-IsRanked cs, scores (ranked cs))
