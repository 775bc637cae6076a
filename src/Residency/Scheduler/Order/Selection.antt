-- ===== src/Residency/Scheduler/Order/Selection.antt =====
-- har/crates/har-residency/src/scheduler.rs: what `select` selects, and in which order.
use mathlib.Core.List.{Perm}
use mathlib.Core.Path.{subst, ap, refl, sym, ◌∙◌}
use remora_lab.Base.{
  none, some, inl, inr, List, [], ◌∷◌, true, false, ◌≡◌, ◌≢◌, ◌<◌, ◌⊎◌, Bool, All, ℕ, arith,
  u64_max, ◌-◌, nat_eq, Bool-cases, ◌==◌, Option-cases, ◌+◌, find,
}
use remora_lab.Base.Int.{ℤ, pos_part, neg_part, pos, negsuc}
use remora_lab.Residency.Scheduler.Types.{WavefrontWork, WavefrontScheduler, waiting, stage_eq}
use remora_lab.Residency.Scheduler.Order.{
  priority_order, priority, priority_of, sort_by_key-IsOrdered, sort_by_key-perm, ids_where,
  selectable, select, IsOrdered, neg_i32,
}

-- The identifiers of the works that wait, in order, without the speculative ones unless they are asked for.
pub data Chosen (include_speculative : Bool) : List WavefrontWork → List ℕ → Type 0 where
  nothing : Chosen include_speculative [] []
  takes :
      {w : WavefrontWork} {works : List WavefrontWork} {ids : List ℕ}
      → w.stage ≡ waiting
      → (include_speculative ≡ true) ⊎ (w.speculative ≡ false)
      → Chosen include_speculative works ids
      → Chosen include_speculative (w ∷ works) (w.work_id ∷ ids)
  skips_stage :
      {w : WavefrontWork} {works : List WavefrontWork} {ids : List ℕ}
      → w.stage ≢ waiting
      → Chosen include_speculative works ids
      → Chosen include_speculative (w ∷ works) ids
  skips_speculative :
      {w : WavefrontWork} {works : List WavefrontWork} {ids : List ℕ}
      → include_speculative ≡ false
      → w.speculative ≡ true
      → Chosen include_speculative works ids
      → Chosen include_speculative (w ∷ works) ids

test-cases :
    (include_speculative : Bool) (w : WavefrontWork)
    → ((selectable include_speculative w ≡ true)
        × (w.stage ≡ waiting)
        × ((include_speculative ≡ true) ⊎ (w.speculative ≡ false)))
      ⊎ ((selectable include_speculative w ≡ false) × (w.stage ≢ waiting))
      ⊎ ((selectable include_speculative w ≡ false)
          × (include_speculative ≡ false)
          × (w.speculative ≡ true))
test-cases include_speculative w = ground (arith, stage_eq.beq_iff w.stage waiting)

ids_where-Chosen :
    (include_speculative : Bool) (works : List WavefrontWork)
    → Chosen include_speculative works (ids_where (selectable include_speculative) works)
unfolding ids_where
ids_where-Chosen include_speculative [] = nothing
ids_where-Chosen include_speculative (w ∷ works) =
    let rest = ids_where-Chosen include_speculative works in
    elim (test-cases include_speculative w) [
      | inl (e, h, k) ↦ rw e (takes h k rest)
      | inr (inl (e, h)) ↦ rw e (skips_stage h rest)
      | inr (inr (e, h, k)) ↦ rw e (skips_speculative h k rest)
    ]

-- A work without a deadline comes after all that have one.
abbrev pub deadline : WavefrontWork → ℕ
deadline w = elim w.deadline_ns [ none ↦ u64_max | some ns ↦ ns ]

-- A work goes strictly before another: a mandatory one first, then by the earlier deadline, the higher
-- urgency, the higher predicted use and the smaller payload.
abbrev pub IsMoreUrgent : WavefrontWork → WavefrontWork → Type 0
IsMoreUrgent w v =
    pos_part v.dependency_urgency + neg_part w.dependency_urgency
    < pos_part w.dependency_urgency + neg_part v.dependency_urgency

abbrev pub Precedes : WavefrontWork → WavefrontWork → Type 0
Precedes w v =
    ((w.mandatory ≡ true) × (v.mandatory ≡ false))
    ⊎ ((w.mandatory ≡ v.mandatory)
        × ((deadline w < deadline v)
            ⊎ ((deadline w ≡ deadline v)
                × (IsMoreUrgent w v
                    ⊎ ((w.dependency_urgency ≡ v.dependency_urgency)
                        × ((v.predicted_future_use < w.predicted_future_use)
                            ⊎ ((w.predicted_future_use ≡ v.predicted_future_use)
                                × (w.slice.payload_bytes < v.slice.payload_bytes))))))))

-- An urgency that can be negated in 32 bits.
abbrev pub IsNegatable : WavefrontWork → Type 0
IsNegatable w = neg_part w.dependency_urgency < 2147483648

deadline_lem :
    (w : WavefrontWork) → (elim w.deadline_ns [ none ↦ u64_max | some ns ↦ ns - 0 ]) ≡ deadline w
deadline_lem w = elim (Option-cases w.deadline_ns) [
  | inl e ↦ rw e refl
  | inr (d, e) ↦ rw e (omega arith)
]

neg_i32-parts :
    (z : ℤ)
    → neg_part z < 2147483648
    → pos_part (neg_i32 z) + pos_part z ≡ neg_part (neg_i32 z) + neg_part z
unfolding neg_i32
neg_i32-parts (pos n) h = ground arith
neg_i32-parts (negsuc n) h = ground arith

Precedes-lt :
    (w v : WavefrontWork)
    → IsNegatable w
    → IsNegatable v
    → Precedes w v
    → priority_order.lt (priority w 0) (priority v 0) ≡ true
unfolding priority
Precedes-lt w v h k p = ground (
  arith,
  p,
  deadline_lem w,
  deadline_lem v,
  neg_i32-parts w.dependency_urgency h,
  neg_i32-parts v.dependency_urgency k,
)

abbrev pub PrecedesIn : List WavefrontWork → ℕ → ℕ → Type 0
PrecedesIn works b a =
    (w : WavefrontWork) × (v : WavefrontWork) × (find (λ x. x.work_id == b) works ≡ some w)
    × (find (λ x. x.work_id == a) works ≡ some v)
    × Precedes w v

-- No work goes strictly before one that stands earlier.
abbrev pub InOrder : List WavefrontWork → List ℕ → Type 0
InOrder works [] = Unit
InOrder works (a ∷ rest) = All (λ b. ¬ PrecedesIn works b a) rest × InOrder works rest

priority_of-find :
    (works : List WavefrontWork) (id : ℕ) (w : WavefrontWork)
    → find (λ x. x.work_id == id) works ≡ some w
    → priority_of works id ≡ priority w 0
unfolding priority_of
priority_of-find [] id w e = absurd (cc)
priority_of-find (x ∷ works) id w e = elim (Bool-cases (x.work_id == id)) [
  | inl q ↦ rw q (ap (λ y. priority y 0) (found q))
  | inr q ↦ rw q (priority_of-find works id w (ground arith))
]
  where
    found : (x.work_id == id) ≡ true → x ≡ w
    found q = ground arith

All-find :
    (works : List WavefrontWork) (id : ℕ) (w : WavefrontWork)
    → find (λ x. x.work_id == id) works ≡ some w
    → All IsNegatable works
    → IsNegatable w
All-find [] id w e h = absurd (cc)
All-find (x ∷ works) id w e h = elim (Bool-cases (x.work_id == id)) [
  | inl q ↦ subst IsNegatable (found q) h.0
  | inr q ↦ All-find works id w (ground arith) h.1
]
  where
    found : (x.work_id == id) ≡ true → x ≡ w
    found q = ground arith

not_PrecedesIn :
    (works : List WavefrontWork) (a b : ℕ)
    → All IsNegatable works
    → priority_order.lt (priority_of works b) (priority_of works a) ≡ false
    → ¬ PrecedesIn works b a
not_PrecedesIn works a b h e (w, v, p, q, r) = no_lt (
    sym e
    ∙ (λ i. priority_order.lt (priority_of-find works b w p i) (priority_of-find works a v q i))
    ∙ Precedes-lt w v (All-find works b w p h) (All-find works a v q h) r)
  where
    no_lt : false ≡ true → ⊥
    no_lt x = absurd (cc)

IsOrdered-InOrder :
    (works : List WavefrontWork) (ids : List ℕ)
    → All IsNegatable works
    → IsOrdered priority_order (priority_of works) ids
    → InOrder works ids
IsOrdered-InOrder works [] h o = tt
IsOrdered-InOrder works (a ∷ rest) h o = (All-weaken rest o.0, IsOrdered-InOrder works rest h o.1)
  where
    All-weaken :
        (l : List ℕ)
        → All (λ b. priority_order.lt (priority_of works b) (priority_of works a) ≡ false) l
        → All (λ b. ¬ PrecedesIn works b a) l
    All-weaken [] x = tt
    All-weaken (b ∷ l) x = (not_PrecedesIn works a b h x.0, All-weaken l x.1)

-- The works that are selected are those that wait, the speculative ones only if they are asked for, each
-- as often as it is there. If every urgency can be negated in 32 bits, none goes strictly before one that
-- is selected earlier: mandatory works come first, then an earlier deadline, none being the latest, then a
-- higher urgency, a higher predicted use and a smaller payload.
pub select_lem :
    (include_speculative : Bool) (s : WavefrontScheduler)
    → All IsNegatable s.works
    → ((ids : List ℕ) × Chosen include_speculative s.works ids
        × Perm (select include_speculative s) ids)
      × InOrder s.works (select include_speculative s)
unfolding select
select_lem include_speculative s h = (
  (
    ids_where (selectable include_speculative) s.works,
    ids_where-Chosen include_speculative s.works,
    sort_by_key-perm priority_order (priority_of s.works)
        (ids_where (selectable include_speculative) s.works),
  ),
  IsOrdered-InOrder s.works _ h (
      sort_by_key-IsOrdered priority_order (priority_of s.works)
        (ids_where (selectable include_speculative) s.works)),
)
