-- ===== src/Residency/Scheduler/Order.antt =====
-- har/crates/har-residency/src/scheduler.rs: which works are run, and in which order. `sort_by_key` is the
-- stable sort of Rust's library.
pub mod Selection
use remora_lab.Base.Int.{ℤ, pos_part, neg_part, sub_ℕ, ltb_ℤ}
use remora_lab.Residency.Scheduler.Types.{WavefrontWork, WavefrontScheduler, waiting, stage_eq}
use mathlib.Core.List.{Perm, List, ◌∷◌}
use remora_lab.Base.{
  none, some, inl, inr, [], true, false, if◌then◌else◌, ◌≡◌, Bool, leb, ◌∷◌, All, ℕ, ◌||◌, arith,
  ltb, ◌==◌, Bool-cases, not, ◌&&◌, u64_max, ◌-◌, nat_eq,
}
use mathlib.Core.List.Perm

-- A strict order on keys, by which they can be sorted.
pub record KeyOrder (A : Type 0) : Type 0 where
  pub lt : A → A → Bool
  pub asym : (a b : A) → lt a b ≡ true → lt b a ≡ false
  pub not_trans : (a b c : A) → lt b a ≡ false → lt c b ≡ false → lt c a ≡ false

pub nat_asym : (a b : ℕ) → ltb a b ≡ true → ltb b a ≡ false
nat_asym a b h = ground arith

pub nat_not_trans : (a b c : ℕ) → ltb b a ≡ false → ltb c b ≡ false → ltb c a ≡ false
nat_not_trans a b c h k = ground arith

abbrev pub nat_order : KeyOrder ℕ
nat_order = record { lt = ltb; asym = nat_asym; not_trans = nat_not_trans }

pub int_asym : (a b : ℤ) → ltb_ℤ a b ≡ true → ltb_ℤ b a ≡ false
int_asym a b h = ground arith

pub int_not_trans : (a b c : ℤ) → ltb_ℤ b a ≡ false → ltb_ℤ c b ≡ false → ltb_ℤ c a ≡ false
int_not_trans a b c h k = ground arith

abbrev pub int_order : KeyOrder ℤ
int_order = record { lt = ltb_ℤ; asym = int_asym; not_trans = int_not_trans }

-- `Reverse`, and the order of a tuple.
module _ {A : Type 0} (o : KeyOrder A) where
  abbrev pub reverse : KeyOrder A
  reverse = record {
    lt = λ a b. o.lt b a;
    asym = λ a b. o.asym b a;
    not_trans = λ a b c h k. o.not_trans c b a k h;
  }

  module _ {B : Type 0} (q : KeyOrder B) where
    abbrev pair_lt : A × B → A × B → Bool
    pair_lt x y = o.lt x.0 y.0 || (not (o.lt y.0 x.0) && q.lt x.1 y.1)

    pub pair_asym : (x y : A × B) → pair_lt x y ≡ true → pair_lt y x ≡ false
    pair_asym x y h = ground (arith, o.asym x.0 y.0, q.asym x.1 y.1)

    pub pair_not_trans :
        (x y z : A × B) → pair_lt y x ≡ false → pair_lt z y ≡ false → pair_lt z x ≡ false
    pair_not_trans x y z h k = ground (
      arith,
      o.not_trans x.0 y.0 z.0,
      o.not_trans y.0 z.0 x.0,
      o.not_trans z.0 x.0 y.0,
      q.not_trans x.1 y.1 z.1,
    )

    abbrev pub pair_order : KeyOrder (A × B)
    pair_order = record { lt = pair_lt; asym = pair_asym; not_trans = pair_not_trans }

-- `-` on an `i32`.
unfoldable pub neg_i32 : ℤ → ℤ
neg_i32 z = if leb 2147483648 (neg_part z) then z else sub_ℕ (neg_part z) (pos_part z)

abbrev pub Priority : Type 0
Priority = ℕ × (ℕ × (ℤ × (ℕ × ℕ)))

abbrev pub priority_order : KeyOrder Priority
priority_order =
    pair_order nat_order
      (pair_order nat_order (pair_order int_order (pair_order (reverse nat_order) nat_order)))

unfoldable pub priority : WavefrontWork → (now_ns : ℕ) → Priority
unfolding neg_i32
priority work now_ns = (
  if work.mandatory then 0 else 1,
  (
    elim work.deadline_ns [ none ↦ u64_max | some deadline ↦ deadline - now_ns ],
    (neg_i32 work.dependency_urgency, (work.predicted_future_use, work.slice.payload_bytes)),
  ),
)

-- The stable sort.
module _ {A B : Type 0} (o : KeyOrder B) (key : A → B) where
  abbrev place : A → List A → List A
  place a [] = a ∷ []
  place a (b ∷ rest) = if o.lt (key b) (key a) then b ∷ place a rest else a ∷ b ∷ rest

  unfoldable pub sort_by_key : List A → List A
  sort_by_key [] = []
  sort_by_key (a ∷ rest) = place a (sort_by_key rest)

  -- No key is less than the key of an earlier entry.
  abbrev pub IsOrdered : List A → Type 0
  IsOrdered [] = Unit
  IsOrdered (a ∷ rest) = All (λ b. o.lt (key b) (key a) ≡ false) rest × IsOrdered rest

  All-place : (P : A → Type 0) (a : A) (l : List A) → P a → All P l → All P (place a l)
  All-place P a [] p h = (p, tt)
  All-place P a (b ∷ rest) p h = elim (Bool-cases (o.lt (key b) (key a))) [
    | inl e ↦ rw e (h.0, All-place P a rest p h.1)
    | inr e ↦ rw e (p, h)
  ]

  All-not_lt :
      (a b : A) (l : List A)
      → o.lt (key b) (key a) ≡ false
      → All (λ c. o.lt (key c) (key b) ≡ false) l
      → All (λ c. o.lt (key c) (key a) ≡ false) l
  All-not_lt a b [] e h = tt
  All-not_lt a b (c ∷ l) e h = (o.not_trans (key a) (key b) (key c) e h.0, All-not_lt a b l e h.1)

  place-IsOrdered : (a : A) (l : List A) → IsOrdered l → IsOrdered (place a l)
  place-IsOrdered a [] h = (tt, tt)
  place-IsOrdered a (b ∷ rest) h = elim (Bool-cases (o.lt (key b) (key a))) [
    | inl e ↦ rw e (
      All-place (λ c. o.lt (key c) (key b) ≡ false) a rest (o.asym (key b) (key a) e) h.0,
      place-IsOrdered a rest h.1,
    )
    | inr e ↦ rw e ((e, All-not_lt a b rest e h.0), h)
  ]

  pub sort_by_key-IsOrdered : (l : List A) → IsOrdered (sort_by_key l)
  unfolding sort_by_key
  sort_by_key-IsOrdered [] = tt
  sort_by_key-IsOrdered (a ∷ rest) =
      place-IsOrdered a (sort_by_key rest) (sort_by_key-IsOrdered rest)

  place-perm : (a : A) (l : List A) → Perm (place a l) (a ∷ l)
  place-perm a [] = Perm.rfl
  place-perm a (b ∷ rest) = elim (Bool-cases (o.lt (key b) (key a))) [
    | inl e ↦ rw e (Perm.trans (Perm.cons b (place-perm a rest)) (Perm.swap a b rest))
    | inr e ↦ rw e Perm.rfl
  ]

  pub sort_by_key-perm : (l : List A) → Perm (sort_by_key l) l
  unfolding sort_by_key
  sort_by_key-perm [] = Perm.rfl
  sort_by_key-perm (a ∷ rest) =
      Perm.trans (place-perm a (sort_by_key rest)) (Perm.cons a (sort_by_key-perm rest))

-- The priority of the first work with an identifier. `select` asks only for works that there are.
unfoldable pub priority_of : List WavefrontWork → ℕ → Priority
unfolding priority
priority_of [] id = (0, (0, (ℤ.pos 0, (0, 0))))
priority_of (w ∷ rest) id = if w.work_id == id then priority w 0 else priority_of rest id

abbrev pub selectable : (include_speculative : Bool) → WavefrontWork → Bool
selectable include_speculative w = w.stage == waiting && (include_speculative || not w.speculative)

-- The identifiers of the works that pass a test.
unfoldable pub ids_where : (WavefrontWork → Bool) → List WavefrontWork → List ℕ
ids_where test [] = []
ids_where test (w ∷ rest) = if test w then w.work_id ∷ ids_where test rest else ids_where test rest

unfoldable pub select : (include_speculative : Bool) → WavefrontScheduler → List ℕ
unfolding ids_where sort_by_key priority_of
select include_speculative s =
    sort_by_key priority_order (priority_of s.works)
      (ids_where (selectable include_speculative) s.works)
