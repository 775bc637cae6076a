-- ===== src/Residency/Manager/Limits/Rules.antt =====
-- har/crates/har-residency/src/manager.rs: rules for a method that tests a counter and then makes it
-- grow.
use remora_lab.Base.{ℕ, ◌≡◌, refl, sym, ap, ◌∙◌, Bool, true, false, nat_eq}
use mathlib.Core.Path.{subst}
use remora_lab.Residency.Attempt.{
  ResidencyError, Result, ok, err, ◌>>=◌, ◌>>◌, and_then, throw, refuse_if, Done, when,
}
use remora_lab.Residency.Attempt.Respect.{IsPreorder, Respects}
use remora_lab.Residency.Manager.Limits.{Limits, IsWithin, StaysWithin}
use remora_lab.Residency.Manager.{ResidencyManager, ResourceSnapshot, Call, adjust}
use remora_lab.Residency.Manager.Calls

-- The snapshot and the budgets are those of an earlier state.
abbrev pub SameLimits : ResidencyManager → ResidencyManager → Type 0
SameLimits s t =
    (t.snapshot ≡ s.snapshot)
    × (t.ram_pageable_budget ≡ s.ram_pageable_budget)
    × (t.ram_pinned_budget ≡ s.ram_pinned_budget)

pub SameLimits-IsPreorder : IsPreorder SameLimits
SameLimits-IsPreorder = record {
  stays = λ s. (refl, refl, refl);
  trans = λ s t u x y. (y.0 ∙ x.0, y.1 ∙ x.1, y.2 ∙ x.2);
}

-- `m` ends within the limits when the counters are those that `s` has.
pub record From {A : Type 0} (s : ResidencyManager) (m : Call A) : Type 0 where
  pub ends : (t : ResidencyManager) → SameLimits s t → IsWithin (m t).0

SameLimits-IsWithin : (s t : ResidencyManager) → SameLimits s t → IsWithin s → IsWithin t
SameLimits-IsWithin s t e x = record {
  pageable_fits = rw (e.0, e.1) x.pageable_fits;
  pinned_fits = rw (e.0, e.2) x.pinned_fits;
  nvme_fits = rw e.0 x.nvme_fits;
  transfer_fits = rw e.0 x.transfer_fits;
  compute_fits = rw e.0 x.compute_fits;
}

abbrev IsErr : {A : Type 0} → Result A → Type 0
IsErr (ok a) = ⊥
IsErr (err e) = Unit

-- An attempt that always ends in an error.
pub record Fails {A : Type 0} (m : Call A) : Type 0 where
  pub error : (t : ResidencyManager) → IsErr (m t).1

and_then-IsErr :
    {A B : Type 0} (out : ResidencyManager × Result A) (f : A → Call B)
    → ((a : A) → Fails (f a))
    → IsErr (and_then out f).1
and_then-IsErr (t, ok a) f k = (k a).error t
and_then-IsErr (t, err e) f k = tt

pub bind-Fails :
    {A B : Type 0} (m : Call A) (f : A → Call B) → ((a : A) → Fails (f a)) → Fails (m >>= f)
bind-Fails m f k = record { error = λ t. and_then-IsErr (m t) f k }

pub throw-Fails : {A : Type 0} (e : ResidencyError) → Fails (throw {A = A} e)
throw-Fails e = record { error = λ t. tt }

and_then-Fails :
    {A B : Type 0} (out : ResidencyManager × Result A) (f : A → Call B)
    → IsErr out.1
    → (and_then out f).0 ≡ out.0
and_then-Fails (t, ok a) f k = absurd k
and_then-Fails (t, err e) f k = refl

and_then_assoc :
    {B : Type 0} (out : ResidencyManager × Result Done) (n : Call Done) (k : Call B)
    → and_then (and_then out (λ _. n)) (λ _. k) ≡ and_then out (λ _. n >> k)
and_then_assoc (t, ok a) n k = refl
and_then_assoc (t, err e) n k = refl

module _ {s : ResidencyManager} (w : IsWithin s) where
  and_then-From :
      {A B : Type 0} (out : ResidencyManager × Result A) (f : A → Call B)
      → SameLimits s out.0
      → ((a : A) → From s (f a))
      → IsWithin (and_then out f).0
  and_then-From (t, ok a) f e k = (k a).ends t e
  and_then-From (t, err x) f e k = SameLimits-IsWithin s t e w

  pub bind-From :
      {A B : Type 0} (m : Call A) (f : A → Call B)
      → Respects SameLimits m
      → ((a : A) → From s (f a))
      → From s (m >>= f)
  bind-From m f h k = record {
    ends = λ t e. and_then-From (m t) f (SameLimits-IsPreorder.trans s t (m t).0 e (h.step t)) k;
  }

  pub refuse_if-From :
      {B : Type 0} (b : Bool) (e : ResidencyError) (m : Call B)
      → (b ≡ false → From s m)
      → From s (refuse_if b e >> m)
  refuse_if-From true e m h = record { ends = λ t x. SameLimits-IsWithin s t x w }
  refuse_if-From false e m h = h refl

  pub Respects-From : {A : Type 0} (m : Call A) → Respects StaysWithin m → From s m
  Respects-From m h = record { ends = λ t e. h.step t (SameLimits-IsWithin s t e w) }

  pub get_snapshot-From :
      {B : Type 0} (f : ResourceSnapshot → Call B)
      → From s (f s.snapshot)
      → From s (Calls.get_snapshot >>= f)
  unfolding Calls.get_snapshot
  get_snapshot-From f h = record {
    ends = λ t e. subst (λ x. IsWithin (f x t).0) (sym e.0) (h.ends t e);
  }

  pub pageable_budget-From :
      {B : Type 0} (f : ℕ → Call B)
      → From s (f s.ram_pageable_budget)
      → From s (Calls.pageable_budget >>= f)
  unfolding Calls.pageable_budget
  pageable_budget-From f h = record {
    ends = λ t e. subst (λ x. IsWithin (f x t).0) (sym e.1) (h.ends t e);
  }

  pub pinned_budget-From :
      {B : Type 0} (f : ℕ → Call B)
      → From s (f s.ram_pinned_budget)
      → From s (Calls.pinned_budget >>= f)
  unfolding Calls.pinned_budget
  pinned_budget-From f h = record {
    ends = λ t e. subst (λ x. IsWithin (f x t).0) (sym e.2) (h.ends t e);
  }

  -- A counter grows, within its limit, and the rest keeps the limits.
  pub adjust-From :
      {B : Type 0} (f : ResourceSnapshot → ResourceSnapshot) (k : Call B)
      → Limits (f s.snapshot) s.ram_pageable_budget s.ram_pinned_budget
      → Respects StaysWithin k
      → From s (adjust f >> k)
  unfolding adjust
  adjust-From f k x h = record {
    ends = λ t e. h.step _ (
        SameLimits-IsWithin (record s { snapshot = f s.snapshot })
          (record t { snapshot = f t.snapshot }) (ap f e.0, e.1, e.2) x);
  }

  pub adjust_last-From :
      (f : ResourceSnapshot → ResourceSnapshot)
      → Limits (f s.snapshot) s.ram_pageable_budget s.ram_pinned_budget
      → From s (adjust f)
  unfolding adjust
  adjust_last-From f x = record {
    ends = λ t e.
        SameLimits-IsWithin (record s { snapshot = f s.snapshot })
          (record t { snapshot = f t.snapshot }) (ap f e.0, e.1, e.2) x;
  }

  pub adjust_both-From :
      (f g : ResourceSnapshot → ResourceSnapshot)
      → Limits (g (f s.snapshot)) s.ram_pageable_budget s.ram_pinned_budget
      → From s (adjust f >> adjust g)
  unfolding adjust
  adjust_both-From f g x = record { ends = λ t e. (adjust_last-From (λ y. g (f y)) x).ends t e }

  assoc-From :
      {B : Type 0} (m n : Call Done) (k : Call B) → From s (m >> (n >> k)) → From s ((m >> n) >> k)
  assoc-From m n k h = record {
    ends = λ t e. subst (λ x. IsWithin x.0) (sym (and_then_assoc (m t) n k)) (h.ends t e);
  }

  pub when-From :
      {B : Type 0} (b : Bool) (m : Call Done) (k : Call B)
      → (b ≡ true → From s (m >> k))
      → (b ≡ false → From s k)
      → From s (when b m >> k)
  when-From true m k x y = x refl
  when-From false m k x y = y refl

  pub when_both-From :
      {B : Type 0} (b : Bool) (m n : Call Done) (k : Call B)
      → (b ≡ true → From s (m >> (n >> k)))
      → (b ≡ false → From s k)
      → From s (when b (m >> n) >> k)
  when_both-From b m n k x y = when-From b (m >> n) k (λ e. assoc-From m n k (x e)) y

  -- What follows a certain error is not done.
  pub Fails-From :
      {A B : Type 0} (m : Call A) (f : A → Call B)
      → Fails m
      → Respects StaysWithin m
      → From s (m >>= f)
  Fails-From m f x h = record {
    ends = λ t e. rw (and_then-Fails (m t) f (x.error t)) (h.step t (SameLimits-IsWithin s t e w));
  }
