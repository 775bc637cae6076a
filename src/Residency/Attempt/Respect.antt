-- ===== src/Residency/Attempt/Respect.antt =====
-- A preorder on states that the parts of a do block respect is respected by the block.
use remora_lab.Base.{Bool, true, false}
use remora_lab.Residency.Attempt.{
  ResidencyError, Result, ok, err, Attempt, Done, ◌>>=◌, and_then, pure, throw, lift, read,
  refuse_if, when,
}

pub record IsPreorder {S : Type 0} (R : S → S → Type 0) : Type 0 where
  pub stays : (s : S) → R s s
  pub trans : (s t u : S) → R s t → R t u → R s u

pub record Respects {S A : Type 0} (R : S → S → Type 0) (m : Attempt S A) : Type 0 where
  pub step : (s : S) → R s (m s).0

module _ {S : Type 0} {R : S → S → Type 0} (o : IsPreorder R) where
  and_then-Respects :
      {A B : Type 0} (s : S) (out : S × Result A) (f : A → Attempt S B)
      → R s out.0
      → ((a : A) → Respects R (f a))
      → R s (and_then out f).0
  and_then-Respects s (t, ok a) f h k = o.trans s t (f a t).0 h ((k a).step t)
  and_then-Respects s (t, err e) f h k = h

  pub bind :
      {A B : Type 0} (m : Attempt S A) (f : A → Attempt S B)
      → Respects R m
      → ((a : A) → Respects R (f a))
      → Respects R (m >>= f)
  bind m f h k = record { step = λ s. and_then-Respects s (m s) f (h.step s) k }

  pub when-Respects : (b : Bool) (m : Attempt S Done) → Respects R m → Respects R (when b m)
  when-Respects true m h = h
  when-Respects false m h = record { step = o.stays }

  pub refuse_if-Respects : (b : Bool) (e : ResidencyError) → Respects R (refuse_if b e)
  refuse_if-Respects true e = record { step = o.stays }
  refuse_if-Respects false e = record { step = o.stays }

  -- A part that leaves the state as it is.
  pub idle : {A : Type 0} (r : S → Result A) → Respects R (λ s. (s, r s))
  idle r = record { step = o.stays }

  pub pure-Respects : {A : Type 0} (a : A) → Respects R (pure a)
  pure-Respects a = idle _

  pub throw-Respects : {A : Type 0} (e : ResidencyError) → Respects R (throw {A = A} e)
  throw-Respects e = idle _

  pub lift-Respects : {A : Type 0} (r : Result A) → Respects R (lift {A = A} r)
  lift-Respects r = idle (λ _. r)

  pub read-Respects : {A : Type 0} (f : S → A) → Respects R (read f)
  read-Respects f = idle λ s. ok (f s)
