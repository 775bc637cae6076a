-- ===== src/Residency/Attempt.antt =====
-- har/crates/har-residency/src/types.rs: `ResidencyError`, its `Result`, and the methods that take
-- `&mut self` and can fail. Such a method is a function from the state to the state it leaves, also
-- when it fails, and its result: `?` is the do block. An error's text stands without the values in it.
pub mod Respect
use remora_lab.Base.{◌≡◌, ap, ℕ, String, Bool, Option, none, some, if◌then◌else◌, PartialEq}
use remora_lab.Base.Dict.{Dict, lookup, insert}
use remora_lab.Residency.Types.{PageId, PageLocation}
use remora_lab.Residency.State.{ResidencyState}

pub data ResidencyError : Type 0 where
  invalid : String → ResidencyError
  illegal_transition : (from to : ResidencyState) → ResidencyError
  stale_generation : (page_id : PageId) (expected got : ℕ) → ResidencyError
  not_resident : PageLocation → ResidencyError
  resource_exhausted queue_full ticket_state io : String → ResidencyError
  transfer_cancelled : ResidencyError
  unsupported : String → ResidencyError

pub data Result (A : Type 0) : Type 0 where
  ok : A → Result A
  err : ResidencyError → Result A

abbrev pub Attempt : Type 0 → Type 0 → Type 0
Attempt S A = S → S × Result A

abbrev pub Done : Type 0
Done = Unit {0}

module _ {S : Type 0} where
  abbrev pub pure : {A : Type 0} → A → Attempt S A
  pure a s = (s, ok a)

  abbrev pub throw : {A : Type 0} → ResidencyError → Attempt S A
  throw e s = (s, err e)

  abbrev pub and_then : {A B : Type 0} → S × Result A → (A → Attempt S B) → S × Result B
  and_then (s, ok a) f = f a s
  and_then (s, err e) f = (s, err e)

  infixl 5 ◌>>=◌ ◌>>◌
  abbrev pub ◌>>=◌ : {A B : Type 0} → Attempt S A → (A → Attempt S B) → Attempt S B
  ◌>>=◌ m f s = and_then (m s) f

  abbrev pub ◌>>◌ : {B : Type 0} → Attempt S Done → Attempt S B → Attempt S B
  m >> k = m >>= λ _. k

  -- An early return with an error, under a test.
  abbrev pub refuse_if : Bool → ResidencyError → Attempt S Done
  refuse_if test e = if test then throw e else pure tt

  abbrev pub when : Bool → Attempt S Done → Attempt S Done
  when test m = if test then m else pure tt

  abbrev pub modify : (S → S) → Attempt S Done
  modify f s = (f s, ok tt)

  abbrev pub read : {A : Type 0} → (S → A) → Attempt S A
  read f s = (s, ok (f s))

  abbrev pub lift : {A : Type 0} → Result A → Attempt S A
  lift r s = (s, r)

-- `ok_or_else`.
abbrev pub ok_or : {A : Type 0} → Option A → ResidencyError → Result A
ok_or none e = err e
ok_or (some a) e = ok a

-- A method of the value at a key of a map, through `get_mut`.
module _ {K V A : Type 0} ⦃e : PartialEq K⦄ where
  abbrev pub found : K → ResidencyError → Attempt V A → Dict K V → Option V → Dict K V × Result A
  found k missing op d none = (d, err missing)
  found k missing op d (some v) = (insert k (op v).0 d, (op v).1)

  unfoldable pub at_key : K → ResidencyError → Attempt V A → Attempt (Dict K V) A
  at_key k missing op d = found k missing op d (lookup k d)

  pub at_key-some :
      (k : K) (missing : ResidencyError) (op : Attempt V A) (d : Dict K V) (v : V)
      → lookup k d ≡ some v
      → at_key k missing op d ≡ (insert k (op v).0 d, (op v).1)
  unfolding at_key
  at_key-some k missing op d v h = ap (found k missing op d) h

  pub at_key-none :
      (k : K) (missing : ResidencyError) (op : Attempt V A) (d : Dict K V)
      → lookup k d ≡ none
      → at_key k missing op d ≡ (d, err missing)
  unfolding at_key
  at_key-none k missing op d h = ap (found k missing op d) h
