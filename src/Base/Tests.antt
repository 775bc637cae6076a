-- ===== src/Base/Tests.antt =====
-- Boolean tests on the native numbers and on text, the conditional, and case lemmas.
use Prim.Native.Nat.{ℕ, ◌≤◌, ◌<◌, compare, Ordering}
use Prim.Native.String.{String}
use mathlib.Core.Path.{◌≡◌, refl, sym, ap, ◌∙◌}
use mathlib.Core.Logic.{◌≢◌, ◌↔◌, ◌⊎◌, inl, inr}
use mathlib.Core.Bool.{Bool, true, false, ◌&&◌}
use mathlib.Core.Option.{Option, none, some}
use native.Mathlib.Omega.{arith}
use text.Mathlib.Text.{◌==◌ as text_beq}
use text.Mathlib.TextEquality.{eq_iff}

abbrev pub ltb : ℕ → ℕ → Bool
ltb a b = elim (compare a b) [ Ordering.lt ↦ true | _ ↦ false ]

abbrev pub leb : ℕ → ℕ → Bool
leb a b = elim (compare a b) [ Ordering.gt ↦ false | _ ↦ true ]

abbrev pub nat_beq : ℕ → ℕ → Bool
nat_beq a b = elim (compare a b) [ Ordering.eq ↦ true | _ ↦ false ]

infix 1 if◌then◌else◌
abbrev pub if◌then◌else◌ {ℓ} : {A : Type ℓ} → Bool → A → A → A
if true then x else y = x
if false then x else y = y

pub ltb→lt : (a b : ℕ) → ltb a b ≡ true → a < b
ltb→lt a b h = ground arith

pub leb→le : (a b : ℕ) → leb a b ≡ true → a ≤ b
leb→le a b h = ground arith

pub nat_beq_iff : (a b : ℕ) → (nat_beq a b ≡ true) ↔ (a ≡ b)
nat_beq_iff a b = ground arith

pub Bool-cases : (b : Bool) → (b ≡ true) ⊎ (b ≡ false)
Bool-cases true = inl refl
Bool-cases false = inr refl

pub Option-cases {ℓ} : {A : Type ℓ} (o : Option A) → (o ≡ none) ⊎ ((a : A) × (o ≡ some a))
Option-cases none = inl refl
Option-cases (some a) = inr (a, refl)

-- Types that the code compares by `==`.
pub record PartialEq {ℓ} (T : Type ℓ) : Type ℓ where
  pub beq : T → T → Bool
  pub beq_iff : (x y : T) → (beq x y ≡ true) ↔ (x ≡ y)

instance abbrev pub string_eq : PartialEq String
string_eq = record { beq = text_beq; beq_iff = eq_iff }

instance abbrev pub nat_eq : PartialEq ℕ
nat_eq = record { beq = nat_beq; beq_iff = nat_beq_iff }

infix 50 ◌==◌ ◌!=◌
abbrev pub ◌==◌ {ℓ} : {T : Type ℓ} ⦃e : PartialEq T⦄ → T → T → Bool
◌==◌ ⦃e⦄ = e.beq

abbrev pub ◌!=◌ {ℓ} : {T : Type ℓ} ⦃e : PartialEq T⦄ → T → T → Bool
◌!=◌ x y = if x == y then false else true

abbrev pub is_empty : String → Bool
is_empty String.[] = true
is_empty (String.◌∷◌ c s) = false

abbrev pub is_some {ℓ} : {A : Type ℓ} → Option A → Bool
is_some none = false
is_some (some a) = true

-- `derive(PartialEq)`: of a pair, and of a type by a code from which a value is read back.
module _ {ℓ κ} {A : Type ℓ} {B : Type κ} where
  abbrev pair_beq : PartialEq A → PartialEq B → A × B → A × B → Bool
  pair_beq a b x y = a.beq x.0 y.0 && b.beq x.1 y.1

  pub pair_beq_iff :
      (a : PartialEq A) (b : PartialEq B) (x y : A × B) → (pair_beq a b x y ≡ true) ↔ (x ≡ y)
  pair_beq_iff a b x y = ground (arith, a.beq_iff x.0 y.0, b.beq_iff x.1 y.1)

  abbrev pub pair_eq : PartialEq A → PartialEq B → PartialEq (A × B)
  pair_eq a b = record { beq = pair_beq a b; beq_iff = pair_beq_iff a b }

  pub code_beq_iff :
      (b : PartialEq B) (code : A → B) (decode : B → A)
      → ((a : A) → decode (code a) ≡ a)
      → (x y : A) → (b.beq (code x) (code y) ≡ true) ↔ (x ≡ y)
  code_beq_iff b code decode h x y = (
    λ e. sym (h x) ∙ ap decode ((b.beq_iff (code x) (code y)).0 e) ∙ h y,
    λ e. (b.beq_iff (code x) (code y)).1 (ap code e),
  )

  abbrev pub eq_by_code :
      PartialEq B → (code : A → B) (decode : B → A) → ((a : A) → decode (code a) ≡ a) → PartialEq A
  eq_by_code b code decode h = record {
    beq = λ x y. b.beq (code x) (code y);
    beq_iff = code_beq_iff b code decode h;
  }

module _ {ℓ} {A : Type ℓ} where
  abbrev option_beq : PartialEq A → Option A → Option A → Bool
  option_beq e none none = true
  option_beq e (some a) (some b) = e.beq a b
  option_beq e none (some b) = false
  option_beq e (some a) none = false

  pub option_beq_iff : (e : PartialEq A) (x y : Option A) → (option_beq e x y ≡ true) ↔ (x ≡ y)
  option_beq_iff e none none = ground arith
  option_beq_iff e none (some b) = ground arith
  option_beq_iff e (some a) none = ground arith
  option_beq_iff e (some a) (some b) = ground (arith, e.beq_iff a b)

  abbrev pub option_eq : PartialEq A → PartialEq (Option A)
  option_eq e = record { beq = option_beq e; beq_iff = option_beq_iff e }

pub ne_false {ℓ} : {T : Type ℓ} ⦃e : PartialEq T⦄ (x y : T) → x ≡ y → (x != y) ≡ false
ne_false ⦃e⦄ x y h = ground (arith, e.beq_iff x y)

pub not_ne {ℓ} : {T : Type ℓ} ⦃e : PartialEq T⦄ (x y : T) → (x != y) ≡ false → x ≡ y
not_ne ⦃e⦄ x y h = ground (arith, e.beq_iff x y)

pub ne_true {ℓ} : {T : Type ℓ} ⦃e : PartialEq T⦄ (x y : T) → x ≢ y → (x != y) ≡ true
ne_true ⦃e⦄ x y h = ground (arith, e.beq_iff x y)
