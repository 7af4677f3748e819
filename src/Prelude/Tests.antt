-- ===== src/Prelude/Tests.antt =====
-- Boolean tests, the conditional and equality of keys, as Rust's `<`, `<=`, `if` and `==`.
use Prim.Native.Nat.{ℕ, ◌≤◌, ◌<◌, compare, Ordering}
use mathlib.Core.Path.{◌≡◌, refl}
use mathlib.Core.Logic.{◌≢◌, ◌⊎◌, inl, inr, ite}
use mathlib.Core.Bool.{Bool, true, false}
use mathlib.Core.Option.{Option, none, some}
use native.Mathlib.Omega.{arith}
use native.Mathlib.Decide.{ℕ_discrete}
use mathlib.Core.List.{List}

abbrev pub ltb : ℕ → ℕ → Bool
ltb a b = elim (compare a b) [ Ordering.lt ↦ true | _ ↦ false ]

abbrev pub leb : ℕ → ℕ → Bool
leb a b = elim (compare a b) [ Ordering.gt ↦ false | _ ↦ true ]

infix 1 if◌then◌else◌
abbrev pub if◌then◌else◌ {ℓ} : {A : Type ℓ} → Bool → A → A → A
if true then x else y = x
if false then x else y = y

-- A type whose equality the program tests. A split on `a == b` yields the equation or its negation.
pub record Eq (A : Type 0) : Type 0 where
  pub dec : Discrete A

infix 50 ◌==◌
abbrev pub ◌==◌ : {A : Type 0} ⦃e : Eq A⦄ → A → A → Bool
◌==◌ ⦃e⦄ a b = ite (e.dec a b) true false

infix 50 ◌!=◌
abbrev pub ◌!=◌ : {A : Type 0} ⦃e : Eq A⦄ → A → A → Bool
◌!=◌ ⦃e⦄ a b = ite (e.dec a b) false true

instance abbrev pub nat_eq : Eq ℕ
nat_eq = record { dec = ℕ_discrete }

unfoldable pub text_dec : Discrete (List ℕ)
text_dec = hlevel ℕ_discrete

-- Strings are lists of code points.
instance abbrev pub text_eq : Eq (List ℕ)
text_eq = record { dec = text_dec }

unfoldable pub option_text_dec : Discrete (Option (List ℕ))
option_text_dec = hlevel text_dec

instance abbrev pub option_text_eq : Eq (Option (List ℕ))
option_text_eq = record { dec = option_text_dec }

unfoldable pub option_nat_dec : Discrete (Option ℕ)
option_nat_dec = hlevel ℕ_discrete

instance abbrev pub option_nat_eq : Eq (Option ℕ)
option_nat_eq = record { dec = option_nat_dec }

pub ltb→lt : (a b : ℕ) → ltb a b ≡ true → a < b
ltb→lt a b h = ground arith

pub lt→ltb : (a b : ℕ) → a < b → ltb a b ≡ true
lt→ltb a b h = ground arith

pub leb→le : (a b : ℕ) → leb a b ≡ true → a ≤ b
leb→le a b h = ground arith

pub ruleset tests = (arith, ltb→lt, lt→ltb, leb→le)

-- To split on a computed value and keep the equation.
pub Bool-cases : (b : Bool) → (b ≡ true) ⊎ (b ≡ false)
Bool-cases true = inl refl
Bool-cases false = inr refl

pub Option-cases {ℓ} : {A : Type ℓ} (o : Option A) → (o ≡ none) ⊎ ((a : A) × (o ≡ some a))
Option-cases none = inl refl
Option-cases (some a) = inr (a, refl)

module _ {A : Type 0} ⦃e : Eq A⦄ where
  pub !=-eq-false : (a b : A) → (a != b) ≡ false → a ≡ b
  !=-eq-false a b h = ground arith

  pub !=-eq-true : (a b : A) → (a != b) ≡ true → a ≢ b
  !=-eq-true a b h p = ground arith

  pub ==-eq-true : (a b : A) → (a == b) ≡ true → a ≡ b
  ==-eq-true a b h = ground arith

  pub ==-eq-false : (a b : A) → (a == b) ≡ false → a ≢ b
  ==-eq-false a b h p = ground arith

  pub ==_refl : (a : A) → (a == a) ≡ true
  ==_refl a = ground arith
