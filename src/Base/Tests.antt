-- ===== src/Base/Tests.antt =====
-- Boolean tests, the conditional, and decidable equality as an interface.
use Prim.Native.Nat.{ℕ, ◌≤◌, ◌<◌, ◌^◌, compare, Ordering}
use mathlib.Core.Path.{◌≡◌, refl}
use mathlib.Core.Logic.{◌↔◌, ◌⊎◌, ◌≢◌, inl, inr}
use mathlib.Core.Bool.{Bool, true, false}
use mathlib.Core.Option.{Option, none, some}
use native.Mathlib.Omega.{arith}

abbrev pub ltb : ℕ → ℕ → Bool
ltb a b = elim (compare a b) [ Ordering.lt ↦ true | _ ↦ false ]

abbrev pub leb : ℕ → ℕ → Bool
leb a b = elim (compare a b) [ Ordering.gt ↦ false | _ ↦ true ]

abbrev nat_eq_test : ℕ → ℕ → Bool
nat_eq_test a b = elim (compare a b) [ Ordering.eq ↦ true | _ ↦ false ]

infix 1 if◌then◌else◌
abbrev pub if◌then◌else◌ {ℓ} : {A : Type ℓ} → Bool → A → A → A
if true then x else y = x
if false then x else y = y

-- Rust's `u64` and `usize` (of a 64-bit target).
abbrev pub u64_mod : ℕ
u64_mod = 2 ^ 64

-- Rust's `PartialEq` where it decides equality.
pub record PartialEq {ℓ} (T : Type ℓ) : Type ℓ where
  pub eq_test : T → T → Bool
  pub eq_test_iff : (x y : T) → (eq_test x y ≡ true) ↔ (x ≡ y)

pub nat_eq_test_iff : (m n : ℕ) → (nat_eq_test m n ≡ true) ↔ (m ≡ n)
nat_eq_test_iff m n = ground arith

instance abbrev pub nat_eq : PartialEq ℕ
nat_eq = record { eq_test_iff = nat_eq_test_iff; eq_test = nat_eq_test }

-- `==` of Rust, at each type with an instance.
infix 50 ◌==◌
abbrev pub ◌==◌ {ℓ} : {T : Type ℓ} ⦃decides : PartialEq T⦄ → T → T → Bool
◌==◌ ⦃decides⦄ x y = decides.eq_test x y

-- The two halves of `eq_test_iff`, and the test of a value against itself.
module _ {ℓ} {A : Type ℓ} ⦃e : PartialEq A⦄ where
  pub ==_iff : (a b : A) → ((a == b) ≡ true) ↔ (a ≡ b)
  ==_iff a b = e.eq_test_iff a b

  pub ==_refl : (a : A) → (a == a) ≡ true
  ==_refl a = (e.eq_test_iff a a).1 refl

  pub ==_ne : (a b : A) → a ≢ b → (a == b) ≡ false
  ==_ne a b h = ground (arith, e.eq_test_iff a b)

  pub ne_of_== : (a b : A) → (a == b) ≡ false → a ≢ b
  ne_of_== a b h = ground (arith, e.eq_test_iff a b)

-- To split on a computed value and keep the equation.
pub Bool-cases : (b : Bool) → (b ≡ true) ⊎ (b ≡ false)
Bool-cases true = inl refl
Bool-cases false = inr refl

pub Option-cases {ℓ} : {A : Type ℓ} (o : Option A) → (o ≡ none) ⊎ ((a : A) × (o ≡ some a))
Option-cases none = inl refl
Option-cases (some a) = inr (a, refl)

pub ltb→lt : (a b : ℕ) → ltb a b ≡ true → a < b
ltb→lt a b h = ground arith

pub leb→le : (a b : ℕ) → leb a b ≡ true → a ≤ b
leb→le a b h = ground arith
