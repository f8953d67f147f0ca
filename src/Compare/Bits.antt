-- ===== src/Compare/Bits.antt =====
-- When `|` and `^` give zero.
use Prim.Native.Nat.{bit_or, bit_xor, digits, differ, max, bit_or-bitwise, bit_xor-bitwise}
use data_sync.Base.{ℕ, zero, suc, ◌/◌, ◌%◌, ◌≤◌, ◌≡◌, refl, arith, ◌∙◌, sym}

differ-zero : (x y : ℕ) → differ x y ≡ 0 → x ≡ y
differ-zero zero y h = omega arith
differ-zero (suc x) zero h = omega arith
differ-zero (suc x) (suc y) h = omega (arith, differ-zero x y h)

differ_self : (x : ℕ) → differ x x ≡ 0
differ_self zero = refl
differ_self (suc x) = differ_self x

digits-differ : (n a b : ℕ) → a ≤ n → digits (λ b. b) differ n a b ≡ 0 → a ≡ b
digits-differ zero a b le h = omega arith
digits-differ (suc n) zero b le h = omega arith
digits-differ (suc n) (suc a) b le h = omega (
  arith,
  digits-differ n (suc a / 2) (b / 2) (omega arith) (omega arith),
  differ-zero (suc a % 2) (b % 2) (omega arith),
)

digits_self : (n a : ℕ) → a ≤ n → digits (λ b. b) differ n a a ≡ 0
digits_self zero a le = omega arith
digits_self (suc n) zero le = refl
digits_self (suc n) (suc a) le =
    omega (arith, digits_self n (suc a / 2) (omega arith), differ_self (suc a % 2))

digits-max : (n a b : ℕ) → a ≤ n → digits (λ b. b) max n a b ≡ 0 → (a ≡ 0) × (b ≡ 0)
digits-max zero a b le h = omega arith
digits-max (suc n) zero b le h = omega arith
digits-max (suc n) (suc a) b le h =
    omega (arith, digits-max n (suc a / 2) (b / 2) (omega arith) (omega arith))

pub bit_xor-zero : (a b : ℕ) → bit_xor a b ≡ 0 → a ≡ b
bit_xor-zero a b h = digits-differ a a b (omega arith) (sym (bit_xor-bitwise a b) ∙ h)

pub bit_xor_self : (a : ℕ) → bit_xor a a ≡ 0
bit_xor_self a = bit_xor-bitwise a a ∙ digits_self a a (omega arith)

pub bit_or-zero : (a b : ℕ) → bit_or a b ≡ 0 → (a ≡ 0) × (b ≡ 0)
bit_or-zero a b h = digits-max a a b (omega arith) (sym (bit_or-bitwise a b) ∙ h)
