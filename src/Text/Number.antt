-- ===== src/Text/Number.antt =====
-- `u64::from_str` and the decimal `Display` of a `u64`.
use mathlib.Core.List.{cons-ne-nil}
use data_sync.Base.{
  ◌∙◌, ℕ, zero, suc, ◌+◌, ◌-◌, ◌*◌, ◌/◌, ◌%◌, ◌≤◌, ◌<◌, ◌≡◌, ◌≢◌, refl, Bool, ◌&&◌, Option, none,
  some, [], ◌∷◌, arith, ◌==◌, nat_eq, if◌then◌else◌, ltb, leb, u64_mod, Bool-cases, inl, inr, false,
  true, All,
}
use data_sync.Text.{Text, is_whitespace}
use data_sync.Text.Trim.{IsWord}

unfoldable pub is_digit : ℕ → Bool
is_digit c = leb b'0' c && leb c b'9'

-- The loop of `from_str`: `checked_mul` by ten, then `checked_add` of the digit.
unfoldable pub scan : Text → ℕ → Option ℕ
unfolding is_digit
scan [] n = some n
scan (c ∷ s) n =
    if is_digit c && ltb (n * 10 + (c - b'0')) u64_mod then scan s (n * 10 + (c - b'0')) else none

-- `parse::<u64>()`: one leading `+` is passed over, and no digits are an error.
unfoldable pub parse_u64 : Text → Option ℕ
unfolding scan
parse_u64 [] = none
parse_u64 (c ∷ []) = scan (c ∷ []) 0
parse_u64 (c ∷ d ∷ s) = if c == b'+' then scan (d ∷ s) 0 else scan (c ∷ d ∷ s) 0

-- The digits of `n` before `out`. Each round divides by ten, so `n` rounds are enough.
unfoldable pub digits : ℕ → ℕ → Text → Text
digits zero n out = out
digits (suc fuel) n out =
    let rest = digits fuel (n / 10) ((b'0' + n % 10) ∷ out) in if n == 0 then out else rest

-- `to_string()` of a `u64`.
unfoldable pub print_u64 : ℕ → Text
unfolding digits
print_u64 n = if n == 0 then b'0' ∷ [] else digits n n []

scan-digits :
    (fuel n : ℕ) (out : Text) → n ≤ fuel → n < u64_mod → scan (digits fuel n out) 0 ≡ scan out n
unfolding scan digits
scan-digits zero zero out h fits = refl
scan-digits zero (suc n) out h fits = absurd (omega arith)
scan-digits (suc fuel) n out h fits =
    ground (arith, scan-digits fuel (n / 10) ((b'0' + n % 10) ∷ out))

abbrev pub IsDigits : Text → Type 0
IsDigits = All (λ c. is_digit c ≡ true)

digit_of_rest : (n : ℕ) → is_digit (b'0' + n % 10) ≡ true
unfolding is_digit
digit_of_rest n = ground arith

digits-IsDigits : (fuel n : ℕ) (out : Text) → IsDigits out → IsDigits (digits fuel n out)
unfolding digits
digits-IsDigits zero n out h = h
digits-IsDigits (suc fuel) n out h = elim (Bool-cases (n == 0)) [
  | inl e ↦ rw e h
  | inr e ↦ rw e (digits-IsDigits fuel (n / 10) ((b'0' + n % 10) ∷ out) (digit_of_rest n, h))
]

digits-ne-nil : (fuel n : ℕ) (out : Text) → out ≢ [] → digits fuel n out ≢ []
unfolding digits
digits-ne-nil zero n out h = h
digits-ne-nil (suc fuel) n out h = elim (Bool-cases (n == 0)) [
  | inl e ↦ rw e h
  | inr e ↦ rw e (digits-ne-nil fuel (n / 10) ((b'0' + n % 10) ∷ out) (cons-ne-nil _ _))
]

-- A printed number is one or more digits.
pub print_u64-IsDigits : (n : ℕ) → IsDigits (print_u64 n)
unfolding print_u64 is_digit
print_u64-IsDigits n = elim (Bool-cases (n == 0)) [
  | inl e ↦ rw e (refl, tt)
  | inr e ↦ rw e (digits-IsDigits n n [] tt)
]

pub print_u64-ne-nil : (n : ℕ) → print_u64 n ≢ []
unfolding print_u64
print_u64-ne-nil zero = cons-ne-nil _ _
print_u64-ne-nil (suc n) =
    ground (arith, digits-ne-nil n (suc n / 10) ((b'0' + suc n % 10) ∷ []) (cons-ne-nil _ _))

scan-print_u64 : (n : ℕ) → n < u64_mod → scan (print_u64 n) 0 ≡ some n
unfolding print_u64
scan-print_u64 n h = elim (Bool-cases (n == 0)) [
  | inl e ↦ rw e (let z : n ≡ 0 = ground arith in rw z (unfold scan in refl))
  | inr e ↦ rw e (scan-digits n n [] (omega arith) h ∙ (unfold scan in refl))
]

parse_u64-scan : (s : Text) → s ≢ [] → IsDigits s → parse_u64 s ≡ scan s 0
unfolding parse_u64
parse_u64-scan [] h d = absurd (h refl)
parse_u64-scan (c ∷ []) h d = refl
parse_u64-scan (c ∷ e ∷ s) h d = ground arith

-- A printed `u64` is read back.
pub parse_u64-print_u64 : (n : ℕ) → n < u64_mod → parse_u64 (print_u64 n) ≡ some n
parse_u64-print_u64 n h =
    parse_u64-scan (print_u64 n) (print_u64-ne-nil n) (print_u64-IsDigits n) ∙ scan-print_u64 n h

-- A digit is neither white space nor a quotation mark.
pub digit-word : (c : ℕ) → is_digit c ≡ true → (is_whitespace c ≡ false) × (c ≢ b'"')
unfolding is_digit is_whitespace
digit-word c h = ground arith

pub IsDigits-IsWord : (s : Text) → IsDigits s → IsWord s
IsDigits-IsWord [] h = tt
IsDigits-IsWord (c ∷ s) (d, h) = ((digit-word c d).0, IsDigits-IsWord s h)

scan-lt : (s : Text) (n : ℕ) {r : ℕ} → n < u64_mod → scan s n ≡ some r → r < u64_mod
unfolding scan
scan-lt [] n fits h = ground arith
scan-lt (c ∷ s) n {r} fits h = ground (arith, scan-lt s (n * 10 + (c - b'0')) {r = r})

-- Whatever is read fits a `u64`.
pub parse_u64-lt : (s : Text) {r : ℕ} → parse_u64 s ≡ some r → r < u64_mod
unfolding parse_u64
parse_u64-lt [] h = cc
parse_u64-lt (c ∷ []) {r} h = scan-lt (c ∷ []) 0 (omega arith) h
parse_u64-lt (c ∷ d ∷ s) {r} h =
    ground (arith, scan-lt (d ∷ s) 0 {r = r}, scan-lt (c ∷ d ∷ s) 0 {r = r})
