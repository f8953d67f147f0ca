-- ===== src/Text.antt =====
-- `str` and `String` of the Rust standard library: a text is the list of its characters, each by
-- its code point.
pub mod Trim
pub mod Number
pub mod Utf8
use Prim.Native.Char.{code}
use data_sync.Base.{
  ℕ, ◌+◌, String, ◌≡◌, refl, ◌↔◌, Bool, true, false, ◌&&◌, ◌||◌, List, [], ◌∷◌, arith, PartialEq,
  ◌==◌, ==_iff, if◌then◌else◌, ltb, leb, nat_eq,
}

abbrev pub Text : Type 0
Text = List ℕ

-- The characters of a literal.
abbrev pub lit : String → Text
lit String.[] = []
lit (String.◌∷◌ c s) = code c ∷ lit s

unfoldable pub text_eq_test : Text → Text → Bool
text_eq_test [] [] = true
text_eq_test [] (b ∷ t) = false
text_eq_test (a ∷ s) [] = false
text_eq_test (a ∷ s) (b ∷ t) = a == b && text_eq_test s t

pub text_eq_test_iff : (s t : Text) → (text_eq_test s t ≡ true) ↔ (s ≡ t)
unfolding text_eq_test
text_eq_test_iff [] [] = ((λ _. refl), (λ _. refl))
text_eq_test_iff [] (b ∷ t) = ((λ h. cc), (λ h. cc))
text_eq_test_iff (a ∷ s) [] = ((λ h. cc), (λ h. cc))
text_eq_test_iff (a ∷ s) (b ∷ t) = (
  (λ h. ground (arith, text_eq_test_iff s t, ==_iff a b)),
  (λ h. ground (arith, text_eq_test_iff s t, ==_iff a b)),
)

instance unfoldable pub text_eq : PartialEq Text
unfolding text_eq_test
text_eq = record { eq_test = text_eq_test; eq_test_iff = text_eq_test_iff }

-- `is_empty`.
abbrev pub is_empty {ℓ} : {A : Type ℓ} → List A → Bool
is_empty [] = true
is_empty (x ∷ xs) = false

-- `starts_with` of a text.
unfoldable pub starts_with : Text → Text → Bool
starts_with s [] = true
starts_with [] (p ∷ ps) = false
starts_with (c ∷ s) (p ∷ ps) = c == p && starts_with s ps

-- `char::len_utf8`.
unfoldable pub len_utf8 : ℕ → ℕ
len_utf8 c = if ltb c 0x80 then 1 else if ltb c 0x800 then 2 else if ltb c 0x10000 then 3 else 4

-- `str::len`, in bytes.
unfoldable pub len : Text → ℕ
unfolding len_utf8
len [] = 0
len (c ∷ s) = len_utf8 c + len s

-- `char::is_whitespace`, the property White_Space of Unicode.
unfoldable pub is_whitespace : ℕ → Bool
is_whitespace c =
    (leb 0x9 c && leb c 0xd)
    || c == 0x20
    || c == 0x85
    || c == 0xa0
    || c == 0x1680
    || (leb 0x2000 c && leb c 0x200a)
    || c == 0x2028
    || c == 0x2029
    || c == 0x202f
    || c == 0x205f
    || c == 0x3000
