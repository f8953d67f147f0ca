-- ===== src/Text/Utf8.antt =====
-- The bytes of a text, which is what `str` holds.
use mathlib.Core.Option
use data_sync.Base.{
  ◌≢◌, ℕ, ◌+◌, ◌*◌, ◌/◌, ◌%◌, ◌-◌, ◌<◌, ◌≡◌, refl, true, false, Option, none, some, List, [], ◌∷◌,
  ◌++◌, arith, if◌then◌else◌, ltb, length, length-append, All, ap, ◌∙◌, sym, nat_eq, Bool-cases,
  inl, inr,
}
use data_sync.Text.{Text, len, len_utf8}

unfoldable pub utf8 : ℕ → List ℕ
utf8 c =
    if ltb c 0x80
    then c ∷ []
    else if ltb c 0x800
    then (0xc0 + c / 64) ∷ (0x80 + c % 64) ∷ []
    else if ltb c 0x10000
    then (0xe0 + c / 4096) ∷ (0x80 + c / 64 % 64) ∷ (0x80 + c % 64) ∷ []
    else (0xf0 + c / 262144) ∷ (0x80 + c / 4096 % 64) ∷ (0x80 + c / 64 % 64) ∷ (0x80 + c % 64) ∷ []

unfoldable pub bytes : Text → List ℕ
unfolding utf8
bytes [] = []
bytes (c ∷ s) = utf8 c ++ bytes s

-- The code points of Unicode.
abbrev pub IsUnicode : Text → Type 0
IsUnicode = All (λ c. c < 0x110000)

-- The first code point and the bytes behind it.
first : List ℕ → Option (ℕ × List ℕ)
first [] = none
first (a ∷ []) = if ltb a 0x80 then some (a, []) else none
first (a ∷ b ∷ []) =
    if ltb a 0x80
    then some (a, b ∷ [])
    else if ltb a 0xe0
    then some ((a - 0xc0) * 64 + (b - 0x80), [])
    else none
first (a ∷ b ∷ c ∷ []) =
    if ltb a 0x80
    then some (a, b ∷ c ∷ [])
    else if ltb a 0xe0
    then some ((a - 0xc0) * 64 + (b - 0x80), c ∷ [])
    else if ltb a 0xf0
    then some ((a - 0xe0) * 4096 + (b - 0x80) * 64 + (c - 0x80), [])
    else none
first (a ∷ b ∷ c ∷ d ∷ r) =
    if ltb a 0x80
    then some (a, b ∷ c ∷ d ∷ r)
    else if ltb a 0xe0
    then some ((a - 0xc0) * 64 + (b - 0x80), c ∷ d ∷ r)
    else if ltb a 0xf0
    then some ((a - 0xe0) * 4096 + (b - 0x80) * 64 + (c - 0x80), d ∷ r)
    else some ((a - 0xf0) * 262144 + (b - 0x80) * 4096 + (c - 0x80) * 64 + (d - 0x80), r)

first_one : (c : ℕ) (r : List ℕ) → c < 0x80 → first (c ∷ r) ≡ some (c, r)
unfolding first
first_one c [] h = ground arith
first_one c (b ∷ []) h = ground arith
first_one c (b ∷ d ∷ []) h = ground arith
first_one c (b ∷ d ∷ e ∷ r) h = ground arith

first_two :
    (a b : ℕ) (r : List ℕ)
    → ltb a 0x80 ≡ false
    → ltb a 0xe0 ≡ true
    → first (a ∷ b ∷ r) ≡ some ((a - 0xc0) * 64 + (b - 0x80), r)
unfolding first
first_two a b [] h k = rw (h, k)
first_two a b (d ∷ []) h k = rw (h, k)
first_two a b (d ∷ e ∷ r) h k = rw (h, k)

first_three :
    (a b c : ℕ) (r : List ℕ)
    → ltb a 0x80 ≡ false
    → ltb a 0xe0 ≡ false
    → ltb a 0xf0 ≡ true
    → first (a ∷ b ∷ c ∷ r) ≡ some ((a - 0xe0) * 4096 + (b - 0x80) * 64 + (c - 0x80), r)
unfolding first
first_three a b c [] h k l = rw (h, k, l)
first_three a b c (d ∷ r) h k l = rw (h, k, l)

first_four :
    (a b c d : ℕ) (r : List ℕ)
    → ltb a 0x80 ≡ false
    → ltb a 0xe0 ≡ false
    → ltb a 0xf0 ≡ false
    → first (a ∷ b ∷ c ∷ d ∷ r)
      ≡ some ((a - 0xf0) * 262144 + (b - 0x80) * 4096 + (c - 0x80) * 64 + (d - 0x80), r)
unfolding first
first_four a b c d r h k l = rw (h, k, l)

first-utf8 : (c : ℕ) (r : List ℕ) → c < 0x110000 → first (utf8 c ++ r) ≡ some (c, r)
unfolding utf8
first-utf8 c r h = elim (Bool-cases (ltb c 0x80)) [
  | inl one ↦ rw one (first_one c r (ground arith))
  | inr more ↦ elim (Bool-cases (ltb c 0x800)) [
    | inl two ↦
        rw (more, two)
          (first_two (0xc0 + c / 64) (0x80 + c % 64) r (ground arith) (ground arith)
            ∙ ap (λ n. some (n, r)) (omega arith))
    | inr more' ↦ elim (Bool-cases (ltb c 0x10000)) [
      | inl three ↦
          rw (more, more', three)
            (first_three (0xe0 + c / 4096) (0x80 + c / 64 % 64) (0x80 + c % 64) r (ground arith)
                (ground arith) (ground arith)
              ∙ ap (λ n. some (n, r)) (omega arith))
      | inr four ↦
          rw (more, more', four)
            (first_four (0xf0 + c / 262144) (0x80 + c / 4096 % 64) (0x80 + c / 64 % 64)
                (0x80 + c % 64) r (ground arith) (ground arith) (ground arith)
              ∙ ap (λ n. some (n, r)) (omega arith))
    ]
  ]
]

length-utf8 : (c : ℕ) → length (utf8 c) ≡ len_utf8 c
unfolding utf8 len_utf8
length-utf8 c = ground arith

pub length-bytes : (s : Text) → length (bytes s) ≡ len s
unfolding bytes len
length-bytes [] = refl
length-bytes (c ∷ s) =
    omega (arith, length-append (utf8 c) (bytes s), length-utf8 c, length-bytes s)

utf8-ne : (c : ℕ) (r : List ℕ) → c < 0x110000 → utf8 c ++ r ≢ []
utf8-ne c r h p = absurd (cc (sym (ap first p) ∙ first-utf8 c r h, first_nil))
  where
    first_nil : first [] ≡ none
    first_nil = unfold first in refl

-- Different texts have different bytes.
pub bytes-injective : (s t : Text) → IsUnicode s → IsUnicode t → bytes s ≡ bytes t → s ≡ t
unfolding bytes
bytes-injective [] [] u v p = refl
bytes-injective [] (d ∷ t) u (h, v) p = absurd (utf8-ne d (bytes t) h (sym p))
bytes-injective (c ∷ s) [] (h, u) v p = absurd (utf8-ne c (bytes s) h p)
bytes-injective (c ∷ s) (d ∷ t) (h, u) (k, v) p =
    let e : ◌≡◌ {A = Option (ℕ × List ℕ)} (some (c, bytes s)) (some (d, bytes t)) =
      sym (first-utf8 c (bytes s) h) ∙ ap first p ∙ first-utf8 d (bytes t) k in
    let q : (c, bytes s) ≡ (d, bytes t) = Option.some_inj.0 e in
    let same : s ≡ t = bytes-injective s t u v (ap (λ (x : ℕ × List ℕ). x.1) q) in
    rw (ap (λ (x : ℕ × List ℕ). x.0) q, same)
