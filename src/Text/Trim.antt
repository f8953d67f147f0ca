-- ===== src/Text/Trim.antt =====
-- `trim_start`, `trim_end` and `trim` of `str`.
use data_sync.Base.{
  ℕ, ◌≤◌, ◌≡◌, refl, true, false, ◌&&◌, [], ◌∷◌, arith, if◌then◌else◌, length, All, Bool-cases, inl,
  inr, ap,
}
use data_sync.Text.{Text, is_empty, is_whitespace}

unfoldable pub trim_start : Text → Text
trim_start [] = []
trim_start (c ∷ s) = if is_whitespace c then trim_start s else c ∷ s

unfoldable pub trim_end : Text → Text
trim_end [] = []
trim_end (c ∷ s) =
    let rest = trim_end s in if is_whitespace c && is_empty rest then [] else c ∷ rest

unfoldable pub trim : Text → Text
unfolding trim_start trim_end
trim s = trim_end (trim_start s)

pub length-trim_start : (s : Text) → length (trim_start s) ≤ length s
unfolding trim_start
length-trim_start [] = omega arith
length-trim_start (c ∷ s) = ground (arith, length-trim_start s)

pub trim_start-trim_start : (s : Text) → trim_start (trim_start s) ≡ trim_start s
unfolding trim_start
trim_start-trim_start [] = refl
trim_start-trim_start (c ∷ s) = ground (arith, trim_start-trim_start s)

-- A text trims to nothing exactly when it starts with nothing but white space.
pub is_empty-trim : (s : Text) → is_empty (trim s) ≡ is_empty (trim_start s)
unfolding trim
is_empty-trim [] = refl
is_empty-trim (c ∷ s) = ground (arith, is_empty-trim s)

-- The characters of a word: none is white space.
abbrev pub IsWord : Text → Type 0
IsWord = All (λ c. is_whitespace c ≡ false)

pub trim_start-cons : (c : ℕ) (s : Text) → is_whitespace c ≡ false → trim_start (c ∷ s) ≡ c ∷ s
unfolding trim_start
trim_start-cons c s h = rw h

pub trim_start_space :
    (c : ℕ) (s : Text) → is_whitespace c ≡ true → trim_start (c ∷ s) ≡ trim_start s
unfolding trim_start
trim_start_space c s h = rw h

trim_end-trim_end : (s : Text) → trim_end (trim_end s) ≡ trim_end s
unfolding trim_end
trim_end-trim_end [] = refl
trim_end-trim_end (c ∷ s) = ground (arith, trim_end-trim_end s)

trim_start-trim_end : (s : Text) → trim_start s ≡ s → trim_start (trim_end s) ≡ trim_end s
unfolding trim_start trim_end
trim_start-trim_end [] h = refl
trim_start-trim_end (c ∷ s) h = elim (Bool-cases (is_whitespace c)) [
  | inl space ↦
      let shorter : trim_start s ≡ c ∷ s = rw space at h in
      absurd (omega (arith, length-trim_start s, ap length shorter))
  | inr solid ↦ rw solid (rw solid refl)
]

pub trim-trim : (s : Text) → trim (trim s) ≡ trim s
unfolding trim
trim-trim s =
    rw (trim_start-trim_end (trim_start s) (trim_start-trim_start s))
      (trim_end-trim_end (trim_start s))
