-- ===== src/Docs.antt =====
-- syncpond-server/src/main.rs: `html_escape`, which the index page of the documentation puts file
-- names through.
pub mod Pages
use data_sync.Base.{
  ℕ, ◌≡◌, refl, Bool, true, false, [], ◌∷◌, ◌++◌, append_assoc, arith, nat_eq, ◌==◌, if◌then◌else◌,
  Bool-cases, inl, inr, ◌∙◌, ◌||◌, sym,
}
use data_sync.Text.{Text, lit}

-- `str::replace` of one character.
unfoldable pub replace : Text → ℕ → Text → Text
replace [] c by = []
replace (d ∷ s) c by = let rest = replace s c by in if d == c then by ++ rest else d ∷ rest

unfoldable pub html_escape : Text → Text
unfolding replace
html_escape input =
    let a = replace input b'&' (lit "&amp;") in
    let b = replace a b'<' (lit "&lt;") in
    let c = replace b b'>' (lit "&gt;") in
    let d = replace c b'"' (lit "&quot;") in replace d b'\'' (lit "&#39;")

replace-append :
    (s t : Text) (c : ℕ) (by : Text) → replace (s ++ t) c by ≡ replace s c by ++ replace t c by
unfolding replace
replace-append [] t c by = refl
replace-append (d ∷ s) t c by = elim (Bool-cases (d == c)) [
  | inl same ↦
      rw (same, replace-append s t c by) (sym (append_assoc by (replace s c by) (replace t c by)))
  | inr other ↦ rw (other, replace-append s t c by)
]

-- The entity of a character, or the character.
unfoldable pub entity : ℕ → Text
entity c =
    if c == b'&'
    then lit "&amp;"
    else if c == b'<'
    then lit "&lt;"
    else if c == b'>'
    then lit "&gt;"
    else if c == b'"'
    then lit "&quot;"
    else if c == b'\''
    then lit "&#39;"
    else c ∷ []

-- Every character is replaced once, in a single pass.
unfoldable pub escape_each : Text → Text
unfolding entity
escape_each [] = []
escape_each (c ∷ s) = entity c ++ escape_each s

html_escape-append : (s t : Text) → html_escape (s ++ t) ≡ html_escape s ++ html_escape t
unfolding html_escape
html_escape-append s t =
    let a = λ (x : Text). replace x b'&' (lit "&amp;") in
    let b = λ (x : Text). replace (a x) b'<' (lit "&lt;") in
    let c = λ (x : Text). replace (b x) b'>' (lit "&gt;") in
    let d = λ (x : Text). replace (c x) b'"' (lit "&quot;") in
    rw
      (
        replace-append s t b'&' (lit "&amp;"),
        replace-append (a s) (a t) b'<' (lit "&lt;"),
        replace-append (b s) (b t) b'>' (lit "&gt;"),
        replace-append (c s) (c t) b'"' (lit "&quot;"),
      )
      (replace-append (d s) (d t) b'\'' (lit "&#39;"))

html_escape-entity : (c : ℕ) → html_escape (c ∷ []) ≡ entity c
unfolding html_escape entity replace
html_escape-entity c = ground arith

same_pass : (input : Text) → html_escape input ≡ escape_each input
unfolding escape_each
same_pass [] = unfold html_escape replace in refl
same_pass (c ∷ s) = html_escape-append (c ∷ []) s ∙ rw (html_escape-entity c, same_pass s)

-- No angle bracket and no quotation mark.
unfoldable pub is_plain : Text → Bool
is_plain [] = true
is_plain (c ∷ s) =
    let rest = is_plain s in
    if c == b'<' || c == b'>' || c == b'"' || c == b'\'' then false else rest

is_plain-append : (s t : Text) → is_plain s ≡ true → is_plain t ≡ true → is_plain (s ++ t) ≡ true
unfolding is_plain
is_plain-append [] t h k = k
is_plain-append (c ∷ s) t h k = ground (arith, is_plain-append s t)

is_plain-entity : (c : ℕ) → is_plain (entity c) ≡ true
unfolding entity is_plain
is_plain-entity c = ground arith

is_plain-escape_each : (s : Text) → is_plain (escape_each s) ≡ true
unfolding escape_each
is_plain-escape_each [] = unfold is_plain in refl
is_plain-escape_each (c ∷ s) =
    is_plain-append (entity c) (escape_each s) (is_plain-entity c) (is_plain-escape_each s)

-- The five replacements, one after the other, never touch what an earlier one has put in: the
-- result is that of a single pass that replaces each of the five characters once, and it has no
-- angle bracket and no quotation mark.
pub html_escape-escape_each :
    (input : Text) → (html_escape input ≡ escape_each input) × (is_plain (html_escape input) ≡ true)
html_escape-escape_each input = (same_pass input, rw (same_pass input) (is_plain-escape_each input))
