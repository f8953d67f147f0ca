-- ===== src/Demo/ServerCli/Lines.antt =====
-- The lines that the server reads of what the client writes.
use data_sync.Base.{
  ◌≡◌, refl, false, List, [], ◌∷◌, ◌++◌, append_assoc, nat_eq, if◌then◌else◌, ◌==◌, All, ap, ◌∙◌,
  Bool-cases, inl, inr,
}
use data_sync.Text.{Text, lit, text_eq, is_empty, is_whitespace}
use data_sync.Text.Trim.{trim, trim_start, trim_end}
use data_sync.Demo.ServerCli.{request}

-- What `read_line` cuts a text into, the ends of lines included. `word` is the line so far.
unfoldable pub cut : Text → Text → List Text
cut word [] = if is_empty word then [] else word ∷ []
cut word (c ∷ s) =
    let later = cut [] s in
    let more = cut (word ++ c ∷ []) s in if c == b'\n' then (word ++ c ∷ []) ∷ later else more

-- No line ends in it.
abbrev pub IsOneLine : Text → Type 0
IsOneLine = All (λ c. (c == b'\n') ≡ false)

cut-line :
    (word s rest : Text)
    → IsOneLine s
    → cut word (s ++ (lit "\n" ++ rest)) ≡ (word ++ (s ++ lit "\n")) ∷ cut [] rest
unfolding cut
cut-line word [] rest h = refl
cut-line word (c ∷ s) rest (one, h) = rw one (
    cut-line (word ++ c ∷ []) s rest h
    ∙ ap (λ l. l ∷ cut [] rest) (append_assoc word (c ∷ []) (s ++ lit "\n")))

pub cut-request :
    (api_key cmd : Text)
    → IsOneLine api_key
    → IsOneLine cmd
    → cut [] (request api_key cmd) ≡ (api_key ++ lit "\n") ∷ (cmd ++ lit "\n") ∷ []
unfolding request cut
cut-request api_key cmd h k =
    cut-line [] api_key (cmd ++ lit "\n") h
    ∙ ap (λ l. (api_key ++ lit "\n") ∷ l) (cut-line [] cmd [] k)

pub trim_end-newline : (s : Text) → trim_end (s ++ lit "\n") ≡ trim_end s
unfolding trim_end
trim_end-newline [] = unfold is_whitespace in refl
trim_end-newline (c ∷ s) = rw (trim_end-newline s) refl

pub trim-newline : (s : Text) → trim (s ++ lit "\n") ≡ trim s
unfolding trim trim_start
trim-newline [] = unfold is_whitespace in refl
trim-newline (c ∷ s) = elim (Bool-cases (is_whitespace c)) [
  | inl space ↦ rw space (trim-newline s)
  | inr solid ↦ rw solid (trim_end-newline (c ∷ s))
]

pub nonempty : (s : Text) → is_empty (s ++ lit "\n") ≡ false
nonempty [] = refl
nonempty (c ∷ s) = refl
