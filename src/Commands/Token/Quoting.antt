-- ===== src/Commands/Token/Quoting.antt =====
-- Tokens are read back as they are written, bare or in quotation marks.
use data_sync.Base.{
  ℕ, ◌≤◌, ◌<◌, ◌≡◌, ◌≢◌, refl, Bool, true, false, [], ◌∷◌, ◌++◌, append_assoc, append-nil, arith,
  ok, err, ◌==◌, nat_eq, ==_ne, if◌then◌else◌, Bool-cases, inl, inr, length, ◌∙◌, ap,
}
use data_sync.Text.{Text, lit, is_whitespace}
use data_sync.Text.Trim.{trim_start, trim_start-cons, trim_start_space, length-trim_start, IsWord}
use data_sync.Commands.Token.{unescape, quoted, bare, token_of, take_token}

-- How a client writes a character of a quoted token.
unfoldable pub escape : ℕ → Text
escape c =
    if c == b'\n'
    then b'\\' ∷ b'n' ∷ []
    else if c == b'\r'
    then b'\\' ∷ b'r' ∷ []
    else if c == b'\t'
    then b'\\' ∷ b't' ∷ []
    else if c == b'\\'
    then b'\\' ∷ b'\\' ∷ []
    else if c == b'"'
    then b'\\' ∷ b'"' ∷ []
    else c ∷ []

unfoldable pub escape_all : Text → Text
unfolding escape
escape_all [] = []
escape_all (c ∷ t) = escape c ++ escape_all t

unfoldable pub quote : Text → Text
unfolding escape_all
quote t = b'"' ∷ (escape_all t ++ b'"' ∷ [])

quoted-escape :
    (c : ℕ) (s buf : Text) → quoted (escape c ++ s) buf false ≡ quoted s (buf ++ c ∷ []) false
unfolding quoted escape
quoted-escape c s buf = ground arith

quoted_end : (rest buf : Text) → quoted (b'"' ∷ rest) buf false ≡ ok (buf, rest)
unfolding quoted
quoted_end rest buf = refl

quoted-escape_all :
    (t rest buf : Text) → quoted (escape_all t ++ b'"' ∷ rest) buf false ≡ ok (buf ++ t, rest)
unfolding escape_all
quoted-escape_all [] rest buf = rw (append-nil buf) (quoted_end rest buf)
quoted-escape_all (c ∷ t) rest buf =
    rw
      (
        append_assoc (escape c) (escape_all t) (b'"' ∷ rest),
        quoted-escape c,
        quoted-escape_all t rest,
      )
      (ap (λ x. ok (x, rest)) (append_assoc buf (c ∷ []) t))

quote_mark : is_whitespace b'"' ≡ false
unfolding is_whitespace
quote_mark = refl

pub take_token_lem : (s : Text) → take_token s ≡ token_of (trim_start s)
unfolding take_token
take_token_lem s = refl

quote-append : (t rest : Text) → quote t ++ rest ≡ b'"' ∷ (escape_all t ++ b'"' ∷ rest)
unfolding quote
quote-append t rest = ap (λ x. b'"' ∷ x) (append_assoc (escape_all t) (b'"' ∷ []) rest)

token_of_mark : (s : Text) → token_of (b'"' ∷ s) ≡ quoted s [] false
unfolding token_of
token_of_mark s = refl

-- Any text, also one with white space, quotation marks or line ends, is one token when it is
-- written in quotation marks with its special characters escaped; what follows is left for the
-- next argument.
pub take_token-quote : (t rest : Text) → take_token (quote t ++ rest) ≡ ok (t, rest)
take_token-quote t rest =
    rw
      (
        take_token_lem (quote t ++ rest),
        quote-append t rest,
        trim_start-cons b'"' (escape_all t ++ b'"' ∷ rest) quote_mark,
        token_of_mark,
      )
      (quoted-escape_all t rest [])

-- White space before a token is passed over.
pub take_token_space :
    (c : ℕ) (s : Text) → is_whitespace c ≡ true → take_token (c ∷ s) ≡ take_token s
unfolding take_token
take_token_space c s h = rw (trim_start_space c s h)

-- What a bare token must be followed by.
abbrev pub IsBoundary : Text → Type 0
IsBoundary [] = Unit
IsBoundary (c ∷ s) = is_whitespace c ≡ true

bare_word :
    (t rest buf : Text) → IsWord t → IsBoundary rest → bare (t ++ rest) buf ≡ (buf ++ t, rest)
unfolding bare
bare_word [] [] buf w b = rw (append-nil buf)
bare_word [] (c ∷ rest) buf w b = rw (b, append-nil buf)
bare_word (c ∷ t) rest buf (h, w) b =
    rw h (bare_word t rest (buf ++ c ∷ []) w b ∙ ap (λ x. (x, rest)) (append_assoc buf (c ∷ []) t))

-- A text with no white space that does not begin with a quotation mark is one token as it stands,
-- up to white space or the end.
pub take_token_word :
    (c : ℕ) (t rest : Text)
    → IsWord (c ∷ t)
    → c ≢ b'"'
    → IsBoundary rest
    → take_token (c ∷ t ++ rest) ≡ ok (c ∷ t, rest)
unfolding take_token
take_token_word c t rest w h b =
    rw (trim_start-cons c (t ++ rest) w.0)
      (unfold token_of in rw (==_ne c b'"' h) (ap ok (bare_word (c ∷ t) rest [] w b)))

quoted_shorter :
    (s buf : Text) (escaped : Bool) {t rest : Text}
    → quoted s buf escaped ≡ ok (t, rest)
    → length rest < length s
unfolding quoted
quoted_shorter [] buf escaped h = cc
quoted_shorter (c ∷ s) buf true {t} {rest} h =
    omega (arith, quoted_shorter s (buf ++ unescape c ∷ []) false {t = t} {rest = rest} h)
quoted_shorter (c ∷ s) buf false {t} {rest} h = ground (
  arith,
  quoted_shorter s buf true {t = t} {rest = rest},
  quoted_shorter s (buf ++ c ∷ []) false {t = t} {rest = rest},
)

bare_shorter : (s buf : Text) → length (bare s buf).1 ≤ length s
unfolding bare
bare_shorter [] buf = omega arith
bare_shorter (c ∷ s) buf = ground (arith, bare_shorter s (buf ++ c ∷ []))

token_of_shorter :
    (c : ℕ) (s : Text) {t rest : Text}
    → is_whitespace c ≡ false
    → token_of (c ∷ s) ≡ ok (t, rest)
    → length rest < length (c ∷ s)
token_of_shorter c s {t} {rest} h p = elim (Bool-cases (c == b'"')) [
  | inl mark ↦
      omega
        (arith, quoted_shorter s [] false {t = t} {rest = rest} (unfold token_of in ground arith))
  | inr word ↦
      let q : bare (c ∷ s) [] ≡ (t, rest) = unfold token_of in ground arith in
      let r : bare s (c ∷ []) ≡ (t, rest) = unfold bare in ground arith in
      omega (arith, bare_shorter s (c ∷ []), ap (λ (x : Text × Text). length x.1) r)
]

trim_start_head : (s : Text) {c : ℕ} {s' : Text} → trim_start s ≡ c ∷ s' → is_whitespace c ≡ false
unfolding trim_start
trim_start_head [] h = cc
trim_start_head (d ∷ s) {c} {s'} h = elim (Bool-cases (is_whitespace d)) [
  | inl space ↦ trim_start_head s {c = c} {s' = s'} (ground arith)
  | inr mark ↦ ground arith
]

token_of_nil : token_of [] ≡ err (lit "ERROR missing_argument")
unfolding token_of
token_of_nil = refl

-- A token takes at least one character of the input.
pub take_token_shorter :
    (s : Text) {t rest : Text} → take_token s ≡ ok (t, rest) → length rest < length s
take_token_shorter s {t} {rest} h = go (trim_start s) refl
  where
    go : (u : Text) → trim_start s ≡ u → length rest < length s
    go [] p = absurd (cc (ap token_of p, take_token_lem s, h, token_of_nil))
    go (c ∷ u) p = omega (
      arith,
      token_of_shorter c u {t = t} {rest = rest} (trim_start_head s p)
          (cc (ap token_of p, take_token_lem s, h)),
      length-trim_start s,
      ap (λ (x : Text). length x) p,
    )
