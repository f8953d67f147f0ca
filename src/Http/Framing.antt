-- ===== src/Http/Framing.antt =====
-- What a client reads of a response: an independent reader of HTTP/1.1.
use data_sync.Base.{
  ℕ, ◌≡◌, ◌<◌, refl, Bool, true, false, arith, not, ◌&&◌, Option, none, some, List, [], ◌∷◌, ◌++◌,
  nat_eq, if◌then◌else◌, ◌==◌, All, append_assoc, append-nil, ap, ◌∙◌, u64_mod,
}
use data_sync.Text.{Text, lit, text_eq, len, is_empty}
use data_sync.Text.Number.{
  print_u64, parse_u64, is_digit, parse_u64-print_u64, IsDigits, print_u64-IsDigits,
}
use data_sync.Http.{Answer, response}

-- A line before those that have been read.
abbrev pub before : Text → Option (List Text × Text) → Option (List Text × Text)
before line none = none
before line (some (lines, body)) = some (line ∷ lines, body)

-- The lines up to an empty one, and what follows it. `word` is the line so far.
unfoldable pub read_head : Text → Text → Option (List Text × Text)
read_head word [] = none
read_head word (c ∷ []) = none
read_head word (c ∷ d ∷ s) =
    let next = read_head [] s in
    let more = read_head (word ++ c ∷ []) (d ∷ s) in
    if c == b'\r' && d == b'\n'
    then (if is_empty word then some ([], s) else before word next)
    else more

-- The lines of the head, with the body behind them, of the length that the head says.
pub record IsFramed (answer : Answer) (text : Text) : Type 0 where
  pub digits : Text
  pub head :
      read_head [] text
      ≡ some (
        (lit "HTTP/1.1 " ++ answer.0)
            ∷ (lit "content-type: " ++ answer.1)
            ∷ (lit "content-length: " ++ digits)
            ∷ [],
        answer.2,
      )
  pub length : parse_u64 digits ≡ some (len answer.2)

-- No carriage return.
abbrev pub IsLine : Text → Type 0
IsLine = All (λ c. (c == b'\r') ≡ false)

read_head-step :
    (word : Text) (c d : ℕ) (s : Text)
    → (c == b'\r') ≡ false
    → read_head word (c ∷ d ∷ s) ≡ read_head (word ++ c ∷ []) (d ∷ s)
unfolding read_head
read_head-step word c d s h = rw h refl

read_head-line :
    (word line rest : Text)
    → IsLine line
    → is_empty (word ++ line) ≡ false
    → read_head word (line ++ (lit "\r\n" ++ rest)) ≡ before (word ++ line) (read_head [] rest)
read_head-line word [] rest h full =
    let full' : is_empty word ≡ false = rw (append-nil word) at full in
    rw (append-nil word) (unfold read_head in rw full' refl)
read_head-line word (c ∷ []) rest (h, _) full =
    read_head-step word c b'\r' (b'\n' ∷ rest) h
    ∙ read_head-line (word ++ c ∷ []) [] rest tt (rw (append-nil (word ++ c ∷ [])) full)
    ∙ ap (λ w. before w (read_head [] rest)) (append-nil (word ++ c ∷ []))
read_head-line word (c ∷ d ∷ line) rest (h, hs) full =
    read_head-step word c d (line ++ (lit "\r\n" ++ rest)) h
    ∙ read_head-line (word ++ c ∷ []) (d ∷ line) rest hs
        (rw (append_assoc word (c ∷ []) (d ∷ line)) full)
    ∙ ap (λ w. before w (read_head [] rest)) (append_assoc word (c ∷ []) (d ∷ line))

-- A digit is no carriage return.
digit-line : (c : ℕ) → is_digit c ≡ true → (c == b'\r') ≡ false
unfolding is_digit
digit-line c h = ground arith

IsDigits-IsLine : (s : Text) → IsDigits s → IsLine s
IsDigits-IsLine [] h = tt
IsDigits-IsLine (c ∷ s) (d, h) = (digit-line c d, IsDigits-IsLine s h)

IsLine-append : (s t : Text) → IsLine s → IsLine t → IsLine (s ++ t)
IsLine-append [] t h k = k
IsLine-append (c ∷ s) t (p, h) k = (p, IsLine-append s t h k)

-- The test of `IsLine`.
abbrev pub is_line : Text → Bool
is_line [] = true
is_line (c ∷ s) = not (c == b'\r') && is_line s

pub is_line-IsLine : (s : Text) → is_line s ≡ true → IsLine s
is_line-IsLine [] h = tt
is_line-IsLine (c ∷ s) h = (ground arith, is_line-IsLine s (ground arith))

-- A response whose status and type are lines is read as it was meant.
pub response-IsFramed :
    (answer : Answer)
    → IsLine answer.0
    → IsLine answer.1
    → len answer.2 < u64_mod
    → IsFramed answer (response answer)
unfolding response
response-IsFramed (status, content_type, body) h k fits =
    let digits = print_u64 (len body) in
    let first = lit "HTTP/1.1 " ++ status in
    let second = lit "content-type: " ++ content_type in
    let third = lit "content-length: " ++ digits in
    let one =
      read_head-line [] first
        (second ++ (lit "\r\n" ++ (third ++ (lit "\r\n" ++ (lit "\r\n" ++ body)))))
        (IsLine-append (lit "HTTP/1.1 ") status (is_line-IsLine (lit "HTTP/1.1 ") refl) h) refl in
    let two =
      read_head-line [] second (third ++ (lit "\r\n" ++ (lit "\r\n" ++ body)))
        (IsLine-append (lit "content-type: ") content_type
          (is_line-IsLine (lit "content-type: ") refl) k)
        refl in
    let three =
      read_head-line [] third (lit "\r\n" ++ body)
        (IsLine-append (lit "content-length: ") digits
          (is_line-IsLine (lit "content-length: ") refl)
          (IsDigits-IsLine digits (print_u64-IsDigits (len body))))
        refl in
    let last : read_head [] (lit "\r\n" ++ body) ≡ some ([], body) = unfold read_head in refl in
    record {
      digits = digits;
      length = parse_u64-print_u64 (len body) fits;
      head = one ∙ ap (before first) (two ∙ ap (before second) (three ∙ ap (before third) last));
    }
