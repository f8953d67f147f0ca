-- ===== src/Http/Answers.antt =====
-- Every answer of the two handlers, as a client reads it.
use data_sync.Base.{
  ℕ, ◌≡◌, ◌<◌, ◌≤◌, arith, ap, refl, ◌||◌, Option, none, some, List, [], ◌∷◌, nat_eq, ◌==◌, u64_mod,
  Bool-cases, inl, inr,
}
use data_sync.Text.{Text, lit, text_eq, len}
use data_sync.Text.Trim.{trim_end}
use data_sync.State.{AppState}
use data_sync.State.Settings.{Metrics}
use data_sync.Reading.{line, split_whitespace, read_line_with_limit}
use data_sync.Http.{
  Answer, response, plain_text, html_text, not_found, health_page, health_answer, on_request,
  answered, handle_health_connection,
}
use data_sync.Http.Framing.{IsFramed, IsLine, is_line-IsLine, response-IsFramed}
use data_sync.Docs.Pages.{
  Dir, Entry, file_or_dir, is_markdown, docs_page, under_docs, path_of, strip_prefix, first_line,
  serve_docs_connection,
}

-- The status and the type are lines.
abbrev IsClean : Answer → Type 0
IsClean answer = IsLine answer.0 × IsLine answer.1

ok_IsLine : IsLine (lit "200 OK")
ok_IsLine = is_line-IsLine (lit "200 OK") refl

plain_IsLine : IsLine plain_text
plain_IsLine = is_line-IsLine plain_text refl

html_IsLine : IsLine html_text
html_IsLine = is_line-IsLine html_text refl

markdown_IsLine : IsLine (lit "text/markdown; charset=utf-8")
markdown_IsLine = is_line-IsLine (lit "text/markdown; charset=utf-8") refl

not_found-IsClean : IsClean not_found
not_found-IsClean = (is_line-IsLine (lit "404 Not Found") refl, plain_IsLine)

bad_request-IsClean : IsClean (lit "400 Bad Request", plain_text, lit "bad request")
bad_request-IsClean = (is_line-IsLine (lit "400 Bad Request") refl, plain_IsLine)

file_or_dir-IsClean :
    (path stripped : Text) (file : Option Text) (entries : Option (List Entry))
    → IsClean (file_or_dir path stripped file entries)
unfolding file_or_dir
file_or_dir-IsClean path stripped (some content) entries =
    elim (Bool-cases (is_markdown stripped)) [
      | inl md ↦ rw md (ok_IsLine, markdown_IsLine)
      | inr other ↦ rw other (ok_IsLine, plain_IsLine)
    ]
file_or_dir-IsClean path stripped none (some entries) = (ok_IsLine, html_IsLine)
file_or_dir-IsClean path stripped none none = not_found-IsClean

under_docs-IsClean : (dir : Dir) (path : Text) (o : Option Text) → IsClean (under_docs dir path o)
under_docs-IsClean dir path none = not_found-IsClean
under_docs-IsClean dir path (some stripped) =
    file_or_dir-IsClean path stripped (dir.get_file stripped) (dir.get_dir stripped)

docs_page-IsClean : (dir : Dir) (path : Text) → IsClean (docs_page dir path)
unfolding docs_page
docs_page-IsClean dir path =
    elim (Bool-cases (path == lit "/" || path == lit "/docs" || path == lit "/docs/")) [
      | inl index ↦ rw index (ok_IsLine, html_IsLine)
      | inr other ↦ rw other (under_docs-IsClean dir path (strip_prefix path (lit "/docs/")))
    ]

-- The page of a request for documentation reaches its reader as it was made, with its status, its
-- type and its length in bytes, as long as it has fewer than 2^64 of these.
pub serve_docs_connection-IsFramed :
    (dir : Dir) (request : Text)
    → let answer = docs_page dir (path_of (split_whitespace (first_line request) [])) in
      len answer.2 < u64_mod → IsFramed answer (serve_docs_connection dir request)
unfolding serve_docs_connection
serve_docs_connection-IsFramed dir request fits =
    let path = path_of (split_whitespace (first_line request) []) in
    let (status, content_type) = docs_page-IsClean dir path in
    response-IsFramed (docs_page dir path) status content_type fits

read_short : (text : Text) → len text ≤ 8192 → read_line_with_limit (line text) ≡ some text
unfolding read_line_with_limit
read_short text short = ground (arith, short)

module _ {F64 Value : Type 0} (zero_ms : F64) (average_ms : ℕ → ℕ → F64)
    (to_string : Metrics F64 → Option Text) where
  health_page-IsClean :
      (app : AppState Value) (path : Text)
      → IsClean (health_page zero_ms average_ms to_string app path)
  unfolding health_page
  health_page-IsClean app path = elim (Bool-cases (path == lit "/health")) [
    | inl health ↦ rw health (ok_IsLine, plain_IsLine)
    | inr h ↦ elim (Bool-cases (path == lit "/metrics")) [
      | inl m ↦ rw (h, m) (ok_IsLine, plain_IsLine)
      | inr m ↦ rw (h, m) not_found-IsClean
    ]
  ]

  health_answer-IsClean :
      (app : AppState Value) (parts : List Text)
      → IsClean (health_answer zero_ms average_ms to_string app parts)
  unfolding health_answer
  health_answer-IsClean app [] = bad_request-IsClean
  health_answer-IsClean app (method ∷ []) = bad_request-IsClean
  health_answer-IsClean app (method ∷ path ∷ more) = elim (Bool-cases (method == lit "GET")) [
    | inl get ↦ rw get (health_page-IsClean app path)
    | inr other ↦ rw other bad_request-IsClean
  ]

  -- A line of at least one and at most 8192 bytes is answered on the health address, and its reader
  -- gets the answer as it was made, as long as the body has fewer than 2^64 bytes.
  pub handle_health_connection-IsFramed :
      (app : AppState Value) (c : ℕ) (text : Text)
      → len (c ∷ text) ≤ 8192
      → let answer =
          health_answer zero_ms average_ms to_string app
            (split_whitespace (trim_end (c ∷ text)) []) in
        len answer.2 < u64_mod
        → (written : Text) × (handle_health_connection zero_ms average_ms to_string app
              (line (c ∷ text))
            ≡ some written)
          × IsFramed answer written
  unfolding handle_health_connection answered
  handle_health_connection-IsFramed app c text short fits =
      let parts = split_whitespace (trim_end (c ∷ text)) [] in
      let (status, content_type) = health_answer-IsClean app parts in
      (
        response (health_answer zero_ms average_ms to_string app parts),
        ap (λ o. answered (on_request zero_ms average_ms to_string app o))
            (read_short (c ∷ text) short),
        response-IsFramed (health_answer zero_ms average_ms to_string app parts) status content_type
            fits,
      )
