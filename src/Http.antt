-- ===== src/Http.antt =====
-- syncpond-server/src/main.rs: the answers over HTTP, and `handle_health_connection`. What is read
-- comes from outside, and serde_json's text of the metrics.
pub mod Framing
pub mod Answers
use data_sync.Base.{
  ℕ, ◌+◌, Bool, true, false, not, ◌&&◌, ◌||◌, Option, none, some, List, [], ◌∷◌, ◌++◌, nat_eq,
  if◌then◌else◌, ◌==◌,
}
use data_sync.Text.{Text, lit, text_eq, is_empty, len, starts_with}
use data_sync.Text.Trim.{trim_end}
use data_sync.Text.Number.{print_u64}
use data_sync.State.{AppState}
use data_sync.State.Settings.{Metrics, metrics}
use data_sync.Reading.{Input, read_line_with_limit, split_whitespace}

-- A status, the type of the content, and the body.
abbrev pub Answer : Type 0
Answer = Text × Text × Text

unfoldable pub response : Answer → Text
unfolding len print_u64
response (status, content_type, body) =
    lit "HTTP/1.1 "
    ++ (status
        ++ (lit "\r\ncontent-type: "
            ++ (content_type
                ++ (lit "\r\ncontent-length: "
                    ++ (print_u64 (len body) ++ (lit "\r\n\r\n" ++ body))))))

abbrev pub plain_text : Text
plain_text = lit "text/plain; charset=utf-8"

abbrev pub html_text : Text
html_text = lit "text/html; charset=utf-8"

abbrev pub not_found : Answer
not_found = (lit "404 Not Found", plain_text, lit "not found")

abbrev pub or_braces : Option Text → Text
or_braces none = lit "{}"
or_braces (some s) = s

unfoldable pub answered : Option Answer → Option Text
unfolding response
answered none = none
answered (some answer) = some (response answer)

module _ {F64 Value : Type 0} (zero_ms : F64) (average_ms : ℕ → ℕ → F64)
    (to_string : Metrics F64 → Option Text) where
  unfoldable pub health_page : AppState Value → Text → Answer
  unfolding metrics
  health_page app path =
      if path == lit "/health"
      then (lit "200 OK", plain_text, lit "ok")
      else if path == lit "/metrics"
      then (lit "200 OK", plain_text, or_braces (to_string (metrics zero_ms average_ms app)))
      else not_found

  unfoldable pub health_answer : AppState Value → List Text → Answer
  unfolding health_page
  health_answer app (method ∷ path ∷ more) =
      if method == lit "GET"
      then health_page app path
      else (lit "400 Bad Request", plain_text, lit "bad request")
  health_answer app parts = (lit "400 Bad Request", plain_text, lit "bad request")

  abbrev pub on_request : AppState Value → Option Text → Option Answer
  on_request app none = none
  on_request app (some []) = none
  on_request app (some (c ∷ cs)) =
      some (health_answer app (split_whitespace (trim_end (c ∷ cs)) []))

  -- What is written, if the connection is not closed at once.
  unfoldable pub handle_health_connection : AppState Value → Input → Option Text
  unfolding read_line_with_limit split_whitespace trim_end health_answer response
  handle_health_connection app input = answered (on_request app (read_line_with_limit input))
