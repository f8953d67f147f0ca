-- ===== src/Tests/Pages.antt =====
-- A file name with a script in it, and requests for a page and for the health of the server.
use data_sync.Base.{
  ◌≡◌, ◌<◌, ◌≤◌, refl, true, false, none, some, [], ◌∷◌, ◌==◌, arith, nat_eq, if◌then◌else◌, subst,
  u64_mod,
}
use data_sync.Text.{Text, lit, text_eq, len}
use data_sync.Text.Trim.{trim_end}
use data_sync.State.{new}
use data_sync.Reading.{line, split_whitespace}
use data_sync.Docs.Pages.{Dir, docs_page, path_of, first_line, serve_docs_connection}
use data_sync.Http.{Answer, plain_text, health_answer, handle_health_connection}
use data_sync.Http.Framing.{IsFramed}
use data_sync.Http.Answers.{serve_docs_connection-IsFramed, handle_health_connection-IsFramed}
use data_sync.Docs.{html_escape, escape_each, is_plain, html_escape-escape_each}

abbrev name : Text
name = lit "<script>'&\".md"

escaped_each : (html_escape name ≡ escape_each name) × (is_plain (html_escape name) ≡ true)
escaped_each = html_escape-escape_each name

escaped_name : html_escape name ≡ lit "&lt;script&gt;&#39;&amp;&quot;.md"
unfolding html_escape
escaped_name = refl

abbrev dir : Dir
dir = record {
  entries = record { path = some (lit "a.md"); name = some (lit "a.md"); is_dir = false } ∷ [];
  get_file = λ path. if path == lit "a.md" then some (lit "# A") else none;
  get_dir = λ path. none;
}

abbrev docs_request : Text
docs_request = lit "GET /docs/a.md HTTP/1.1\r\nhost: localhost\r\n\r\n"

abbrev page : Answer
page = (lit "200 OK", lit "text/markdown; charset=utf-8", lit "# A")

page_of_request : docs_page dir (path_of (split_whitespace (first_line docs_request) [])) ≡ page
unfolding docs_page split_whitespace first_line text_eq
page_of_request = refl

short : len page.2 < u64_mod
unfolding len
short = omega arith

serve_docs_connection-IsFramed_example : IsFramed page (serve_docs_connection dir docs_request)
serve_docs_connection-IsFramed_example =
    subst (λ answer. IsFramed answer (serve_docs_connection dir docs_request)) page_of_request
      (serve_docs_connection-IsFramed dir docs_request (rw page_of_request short))

abbrev health : Answer
health = (lit "200 OK", plain_text, lit "ok")

abbrev health_request : Text
health_request = lit "GET /health HTTP/1.1\r\n"

health_of_request :
    health_answer 0
      (λ total count. total)
      (λ m. none)
      (new {Value = Text})
      (split_whitespace (trim_end health_request) [])
    ≡ health
unfolding health_answer split_whitespace trim_end text_eq
health_of_request = refl

short_request : len (b'G' ∷ lit "ET /health HTTP/1.1\r\n") ≤ 8192
unfolding len
short_request = omega arith

ok_short : len (lit "ok") < u64_mod
unfolding len
ok_short = omega arith

health-IsFramed :
    (written : Text) × (handle_health_connection 0
        (λ total count. total)
        (λ m. none)
        (new {Value = Text})
        (line health_request)
      ≡ some written)
    × IsFramed health written
health-IsFramed =
    subst
      (λ answer.
        (written : Text) × (handle_health_connection 0 (λ total count. total) (λ m. none)
            (new {Value = Text}) (line health_request)
          ≡ some written)
        × IsFramed answer written)
      health_of_request
      (handle_health_connection-IsFramed 0 (λ total count. total) (λ m. none) (new {Value = Text})
        b'G' (lit "ET /health HTTP/1.1\r\n") short_request (rw health_of_request ok_short))
