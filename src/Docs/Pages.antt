-- ===== src/Docs/Pages.antt =====
-- syncpond-server/src/main.rs: the pages of the documentation, `serve_docs_connection`, and the choice
-- between these and a session. The embedded directory comes from outside.
use data_sync.Base.{
  Bool, false, not, ◌&&◌, ◌||◌, Option, none, some, List, [], ◌∷◌, ◌++◌, nat_eq, if◌then◌else◌,
  ◌==◌,
}
use data_sync.Text.{Text, lit, text_eq, is_empty, starts_with}
use data_sync.Reading.{split_whitespace}
use data_sync.Docs.{html_escape}
use data_sync.Http.{Answer, response, plain_text, html_text, not_found}

-- An entry of `include_dir`: its path and the last name of it, where they are UTF-8.
pub record Entry : Type 0 where
  pub path : Option Text
  pub name : Option Text
  pub is_dir : Bool

-- `DOC_DIR`, which the build embeds: its entries, and its files (as text, or empty where they are no
-- UTF-8) and directories by their paths.
pub record Dir : Type 0 where
  pub entries : List Entry
  pub get_file : Text → Option Text
  pub get_dir : Text → Option (List Entry)

unfoldable pub index_item : Bool → Option Text → Text
unfolding html_escape
index_item is_dir none = []
index_item is_dir (some path) =
    let escaped = html_escape path in
    lit "<li><a href=\"/docs/"
    ++ escaped
    ++ lit "\">"
    ++ escaped
    ++ (if is_dir then lit "/</a></li>" else lit "</a></li>")

unfoldable pub index_items : List Entry → Text
unfolding index_item
index_items [] = []
index_items (entry ∷ entries) = index_item entry.is_dir entry.path ++ index_items entries

unfoldable pub make_doc_index_html : Dir → Text
unfolding index_items
make_doc_index_html dir =
    lit "<html><head><title>syncpond docs</title></head><body><h1>syncpond docs</h1><ul>"
    ++ index_items dir.entries
    ++ lit "</ul></body></html>"

-- `trim_end_matches('/')`.
unfoldable pub trim_slashes : Text → Text
trim_slashes [] = []
trim_slashes (c ∷ s) =
    let rest = trim_slashes s in if c == b'/' && is_empty rest then [] else c ∷ rest

unfoldable pub dir_item : Text → Bool → Option Text → Text
unfolding html_escape trim_slashes
dir_item path is_dir none = []
dir_item path is_dir (some name) =
    let escaped = html_escape name in
    lit "<li><a href=\""
    ++ trim_slashes path
    ++ lit "/"
    ++ escaped
    ++ lit "\">"
    ++ escaped
    ++ (if is_dir then lit "/" else [])
    ++ lit "</a></li>"

unfoldable pub dir_items : Text → List Entry → Text
unfolding dir_item
dir_items path [] = []
dir_items path (entry ∷ entries) = dir_item path entry.is_dir entry.name ++ dir_items path entries

unfoldable pub dir_page : Text → List Entry → Text
unfolding dir_items
dir_page path entries =
    lit "<html><head><title>"
    ++ path
    ++ lit "</title></head><body><h1>Index of "
    ++ path
    ++ lit "</h1><ul>"
    ++ dir_items path entries
    ++ lit "</ul></body></html>"

-- `Path::file_name`: the last of the components, which leave out what is empty or a dot.
unfoldable pub last_component : Text → Text → Option Text → Option Text
last_component [] word last = if is_empty word || word == lit "." then last else some word
last_component (c ∷ s) word last =
    let skip = last_component s [] last in
    let keep = last_component s [] (some word) in
    let more = last_component s (word ++ c ∷ []) last in
    if c == b'/' then (if is_empty word || word == lit "." then skip else keep) else more

-- What stands behind the last dot.
unfoldable pub after_dot : Text → Option Text
after_dot [] = none
after_dot (c ∷ s) = elim (after_dot s) [
  | some extension ↦ some extension
  | none ↦ if c == b'.' then some s else none
]

-- `Path::extension`: a dot that a name begins with does not count.
abbrev extension_of : Option Text → Option Text
extension_of none = none
extension_of (some []) = none
extension_of (some (c ∷ cs)) = if (c ∷ cs) == lit ".." then none else after_dot cs

unfoldable pub is_markdown : Text → Bool
unfolding last_component after_dot
is_markdown path = elim (extension_of (last_component path [] none)) [
  | none ↦ false
  | some extension ↦ extension == lit "md"
]

abbrev pub file_answer : Text → Text → Answer
file_answer stripped content = (
  lit "200 OK",
  (if is_markdown stripped then lit "text/markdown; charset=utf-8" else plain_text),
  content,
)

-- `strip_prefix`.
unfoldable pub strip_prefix : Text → Text → Option Text
strip_prefix s [] = some s
strip_prefix [] (p ∷ ps) = none
strip_prefix (c ∷ s) (p ∷ ps) = if c == p then strip_prefix s ps else none

-- `get_file`, or else `get_dir`.
unfoldable pub file_or_dir : Text → Text → Option Text → Option (List Entry) → Answer
unfolding dir_page is_markdown
file_or_dir path stripped (some content) dir = file_answer stripped content
file_or_dir path stripped none (some entries) = (lit "200 OK", html_text, dir_page path entries)
file_or_dir path stripped none none = not_found

abbrev pub under_docs : Dir → Text → Option Text → Answer
under_docs dir path none = not_found
under_docs dir path (some stripped) =
    file_or_dir path stripped (dir.get_file stripped) (dir.get_dir stripped)

unfoldable pub docs_page : Dir → Text → Answer
unfolding file_or_dir make_doc_index_html strip_prefix
docs_page dir path =
    if path == lit "/" || path == lit "/docs" || path == lit "/docs/"
    then (lit "200 OK", html_text, make_doc_index_html dir)
    else under_docs dir path (strip_prefix path (lit "/docs/"))

-- `lines().next()`, or nothing; a carriage return before the end of the line belongs to the end.
unfoldable pub first_line : Text → Text
first_line [] = []
first_line (c ∷ s) =
    let rest = first_line s in
    if c == b'\n' || (c == b'\r' && starts_with s (lit "\n")) then [] else c ∷ rest

-- The second of the parts.
abbrev pub path_of : List Text → Text
path_of [] = lit "/"
path_of (method ∷ []) = lit "/"
path_of (method ∷ path ∷ more) = path

unfoldable pub serve_docs_connection : Dir → Text → Text
unfolding docs_page first_line split_whitespace response
serve_docs_connection dir request =
    response (docs_page dir (path_of (split_whitespace (first_line request) [])))

-- `contains` of a text.
unfoldable pub contains_text : Text → Text → Bool
unfolding starts_with
contains_text [] part = starts_with [] part
contains_text (c ∷ s) part = let later = contains_text s part in starts_with (c ∷ s) part || later

pub data Handling : Type 0 where
  closed session : Handling
  docs : Text → Handling

-- What `handle_ws_or_docs_connection` does with what it has peeked at. `to_lowercase` is that of
-- `str`, with the tables of Unicode.
unfoldable pub handle_ws_or_docs_connection : (Text → Text) → Dir → Text → Handling
unfolding serve_docs_connection contains_text starts_with
handle_ws_or_docs_connection to_lowercase dir [] = closed
handle_ws_or_docs_connection to_lowercase dir (c ∷ cs) =
    let req_text = c ∷ cs in
    if starts_with req_text (lit "GET ")
      && not (contains_text (to_lowercase req_text) (lit "upgrade: websocket"))
    then docs (serve_docs_connection dir req_text)
    else session
