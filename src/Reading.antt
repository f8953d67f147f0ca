-- ===== src/Reading.antt =====
-- syncpond-server/src/main.rs: `read_line_with_limit`, and the parts of a line.
use data_sync.Base.{ℕ, Option, none, some, List, [], ◌∷◌, ◌++◌, if◌then◌else◌, ltb}
use data_sync.Text.{Text, len, is_empty, is_whitespace}

abbrev pub max_command_line_len : ℕ
max_command_line_len = 8192

-- What `read_line` gives: a line with its end, the empty text at the end of the input, or an error.
pub data Input : Type 0 where
  line : Text → Input
  broken : Input

unfoldable pub read_line_with_limit : Input → Option Text
unfolding len
read_line_with_limit (line s) = if ltb max_command_line_len (len s) then none else some s
read_line_with_limit broken = none

-- `split_whitespace`.
unfoldable pub split_whitespace : Text → Text → List Text
unfolding is_whitespace
split_whitespace [] word = if is_empty word then [] else word ∷ []
split_whitespace (c ∷ s) word =
    let next = split_whitespace s [] in
    let more = split_whitespace s (word ++ c ∷ []) in
    if is_whitespace c then (if is_empty word then next else word ∷ next) else more
