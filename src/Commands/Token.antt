-- ===== src/Commands/Token.antt =====
-- syncpond-server/src/commands.rs: `take_token` and `parse_room_id_from_remainder`.
pub mod Quoting
use data_sync.Base.{
  ℕ, ◌≡◌, refl, Bool, true, false, Option, none, some, List, [], ◌∷◌, ◌++◌, Result, ok, err, ◌>>=◌,
  ok_or, if◌then◌else◌, ◌==◌, nat_eq,
}
use data_sync.Text.{Text, lit, is_whitespace}
use data_sync.Text.Trim.{trim_start}
use data_sync.Text.Number.{parse_u64}

-- A token and what follows it, or the text of an error.
abbrev pub Taken : Type 0
Taken = Result Text (Text × Text)

-- What a character stands for behind a backslash.
unfoldable pub unescape : ℕ → ℕ
unescape c =
    if c == b'n' then b'\n' else if c == b'r' then b'\r' else if c == b't' then b'\t' else c

-- The loop over a quoted token: the text so far, and whether a backslash stands before.
unfoldable pub quoted : Text → Text → Bool → Taken
unfolding unescape
quoted [] buf escaped = err (lit "ERROR invalid_argument")
quoted (c ∷ s) buf true = quoted s (buf ++ unescape c ∷ []) false
quoted (c ∷ s) buf false =
    let skip = quoted s buf true in
    let push = quoted s (buf ++ c ∷ []) false in
    if c == b'\\' then skip else if c == b'"' then ok (buf, s) else push

-- A bare token ends before the first white space.
unfoldable pub bare : Text → Text → Text × Text
unfolding is_whitespace
bare [] buf = (buf, [])
bare (c ∷ s) buf =
    let rest = bare s (buf ++ c ∷ []) in if is_whitespace c then (buf, c ∷ s) else rest

unfoldable pub token_of : Text → Taken
unfolding quoted bare
token_of [] = err (lit "ERROR missing_argument")
token_of (c ∷ s) = if c == b'"' then quoted s [] false else ok (bare (c ∷ s) [])

unfoldable pub take_token : Text → Taken
unfolding token_of trim_start
take_token input = token_of (trim_start input)

unfoldable pub parse_room_id_from_remainder : Text → Result Text (ℕ × Text)
unfolding take_token parse_u64
parse_room_id_from_remainder remainder = do
  (room_id, rest) ← take_token remainder
  parsed ← ok_or (parse_u64 room_id) (lit "ERROR invalid_room_id")
  ok (parsed, rest)
