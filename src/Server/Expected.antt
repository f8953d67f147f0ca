-- ===== src/Server/Expected.antt =====
-- What a connection is to do, told from the lines that it is sent.
use data_sync.Base.{
  ◌≡◌, ◌⊎◌, Bool, true, false, Option, none, some, List, [], ◌∷◌, ◌++◌, if◌then◌else◌,
}
use data_sync.Text.{Text, lit, is_empty}
use data_sync.Text.Trim.{trim}
use data_sync.Compare.{constant_time_eq}
use data_sync.Reading.{Input, read_line_with_limit}
use data_sync.Server.{
  Place, limiting, auth_limiting, greeting, keying, refusing, refused, malformed, miscounted,
  counting, processing, scoring, answering, closed,
}

-- The commands of some lines: those that are not blank, without the white space around them, up to the
-- end of the input or a line that cannot be read.
abbrev pub first_command : Option Text → List Text → List Text
first_command none rest = []
first_command (some []) rest = []
first_command (some (c ∷ cs)) rest = if is_empty (trim (c ∷ cs)) then rest else trim (c ∷ cs) ∷ rest

unfoldable pub commands_of : List Input → List Text
unfolding read_line_with_limit trim
commands_of [] = []
commands_of (input ∷ lines) = first_command (read_line_with_limit input) (commands_of lines)

-- Whether the commands end with a line that cannot be read.
abbrev pub first_breaks : Option Text → Bool → Bool
first_breaks none rest = true
first_breaks (some []) rest = false
first_breaks (some (c ∷ cs)) rest = rest

unfoldable pub breaks : List Input → Bool
unfolding read_line_with_limit
breaks [] = false
breaks (input ∷ lines) = first_breaks (read_line_with_limit input) (breaks lines)

-- Whether a text is the configured key, and whether the first line says it.
abbrev pub checks : Option Text → Text → Bool
checks none text = false
checks (some key) text = constant_time_eq text key

abbrev pub says : Option Text → Option Text → Bool
says key none = false
says key (some []) = false
says key (some (c ∷ cs)) = checks key (trim (c ∷ cs))

unfoldable pub accepts : Option Text → List Input → Bool
unfolding read_line_with_limit trim constant_time_eq
accepts key [] = false
accepts key (input ∷ lines) = says key (read_line_with_limit input)

abbrev pub refusal : Option Text → Text
refusal none = lit "ERROR api_key_not_configured\n"
refusal (some key) = lit "ERROR invalid_api_key\n"

abbrev pub after_first : List Input → List Input
after_first [] = []
after_first (input ∷ lines) = lines

-- The configured key, all the lines of a connection, and those that it is still to read; what it has
-- written, its commands that were processed, and their answers.
module _ (key : Option Text) (all lines : List Input) (written done answers : List Text) where
  abbrev pub Begun : Type 0
  Begun = (written ≡ []) × (done ≡ []) × (answers ≡ [])

  -- With some commands in hand, and its answers up to those in hand written.
  abbrev pub Served : List Text → List Text → Type 0
  Served in_hand unwritten =
      (written ++ unwritten ≡ answers)
      × (done ++ (in_hand ++ commands_of lines) ≡ commands_of (after_first all))
      × (breaks lines ≡ breaks (after_first all))

  -- How a connection has ended: a limiter refused it before it read anything; its first line was not
  -- the key; all its commands were answered, and after a line that cannot be read there is the error,
  -- unless that could not be written; or the last answer could not be written.
  pub data IsOver : Type 0 where
    not_admitted : lines ≡ all → Begun → IsOver
    unwelcome : accepts key all ≡ false → Begun → IsOver
    turned_away :
        accepts key all ≡ false → written ≡ refusal key ∷ [] → done ≡ [] → answers ≡ [] → IsOver
    complete :
        written ≡ answers
        → done ≡ commands_of (after_first all)
        → breaks (after_first all) ≡ false
        → IsOver
    broken_off :
        (written ≡ answers ++ lit "ERROR malformed_request\n" ∷ []) ⊎ (written ≡ answers)
        → done ≡ commands_of (after_first all)
        → breaks (after_first all) ≡ true
        → IsOver
    cut_off :
        (answer : Text) (rest : List Text)
        → written ++ answer ∷ [] ≡ answers
        → done ++ rest ≡ commands_of (after_first all)
        → IsOver

-- What holds of a connection at each place.
abbrev pub IsAnswered :
    {Value : Type 0}
    → Option Text
    → List Input
    → Place Value
    → List Input
    → List Text
    → List Text
    → List Text
    → Type 0
IsAnswered key all limiting lines w d a = (lines ≡ all) × Begun key all lines w d a
IsAnswered key all auth_limiting lines w d a = (lines ≡ all) × Begun key all lines w d a
IsAnswered key all greeting lines w d a = (lines ≡ all) × Begun key all lines w d a
IsAnswered key all (keying text) lines w d a =
    (lines ≡ after_first all) × (checks key text ≡ accepts key all) × Begun key all lines w d a
IsAnswered key all (refusing message) lines w d a =
    (message ≡ refusal key) × (accepts key all ≡ false) × Begun key all lines w d a
IsAnswered key all (refused message) lines w d a =
    (message ≡ refusal key) × (accepts key all ≡ false) × Begun key all lines w d a
IsAnswered key all (counting trimmed) lines w d a = Served key all lines w d a (trimmed ∷ []) []
IsAnswered key all (processing trimmed) lines w d a = Served key all lines w d a (trimmed ∷ []) []
IsAnswered key all (scoring trimmed resp updates) lines w d a =
    Served key all lines w d a [] ((resp ++ lit "\n") ∷ [])
IsAnswered key all (answering trimmed resp updates) lines w d a =
    Served key all lines w d a [] ((resp ++ lit "\n") ∷ [])
IsAnswered key all malformed lines w d a =
    (w ≡ a) × (d ≡ commands_of (after_first all)) × (breaks (after_first all) ≡ true)
IsAnswered key all miscounted lines w d a =
    (w ≡ a ++ lit "ERROR malformed_request\n" ∷ [])
    × (d ≡ commands_of (after_first all))
    × (breaks (after_first all) ≡ true)
IsAnswered key all closed lines w d a = IsOver key all lines w d a
IsAnswered key all place lines w d a = Served key all lines w d a [] []
