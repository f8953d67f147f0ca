-- ===== src/Commands/Lines.antt =====
-- The lines that a client writes for SET, DEL and GET, and what they do.
use data_sync.Base.{
  ℕ, ◌≤◌, ◌<◌, ◌≡◌, ◌≢◌, refl, true, false, [], ◌∷◌, ◌++◌, ok, arith, nat_eq, u64_mod, ◌∙◌, ltb,
}
use data_sync.Text.{Text, lit, len, is_whitespace, text_eq}
use data_sync.Text.Trim.{trim, trim_start, trim_start-cons, trim_start_space}
use data_sync.Text.Number.{
  print_u64, parse_u64-print_u64, print_u64-IsDigits, print_u64-ne-nil, IsDigits, digit-word,
  IsDigits-IsWord,
}
use data_sync.Json.{Json}
use data_sync.Jwt.{Jwt}
use data_sync.State.{AppState}
use data_sync.State.Fragments.{set_fragment, del_fragment, get_fragment}
use data_sync.Commands.Token.{take_token, parse_room_id_from_remainder}
use data_sync.Commands.Token.Quoting.{
  quote, take_token-quote, take_token_word, take_token_space, IsBoundary,
}
use data_sync.Commands.Arguments.{
  room_key, key_only, no_more, value_text, validate_container_name, validate_key_name,
  max_command_container_len, max_command_key_len,
}
use data_sync.Commands.Handlers
use data_sync.Commands.Handlers.{Reply, finish, show, key_update, set_arguments}
use data_sync.Commands.Process.{process_command, dispatch, verb_of}

-- A room id, a container and a key, each behind a space, and what follows.
unfoldable pub write_arguments : ℕ → Text → Text → Text → Text
write_arguments room_id c k rest =
    b' ' ∷ (print_u64 room_id ++ b' ' ∷ (quote c ++ b' ' ∷ (quote k ++ rest)))

take_digits :
    (s rest : Text) → IsDigits s → s ≢ [] → IsBoundary rest → take_token (s ++ rest) ≡ ok (s, rest)
take_digits [] rest d h b = absurd (h refl)
take_digits (c ∷ s) rest d h b =
    take_token_word c s rest (IsDigits-IsWord (c ∷ s) d) (digit-word c d.0).1 b

space : is_whitespace b' ' ≡ true
space = unfold is_whitespace in refl

take_quoted : (t rest : Text) → take_token (b' ' ∷ (quote t ++ rest)) ≡ ok (t, rest)
take_quoted t rest = take_token_space b' ' (quote t ++ rest) space ∙ take_token-quote t rest

room_id_written :
    (room_id : ℕ) (rest : Text)
    → room_id < u64_mod
    → parse_room_id_from_remainder (b' ' ∷ (print_u64 room_id ++ b' ' ∷ rest))
      ≡ ok (room_id, b' ' ∷ rest)
unfolding parse_room_id_from_remainder
room_id_written room_id rest fits =
    let token =
      take_token_space b' ' (print_u64 room_id ++ b' ' ∷ rest) space
      ∙ take_digits (print_u64 room_id) (b' ' ∷ rest) (print_u64-IsDigits room_id)
          (print_u64-ne-nil room_id) space in
    rw (token, parse_u64-print_u64 room_id fits)

pub room_key-write_arguments :
    (room_id : ℕ) (c k rest : Text)
    → room_id < u64_mod
    → len c ≤ max_command_container_len
    → len k ≤ max_command_key_len
    → room_key (write_arguments room_id c k rest) ≡ ok (room_id, c, k, rest)
unfolding room_key write_arguments validate_container_name validate_key_name
room_key-write_arguments room_id c k rest fits short short' =
    let valid : ltb max_command_container_len (len c) ≡ false = ground arith in
    let valid' : ltb max_command_key_len (len k) ≡ false = ground arith in
    rw (
      room_id_written room_id (quote c ++ b' ' ∷ (quote k ++ rest)) fits,
      take_quoted c (b' ' ∷ (quote k ++ rest)),
      valid,
      take_quoted k rest,
      valid',
    )

key_only-write_arguments :
    (room_id : ℕ) (c k : Text)
    → room_id < u64_mod
    → len c ≤ max_command_container_len
    → len k ≤ max_command_key_len
    → key_only (write_arguments room_id c k []) ≡ ok (room_id, c, k)
unfolding key_only no_more
key_only-write_arguments room_id c k fits short short' =
    rw (room_key-write_arguments room_id c k [] fits short short') (unfold trim trim_start in refl)

module _ {Value : Type 0} ⦃json : Json Value⦄ where
  set_arguments-write_arguments :
      (room_id : ℕ) (c k : Text) (d : ℕ) (text : Text) {v : Value}
      → room_id < u64_mod
      → len c ≤ max_command_container_len
      → len k ≤ max_command_key_len
      → is_whitespace d ≡ false
      → json.from_str (d ∷ text) ≡ ok v
      → set_arguments (write_arguments room_id c k (b' ' ∷ d ∷ text)) ≡ ok (room_id, c, k, v)
  unfolding set_arguments value_text
  set_arguments-write_arguments room_id c k d text fits short short' mark p = rw (
    room_key-write_arguments room_id c k (b' ' ∷ d ∷ text) fits short short',
    trim_start_space b' ' (d ∷ text) space,
    trim_start-cons d text mark,
    p,
  )

-- The first word of the three lines.
first_word :
    (rest : Text)
    → (take_token (trim_start (lit "SET" ++ b' ' ∷ rest)) ≡ ok (lit "SET", b' ' ∷ rest))
      × (take_token (trim_start (lit "DEL" ++ b' ' ∷ rest)) ≡ ok (lit "DEL", b' ' ∷ rest))
      × (take_token (trim_start (lit "GET" ++ b' ' ∷ rest)) ≡ ok (lit "GET", b' ' ∷ rest))
unfolding take_token
first_word rest = (refl, refl, refl)

module _ {Value : Type 0} ⦃json : Json Value⦄ (jwt : Jwt) (clock : ℕ) (app : AppState Value)
    (room_id : ℕ) (c k : Text) where
  dispatched :
      (word rest : Text)
      → take_token (trim_start (word ++ rest)) ≡ ok (word, rest)
      → process_command jwt clock app (word ++ rest) ≡ dispatch jwt clock (verb_of word) app rest
  unfolding process_command
  dispatched word rest p = rw p

  -- A SET, DEL or GET line with the container and the key in quotation marks does what the call of
  -- the state does with that room, container and key, whatever their characters, if the id is below
  -- 2^64, the names have at most 256 bytes and the value is JSON that does not begin with white
  -- space: SET and DEL answer with OK and an update, or with the error; GET answers with the value
  -- and its version, or with the error.
  pub process_command-write_arguments :
      room_id < u64_mod
      → len c ≤ max_command_container_len
      → len k ≤ max_command_key_len
      → ((d : ℕ) (text : Text) (v : Value)
          → is_whitespace d ≡ false
          → json.from_str (d ∷ text) ≡ ok v
          → process_command jwt clock app
              (lit "SET" ++ write_arguments room_id c k (b' ' ∷ d ∷ text))
            ≡ finish (key_update room_id c k v) (set_fragment app room_id c k v))
        × (process_command jwt clock app (lit "DEL" ++ write_arguments room_id c k [])
            ≡ finish (key_update room_id c k json.null) (del_fragment app room_id c k))
        × (process_command jwt clock app (lit "GET" ++ write_arguments room_id c k [])
            ≡ show app
                (get_fragment app room_id c k)
                (λ (value, key_version). json.to_string value ++ lit " " ++ print_u64 key_version))
  process_command-write_arguments fits short short' =
      let key = key_only-write_arguments room_id c k fits short short' in
      (
        (λ d text v mark p.
            let rest = write_arguments room_id c k (b' ' ∷ d ∷ text) in
            dispatched (lit "SET") rest (unfold write_arguments in (first_word _).0)
            ∙ (unfold dispatch verb_of text_eq Handlers.set in
                rw (set_arguments-write_arguments room_id c k d text fits short short' mark p))),
        dispatched (lit "DEL") (write_arguments room_id c k [])
              (unfold write_arguments in (first_word _).1)
            ∙ (unfold dispatch verb_of text_eq Handlers.del in rw key),
        dispatched (lit "GET") (write_arguments room_id c k [])
              (unfold write_arguments in (first_word _).2)
            ∙ (unfold dispatch verb_of text_eq Handlers.get in rw key),
      )
