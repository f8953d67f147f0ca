-- ===== src/Demo/ClientCli.antt =====
-- demo/client-cli/src/main.rs: a client of the WebSocket that prints what it is sent. The files, the
-- crates that read YAML, JSON and URLs, and the connection with what comes over it are from outside.
pub mod Events
use data_sync.Base.{
  ℕ, zero, suc, ◌-◌, Bool, true, false, Option, none, some, List, [], ◌∷◌, ◌++◌, Result, ok, err,
  if◌then◌else◌, nat_eq, length,
}
use data_sync.Text.{Text, lit, starts_with}
use data_sync.Text.Number.{print_u64}
use data_sync.Dict.{Dict}
use data_sync.Json.{Json}

pub record ClientSettings : Type 0 where
  pub ws_addr : Option Text
  pub jwt : Option Text
  pub last_seen_counter : Option ℕ

abbrev pub default_settings : ClientSettings
default_settings = record { ws_addr = none; jwt = none; last_seen_counter = none }

-- The events as the client reads them.
pub data ServerEvent (Value : Type 0) : Type 0 where
  auth_ok : ℕ → Value → ServerEvent Value
  auth_error : Text → ServerEvent Value
  room_update : ℕ → ℕ → ServerEvent Value
  update : ℕ → ℕ → Text → Text → Option Value → Option Bool → ServerEvent Value
  other : ServerEvent Value

-- A message of the socket; of a close frame and of what is no text, the text that `Debug` gives.
pub data Incoming : Type 0 where
  text : Text → Incoming
  ping pong : Incoming
  close : Text → Incoming
  non_text : Text → Incoming

-- What the program does that can be seen.
pub data Seen : Type 0 where
  prints : Text → Seen
  warns : Text → Seen
  sends : Text → Seen

-- `or_else` and `unwrap_or`.
abbrev pub or_option : {A : Type 0} → Option A → Option A → Option A
or_option none b = b
or_option (some a) b = some a

abbrev pub unwrap_option : {A : Type 0} → Option A → A → A
unwrap_option none d = d
unwrap_option (some a) d = a

abbrev pub config_flag : Text
config_flag = lit "--config="

-- `trim_start_matches("--config=")`, with the number of characters that are left of a match.
unfoldable pub trim_flags : ℕ → Text → Text
unfolding starts_with
trim_flags n [] = []
trim_flags zero (c ∷ s) =
    if starts_with (c ∷ s) config_flag then trim_flags (length config_flag - 1) s else c ∷ s
trim_flags (suc n) (c ∷ s) = trim_flags n s

unfoldable pub flagged : List Text → Option Text
unfolding trim_flags
flagged [] = none
flagged (arg ∷ args) = if starts_with arg config_flag then some (trim_flags 0 arg) else flagged args

abbrev pub second_arg : List Text → Option Text
second_arg [] = none
second_arg (program ∷ []) = none
second_arg (program ∷ arg ∷ args) = some arg

unfoldable pub cfg_path : List Text → Option Text
unfolding flagged
cfg_path args = or_option (flagged args) (second_arg args)

-- The files, the reader of YAML, and the network, with the messages that come over a connection.
pub record Outside (Url : Type 0) : Type 0 where
  pub read_to_string : Text → Option Text
  pub from_yaml : Text → Result Text ClientSettings
  pub parse : Text → Result Text Url
  pub host_str : Url → Option Text
  pub port_or_known_default : Url → Option ℕ
  pub connect : Text → Result Text (Unit {0})
  pub handshake : Text → Result Text (Unit {0})
  pub send : Text → Result Text (Unit {0})
  pub messages : List (Result Text Incoming)

module _ {Url : Type 0} (outside : Outside Url) where
  abbrev pub parsed : Text → Result Text ClientSettings → List Seen × ClientSettings
  parsed path (ok config) = ([], config)
  parsed path (err e) = (
    warns (lit "Warning: failed to parse config " ++ (path ++ (lit ": " ++ e))) ∷ [],
    default_settings,
  )

  abbrev pub loaded : Text → Option Text → List Seen × ClientSettings
  loaded path (some yaml) = parsed path (outside.from_yaml yaml)
  loaded path none = (
    warns (lit "Warning: failed to read config file " ++ (path ++ lit ", using defaults")) ∷ [],
    default_settings,
  )

  abbrev pub settings_at : Option Text → List Seen × ClientSettings
  settings_at none = ([], default_settings)
  settings_at (some path) = loaded path (outside.read_to_string path)

module _ (Value : Type 0) ⦃json : Json Value⦄ where
  abbrev counter_field : Option ℕ → Dict Text Value
  counter_field none = []
  counter_field (some counter) = (lit "last_seen_counter", json.number counter) ∷ []

  -- The text of the object that serde makes of `AuthMessage`.
  unfoldable pub auth_text : Text → Option ℕ → Text
  auth_text jwt last_seen_counter = json.to_string (
      json.object (
        (lit "type", json.string (lit "auth"))
        ∷ (lit "jwt", json.string jwt)
        ∷ counter_field last_seen_counter))

module _ {Value : Type 0} ⦃json : Json Value⦄ where
  -- The line that a text message is printed as, where it was read as an event or not.
  unfoldable pub event_line : Text → Option (ServerEvent Value) → Text
  unfolding print_u64
  event_line txt none = lit "RAW: " ++ txt
  event_line txt (some (auth_ok room_counter state)) =
      lit "AUTH_OK room_counter=" ++ print_u64 room_counter ++ lit " state=" ++ json.to_string state
  event_line txt (some (auth_error reason)) = lit "AUTH_ERROR: " ++ reason
  event_line txt (some (room_update room_id room_counter)) =
      lit "ROOM_UPDATE room=" ++ print_u64 room_id ++ lit " counter=" ++ print_u64 room_counter
  event_line txt (some (update room_id room_counter container key value deleted)) =
      if unwrap_option deleted false
      then lit "FRAGMENT_DELETED room="
        ++ print_u64 room_id
        ++ lit " container="
        ++ container
        ++ lit " key="
        ++ key
        ++ lit " counter="
        ++ print_u64 room_counter
      else lit "FRAGMENT_UPDATED room="
        ++ print_u64 room_id
        ++ lit " container="
        ++ container
        ++ lit " key="
        ++ key
        ++ lit " value="
        ++ json.to_string (unwrap_option value json.null)
        ++ lit " counter="
        ++ print_u64 room_counter
  event_line txt (some other) = lit "UNKNOWN_EVENT " ++ txt

-- `read` is `serde_json::from_str` at `ServerEvent`.
module _ {Value : Type 0} ⦃json : Json Value⦄ (read : Text → Option (ServerEvent Value)) where
  -- The loop over the messages, and the line at its end.
  unfoldable pub receive : List (Result Text Incoming) → List Seen
  unfolding event_line
  receive [] = prints (lit "Connection loop ended") ∷ []
  receive (ok (text txt) ∷ messages) = prints (event_line txt (read txt)) ∷ receive messages
  receive (ok ping ∷ messages) = prints (lit "Ping received") ∷ receive messages
  receive (ok pong ∷ messages) = prints (lit "Pong received") ∷ receive messages
  receive (ok (close frame) ∷ messages) =
      prints (lit "Closed " ++ frame) ∷ prints (lit "Connection loop ended") ∷ []
  receive (ok (non_text message) ∷ messages) =
      prints (lit "Non-text message: " ++ message) ∷ receive messages
  receive (err e ∷ messages) =
      warns (lit "WS error: " ++ e) ∷ prints (lit "Connection loop ended") ∷ []

module _ {Value Url : Type 0} ⦃json : Json Value⦄ (read : Text → Option (ServerEvent Value))
    (outside : Outside Url) where
  abbrev on_sent : Text → Result Text (Unit {0}) → List Seen
  on_sent auth (ok _) =
      sends auth ∷ prints (lit "Auth request sent") ∷ receive read outside.messages
  on_sent auth (err e) = warns (lit "Failed to send auth: " ++ e) ∷ []

  abbrev on_handshake : ClientSettings → Result Text (Unit {0}) → List Seen
  on_handshake config (err e) = warns (lit "WebSocket handshake failed: " ++ e) ∷ []
  on_handshake config (ok _) =
      let auth = auth_text Value (unwrap_option config.jwt []) config.last_seen_counter in
      on_sent auth (outside.send auth)

  abbrev on_connected : ClientSettings → Text → Result Text (Unit {0}) → List Seen
  on_connected config address (err e) = warns (lit "TCP connect failed: " ++ e) ∷ []
  on_connected config address (ok _) = on_handshake config (outside.handshake address)

  abbrev on_host : ClientSettings → Text → Url → Option Text → List Seen
  on_host config address url none = warns (lit "Invalid URL, missing host: " ++ address) ∷ []
  on_host config address url (some host) =
      let port = unwrap_option (outside.port_or_known_default url) 80 in
      on_connected config address (outside.connect (host ++ (lit ":" ++ print_u64 port)))

  abbrev on_url : ClientSettings → Text → Result Text Url → List Seen
  on_url config address (err e) =
      warns (lit "Invalid websocket URL " ++ (address ++ (lit ": " ++ e))) ∷ []
  on_url config address (ok url) = on_host config address url (outside.host_str url)

  unfoldable pub run_client : List Text → List Seen
  unfolding cfg_path auth_text receive print_u64
  run_client args =
      let (warnings, config) = settings_at outside (cfg_path args) in
      let address = unwrap_option config.ws_addr (lit "ws://localhost:8080/ws") in
      warnings
      ++ prints (lit "Connecting to " ++ address) ∷ on_url config address (outside.parse address)
