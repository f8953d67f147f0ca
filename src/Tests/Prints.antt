-- ===== src/Tests/Prints.antt =====
-- The demo's client of the WebSocket: its start, and what it prints for the updates of commands.
use mathlib.Core.List.{map}
use data_sync.Base.{
  All, ◌≡◌, refl, false, none, some, Option, List, [], ◌∷◌, ◌++◌, ok, err, if◌then◌else◌, ◌==◌,
  nat_eq,
}
use data_sync.Text.{Text, lit, text_eq, starts_with}
use data_sync.Text.Number.{print_u64}
use data_sync.State.{AppState, find_room, store_room, new}
use data_sync.Commands.Handlers.{RoomUpdate, del, set, room_create}
use data_sync.Dict.{get, insert}
use data_sync.Commands.Process.{process_command}
use data_sync.Demo.ClientCli.{
  ServerEvent, update, text, ping, close, prints, warns, sends, Outside, cfg_path, receive,
  run_client,
}
use data_sync.Demo.ClientCli.Events.{
  read_as, told, sent_text, sent_texts, Reads, receive-process_command,
}
use data_sync.Tests.Sample.{sample_json}
use data_sync.Tests.Signing.{sample_jwt}
use data_sync.Tests.Connections.{configured}

-- The path of a flag goes before the first argument, without all that is in front of it.
cfg_path-flag :
    cfg_path (lit "client" ∷ lit "a.yaml" ∷ lit "--config=--config=b.yaml" ∷ [])
    ≡ some (lit "b.yaml")
unfolding cfg_path
cfg_path-flag = refl

cfg_path-first : cfg_path (lit "client" ∷ lit "a.yaml" ∷ []) ≡ some (lit "a.yaml")
unfolding cfg_path
cfg_path-first = refl

abbrev with_fragment : AppState Text
with_fragment =
    let created = (process_command sample_jwt 100 configured (lit "ROOM.CREATE")).1 in
    (process_command sample_jwt 100 created (lit "SET 1 public a 1")).1

abbrev deleting : List (RoomUpdate Text)
deleting = (process_command sample_jwt 100 with_fragment (lit "DEL 1 public a")).0.1

abbrev deleted_text : Text
deleted_text =
    lit
      "{\"type\":\"update\",\"room_id\":1,\"room_counter\":2,\"container\":\"public\",\"key\":\"a\",\"value\":null}"

-- Reads the event of the deletion.
abbrev read : Text → Option (ServerEvent Text)
read txt =
    if txt == deleted_text then some (update 1 2 (lit "public") (lit "a") none none) else none

deleting-Reads : Reads read deleting
unfolding Reads read_as sent_text process_command text_eq del set find_room store_room get insert
    room_create new print_u64
deleting-Reads = (refl, tt)

receive-process_command_example :
    (receive read (sent_texts deleting)
      ≡ map (λ u. prints (told u)) deleting ++ prints (lit "Connection loop ended") ∷ [])
    × All (λ u. starts_with (told u) (lit "FRAGMENT_DELETED") ≡ false) deleting
receive-process_command_example =
    receive-process_command sample_jwt 100 read with_fragment (lit "DEL 1 public a") deleting-Reads

-- A host at every address, which answers with a ping, the deletion, and its end.
abbrev outside : Outside Text
outside = record {
  read_to_string = λ path. none;
  from_yaml = λ yaml. err (lit "missing");
  parse = ok;
  host_str = some;
  port_or_known_default = λ url. some 8080;
  connect = λ address. ok tt;
  handshake = λ address. ok tt;
  send = λ message. ok tt;
  messages = ok ping ∷ ok (text deleted_text) ∷ ok (close (lit "None")) ∷ ok ping ∷ [];
}

run_client_run :
    run_client read outside (lit "client" ∷ lit "a.yaml" ∷ [])
    ≡ warns (lit "Warning: failed to read config file a.yaml, using defaults")
      ∷ prints (lit "Connecting to ws://localhost:8080/ws")
      ∷ sends (lit "{\"type\":\"auth\",\"jwt\":\"\"}")
      ∷ prints (lit "Auth request sent")
      ∷ prints (lit "Ping received")
      ∷ prints (lit "FRAGMENT_UPDATED room=1 container=public key=a value=null counter=2")
      ∷ prints (lit "Closed None")
      ∷ prints (lit "Connection loop ended")
      ∷ []
unfolding run_client text_eq
run_client_run = refl
