-- ===== src/Tests/Requests.antt =====
-- Lines on a key with a space and a container with a quotation mark.
use data_sync.Base.{
  ◌≤◌, ◌≡◌, arith, false, [], ◌∷◌, ◌++◌, ok, nat_eq, ℕ, refl, some, List, if◌then◌else◌,
}
use data_sync.Text.{Text, lit, len, is_whitespace}
use data_sync.Text.Number.{print_u64}
use data_sync.State.{AppState, new, store_room, empty_room, find_room, bump}
use data_sync.State.Fragments.{set_fragment, del_fragment, get_fragment}
use data_sync.Commands.Handlers.{finish, show, key_update}
use data_sync.Commands.Process.{process_command}
use data_sync.Commands.Lines.{write_arguments, process_command-write_arguments}
use data_sync.Commands.Arguments.{max_command_container_len}
use data_sync.State.Fragments.Effects.{IsWritten}
use data_sync.Dict.{get, insert}
use data_sync.Limiter.{allow}
use data_sync.Hub.{broadcast_update}
use data_sync.Console.{Shared, count_request, run_command}
use data_sync.Console.Writes.{run_command-write_arguments}
use data_sync.Tests.Clients.{queue, hub}
use data_sync.Tests.Connections.{limits, say}
use data_sync.Tests.Sample.{sample_json}
use data_sync.Tests.Signing.{sample_jwt}

abbrev app : AppState Text
app = store_room new 1 empty_room

abbrev c : Text
c = lit "my \"box\""

abbrev k : Text
k = lit "a key"

short : len c ≤ max_command_container_len
unfolding len
short = omega arith

short_key : len k ≤ max_command_container_len
unfolding len
short_key = omega arith

process_command-write_arguments_example :
    ((d : ℕ) (text : Text) (v : Text)
      → is_whitespace d ≡ false
      → sample_json.from_str (d ∷ text) ≡ ok v
      → process_command sample_jwt 0 app (lit "SET" ++ write_arguments 1 c k (b' ' ∷ d ∷ text))
        ≡ finish (key_update 1 c k v) (set_fragment app 1 c k v))
    × (process_command sample_jwt 0 app (lit "DEL" ++ write_arguments 1 c k [])
        ≡ finish (key_update 1 c k (lit "null")) (del_fragment app 1 c k))
    × (process_command sample_jwt 0 app (lit "GET" ++ write_arguments 1 c k [])
        ≡ show app
            (get_fragment app 1 c k)
            (λ (value, key_version). value ++ lit " " ++ print_u64 key_version))
process_command-write_arguments_example =
    process_command-write_arguments sample_jwt 0 app 1 c k (omega arith) short short_key

abbrev shared : Shared Text (List Text)
shared = record {
  app = app;
  hub = hub;
  commands = [];
  command_auths = [];
  ws_updates = [];
  ws_rooms = [];
}

taken : find_room shared.app 1 ≡ ok empty_room
unfolding find_room store_room get insert new
taken = refl

mark : is_whitespace b'7' ≡ false
unfolding is_whitespace
mark = refl

run_command-write_arguments_example :
    let r =
      run_command sample_jwt queue limits
        (say [])
        (lit "SET" ++ write_arguments 1 c k (lit " 7"))
        shared in
    (r.0 ≡ lit "OK")
    × IsWritten (count_request app) r.1.app 1 c k (lit "7") (bump 0)
    × (r.1.hub ≡ (
        if (allow [] (lit "room:" ++ print_u64 1) 1000 60 5).0
        then (broadcast_update queue 240 60
            (λ id. 5)
            (record {
              room_id = 1;
              container = c;
              key = k;
              value = some (lit "7");
              room_counter = bump 0;
            })
            hub
            []).0
        else hub))
run_command-write_arguments_example =
    run_command-write_arguments sample_jwt queue limits (say []) shared 1 c k (lit "7") taken refl
      b'7' [] (omega arith) short short_key mark refl refl
