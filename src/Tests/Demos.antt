-- ===== src/Tests/Demos.antt =====
-- The demo's client with a server that creates a room for it.
use data_sync.Base.{◌≤◌, ◌≡◌, refl, true, false, ok, err, List, [], ◌∷◌, arith, nat_eq}
use data_sync.Dict.{get, insert}
use data_sync.Limiter.{allow}
use data_sync.Text.{Text, lit, text_eq, is_whitespace, is_empty, len}
use data_sync.Text.Trim.{trim, trim_end}
use data_sync.Commands.Process.{process_command}
use data_sync.Console.{Shared, Turn, count_request, count_reply, handle_command_connection}
use data_sync.Reading.{line, max_command_line_len}
use data_sync.Demo.ServerCli.{World, request, send_command}
use data_sync.Demo.ServerCli.Lines.{cut}
use data_sync.Demo.ServerCli.Served.{first_answer, send_command-served}
use data_sync.Tests.Sample.{sample_json}
use data_sync.Tests.Signing.{sample_jwt}
use data_sync.Tests.Clients.{queue}
use data_sync.Tests.Connections.{limits, configured, shared, say, plain}

abbrev key_line : Text
key_line = lit "secret\n"

abbrev create_turn : Turn
create_turn = say (lit "ROOM.CREATE")

abbrev answered_once : List Text × Shared Text (List Text)
answered_once =
    handle_command_connection sample_jwt queue limits (lit "127.0.0.1") 1 2 (line key_line) true
      (create_turn ∷ []) shared

-- A server that answers every request alike.
abbrev world : World
world = record {
  exists = λ path. false;
  load_config = λ path. err (lit "missing");
  write_config = λ path config. ok tt;
  answer = λ number addr text. ok (first_answer answered_once.0);
}

trim-secret : trim (lit "secret") ≡ lit "secret"
unfolding trim is_whitespace
trim-secret = refl

short_lines :
    (len key_line ≤ max_command_line_len) × (len (lit "ROOM.CREATE\n") ≤ max_command_line_len)
unfolding len
short_lines = (omega arith, omega arith)

full_command : is_empty (trim (lit "ROOM.CREATE")) ≡ false
unfolding trim is_whitespace
full_command = refl

first_allowed :
    ((allow [] (lit "127.0.0.1") 120 60 1).0 ≡ true)
    × ((allow [] (lit "127.0.0.1") 5 60 2).0 ≡ true)
unfolding allow get insert text_eq
first_allowed = (refl, refl)

send_command-served_example :
    let p = process_command sample_jwt 100 (count_request configured) (trim (lit "ROOM.CREATE")) in
    (cut [] (request (lit "secret") (lit "ROOM.CREATE")) ≡ key_line ∷ lit "ROOM.CREATE\n" ∷ [])
    × (send_command world 0 (lit "127.0.0.1:9090") (lit "secret") (lit "ROOM.CREATE")
        ≡ ok (trim_end p.0.0))
    × (answered_once.1.app ≡ count_reply p.0.0 p.1)
send_command-served_example =
    send_command-served sample_jwt queue limits world 0 (lit "127.0.0.1:9090") (lit "secret")
      (lit "ROOM.CREATE") (lit "127.0.0.1") 1 2 create_turn shared
      (refl, (refl, (refl, (refl, (refl, (refl, tt))))))
      (refl, (refl, (refl, (refl, (refl, (refl, (refl, (refl, (refl, (refl, (refl, tt)))))))))))
      short_lines.0 short_lines.1 full_command (rw trim-secret (plain (lit "secret") refl))
      (rw trim-secret refl) first_allowed.0 first_allowed.1 refl refl
