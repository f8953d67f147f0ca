-- ===== src/Tests/Configured.antt =====
-- Configurations: one with an address that is no loopback left out, and one whose key has a space
-- behind it.
use data_sync.Base.{
  ℕ, All, err, ◌≡◌, ◌↔◌, refl, Bool, true, Option, none, some, List, [], ◌∷◌, ok, arith, ap, nat_eq,
  sym, ◌∙◌, length, if◌then◌else◌,
}
use data_sync.Text.{Text, lit, starts_with, is_whitespace, is_empty}
use data_sync.Text.Trim.{trim}
use data_sync.Console.{Shared, handle_command_connection}
use data_sync.Reading.{line}
use data_sync.Console.Key.{IsRefused}
use data_sync.Config.{SyncpondConfig, Start, configure, limits_of, from_secs}
use data_sync.Config.Accepted.{IsAccepted, configure_iff, settings_of}
use data_sync.Config.Servers
use data_sync.Config.Servers.{
  Happening, bound, Listener, ws, command, health, handles, run_servers, run_main, IsLocal,
  run_main-IsLocal,
}
use data_sync.Config.Key.{configure-IsRefused}
use data_sync.Tests.Sample.{sample_json}
use data_sync.Tests.Signing.{sample_jwt}
use data_sync.Tests.Clients.{queue, hub}
use data_sync.Tests.Connections.{commands, plain}

abbrev config : SyncpondConfig
config = record {
  command_api_key = lit "secret ";
  ws_addr = some (lit "0.0.0.0:80");
  command_addr = none;
  health_addr = none;
  jwt_key = some (lit "k");
  jwt_issuer = none;
  jwt_audience = none;
  jwt_ttl_seconds = none;
  require_tls = none;
  health_bind_loopback_only = none;
  command_rate_limit = none;
  command_rate_window_secs = none;
  ws_auth_rate_limit = none;
  ws_auth_rate_window_secs = none;
  ws_update_rate_limit = some 5;
  ws_update_rate_window_secs = none;
  ws_room_rate_limit = none;
  ws_room_rate_window_secs = none;
  ws_allowed_origins = none;
  command_auth_rate_limit = none;
  command_auth_rate_window_secs = none;
}

-- An address is its text.
abbrev parse : Text → Option Text
parse s = if is_empty s then none else some s

unfoldable is_loopback : Text → Bool
unfolding starts_with
is_loopback s = starts_with s (lit "127.")

abbrev start : Start Text Text
start = record {
  app = settings_of config;
  limits = limits_of config;
  ws_auth_rate_limit = 10;
  ws_auth_rate_window = from_secs 60;
  ws_allowed_origins = [];
  ws_addr = lit "0.0.0.0:80";
  command_addr = lit "127.0.0.1:9090";
  health_addr = lit "127.0.0.1:7070";
  health_bind_loopback_only = true;
}

accepted : IsAccepted parse is_loopback config start
unfolding trim is_whitespace is_loopback limits_of from_secs
accepted = record {
  key = refl;
  tls = refl;
  ws_addr = refl;
  command_addr = refl;
  health_addr = refl;
  loopback = refl;
  settings = refl;
}

configure_iff_example :
    (configure parse is_loopback config ≡ ok start) ↔ IsAccepted parse is_loopback config start
configure_iff_example = configure_iff parse is_loopback config start

started : configure parse is_loopback config ≡ ok start
started = (configure_iff parse is_loopback config start).1 accepted

abbrev shared : Shared Text (List Text)
shared = record {
  app = settings_of config;
  hub = hub;
  commands = [];
  command_auths = [];
  ws_updates = [];
  ws_rooms = [];
}

trim-key : trim (lit "secret ") ≡ lit "secret"
unfolding trim is_whitespace
trim-key = refl

configure-IsRefused_example :
    let r =
      handle_command_connection sample_jwt queue start.limits
        (lit "127.0.0.1")
        1
        2
        (line (lit "secret "))
        true
        commands
        shared in
    IsRefused r.0 shared r.1
configure-IsRefused_example =
    configure-IsRefused sample_jwt queue parse is_loopback config start started
      (plain (lit "secret ") refl) (λ e. omega (arith, ap length (sym trim-key ∙ e)))
      (lit "127.0.0.1") 1 2 (lit "secret ") true commands shared
      (rw trim-key (plain (lit "secret") refl)) refl

-- Connections from two peers to the health server, and one that cannot be accepted.
abbrev happenings : List (Happening Text ℕ)
happenings =
    bound health (ok tt)
    ∷ Servers.accepted health (ok (1, lit "127.0.0.1:50000"))
    ∷ Servers.accepted health (ok (2, lit "10.0.0.9:50000"))
    ∷ Servers.accepted command (err (lit "Too many open files"))
    ∷ Servers.accepted ws (ok (3, lit "10.0.0.9:50001"))
    ∷ []

-- The failed `accept` of one server ends the program, with all the others.
run_servers_end :
    run_servers is_loopback start happenings
    ≡ (handles health 1 (lit "127.0.0.1:50000") ∷ [], some (err (lit "Too many open files")))
unfolding run_servers is_loopback
run_servers_end = refl

run_main-IsLocal_example :
    All (IsLocal is_loopback) (run_main Text parse is_loopback config happenings).0
    × ((start' : Start Text Text)
        → configure parse is_loopback config ≡ ok start'
        → is_loopback start'.health_addr ≡ true)
run_main-IsLocal_example = run_main-IsLocal Text parse is_loopback config happenings refl
