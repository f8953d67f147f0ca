-- ===== src/Tests/Connections.antt =====
-- Command connections: one that knows the key, and one that does not.
use data_sync.Base.{
  ℕ, ◌+◌, ltb, Bool, ◌&&◌, ◌≤◌, ◌≡◌, ◌↔◌, refl, true, some, List, [], ◌∷◌, ◌++◌, arith, length,
  subst, ap, sym, ◌∙◌, nat_eq,
}
use mathlib.Core.Option
use data_sync.Text.{Text, lit, text_eq, is_whitespace}
use data_sync.Text.Trim.{trim}
use data_sync.Text.Utf8.{IsUnicode}
use data_sync.State.{AppState, new, find_room}
use data_sync.State.Run.Valid.{IsValid}
use data_sync.State.Run.Steps.{new-IsValid}
use data_sync.Compare.{constant_time_eq}
use data_sync.Compare.Equal.{constant_time_eq_iff}
use data_sync.Console.{Limits, Shared, Turn, handle_command_connection}
use data_sync.Reading.{line}
use data_sync.Console.Refinement.{IsRun, handle_command_connection-IsRun}
use data_sync.Console.Validity.{handle_command_connection-IsValid}
use data_sync.Console.Key.{IsRefused, IsWrong, handle_command_connection-IsRefused}
use data_sync.Console.Counts.{counts_of, IsCounted}
use data_sync.Console.Metrics.{handle_command_connection-IsCounted}
use data_sync.Tests.Sample.{sample_json}
use data_sync.Tests.Signing.{sample_jwt}
use data_sync.Tests.Clients.{queue, hub}

abbrev pub limits : Limits
limits = record {
  cmd_rate_limit = 120;
  cmd_rate_window = 60;
  command_auth_rate_limit = 5;
  command_auth_rate_window = 60;
  ws_update_rate_limit = 240;
  ws_update_rate_window = 60;
  ws_room_rate_limit = 1000;
  ws_room_rate_window = 60;
}

abbrev pub configured : AppState Text
configured = record new { command_api_key = some (lit "secret") }

abbrev pub shared : Shared Text (List Text)
shared = record {
  app = configured;
  hub = hub;
  commands = [];
  command_auths = [];
  ws_updates = [];
  ws_rooms = [];
}

abbrev pub say : Text → Turn
say s = record {
  input = line (s ++ lit "\n");
  written = true;
  clock = 100;
  room_now = 5;
  client_now = λ id. 5;
}

abbrev pub commands : List Turn
commands = say (lit "ROOM.CREATE") ∷ say (lit "SET 1 public a 1") ∷ say (lit "VERSION 1") ∷ []

abbrev served : Text → List Text × Shared Text (List Text)
served key =
    handle_command_connection sample_jwt queue limits (lit "127.0.0.1") 1 2 (line key) true commands
      shared

pub trim-other : trim (lit "other\n") ≡ lit "other"
unfolding trim is_whitespace
trim-other = refl

abbrev pub all_unicode : Text → Bool
all_unicode [] = true
all_unicode (c ∷ s) = ltb c 0x110000 && all_unicode s

pub plain : (s : Text) → all_unicode s ≡ true → IsUnicode s
plain [] h = tt
plain (c ∷ s) h = (ground arith, plain s (ground arith))

wrong : IsWrong (some (lit "secret")) (lit "other\n")
wrong = record {
  provided_IsUnicode = rw trim-other (plain (lit "other") refl);
  differs = λ key p. (
    subst IsUnicode (Option.some_inj.0 p) (plain (lit "secret") refl),
    λ e. omega (arith, ap length (sym trim-other ∙ e ∙ sym (Option.some_inj.0 p))),
  );
}

pub configured-IsValid : IsValid 0 configured
configured-IsValid =
    let v = new-IsValid {Value = Text} in
    record {
      ids = v.ids;
      next = v.next;
      fresh = v.fresh;
      unpoisoned = v.unpoisoned;
      sound = unfold find_room in v.sound;
    }

constant_time_eq_iff_example :
    (constant_time_eq (lit "secret") (lit "sécret") ≡ true) ↔ (lit "secret" ≡ lit "sécret")
constant_time_eq_iff_example =
    constant_time_eq_iff (lit "secret") (lit "sécret") (plain (lit "secret") refl)
      (plain (lit "sécret") refl)

served-IsRun : IsRun 3 configured (served (lit "secret\n")).1.app
served-IsRun =
    handle_command_connection-IsRun sample_jwt queue limits (lit "127.0.0.1") 1 2
      (line (lit "secret\n")) true commands shared

served-IsValid : (m : ℕ) × (m ≤ 3) × IsValid (0 + m) (served (lit "secret\n")).1.app
served-IsValid =
    handle_command_connection-IsValid sample_jwt queue limits 0 (lit "127.0.0.1") 1 2
      (line (lit "secret\n")) true commands shared configured-IsValid (omega arith)

handle_command_connection-IsRefused_example :
    IsRefused (served (lit "other\n")).0 shared (served (lit "other\n")).1
handle_command_connection-IsRefused_example =
    handle_command_connection-IsRefused sample_jwt queue limits (lit "127.0.0.1") 1 2
      (lit "other\n") true commands shared wrong

served-IsCounted : IsCounted 3 (counts_of configured) (counts_of (served (lit "secret\n")).1.app)
unfolding counts_of new
served-IsCounted =
    handle_command_connection-IsCounted sample_jwt queue limits (lit "127.0.0.1") 1 2
      (line (lit "secret\n")) true commands shared
      (record { fits = omega arith; fewer = omega arith })
