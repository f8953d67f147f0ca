-- ===== src/Tests/Interleaved.antt =====
-- Command connections that take turns: one that knows the key, and one that does not.
use data_sync.Base.{
  All, ◌≢◌, ℕ, ◌+◌, ◌≤◌, ◌<◌, ◌≡◌, sym, ap, ◌∙◌, refl, true, false, some, none, List, [], ◌∷◌, ◌++◌,
  arith, length, get_elem?, u64_mod, nat_eq,
}
use data_sync.Text.{Text, lit, text_eq}
use data_sync.State.{new, find_room, store_room}
use data_sync.Commands.Handlers.{room_create, set}
use data_sync.State.Run.Valid.{IsValid}
use data_sync.Console.{Shared}
use data_sync.Console.Refinement.{IsRun}
use data_sync.Reading.{line}
use data_sync.Server.{
  Connection, Event, limits_at, reads, locks, locks_hub, writes, arriving, interleave, step_one,
  limiting, auth_limiting, greeting, keying,
}
use data_sync.Server.Calls.{interleave-IsRun}
use data_sync.Commands.Process.Plain.{plain_of}
use data_sync.Server.History.{IsHistory, history, interleave-IsHistory}
use data_sync.Server.Replies.{own_commands}
use data_sync.Server.Validity.{interleave-IsValid}
use data_sync.Server.Keys.{IsOther, IsShut, IsQuiet}
use data_sync.Server.Locked.{interleave-IsShut}
use data_sync.Dict.{get}
use data_sync.Hub.{WsHub, or_new}
use data_sync.Server.Finished.{IsActive, IsIdle, IsStill, budgets, interleave-IsIdle}
use data_sync.Server.Metrics.{owed, interleave-IsPaid}
use data_sync.Tests.Sample.{sample_json}
use data_sync.Tests.Signing.{sample_jwt}
use data_sync.Tests.Clients.{queue}
use data_sync.Tests.Connections.{limits, shared, configured-IsValid, plain, trim-other}

abbrev knowing : Connection Text
knowing =
    arriving (lit "127.0.0.1")
      (line (lit "secret\n") ∷ line (lit "ROOM.CREATE\n") ∷ line (lit "SET 1 public a 1\n") ∷ [])

abbrev other : Connection Text
other = arriving (lit "10.0.0.9") (line (lit "secret\n") ∷ line (lit "SET 1 public a 2\n") ∷ [])

-- The events of a connection of a number.
abbrev of : ℕ → List Event → List (ℕ × Event)
of i [] = []
of i (event ∷ events) = (i, event) ∷ of i events

abbrev opening : List Event
opening = limits_at 1 ∷ limits_at 2 ∷ reads ∷ locks 0 ∷ []

-- A command up to the end of its answer.
abbrev command : List Event
command = reads ∷ locks 0 ∷ locks 100 ∷ locks 0 ∷ writes true ∷ locks_hub (λ id. 5) ∷ []

abbrev broadcast : List Event
broadcast = limits_at 5 ∷ locks_hub (λ id. 5) ∷ []

-- The second connection processes its command after the first, and broadcasts before it.
abbrev schedule : List (ℕ × Event)
schedule =
    of 0 (opening ++ command ++ command)
    ++ (of 1 (opening ++ command ++ broadcast) ++ of 0 broadcast)

abbrev stranger : Connection Text
stranger = arriving (lit "10.0.0.7") (line (lit "other\n") ∷ line (lit "ROOM.DELETE 1\n") ∷ [])

abbrev all : List (Connection Text)
all = knowing ∷ other ∷ stranger ∷ []

-- The stranger's steps come among those of the others.
abbrev mixed : List (ℕ × Event)
mixed = of 2 opening ++ (schedule ++ of 2 (locks 0 ∷ writes true ∷ command))

abbrev later : List (Connection Text) × Shared Text (List Text)
later = interleave sample_jwt queue limits mixed (all, shared)

mixed-IsRun : IsRun (length mixed) shared.app later.1.app
mixed-IsRun = interleave-IsRun sample_jwt queue limits mixed all shared

interleave-IsHistory_example :
    IsHistory sample_jwt
      (plain_of shared.app)
      (history sample_jwt queue limits mixed (all, shared))
      (plain_of later.1.app)
interleave-IsHistory_example = interleave-IsHistory sample_jwt queue limits mixed all shared

-- The second connection's command comes after both of the first.
history_of_mixed :
    history sample_jwt queue limits mixed (all, shared)
    ≡ (100, lit "ROOM.CREATE", lit "OK 1")
      ∷ (100, lit "SET 1 public a 1", lit "OK")
      ∷ (100, lit "SET 1 public a 2", lit "OK")
      ∷ []
unfolding history interleave step_one get text_eq new find_room store_room room_create set
history_of_mixed = refl

-- The first connection's commands with their answers, and the stranger's, who has none.
own_of_mixed :
    own_commands sample_jwt queue limits 0 mixed (all, shared) ([], [])
    ≡ (lit "ROOM.CREATE" ∷ lit "SET 1 public a 1" ∷ [], lit "OK 1\n" ∷ lit "OK\n" ∷ [])
unfolding own_commands interleave step_one get text_eq new find_room store_room room_create set
own_of_mixed = refl

own_of_stranger : own_commands sample_jwt queue limits 2 mixed (all, shared) ([], []) ≡ ([], [])
unfolding own_commands interleave step_one get text_eq new find_room store_room room_create set
own_of_stranger = refl

interleave-IsValid_example : (m : ℕ) × (m ≤ length mixed) × IsValid (0 + m) later.1.app
interleave-IsValid_example =
    interleave-IsValid sample_jwt queue limits 0 mixed all shared configured-IsValid (omega arith)

nothing_owed : shared.app.command_error_count + owed all ≤ shared.app.total_command_requests
unfolding owed new
nothing_owed = omega arith

few_requests : shared.app.total_command_requests + length mixed < u64_mod
unfolding new
few_requests = omega arith

interleave-IsPaid_example :
    (later.1.app.total_command_requests ≤ shared.app.total_command_requests + length mixed)
    × (later.1.app.command_error_count + owed later.0 ≤ later.1.app.total_command_requests)
interleave-IsPaid_example =
    interleave-IsPaid sample_jwt queue limits mixed all shared few_requests nothing_owed

IsOther-key : IsOther (lit "secret") (line (lit "other\n"))
IsOther-key =
    (rw trim-other (plain (lit "other") refl), λ e. omega (arith, ap length (sym trim-other ∙ e)))

interleave-IsShut_example :
    ((c' : Connection Text) × (get_elem? later.0 2 ≡ some c')
      × IsShut (lit "secret") c'.place c'.lines)
    × IsQuiet later.1 (step_one sample_jwt queue limits later.0 2 reads later.1).1
interleave-IsShut_example =
    interleave-IsShut sample_jwt queue limits (lit "secret") (plain (lit "secret") refl) mixed all 2
      stranger shared reads refl refl IsOther-key refl

-- How far the first connection has come.
abbrev stage : List (Connection Text) → ℕ
stage [] = 0
stage (c ∷ cs) = elim c.place [
  | limiting ↦ 1
  | auth_limiting ↦ 2
  | greeting ↦ 3
  | keying key ↦ 4
  | _ ↦ 5
]

further :
    (r r' : List (Connection Text) × Shared Text (List Text)) → stage r'.0 ≡ stage r.0 + 1 → r' ≢ r
further r r' h p =
    omega (arith, h, ap (λ (x : List (Connection Text) × Shared Text (List Text)). stage x.0) p)

opening-IsActive : IsActive sample_jwt queue limits (of 0 opening) (all, shared)
unfolding IsActive step_one text_eq get
opening-IsActive =
    (further _ _ refl, (further _ _ refl, (further _ _ refl, (further _ _ refl, tt))))

interleave-IsIdle_example :
    let r = interleave sample_jwt queue limits (of 0 opening) (all, shared) in
    (length (of 0 opening) ≤ budgets all)
    × (IsStill sample_jwt queue limits false r → All (λ c. IsIdle false c.place c.lines) r.0)
interleave-IsIdle_example =
    interleave-IsIdle sample_jwt queue limits false (of 0 opening) all shared opening-IsActive

-- What was sent to the client of an id in room 1.
abbrev sent_to : Text → WsHub (List Text) → List Text
sent_to id hub = elim (get (or_new (get hub 1)) id) [ none ↦ [] | some client ↦ client.sender ]

-- The update of version 2 reaches the clients before that of version 1, which they keep.
broadcast_out_of_order :
    sent_to (lit "g") later.1.hub
    ≡ lit
        "{\"type\":\"update\",\"room_id\":1,\"room_counter\":2,\"container\":\"public\",\"key\":\"a\",\"value\":2}"
      ∷ lit
          "{\"type\":\"update\",\"room_id\":1,\"room_counter\":1,\"container\":\"public\",\"key\":\"a\",\"value\":1}"
      ∷ []
unfolding interleave get text_eq new find_room store_room room_create set
broadcast_out_of_order = refl
