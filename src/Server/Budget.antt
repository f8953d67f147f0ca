-- ===== src/Server/Budget.antt =====
-- How many steps a connection can still take.
use data_sync.Base.{
  ℕ, ◌+◌, ◌*◌, ◌≤◌, ◌≡◌, ◌⊎◌, inl, inr, refl, not, Bool, true, false, Option, none, some, List, [],
  ◌∷◌, ◌++◌, length, if◌then◌else◌, arith,
}
use data_sync.Text.{Text, lit, is_empty}
use data_sync.Text.Trim.{trim}
use data_sync.Text.Number.{print_u64}
use data_sync.Json.{Json}
use data_sync.Jwt.{Jwt}
use data_sync.Limiter.{allow}
use data_sync.Compare.{constant_time_eq}
use data_sync.Reading.{Input, read_line_with_limit}
use data_sync.Hub.{Channel}
use data_sync.Commands.Handlers.{RoomUpdate}
use data_sync.Commands.Process.{process_command}
use data_sync.Commands.Process.Updates.{length-IsSent, process_command-IsSent}
use data_sync.Console.{Limits, Shared, room_deleted}
use data_sync.Server.{
  Place, limiting, auth_limiting, greeting, keying, refusing, refused, looping, malformed,
  miscounted, counting, processing, scoring, answering, cleaning, sending, broadcasting, closed,
  Event, limits_at, reads, locks, locks_hub, writes, Connection, first_read, key_read, line_read,
  next_update, read, write, move,
}

-- A line takes eight steps at most; the number is that of the lines still to be read.
unfoldable pub budget : {Value : Type 0} → Place Value → ℕ → ℕ
budget limiting n = 8 * n + 2
budget auth_limiting n = 8 * n + 1
budget greeting n = 8 * n
budget (keying provided_key) n = 8 * n + 3
budget (refusing message) n = 8 * n + 2
budget (refused message) n = 8 * n + 1
budget looping n = 8 * n
budget malformed n = 8 * n + 2
budget miscounted n = 8 * n + 1
budget (counting trimmed) n = 8 * n + 7
budget (processing trimmed) n = 8 * n + 6
budget (scoring trimmed resp updates) n = 8 * n + 3 + 2 * length updates
budget (answering trimmed resp updates) n = 8 * n + 2 + 2 * length updates
budget (cleaning room updates) n = 8 * n + 1 + 2 * length updates
budget (sending update updates) n = 8 * n + 2 + 2 * length updates
budget (broadcasting update updates) n = 8 * n + 1 + 2 * length updates
budget closed n = 0

unfoldable pub budget_of : {Value : Type 0} → Connection Value → ℕ
unfolding budget
budget_of c = budget c.place (length c.lines)

module _ {Value : Type 0} where
  budget-next_update :
      (n : ℕ) (updates : List (RoomUpdate Value))
      → budget (next_update updates) n ≤ 8 * n + 2 * length updates
  unfolding budget
  budget-next_update n [] = omega arith
  budget-next_update n (update ∷ updates) = omega arith

  budget-write :
      (k : ℕ) (done : Bool) (text : Text) (place : Place Value) (c : Connection Value)
      → budget place (length c.lines) ≤ k
      → budget_of (write done text place c) ≤ k
  unfolding write budget_of budget
  budget-write k true text place c le = le
  budget-write k false text place c le = omega arith

module _ (Value : Type 0) (n : ℕ) where
  budget-if :
      (k : ℕ) (b : Bool) (x y : Place Value)
      → budget x n ≤ k
      → budget y n ≤ k
      → budget (if b then x else y) n ≤ k
  budget-if k true x y le le' = le
  budget-if k false x y le le' = le'

  budget-first_read : (o : Option Text) → budget {Value = Value} (first_read o) n ≤ 8 * n + 7
  unfolding budget
  budget-first_read none = omega arith
  budget-first_read (some []) = omega arith
  budget-first_read (some (c ∷ cs)) = omega arith

  budget-line_read : (o : Option Text) → budget {Value = Value} (line_read o) n ≤ 8 * n + 7
  unfolding budget line_read
  budget-line_read none = omega arith
  budget-line_read (some []) = omega arith
  budget-line_read (some (c ∷ cs)) =
      budget-if (8 * n + 7) (is_empty (trim (c ∷ cs))) looping (counting (trim (c ∷ cs)))
        (omega arith) (omega arith)

  budget-key_read :
      (key : Text) (o : Option Text) → budget {Value = Value} (key_read key o) n ≤ 8 * n + 2
  unfolding budget key_read
  budget-key_read key none = omega arith
  budget-key_read key (some expected_key) =
      budget-if (8 * n + 2) (constant_time_eq key expected_key) looping
        (refusing (lit "ERROR invalid_api_key\n")) (omega arith) (omega arith)

-- Whether an event is what a connection waits for.
unfoldable pub awaits : {Value : Type 0} → Place Value → Event → List Input → Bool
awaits limiting (limits_at now) lines = true
awaits auth_limiting (limits_at now) lines = true
awaits greeting reads lines = not (is_empty lines)
awaits (keying provided_key) (locks _) lines = true
awaits (refusing message) (locks _) lines = true
awaits (refused message) (writes done) lines = true
awaits looping reads lines = not (is_empty lines)
awaits malformed (writes done) lines = true
awaits miscounted (locks _) lines = true
awaits (counting trimmed) (locks _) lines = true
awaits (processing trimmed) (locks clock) lines = true
awaits (scoring trimmed resp updates) (locks _) lines = true
awaits (answering trimmed resp updates) (writes done) lines = true
awaits (cleaning room updates) (locks_hub _) lines = true
awaits (sending update updates) (limits_at now) lines = true
awaits (broadcasting update updates) (locks_hub client_now) lines = true
awaits place event lines = false

-- A step leaves everything as it is, and was not waited for, or something less is left to do.
abbrev pub IsStep :
    {Value Sender : Type 0}
    → Bool
    → (r r' : Connection Value × Shared Value Sender) → ℕ
    → ℕ
    → Type 0
IsStep awaited r r' k k' = ((r' ≡ r) × (awaited ≡ false)) ⊎ (k' + 1 ≤ k)

module _ {Value Sender : Type 0} where
  read-IsStep :
      (go : Option Text → Place Value)
      → ((n : ℕ) (o : Option Text) → budget (go o) n ≤ 8 * n + 7)
      → (lines : List Input) (c : Connection Value) (s : Shared Value Sender)
      → IsStep
          (not (is_empty lines))
          (c, s)
          (read go lines c, s)
          (8 * length lines)
          (budget_of (read go lines c))
  unfolding read budget_of
  read-IsStep go h [] c s = inl (refl, refl)
  read-IsStep go h (input ∷ lines) c s =
      inr (omega (arith, h (length lines) (read_line_with_limit input)))

module _ {Value Sender : Type 0} ⦃json : Json Value⦄ (jwt : Jwt) (channel : Channel Sender Value)
    (limits : Limits) where
  pub move-IsStep :
      (place : Place Value) (event : Event) (c : Connection Value) (s : Shared Value Sender)
      → let r = move jwt channel limits place event c s in
        IsStep (awaits place event c.lines) (c, s) r (budget place (length c.lines)) (budget_of r.0)
  unfolding move awaits budget budget_of
  move-IsStep limiting (limits_at now) c s =
      let n = length c.lines in
      inr (
        omega (
          arith,
          budget-if Value n (8 * n + 1)
              (allow s.commands c.ip limits.cmd_rate_limit limits.cmd_rate_window now).0
              auth_limiting closed (omega arith) (omega arith),
        ))
  move-IsStep auth_limiting (limits_at now) c s =
      let n = length c.lines in
      inr (
        omega (
          arith,
          budget-if Value n (8 * n)
              (allow s.command_auths c.ip limits.command_auth_rate_limit
                limits.command_auth_rate_window now).0
              greeting closed (omega arith) (omega arith),
        ))
  move-IsStep greeting reads c s =
      read-IsStep first_read (λ n o. budget-first_read Value n o) c.lines c s
  move-IsStep (keying provided_key) (locks _) c s =
      let n = length c.lines in
      inr (omega (arith, budget-key_read Value n provided_key s.app.command_api_key))
  move-IsStep (refusing message) (locks _) c s = inr (omega arith)
  move-IsStep (refused message) (writes done) c s =
      inr (omega (arith, budget-write 0 done message closed c (omega arith)))
  move-IsStep looping reads c s =
      read-IsStep line_read (λ n o. budget-line_read Value n o) c.lines c s
  move-IsStep malformed (writes done) c s =
      let n = length c.lines in
      inr (
        omega (
          arith,
          budget-write (8 * n + 1) done (lit "ERROR malformed_request\n") miscounted c
              (omega arith),
        ))
  move-IsStep miscounted (locks _) c s = inr (omega arith)
  move-IsStep (counting trimmed) (locks _) c s = inr (omega arith)
  move-IsStep (processing trimmed) (locks clock) c s =
      let updates = (process_command jwt clock s.app trimmed).0.1 in
      inr (omega (arith, length-IsSent updates (process_command-IsSent jwt clock s.app trimmed)))
  move-IsStep (scoring trimmed resp updates) (locks _) c s = inr (omega arith)
  move-IsStep (answering trimmed resp updates) (writes done) c s =
      let n = length c.lines in
      inr (
        omega (
          arith,
          budget-write (8 * n + 1 + 2 * length updates) done (resp ++ lit "\n")
              (cleaning (room_deleted trimmed resp) updates) c (omega arith),
        ))
  move-IsStep (cleaning room updates) (locks_hub _) c s =
      inr (omega (arith, budget-next_update (length c.lines) updates))
  move-IsStep (sending update updates) (limits_at now) c s =
      let n = length c.lines in
      inr (
        omega (
          arith,
          budget-if Value n (8 * n + 1 + 2 * length updates)
              (allow s.ws_rooms (lit "room:" ++ print_u64 update.room_id) limits.ws_room_rate_limit
                limits.ws_room_rate_window now).0
              (broadcasting update updates) (next_update updates) (omega arith)
              (omega (arith, budget-next_update n updates)),
        ))
  move-IsStep (broadcasting update updates) (locks_hub client_now) c s =
      inr (omega (arith, budget-next_update (length c.lines) updates))
  move-IsStep place event c s = inl (refl, refl)
