-- ===== src/Server/Replies.antt =====
-- The answers of each of several command connections.
use data_sync.Base.{
  ℕ, ◌≡◌, Option, some, none, List, [], ◌∷◌, get_elem?, if◌then◌else◌, ◌==◌, nat_eq,
}
use data_sync.Text.{Text}
use data_sync.Json.{Json}
use data_sync.Jwt.{Jwt}
use data_sync.State.{AppState}
use data_sync.Hub.{Channel}
use data_sync.Console.{Limits, Shared}
use data_sync.Reading.{Input}
use data_sync.Server.{Event, Connection, step_one}
use data_sync.Server.Expected.{IsAnswered}
use data_sync.Server.Answered.{answered_in}

module _ {Value Sender : Type 0} ⦃json : Json Value⦄ (jwt : Jwt) (channel : Channel Sender Value)
    (limits : Limits) where
  -- The commands and the answers of a connection, after a step of it from its place.
  abbrev answered_by :
      Option (Connection Value)
      → Event
      → AppState Value
      → List Text × List Text
      → List Text × List Text
  answered_by none event app own = own
  answered_by (some c) event app own = answered_in jwt c.place event app own

  -- The commands of the connection of a number that were processed along a schedule, and their
  -- answers, after some that it had.
  unfoldable pub own_commands :
      ℕ
      → List (ℕ × Event)
      → List (Connection Value) × Shared Value Sender
      → List Text × List Text
      → List Text × List Text
  unfolding step_one
  own_commands i [] (cs, s) own = own
  own_commands i ((j, event) ∷ schedule) (cs, s) own =
      own_commands i schedule (step_one jwt channel limits cs j event s)
        (if i == j then answered_by (get_elem? cs j) event s.app own else own)

  -- The connection of a number has written what is expected of it.
  abbrev pub IsAnsweredAt :
      Option Text → List Input → List (Connection Value) → ℕ → List Text × List Text → Type 0
  IsAnsweredAt key all cs i own =
      (c : Connection Value) × (get_elem? cs i ≡ some c)
      × IsAnswered key all c.place c.lines c.written own.0 own.1
