-- ===== src/Console/Replies.antt =====
-- What a round of the loop leaves of the application, whatever it sends to clients.
use data_sync.Base.{
  ℕ, ◌≡◌, refl, Option, none, some, List, [], ◌∷◌, ◌++◌, ◌∙◌, Bool-cases, inl, inr,
}
use data_sync.Text.{Text, lit}
use data_sync.Text.Number.{print_u64}
use data_sync.Json.{Json}
use data_sync.Jwt.{Jwt}
use data_sync.State.{AppState}
use data_sync.Limiter.{allow}
use data_sync.Hub.{Channel}
use data_sync.Commands.Handlers.{RoomUpdate, Reply}
use data_sync.Commands.Process.{process_command}
use data_sync.Console.{
  Limits, Shared, Turn, room_deleted, count_request, count_reply, clean_hub, send_update,
  send_updates, conclude, run_command,
}

module _ {Value Sender : Type 0} ⦃json : Json Value⦄ (jwt : Jwt) (channel : Channel Sender Value)
    (limits : Limits) (turn : Turn) where
  pub app-send_update :
      (s : Shared Value Sender) (update : RoomUpdate Value)
      → (send_update jwt channel limits turn s update).app ≡ s.app
  unfolding send_update
  app-send_update s update =
      elim (Bool-cases
        (allow s.ws_rooms (lit "room:" ++ print_u64 update.room_id) limits.ws_room_rate_limit
          limits.ws_room_rate_window turn.room_now).0) [ inl yes' ↦ rw yes' | inr no' ↦ rw no' ]

  app-send_updates :
      (s : Shared Value Sender) (updates : List (RoomUpdate Value))
      → (send_updates jwt channel limits turn s updates).app ≡ s.app
  unfolding send_updates
  app-send_updates s [] = refl
  app-send_updates s (update ∷ updates) =
      app-send_updates (send_update jwt channel limits turn s update) updates
      ∙ app-send_update s update

  pub app-clean_hub : (o : Option ℕ) (s : Shared Value Sender) → (clean_hub o s).app ≡ s.app
  unfolding clean_hub
  app-clean_hub none s = refl
  app-clean_hub (some room_id) s = refl

  app-conclude :
      (trimmed : Text) (s : Shared Value Sender) (r : Reply Value × AppState Value)
      → (conclude jwt channel limits turn trimmed s r).1.app ≡ count_reply r.0.0 r.1
  unfolding conclude
  app-conclude trimmed s ((resp, updates), app) = elim (Bool-cases turn.written) [
    | inl yes' ↦ rw yes' (
        app-send_updates
          (clean_hub (room_deleted trimmed resp) (record s { app = count_reply resp app })) updates
        ∙ app-clean_hub (room_deleted trimmed resp) (record s { app = count_reply resp app }))
    | inr no' ↦ rw no'
  ]

  -- A command that is run changes the application by what it does and by its counts.
  pub app-run_command :
      (trimmed : Text) (s : Shared Value Sender)
      → let r = process_command jwt turn.clock (count_request s.app) trimmed in
        ((run_command jwt channel limits turn trimmed s).0 ≡ r.0.0)
        × ((run_command jwt channel limits turn trimmed s).1.app ≡ count_reply r.0.0 r.1)
  unfolding run_command conclude
  app-run_command trimmed s =
      (refl, app-conclude trimmed s (process_command jwt turn.clock (count_request s.app) trimmed))
