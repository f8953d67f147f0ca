-- ===== src/Server/Steps.antt =====
-- What a step of one connection does to the others, and to the configured key.
use data_sync.Base.{
  ℕ, zero, suc, ◌≡◌, ◌≢◌, refl, ap, none, some, List, [], ◌∷◌, get_elem?, Bool-cases, inl, inr,
}
use mathlib.Core.Option
use data_sync.Text.{Text, lit, starts_with}
use data_sync.Json.{Json}
use data_sync.Jwt.{Jwt}
use data_sync.Hub.{Channel}
use data_sync.State.{AppState}
use data_sync.State.Settings.{set_jwt_key}
use data_sync.Commands.Process.{process_command}
use data_sync.Commands.Process.Effects.{process_command-IsEffect}
use data_sync.Commands.Process.Kept.{kept-IsEffect}
use data_sync.Console.{
  Limits, Shared, count_request, count_reply, count_invalid, count_auth_failure, is_invalid,
  clean_hub,
}
use data_sync.Server.{
  Place, limiting, auth_limiting, greeting, keying, refusing, refused, looping, malformed,
  miscounted, counting, processing, scoring, answering, cleaning, sending, broadcasting, Event,
  limits_at, reads, locks, locks_hub, writes, Connection, move, step_one,
}

module _ {Value Sender : Type 0} ⦃json : Json Value⦄ (jwt : Jwt) (channel : Channel Sender Value)
    (limits : Limits) (event : Event) (s : Shared Value Sender) where
  pub step_one_self :
      (cs : List (Connection Value)) (i : ℕ) (c : Connection Value)
      → get_elem? cs i ≡ some c
      → let r = move jwt channel limits c.place event c s in
        (get_elem? (step_one jwt channel limits cs i event s).0 i ≡ some r.0)
        × ((step_one jwt channel limits cs i event s).1 ≡ r.1)
  unfolding step_one
  step_one_self [] i c p = absurd cc
  step_one_self (d ∷ cs) zero c p = rw (Option.some_inj.0 p) (refl, refl)
  step_one_self (d ∷ cs) (suc i) c p = step_one_self cs i c p

  pub step_one-other :
      (cs : List (Connection Value)) (i j : ℕ)
      → i ≢ j
      → get_elem? (step_one jwt channel limits cs j event s).0 i ≡ get_elem? cs i
  unfolding step_one
  step_one-other [] i j h = refl
  step_one-other (d ∷ cs) zero zero h = absurd (h refl)
  step_one-other (d ∷ cs) (suc i) zero h = refl
  step_one-other (d ∷ cs) zero (suc j) h = refl
  step_one-other (d ∷ cs) (suc i) (suc j) h = step_one-other cs i j (λ e. h (ap suc e))

module _ {Value : Type 0} where
  key-count_reply :
      (resp : Text) (app : AppState Value)
      → (count_reply resp app).command_api_key ≡ app.command_api_key
  unfolding count_reply
  key-count_reply resp app = elim (Bool-cases (starts_with resp (lit "ERROR"))) [
    | inl failed ↦ elim (Bool-cases (is_invalid resp)) [
      | inl invalid ↦ rw (failed, invalid)
      | inr valid ↦ rw (failed, valid)
    ]
    | inr fine ↦ rw fine
  ]

module _ {Value Sender : Type 0} ⦃json : Json Value⦄ (jwt : Jwt) (channel : Channel Sender Value)
    (limits : Limits) where
  key-move :
      (place : Place Value) (event : Event) (c : Connection Value) (s : Shared Value Sender)
      → (move jwt channel limits place event c s).1.app.command_api_key ≡ s.app.command_api_key
  unfolding move count_request count_invalid count_auth_failure clean_hub set_jwt_key
  key-move (processing trimmed) (locks clock) c s =
      kept-IsEffect (λ app. app.command_api_key) (λ app rooms next_room_id. refl) s.app
        (process_command jwt clock s.app trimmed).1 (λ key. refl)
        (process_command-IsEffect jwt clock s.app trimmed)
  key-move (scoring trimmed resp updates) (locks _) c s = key-count_reply resp s.app
  key-move (cleaning none updates) (locks_hub _) c s = refl
  key-move (cleaning (some room_id) updates) (locks_hub _) c s = refl
  key-move (refusing message) (locks _) c s = refl
  key-move miscounted (locks _) c s = refl
  key-move (counting trimmed) (locks _) c s = refl
  key-move limiting (limits_at now) c s = refl
  key-move auth_limiting (limits_at now) c s = refl
  key-move greeting reads c s = refl
  key-move (keying provided_key) (locks _) c s = refl
  key-move (refused message) (writes done) c s = refl
  key-move looping reads c s = refl
  key-move malformed (writes done) c s = refl
  key-move (answering trimmed resp updates) (writes done) c s = refl
  key-move (sending update updates) (limits_at now) c s = refl
  key-move (broadcasting update updates) (locks_hub client_now) c s = refl
  key-move place event c s = refl

  pub key-step_one :
      (cs : List (Connection Value)) (i : ℕ) (event : Event) (s : Shared Value Sender)
      → (step_one jwt channel limits cs i event s).1.app.command_api_key ≡ s.app.command_api_key
  unfolding step_one
  key-step_one [] i event s = refl
  key-step_one (c ∷ cs) zero event s = key-move c.place event c s
  key-step_one (c ∷ cs) (suc i) event s = key-step_one cs i event s
