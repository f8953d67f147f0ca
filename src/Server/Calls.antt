-- ===== src/Server/Calls.antt =====
-- Any interleaving of command connections as a sequence of the calls of State.Run.
use data_sync.Base.{none, some, ℕ, zero, suc, refl, List, [], ◌∷◌, arith, length}
use data_sync.Json.{Json}
use data_sync.Jwt.{Jwt}
use data_sync.Hub.{Channel}
use data_sync.Commands.Process.{process_command}
use data_sync.Commands.Process.Effects.{process_command-IsEffect}
use data_sync.Console.{Limits, Shared, count_request, count_invalid, count_auth_failure, clean_hub}
use data_sync.Console.Requests.{rooms_of}
use data_sync.Console.Refinement.{IsRun, stay, IsRun-trans, IsEffect-IsRun, rooms_of-count_reply}
use data_sync.Server.{
  Place, limiting, auth_limiting, greeting, keying, refused, looping, malformed, answering, sending,
  broadcasting, limits_at, reads, writes, refusing, miscounted, counting, processing, scoring,
  cleaning, Event, locks, locks_hub, Connection, move, step_one, interleave,
}

module _ {Value Sender : Type 0} ⦃json : Json Value⦄ (jwt : Jwt) (channel : Channel Sender Value)
    (limits : Limits) where
  move-IsRun :
      (place : Place Value) (event : Event) (c : Connection Value) (s : Shared Value Sender)
      → IsRun 1 s.app (move jwt channel limits place event c s).1.app
  unfolding move
  move-IsRun (refusing message) (locks _) c s =
      stay 1 s.app _ (unfold rooms_of count_auth_failure in refl)
  move-IsRun miscounted (locks _) c s = stay 1 s.app _ (unfold rooms_of count_invalid in refl)
  move-IsRun (counting trimmed) (locks _) c s =
      stay 1 s.app _ (unfold rooms_of count_request in refl)
  move-IsRun (processing trimmed) (locks clock) c s =
      let app' = (process_command jwt clock s.app trimmed).1 in
      IsEffect-IsRun s.app app' app' (process_command-IsEffect jwt clock s.app trimmed) refl
  move-IsRun (scoring trimmed resp updates) (locks _) c s =
      stay 1 s.app _ (rooms_of-count_reply resp s.app)
  move-IsRun (cleaning none updates) (locks_hub _) c s = stay 1 s.app _ (unfold clean_hub in refl)
  move-IsRun (cleaning (some room_id) updates) (locks_hub _) c s =
      stay 1 s.app _ (unfold clean_hub in refl)
  move-IsRun limiting (limits_at now) c s = stay 1 s.app s.app refl
  move-IsRun auth_limiting (limits_at now) c s = stay 1 s.app s.app refl
  move-IsRun greeting reads c s = stay 1 s.app s.app refl
  move-IsRun (keying provided_key) (locks _) c s = stay 1 s.app s.app refl
  move-IsRun (refused message) (writes done) c s = stay 1 s.app s.app refl
  move-IsRun looping reads c s = stay 1 s.app s.app refl
  move-IsRun malformed (writes done) c s = stay 1 s.app s.app refl
  move-IsRun (answering trimmed resp updates) (writes done) c s = stay 1 s.app s.app refl
  move-IsRun (sending update updates) (limits_at now) c s = stay 1 s.app s.app refl
  move-IsRun (broadcasting update updates) (locks_hub client_now) c s = stay 1 s.app s.app refl
  move-IsRun place event c s = stay 1 s.app s.app refl

  step_one-IsRun :
      (cs : List (Connection Value)) (i : ℕ) (event : Event) (s : Shared Value Sender)
      → IsRun 1 s.app (step_one jwt channel limits cs i event s).1.app
  unfolding step_one
  step_one-IsRun [] i event s = stay 1 s.app s.app refl
  step_one-IsRun (c ∷ cs) zero event s = move-IsRun c.place event c s
  step_one-IsRun (c ∷ cs) (suc i) event s = step_one-IsRun cs i event s

  -- In whatever order the steps of any connections come, the rooms are afterwards those after a
  -- sequence of calls of the state, at most as many as the steps.
  pub interleave-IsRun :
      (schedule : List (ℕ × Event)) (cs : List (Connection Value)) (s : Shared Value Sender)
      → IsRun (length schedule) s.app (interleave jwt channel limits schedule (cs, s)).1.app
  unfolding interleave
  interleave-IsRun [] cs s = stay 0 s.app s.app refl
  interleave-IsRun ((i, event) ∷ schedule) cs s =
      let (cs', s') = step_one jwt channel limits cs i event s in
      let first = step_one-IsRun cs i event s in
      let later = interleave-IsRun schedule cs' s' in
      IsRun-trans (length ((i, event) ∷ schedule)) (length schedule) s.app s'.app
        (interleave jwt channel limits schedule (cs', s')).1.app first later (omega arith)
