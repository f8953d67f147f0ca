-- ===== src/Server/History.antt =====
-- Command connections that take turns, as one sequence of commands.
use data_sync.Base.{
  ℕ, zero, suc, ◌≡◌, refl, sym, ap, subst, Bool-cases, inl, inr, none, some, List, [], ◌∷◌, ◌++◌,
}
use data_sync.Text.{Text, lit, starts_with}
use data_sync.Json.{Json}
use data_sync.Jwt.{Jwt}
use data_sync.Hub.{Channel}
use data_sync.State.{AppState}
use data_sync.Commands.Process.{process_command}
use data_sync.Commands.Process.Plain.{plain_of, process_command-plain_of}
use data_sync.Console.{
  Limits, Shared, count_request, count_reply, count_invalid, count_auth_failure, is_invalid,
  clean_hub,
}
use data_sync.Server.{
  Place, limiting, auth_limiting, greeting, keying, refusing, refused, looping, malformed,
  miscounted, counting, processing, scoring, answering, cleaning, sending, broadcasting, Event,
  limits_at, reads, locks, locks_hub, writes, Connection, move, step_one, interleave,
}

-- A command that a connection processes in a step: its time, its line, and what it is answered with.
abbrev pub processed : {Value : Type 0} → Place Value → Event → Place Value → List (ℕ × Text × Text)
processed (processing trimmed) (locks clock) (scoring again resp updates) =
    (clock, trimmed, resp) ∷ []
processed place event later = []

module _ {Value : Type 0} where
  plain_of-count_reply :
      (resp : Text) (app : AppState Value) → plain_of (count_reply resp app) ≡ plain_of app
  unfolding plain_of count_reply count_invalid
  plain_of-count_reply resp app = elim (Bool-cases (starts_with resp (lit "ERROR"))) [
    | inl failed ↦ elim (Bool-cases (is_invalid resp)) [
      | inl invalid ↦ rw (failed, invalid) refl
      | inr valid ↦ rw (failed, valid) refl
    ]
    | inr fine ↦ rw fine refl
  ]

module _ {Value : Type 0} ⦃json : Json Value⦄ (jwt : Jwt) where
  -- The commands lead, one after another, from a state to a later one, with those answers.
  abbrev pub IsHistory : AppState Value → List (ℕ × Text × Text) → AppState Value → Type 0
  IsHistory app [] app' = app' ≡ app
  IsHistory app ((clock, line, resp) ∷ history) app' =
      let ((reply, updates), next) = process_command jwt clock app line in
      (reply ≡ resp) × IsHistory next history app'

  IsHistory-append :
      (a b c : AppState Value) (xs ys : List (ℕ × Text × Text))
      → IsHistory a xs b
      → IsHistory b ys c
      → IsHistory a (xs ++ ys) c
  IsHistory-append a b c [] ys p h = subst (λ x. IsHistory x ys c) p h
  IsHistory-append a b c ((clock, line, resp) ∷ xs) ys (p, hs) h =
      (p, IsHistory-append (process_command jwt clock a line).1 b c xs ys hs h)

module _ {Value Sender : Type 0} ⦃json : Json Value⦄ (jwt : Jwt) (channel : Channel Sender Value)
    (limits : Limits) where
  move-IsHistory :
      (place : Place Value) (event : Event) (c : Connection Value) (s : Shared Value Sender)
      → let (c', s') = move jwt channel limits place event c s in
        IsHistory jwt (plain_of s.app) (processed place event c'.place) (plain_of s'.app)
  unfolding move
  move-IsHistory (processing trimmed) (locks clock) c s =
      let e = process_command-plain_of jwt clock s.app trimmed in
      (ap (λ x. x.0.0) e, sym (ap (λ x. x.1) e))
  move-IsHistory (refusing message) (locks _) c s = unfold count_auth_failure plain_of in refl
  move-IsHistory miscounted (locks _) c s = unfold count_invalid plain_of in refl
  move-IsHistory (counting trimmed) (locks _) c s = unfold count_request plain_of in refl
  move-IsHistory (scoring trimmed resp updates) (locks _) c s = plain_of-count_reply resp s.app
  move-IsHistory (cleaning none updates) (locks_hub _) c s = unfold clean_hub in refl
  move-IsHistory (cleaning (some room_id) updates) (locks_hub _) c s = unfold clean_hub in refl
  move-IsHistory limiting (limits_at now) c s = refl
  move-IsHistory auth_limiting (limits_at now) c s = refl
  move-IsHistory greeting reads c s = refl
  move-IsHistory (keying provided_key) (locks _) c s = refl
  move-IsHistory (refused message) (writes done) c s = refl
  move-IsHistory looping reads c s = refl
  move-IsHistory malformed (writes done) c s = refl
  move-IsHistory (answering trimmed resp updates) (writes done) c s = refl
  move-IsHistory (sending update updates) (limits_at now) c s = refl
  move-IsHistory (broadcasting update updates) (locks_hub client_now) c s = refl
  move-IsHistory place event c s = refl

  -- What the connection of a number processes in a step.
  unfoldable pub processed_by :
      List (Connection Value) → ℕ → Event → Shared Value Sender → List (ℕ × Text × Text)
  unfolding move
  processed_by [] i event s = []
  processed_by (c ∷ cs) zero event s =
      processed c.place event (move jwt channel limits c.place event c s).0.place
  processed_by (c ∷ cs) (suc i) event s = processed_by cs i event s

  -- The commands of a schedule, in the order in which they are processed.
  unfoldable pub history :
      List (ℕ × Event) → List (Connection Value) × Shared Value Sender → List (ℕ × Text × Text)
  unfolding step_one processed_by
  history [] (cs, s) = []
  history ((i, event) ∷ schedule) (cs, s) =
      processed_by cs i event s ++ history schedule (step_one jwt channel limits cs i event s)

  step_one-IsHistory :
      (cs : List (Connection Value)) (i : ℕ) (event : Event) (s : Shared Value Sender)
      → IsHistory jwt
          (plain_of s.app)
          (processed_by cs i event s)
          (plain_of (step_one jwt channel limits cs i event s).1.app)
  unfolding step_one processed_by
  step_one-IsHistory [] i event s = refl
  step_one-IsHistory (c ∷ cs) zero event s = move-IsHistory c.place event c s
  step_one-IsHistory (c ∷ cs) (suc i) event s = step_one-IsHistory cs i event s

  -- In whatever order the steps of any connections come, the commands that they process, one after
  -- another in the order in which they hold the application's lock, lead from the state before to the
  -- state after, and have the answers that the connections go on with, where the counters of requests,
  -- errors and failures are left aside.
  pub interleave-IsHistory :
      (schedule : List (ℕ × Event)) (cs : List (Connection Value)) (s : Shared Value Sender)
      → IsHistory jwt
          (plain_of s.app)
          (history schedule (cs, s))
          (plain_of (interleave jwt channel limits schedule (cs, s)).1.app)
  unfolding interleave history
  interleave-IsHistory [] cs s = refl
  interleave-IsHistory ((i, event) ∷ schedule) cs s =
      let (cs', s') = step_one jwt channel limits cs i event s in
      IsHistory-append jwt (plain_of s.app) (plain_of s'.app) _ (processed_by cs i event s)
        (history schedule (cs', s')) (step_one-IsHistory cs i event s)
        (interleave-IsHistory schedule cs' s')
