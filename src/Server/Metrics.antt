-- ===== src/Server/Metrics.antt =====
-- The counters of requests and of errors while command connections take turns.
use data_sync.Base.{
  ℕ, zero, suc, ◌+◌, ◌≤◌, ◌<◌, ◌≡◌, refl, List, [], ◌∷◌, arith, length, none, some, u64_mod, Bool,
  true, false, Option, ◌++◌, if◌then◌else◌, inl, inr,
}
use data_sync.Text.{Text, lit, is_empty}
use data_sync.Text.Trim.{trim}
use data_sync.Compare.{constant_time_eq}
use data_sync.Reading.{Input, read_line_with_limit}
use data_sync.Commands.Handlers.{RoomUpdate}
use data_sync.Json.{Json}
use data_sync.Jwt.{Jwt}
use data_sync.State.{AppState}
use data_sync.Hub.{Channel}
use data_sync.Commands.Process.Effects.{process_command-IsEffect}
use data_sync.Console.{Limits, Shared, count_invalid, count_auth_failure, clean_hub, room_deleted}
use data_sync.Console.Counts.{counts_of, counts-IsEffect, counts-count_request, counts-count_reply}
use data_sync.Server.{
  Place, limiting, auth_limiting, greeting, keying, refusing, refused, looping, malformed,
  miscounted, counting, processing, scoring, answering, cleaning, sending, broadcasting, closed,
  Event, limits_at, reads, locks, locks_hub, writes, Connection, first_read, key_read, line_read,
  next_update, read, write, move, step_one, interleave,
}

-- Whether the answer to a request that was counted may still be counted as an error.
unfoldable pub owing : {Value : Type 0} → Place Value → ℕ
owing (processing trimmed) = 1
owing (scoring trimmed resp updates) = 1
owing place = 0

unfoldable pub owed : {Value : Type 0} → List (Connection Value) → ℕ
unfolding owing
owed [] = 0
owed (c ∷ cs) = owing c.place + owed cs

module _ {Value : Type 0} where
  owing-if :
      (b : Bool) (x y : Place Value) → owing x ≤ 0 → owing y ≤ 0 → owing (if b then x else y) ≤ 0
  owing-if true x y le le' = le
  owing-if false x y le le' = le'

  owing-next_update : (updates : List (RoomUpdate Value)) → owing (next_update updates) ≤ 0
  unfolding owing
  owing-next_update [] = omega arith
  owing-next_update (update ∷ updates) = omega arith

  owing-read :
      (go : Option Text → Place Value)
      → ((o : Option Text) → owing (go o) ≤ 0)
      → (lines : List Input) (c : Connection Value) → owing c.place ≤ 0
      → owing (read go lines c).place ≤ 0
  unfolding read
  owing-read go h [] c le = le
  owing-read go h (input ∷ lines) c le = h (read_line_with_limit input)

  owing-write :
      (done : Bool) (text : Text) (place : Place Value) (c : Connection Value)
      → owing place ≤ 0
      → owing (write done text place c).place ≤ 0
  unfolding write owing
  owing-write true text place c le = le
  owing-write false text place c le = omega arith

module _ (Value : Type 0) where
  owing-first_read : (o : Option Text) → owing {Value = Value} (first_read o) ≤ 0
  unfolding owing
  owing-first_read none = omega arith
  owing-first_read (some []) = omega arith
  owing-first_read (some (c ∷ cs)) = omega arith

  owing-line_read : (o : Option Text) → owing {Value = Value} (line_read o) ≤ 0
  unfolding owing line_read
  owing-line_read none = omega arith
  owing-line_read (some []) = omega arith
  owing-line_read (some (c ∷ cs)) =
      owing-if (is_empty (trim (c ∷ cs))) looping (counting (trim (c ∷ cs))) (omega arith)
        (omega arith)

  owing-key_read : (key : Text) (o : Option Text) → owing {Value = Value} (key_read key o) ≤ 0
  unfolding owing key_read
  owing-key_read key none = omega arith
  owing-key_read key (some expected_key) =
      owing-if (constant_time_eq key expected_key) looping
        (refusing (lit "ERROR invalid_api_key\n")) (omega arith) (omega arith)

-- From one pair of counters to a later one, `n` requests are counted at most; and what is counted or
-- owed as errors grows by no more.
record IsPaid (n : ℕ) (p p' : ℕ) (before later : ℕ × ℕ) : Type 0 where
  grows : before.0 ≤ later.0
  requests : later.0 ≤ before.0 + n
  paid : later.1 + p' + before.0 ≤ before.1 + p + later.0

module _ {Value Sender : Type 0} ⦃json : Json Value⦄ (jwt : Jwt) (channel : Channel Sender Value)
    (limits : Limits) where
  idle :
      (p p' : ℕ) (app app' : AppState Value)
      → counts_of app' ≡ counts_of app
      → p' ≤ p
      → IsPaid 1 p p' (counts_of app) (counts_of app')
  idle p p' app app' e le =
      rw e record { grows = omega arith; requests = omega arith; paid = omega (arith, le) }

  move-IsPaid :
      (place : Place Value) (event : Event) (c : Connection Value) (s : Shared Value Sender)
      → c.place ≡ place
      → s.app.total_command_requests + 1 < u64_mod
      → s.app.command_error_count + owing place ≤ s.app.total_command_requests
      → let (c', s') = move jwt channel limits place event c s in
        IsPaid 1 (owing place) (owing c'.place) (counts_of s.app) (counts_of s'.app)
  unfolding move owing
  move-IsPaid (counting trimmed) (locks _) c s at' fits le = rw (counts-count_request s.app fits) (
      unfold counts_of in
      record { grows = omega arith; requests = omega arith; paid = omega arith })
  move-IsPaid (processing trimmed) (locks clock) c s at' fits le =
      idle 1 1 s.app _ (counts-IsEffect s.app _ (process_command-IsEffect jwt clock s.app trimmed))
        (omega arith)
  move-IsPaid (scoring trimmed resp updates) (locks _) c s at' fits le =
      elim (counts-count_reply resp s.app (omega (arith, fits, le))) [
        | inl same ↦ idle 1 0 s.app _ same (omega arith)
        | inr more ↦ rw more (
            unfold counts_of in
            record { grows = omega arith; requests = omega arith; paid = omega arith })
      ]
  move-IsPaid (refusing message) (locks _) c s at' fits le =
      idle 0 0 s.app _ (unfold counts_of count_auth_failure in refl) (omega arith)
  move-IsPaid miscounted (locks _) c s at' fits le =
      idle 0 0 s.app _ (unfold counts_of count_invalid in refl) (omega arith)
  move-IsPaid (cleaning none updates) (locks_hub _) c s at' fits le =
      idle 0 _ s.app _ (unfold clean_hub counts_of in refl) (owing-next_update updates)
  move-IsPaid (cleaning (some room_id) updates) (locks_hub _) c s at' fits le =
      idle 0 _ s.app _ (unfold clean_hub counts_of in refl) (owing-next_update updates)
  move-IsPaid limiting (limits_at now) c s at' fits le =
      idle 0 _ s.app _ refl (owing-if _ auth_limiting closed (omega arith) (omega arith))
  move-IsPaid auth_limiting (limits_at now) c s at' fits le =
      idle 0 _ s.app _ refl (owing-if _ greeting closed (omega arith) (omega arith))
  move-IsPaid greeting reads c s at' fits le =
      idle 0 _ s.app _ refl
        (owing-read first_read (owing-first_read Value) c.lines c (rw at' (omega arith)))
  move-IsPaid (keying provided_key) (locks _) c s at' fits le =
      idle 0 _ s.app _ refl (owing-key_read Value provided_key s.app.command_api_key)
  move-IsPaid (refused message) (writes done) c s at' fits le =
      idle 0 _ s.app _ refl (owing-write done message closed c (omega arith))
  move-IsPaid looping reads c s at' fits le =
      idle 0 _ s.app _ refl
        (owing-read line_read (owing-line_read Value) c.lines c (rw at' (omega arith)))
  move-IsPaid malformed (writes done) c s at' fits le =
      idle 0 _ s.app _ refl
        (owing-write done (lit "ERROR malformed_request\n") miscounted c (omega arith))
  move-IsPaid (answering trimmed resp updates) (writes done) c s at' fits le =
      idle 0 _ s.app _ refl (
        owing-write done (resp ++ lit "\n") (cleaning (room_deleted trimmed resp) updates) c
          (omega arith))
  move-IsPaid (sending update updates) (limits_at now) c s at' fits le = idle 0 _ s.app _ refl (
      owing-if _ (broadcasting update updates) (next_update updates) (omega arith)
        (owing-next_update updates))
  move-IsPaid (broadcasting update updates) (locks_hub client_now) c s at' fits le =
      idle 0 _ s.app _ refl (owing-next_update updates)
  move-IsPaid place event c s at' fits le =
      idle (owing place) (owing c.place) s.app s.app refl (rw at' (omega arith))

  step_one-IsPaid :
      (cs : List (Connection Value)) (i : ℕ) (event : Event) (s : Shared Value Sender)
      → s.app.total_command_requests + 1 < u64_mod
      → s.app.command_error_count + owed cs ≤ s.app.total_command_requests
      → let (cs', s') = step_one jwt channel limits cs i event s in
        IsPaid 1 (owed cs) (owed cs') (counts_of s.app) (counts_of s'.app)
  unfolding step_one owed
  step_one-IsPaid [] i event s fits le = idle 0 0 s.app s.app refl (omega arith)
  step_one-IsPaid (c ∷ cs) zero event s fits le =
      let r = move-IsPaid c.place event c s refl fits (omega (arith, le)) in
      record { grows = r.grows; requests = r.requests; paid = omega (arith, r.paid) }
  step_one-IsPaid (c ∷ cs) (suc i) event s fits le =
      let r = step_one-IsPaid cs i event s fits (omega (arith, le)) in
      record { grows = r.grows; requests = r.requests; paid = omega (arith, r.paid) }

  -- In whatever order the steps of any connections come, a step counts one request at most, and the
  -- errors that are counted, with those that connections between two locks may still count, are never
  -- more than the requests, as long as that was so before and the counter does not reach 2^64.
  pub interleave-IsPaid :
      (schedule : List (ℕ × Event)) (cs : List (Connection Value)) (s : Shared Value Sender)
      → s.app.total_command_requests + length schedule < u64_mod
      → s.app.command_error_count + owed cs ≤ s.app.total_command_requests
      → let (cs', s') = interleave jwt channel limits schedule (cs, s) in
        (s'.app.total_command_requests ≤ s.app.total_command_requests + length schedule)
        × (s'.app.command_error_count + owed cs' ≤ s'.app.total_command_requests)
  unfolding interleave
  interleave-IsPaid [] cs s fits le = (omega arith, le)
  interleave-IsPaid ((i, event) ∷ schedule) cs s fits le =
      let (cs', s') = step_one jwt channel limits cs i event s in
      let r = step_one-IsPaid cs i event s (omega (arith, fits)) le in
      let requests' : s'.app.total_command_requests ≤ s.app.total_command_requests + 1 =
        unfold counts_of in r.requests in
      let paid' : s'.app.command_error_count + owed cs' ≤ s'.app.total_command_requests =
        unfold counts_of in omega (arith, r.paid, le) in
      let later = interleave-IsPaid schedule cs' s' (omega (arith, fits, requests')) paid' in
      (omega (arith, later.0, requests'), later.1)
