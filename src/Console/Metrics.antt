-- ===== src/Console/Metrics.antt =====
-- The counters of requests and of errors after a command connection.
use data_sync.Base.{
  ℕ, suc, ◌+◌, ◌≤◌, ◌<◌, refl, Bool, Option, none, some, List, [], ◌∷◌, arith, length, u64_mod,
  Bool-cases, inl, inr,
}
use data_sync.Text.{Text, is_empty}
use data_sync.Text.Trim.{trim}
use data_sync.Json.{Json}
use data_sync.Jwt.{Jwt}
use data_sync.Hub.{Channel}
use data_sync.Commands.Process.{process_command}
use data_sync.Commands.Process.Effects.{process_command-IsEffect}
use data_sync.Console.{
  Limits, Shared, Turn, count_request, count_invalid, count_auth_failure, run_command, on_line,
  serve_lines, handle_command_connection,
}
use data_sync.Reading.{Input, read_line_with_limit}
use data_sync.Console.Replies.{app-run_command}
use data_sync.Console.Cases.{connection-cases}
use data_sync.Console.Counts.{
  counts_of, IsCounted, IsCounted-trans, IsCounted-weaken, unchanged, replied, counts-IsEffect,
}

-- No counter overflows in `n` more requests.
pub record HasRoom (n : ℕ) (counts : ℕ × ℕ) : Type 0 where
  pub fits : counts.0 + n < u64_mod
  pub fewer : counts.1 ≤ counts.0

HasRoom-one : (n : ℕ) (counts : ℕ × ℕ) → HasRoom (suc n) counts → HasRoom 1 counts
HasRoom-one n counts h = record { fits = omega (arith, h.fits); fewer = h.fewer }

HasRoom-later : (n : ℕ) (a b : ℕ × ℕ) → HasRoom (suc n) a → IsCounted 1 a b → HasRoom n b
HasRoom-later n a b h f = record {
  fits = omega (arith, h.fits, f.requests);
  fewer = omega (arith, h.fewer, f.errors, f.grows);
}

module _ {Value Sender : Type 0} ⦃json : Json Value⦄ (jwt : Jwt) (channel : Channel Sender Value)
    (limits : Limits) where
  run_command-IsCounted :
      (turn : Turn) (trimmed : Text) (s : Shared Value Sender)
      → HasRoom 1 (counts_of s.app)
      → IsCounted 1
          (counts_of s.app)
          (counts_of (run_command jwt channel limits turn trimmed s).1.app)
  run_command-IsCounted turn trimmed s h =
      let r = process_command jwt turn.clock (count_request s.app) trimmed in
      rw (app-run_command jwt channel limits turn trimmed s).1 (
        replied r.0.0 s.app r.1 (unfold counts_of in h.fits) (unfold counts_of in h.fewer) (
          counts-IsEffect (count_request s.app) r.1
            (process_command-IsEffect jwt turn.clock (count_request s.app) trimmed)))

  on_line-IsCounted :
      (turn : Turn) (o : Option Text) (s : Shared Value Sender)
      → HasRoom 1 (counts_of s.app)
      → IsCounted 1 (counts_of s.app) (counts_of (on_line jwt channel limits turn o s).1.app)
  unfolding on_line
  on_line-IsCounted turn none s h = elim (Bool-cases turn.written) [
    | inl yes' ↦ rw yes' (unchanged 1 s.app _ (unfold counts_of count_invalid in refl))
    | inr no' ↦ rw no' (unchanged 1 s.app s.app refl)
  ]
  on_line-IsCounted turn (some []) s h = unchanged 1 s.app s.app refl
  on_line-IsCounted turn (some (c ∷ cs)) s h = elim (Bool-cases (is_empty (trim (c ∷ cs)))) [
    | inl blank ↦ rw blank (unchanged 1 s.app s.app refl)
    | inr full ↦ rw full (run_command-IsCounted turn (trim (c ∷ cs)) s h)
  ]

  serve_lines-IsCounted :
      (turns : List Turn) (s : Shared Value Sender)
      → HasRoom (length turns) (counts_of s.app)
      → IsCounted
          (length turns)
          (counts_of s.app)
          (counts_of (serve_lines jwt channel limits turns s).1.app)
  unfolding serve_lines
  serve_lines-IsCounted [] s h = unchanged 0 s.app s.app refl
  serve_lines-IsCounted (turn ∷ turns) s h =
      let line = read_line_with_limit turn.input in
      let r = on_line jwt channel limits turn line s in
      let n = length turns in
      let first = on_line-IsCounted turn line s (HasRoom-one n (counts_of s.app) h) in
      elim (Bool-cases r.2) [
        | inl on ↦ rw on (
            IsCounted-trans n (counts_of s.app) (counts_of r.1.app) _ first (
              serve_lines-IsCounted turns r.1
                (HasRoom-later n (counts_of s.app) (counts_of r.1.app) h first)))
        | inr off ↦ rw off (IsCounted-weaken n (counts_of s.app) (counts_of r.1.app) first)
      ]

  -- After a connection, at most one request more is counted for each round of its loop, and no more
  -- errors than requests, as long as the counters do not reach 2^64 and held no more errors than
  -- requests before.
  pub handle_command_connection-IsCounted :
      (ip : Text) (now now' : ℕ) (first : Input) (written : Bool) (turns : List Turn)
      (s : Shared Value Sender)
      → HasRoom (length turns) (counts_of s.app)
      → IsCounted (length turns) (counts_of s.app) (
          counts_of
            (handle_command_connection jwt channel limits ip now now' first written turns s).1.app)
  handle_command_connection-IsCounted ip now now' first written turns s h =
      connection-cases jwt channel limits written turns
        (λ s'. IsCounted (length turns) (counts_of s.app) (counts_of s'.app)) ip now now' first s
        (λ commands command_auths.
          let s' = record s { commands = commands; command_auths = command_auths } in
          (
            unchanged (length turns) s.app s.app refl,
            unchanged (length turns) s.app _ (unfold counts_of count_auth_failure in refl),
            serve_lines-IsCounted turns s' h,
          ))
