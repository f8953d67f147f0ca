-- ===== src/Console/Refinement.antt =====
-- A connection as a sequence of the calls of State.Run.
use data_sync.Base.{
  ℕ, suc, ◌≤◌, ◌≡◌, refl, Bool, Option, none, some, List, [], ◌∷◌, ◌++◌, arith, ap, ◌∙◌, sym,
  length, length-append, Bool-cases, inl, inr,
}
use data_sync.Text.{Text, starts_with, lit, is_empty}
use data_sync.Text.Trim.{trim}
use data_sync.Json.{Json}
use data_sync.Jwt.{Jwt}
use data_sync.State.{AppState}
use data_sync.State.Run.{Call, after, run}
use data_sync.State.Settings.{set_jwt_key}
use data_sync.Hub.{Channel}
use data_sync.Commands.Process.{process_command}
use data_sync.Commands.Process.Effects.{IsEffect, nothing, called, keyed, process_command-IsEffect}
use data_sync.Console.{
  Limits, Shared, Turn, count_request, count_invalid, count_reply, is_invalid, run_command, on_line,
  serve_lines, handle_command_connection, count_auth_failure,
}
use data_sync.Reading.{read_line_with_limit, Input}
use data_sync.Console.Cases.{connection-cases}
use data_sync.Console.Requests.{rooms_of, rooms_of-after}
use data_sync.Console.Replies.{app-run_command}

module _ {Value : Type 0} where
  pub rooms_of-count_reply :
      (resp : Text) (app : AppState Value) → rooms_of (count_reply resp app) ≡ rooms_of app
  unfolding rooms_of count_reply
  rooms_of-count_reply resp app = elim (Bool-cases (starts_with resp (lit "ERROR"))) [
    | inl failed ↦ elim (Bool-cases (is_invalid resp)) [
      | inl invalid ↦ rw (failed, invalid)
      | inr valid ↦ rw (failed, valid)
    ]
    | inr fine ↦ rw fine
  ]

module _ {Value : Type 0} ⦃json : Json Value⦄ where
  run-append :
      (app : AppState Value) (xs ys : List (Call Value)) → run app (xs ++ ys) ≡ run (run app xs) ys
  unfolding run
  run-append app [] ys = refl
  run-append app (x ∷ xs) ys = run-append (after app x) xs ys

  -- The rooms after a step are those after at most `n` calls.
  pub record IsRun (n : ℕ) (app app' : AppState Value) : Type 0 where
    pub calls : List (Call Value)
    pub bound : length calls ≤ n
    pub same : rooms_of app' ≡ run (rooms_of app) calls

  pub stay : (n : ℕ) (app app' : AppState Value) → rooms_of app' ≡ rooms_of app → IsRun n app app'
  stay n app app' p = record { calls = []; bound = omega arith; same = unfold run in p }

  pub IsRun-trans :
      (n m : ℕ) (a b c : AppState Value) → IsRun 1 a b → IsRun m b c → suc m ≤ n → IsRun n a c
  IsRun-trans n m a b c f g le = record {
    calls = f.calls ++ g.calls;
    bound = omega (arith, f.bound, g.bound, le, length-append f.calls g.calls);
    same = g.same ∙ ap (λ x. run x g.calls) f.same ∙ sym (run-append (rooms_of a) f.calls g.calls);
  }

  pub IsRun-weaken : (n m : ℕ) (a b : AppState Value) → IsRun m a b → m ≤ n → IsRun n a b
  IsRun-weaken n m a b f le = record {
    calls = f.calls;
    bound = omega (arith, f.bound, le);
    same = f.same;
  }

  pub IsEffect-IsRun :
      (app app' app'' : AppState Value)
      → IsEffect app app'
      → rooms_of app'' ≡ rooms_of app'
      → IsRun 1 app app''
  IsEffect-IsRun app app' app'' (nothing p) q = stay 1 app app'' (q ∙ ap rooms_of p)
  IsEffect-IsRun app app' app'' (called call p) q = record {
    calls = call ∷ [];
    bound = omega arith;
    same = unfold run in (q ∙ ap rooms_of p ∙ rooms_of-after app call);
  }
  IsEffect-IsRun app app' app'' (keyed key p) q =
      stay 1 app app'' (q ∙ ap rooms_of p ∙ (unfold rooms_of set_jwt_key in refl))

module _ {Value Sender : Type 0} ⦃json : Json Value⦄ (jwt : Jwt) (channel : Channel Sender Value)
    (limits : Limits) where
  run_command-IsRun :
      (turn : Turn) (trimmed : Text) (s : Shared Value Sender)
      → IsRun 1 s.app (run_command jwt channel limits turn trimmed s).1.app
  run_command-IsRun turn trimmed s =
      let r = process_command jwt turn.clock (count_request s.app) trimmed in
      let step =
        IsEffect-IsRun (count_request s.app) r.1
          (run_command jwt channel limits turn trimmed s).1.app
          (process_command-IsEffect jwt turn.clock (count_request s.app) trimmed)
          (ap rooms_of (app-run_command jwt channel limits turn trimmed s).1
            ∙ rooms_of-count_reply r.0.0 r.1) in
      record {
        calls = step.calls;
        bound = step.bound;
        same = step.same ∙ ap (λ x. run x step.calls) (unfold rooms_of count_request in refl);
      }

  on_line-IsRun :
      (turn : Turn) (o : Option Text) (s : Shared Value Sender)
      → IsRun 1 s.app (on_line jwt channel limits turn o s).1.app
  unfolding on_line
  on_line-IsRun turn none s = elim (Bool-cases turn.written) [
    | inl yes' ↦ rw yes' (stay 1 s.app _ (unfold rooms_of count_invalid in refl))
    | inr no' ↦ rw no' (stay 1 s.app s.app refl)
  ]
  on_line-IsRun turn (some []) s = stay 1 s.app s.app refl
  on_line-IsRun turn (some (c ∷ cs)) s = elim (Bool-cases (is_empty (trim (c ∷ cs)))) [
    | inl blank ↦ rw blank (stay 1 s.app s.app refl)
    | inr full ↦ rw full (run_command-IsRun turn (trim (c ∷ cs)) s)
  ]

  serve_lines-IsRun :
      (turns : List Turn) (s : Shared Value Sender)
      → IsRun (length turns) s.app (serve_lines jwt channel limits turns s).1.app
  unfolding serve_lines
  serve_lines-IsRun [] s = stay 0 s.app s.app refl
  serve_lines-IsRun (turn ∷ turns) s =
      let line = read_line_with_limit turn.input in
      let r = on_line jwt channel limits turn line s in
      let first = on_line-IsRun turn line s in
      elim (Bool-cases r.2) [
        | inl on ↦ rw on (
            IsRun-trans (length (turn ∷ turns)) (length turns) s.app r.1.app _ first
              (serve_lines-IsRun turns r.1) (omega arith))
        | inr off ↦
            rw off (IsRun-weaken (length (turn ∷ turns)) 1 s.app r.1.app first (omega arith))
      ]

  -- The rooms after a connection, however much of it was read, written or refused, are those after a
  -- sequence of calls of the state, at most as many as the rounds of its loop.
  pub handle_command_connection-IsRun :
      (ip : Text) (now now' : ℕ) (first : Input) (written : Bool) (turns : List Turn)
      (s : Shared Value Sender)
      → IsRun
          (length turns)
          s.app
          (handle_command_connection jwt channel limits ip now now' first written turns s).1.app
  handle_command_connection-IsRun ip now now' first written turns s =
      connection-cases jwt channel limits written turns (λ s'. IsRun (length turns) s.app s'.app) ip
        now now' first s
        (λ commands command_auths.
          let s' = record s { commands = commands; command_auths = command_auths } in
          (
            stay (length turns) s.app s.app refl,
            stay (length turns) s.app _ (unfold rooms_of count_auth_failure in refl),
            serve_lines-IsRun turns s',
          ))
