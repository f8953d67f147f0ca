-- ===== src/Console/Validity.antt =====
-- The invariant of State.Run.Valid from one command connection to the next.
use data_sync.Base.{ℕ, ◌+◌, ◌≤◌, ◌<◌, Bool, List, arith, length, subst, sym, u64_mod}
use data_sync.Text.{Text}
use data_sync.Json.{Json}
use data_sync.Jwt.{Jwt}
use data_sync.State.{AppState, find_room}
use data_sync.State.Run.Valid.{IsValid}
use data_sync.State.Run.Steps.{run-IsValid}
use data_sync.Hub.{Channel}
use data_sync.Console.{Limits, Shared, Turn, handle_command_connection}
use data_sync.Reading.{Input}
use data_sync.Console.Requests.{rooms_of}
use data_sync.Console.Refinement.{IsRun, handle_command_connection-IsRun}

module _ {Value : Type 0} (n : ℕ) (app : AppState Value) where
  IsValid-rooms_of : IsValid n app → IsValid n (rooms_of app)
  IsValid-rooms_of v = record {
    ids = unfold rooms_of in v.ids;
    next = unfold rooms_of in v.next;
    fresh = unfold rooms_of in v.fresh;
    unpoisoned = unfold rooms_of in v.unpoisoned;
    sound = unfold rooms_of find_room in v.sound;
  }

  rooms_of-IsValid : IsValid n (rooms_of app) → IsValid n app
  rooms_of-IsValid v = record {
    ids = unfold rooms_of in v.ids;
    next = unfold rooms_of in v.next;
    fresh = unfold rooms_of in v.fresh;
    unpoisoned = unfold rooms_of in v.unpoisoned;
    sound = unfold rooms_of find_room in v.sound;
  }

module _ {Value : Type 0} ⦃json : Json Value⦄ where
  -- The rooms after a sequence of calls are valid, at a moment that is later by as many calls.
  pub IsRun-IsValid :
      (n k : ℕ) (app app' : AppState Value)
      → IsValid n app
      → n + k + 1 < u64_mod
      → IsRun k app app'
      → (m : ℕ) × (m ≤ k) × IsValid (n + m) app'
  IsRun-IsValid n k app app' v fits r = (
    length r.calls,
    r.bound,
    rooms_of-IsValid (n + length r.calls) app' (
        subst (λ x. IsValid (n + length r.calls) x) (sym r.same)
          (run-IsValid n (rooms_of app) r.calls (IsValid-rooms_of n app v)
            (omega (arith, r.bound, fits)))),
  )

module _ {Value Sender : Type 0} ⦃json : Json Value⦄ (jwt : Jwt) (channel : Channel Sender Value)
    (limits : Limits) where
  -- A connection keeps the invariant, at a moment that is later by one call a round at most, as long
  -- as fewer than 2^64 - 1 calls are made in all.
  pub handle_command_connection-IsValid :
      (n : ℕ) (ip : Text) (now now' : ℕ) (first : Input) (written : Bool) (turns : List Turn)
      (s : Shared Value Sender)
      → IsValid n s.app
      → n + length turns + 1 < u64_mod
      → (m : ℕ) × (m ≤ length turns)
        × IsValid
            (n + m)
            (handle_command_connection jwt channel limits ip now now' first written turns s).1.app
  handle_command_connection-IsValid n ip now now' first written turns s v fits =
      IsRun-IsValid n (length turns) s.app _ v fits
        (handle_command_connection-IsRun jwt channel limits ip now now' first written turns s)
