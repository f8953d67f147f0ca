-- ===== src/Server/Validity.antt =====
-- The invariant of State.Run.Valid while command connections take turns.
use data_sync.Base.{ℕ, ◌+◌, ◌≤◌, ◌<◌, List, length, u64_mod}
use data_sync.Json.{Json}
use data_sync.Jwt.{Jwt}
use data_sync.State.Run.Valid.{IsValid}
use data_sync.Hub.{Channel}
use data_sync.Console.{Limits, Shared}
use data_sync.Console.Validity.{IsRun-IsValid}
use data_sync.Server.{Connection, Event, interleave}
use data_sync.Server.Calls.{interleave-IsRun}

module _ {Value Sender : Type 0} ⦃json : Json Value⦄ (jwt : Jwt) (channel : Channel Sender Value)
    (limits : Limits) where
  -- In whatever order the steps of any connections come, the invariant is kept, at a moment that is
  -- later by one call a step at most, as long as fewer than 2^64 - 1 calls are made in all.
  pub interleave-IsValid :
      (n : ℕ) (schedule : List (ℕ × Event)) (cs : List (Connection Value)) (s : Shared Value Sender)
      → IsValid n s.app
      → n + length schedule + 1 < u64_mod
      → (m : ℕ) × (m ≤ length schedule)
        × IsValid (n + m) (interleave jwt channel limits schedule (cs, s)).1.app
  interleave-IsValid n schedule cs s v fits =
      IsRun-IsValid n (length schedule) s.app _ v fits
        (interleave-IsRun jwt channel limits schedule cs s)
