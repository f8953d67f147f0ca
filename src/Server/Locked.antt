-- ===== src/Server/Locked.antt =====
-- However the steps of the others come, a connection that does not know the key is kept out.
use data_sync.Base.{
  ℕ, ◌≡◌, inl, inr, refl, ◌∙◌, sym, subst, some, List, [], ◌∷◌, Bool-cases, get_elem?, ◌≢◌, ◌==◌,
  ==_iff, ne_of_==, nat_eq,
}
use data_sync.Server.Steps.{step_one_self, step_one-other, key-step_one}
use data_sync.Text.{Text}
use data_sync.Text.Utf8.{IsUnicode}
use data_sync.Json.{Json}
use data_sync.Jwt.{Jwt}
use data_sync.Hub.{Channel}
use data_sync.Console.{Limits, Shared}
use data_sync.Server.{limiting, Event, Connection, step_one, interleave}
use data_sync.Server.Keys.{IsOtherFirst, IsShut, IsQuiet, move-IsShut}

module _ {Value Sender : Type 0} ⦃json : Json Value⦄ (jwt : Jwt) (channel : Channel Sender Value)
    (limits : Limits) (key : Text) (u : IsUnicode key) where
  -- The connection of a number is shut.
  IsShutAt : List (Connection Value) → ℕ → Type 0
  IsShutAt cs i = (c : Connection Value) × (get_elem? cs i ≡ some c) × IsShut key c.place c.lines

  step_one-IsShut :
      (cs : List (Connection Value)) (i j : ℕ) (event : Event) (s : Shared Value Sender)
      → IsShutAt cs i
      → s.app.command_api_key ≡ some key
      → let r = step_one jwt channel limits cs j event s in IsShutAt r.0 i × (i ≡ j → IsQuiet s r.1)
  unfolding IsShutAt
  step_one-IsShut cs i j event s (c, there, shut) k = elim (Bool-cases (i == j)) [
    | inl same ↦
        let e : i ≡ j = (==_iff i j).0 same in
        let r = move-IsShut jwt channel limits key u c.place event c s refl shut k in
        let (mine, rest) = step_one_self jwt channel limits event s cs i c there in
        subst
          (λ k'.
            let x = step_one jwt channel limits cs k' event s in
            IsShutAt x.0 i × (i ≡ k' → IsQuiet s x.1))
          e ((_, mine, r.0), λ same'. subst (IsQuiet s) (sym rest) r.1)
    | inr other ↦
        let apart : i ≢ j = ne_of_== i j other in
        (
          (c, step_one-other jwt channel limits event s cs i j apart ∙ there, shut),
          λ e. absurd (apart e),
        )
  ]

  interleave-IsShutAt :
      (schedule : List (ℕ × Event)) (cs : List (Connection Value)) (i : ℕ) (s : Shared Value Sender)
      → IsShutAt cs i
      → s.app.command_api_key ≡ some key
      → let r = interleave jwt channel limits schedule (cs, s) in
        IsShutAt r.0 i × (r.1.app.command_api_key ≡ some key)
  unfolding interleave
  interleave-IsShutAt [] cs i s shut k = (shut, k)
  interleave-IsShutAt ((j, event) ∷ schedule) cs i s shut k =
      let (cs', s') = step_one jwt channel limits cs j event s in
      interleave-IsShutAt schedule cs' i s' (step_one-IsShut cs i j event s shut k).0
        (key-step_one jwt channel limits cs j event s ∙ k)

  -- In whatever order the steps of any connections come, a connection that was still at its beginning,
  -- and whose first line is broken, not there yet, or Unicode and not the configured key (of Unicode)
  -- up to white space around it, is waiting for that line, or refused, or closed; and its next step
  -- leaves the hub and the limiters of updates as they are, and the application too, but for a count
  -- of failures.
  pub interleave-IsShut :
      (schedule : List (ℕ × Event)) (cs : List (Connection Value)) (i : ℕ) (c : Connection Value)
      (s : Shared Value Sender) (event : Event)
      → get_elem? cs i ≡ some c
      → c.place ≡ limiting
      → IsOtherFirst key c.lines
      → s.app.command_api_key ≡ some key
      → let (cs', s') = interleave jwt channel limits schedule (cs, s) in
        ((c' : Connection Value) × (get_elem? cs' i ≡ some c') × IsShut key c'.place c'.lines)
        × IsQuiet s' (step_one jwt channel limits cs' i event s').1
  unfolding IsShutAt
  interleave-IsShut schedule cs i c s event there start other k =
      let (cs', s') = interleave jwt channel limits schedule (cs, s) in
      let (shut, k') =
        interleave-IsShutAt schedule cs i s
          (c, there, subst (λ p. IsShut key p c.lines) (sym start) other) k in
      (shut, (step_one-IsShut cs' i i event s' shut k').1 refl)
