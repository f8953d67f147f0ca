-- ===== src/Server/Finished.antt =====
-- Command connections that take turns come to an end.
use data_sync.Base.{
  ℕ, zero, suc, ◌+◌, ◌≤◌, ◌≡◌, ◌≢◌, ◌⊎◌, inl, inr, refl, sym, ap, ◌∙◌, Bool, true, false, List, [],
  ◌∷◌, All, length, arith,
}
use data_sync.Json.{Json}
use data_sync.Jwt.{Jwt}
use data_sync.Reading.{Input}
use data_sync.Hub.{Channel}
use data_sync.Console.{Limits, Shared}
use data_sync.Server.{
  Place, limiting, auth_limiting, greeting, keying, refusing, refused, looping, malformed,
  miscounted, counting, processing, scoring, answering, cleaning, sending, broadcasting, closed,
  Event, limits_at, reads, locks, locks_hub, writes, Connection, move, step_one, interleave,
}
use data_sync.Server.Budget.{budget_of, awaits, move-IsStep}

-- Whether an event can come: the lock of the application is given only while it is free (a session may
-- keep it for ever); the hub's is always given back, and a write succeeds or fails at some time.
unfoldable pub can_come : Bool → Event → Bool
can_come free (locks clock) = free
can_come free event = true

-- A connection is closed, or waits for a line that has not come, or, where that lock is not free, for
-- the lock.
unfoldable pub IsIdle : {Value : Type 0} → Bool → Place Value → List Input → Type 0
IsIdle free closed lines = Unit
IsIdle free looping [] = Unit
IsIdle free greeting [] = Unit
IsIdle false (keying provided_key) lines = Unit
IsIdle false (refusing message) lines = Unit
IsIdle false miscounted lines = Unit
IsIdle false (counting trimmed) lines = Unit
IsIdle false (processing trimmed) lines = Unit
IsIdle false (scoring trimmed resp updates) lines = Unit
IsIdle free place lines = ⊥

unfoldable pub budgets : {Value : Type 0} → List (Connection Value) → ℕ
unfolding budget_of
budgets [] = 0
budgets (c ∷ cs) = budget_of c + budgets cs

module _ {Value : Type 0} where
  -- An event that a connection waits for, and that can come.
  can_go_on :
      (free : Bool) (place : Place Value) (lines : List Input)
      → IsIdle free place lines
        ⊎ ((event : Event) × (awaits place event lines ≡ true) × (can_come free event ≡ true))
  unfolding IsIdle awaits can_come
  can_go_on free closed lines = inl tt
  can_go_on free looping [] = inl tt
  can_go_on free greeting [] = inl tt
  can_go_on free looping (input ∷ lines) = inr (reads, refl, refl)
  can_go_on free greeting (input ∷ lines) = inr (reads, refl, refl)
  can_go_on free limiting lines = inr (limits_at 0, refl, refl)
  can_go_on free auth_limiting lines = inr (limits_at 0, refl, refl)
  can_go_on true (keying provided_key) lines = inr (locks 0, refl, refl)
  can_go_on false (keying provided_key) lines = inl tt
  can_go_on true (refusing message) lines = inr (locks 0, refl, refl)
  can_go_on false (refusing message) lines = inl tt
  can_go_on free (refused message) lines = inr (writes true, refl, refl)
  can_go_on free malformed lines = inr (writes true, refl, refl)
  can_go_on true miscounted lines = inr (locks 0, refl, refl)
  can_go_on false miscounted lines = inl tt
  can_go_on true (counting trimmed) lines = inr (locks 0, refl, refl)
  can_go_on false (counting trimmed) lines = inl tt
  can_go_on true (processing trimmed) lines = inr (locks 0, refl, refl)
  can_go_on false (processing trimmed) lines = inl tt
  can_go_on true (scoring trimmed resp updates) lines = inr (locks 0, refl, refl)
  can_go_on false (scoring trimmed resp updates) lines = inl tt
  can_go_on free (answering trimmed resp updates) lines = inr (writes true, refl, refl)
  can_go_on free (cleaning room updates) lines = inr (locks_hub (λ id. 0), refl, refl)
  can_go_on free (sending update updates) lines = inr (limits_at 0, refl, refl)
  can_go_on free (broadcasting update updates) lines = inr (locks_hub (λ id. 0), refl, refl)

module _ {Value Sender : Type 0} where
  first_of :
      {c c' : Connection Value} {cs cs' : List (Connection Value)} {s s' : Shared Value Sender}
      → ◌≡◌ {A = List (Connection Value) × Shared Value Sender} (c' ∷ cs', s') (c ∷ cs, s)
      → ◌≡◌ {A = Connection Value × Shared Value Sender} (c', s') (c, s)
  first_of p = cc

  rest_of :
      {c c' : Connection Value} {cs cs' : List (Connection Value)} {s s' : Shared Value Sender}
      → ◌≡◌ {A = List (Connection Value) × Shared Value Sender} (c' ∷ cs', s') (c ∷ cs, s)
      → ◌≡◌ {A = List (Connection Value) × Shared Value Sender} (cs', s') (cs, s)
  rest_of p = cc

module _ {Value Sender : Type 0} ⦃json : Json Value⦄ (jwt : Jwt) (channel : Channel Sender Value)
    (limits : Limits) where
  -- Every step of a schedule changes something.
  unfoldable pub IsActive :
      List (ℕ × Event) → List (Connection Value) × Shared Value Sender → Type 0
  IsActive [] (cs, s) = Unit
  IsActive ((i, event) ∷ schedule) (cs, s) =
      let r = step_one jwt channel limits cs i event s in (r ≢ (cs, s)) × IsActive schedule r

  step_one-budgets :
      (cs : List (Connection Value)) (i : ℕ) (event : Event) (s : Shared Value Sender)
      → let r = step_one jwt channel limits cs i event s in
        (r ≡ (cs, s)) ⊎ (budgets r.0 + 1 ≤ budgets cs)
  unfolding step_one budgets
  step_one-budgets [] i event s = inl refl
  step_one-budgets (c ∷ cs) zero event s = elim (move-IsStep jwt channel limits c.place event c s) [
    | inl (same, _) ↦ inl (ap (λ x. (x.0 ∷ cs, x.1)) same)
    | inr less ↦ inr (unfold budget_of in omega (arith, less))
  ]
  step_one-budgets (c ∷ cs) (suc i) event s = elim (step_one-budgets cs i event s) [
    | inl same ↦ inl (ap (λ x. (c ∷ x.0, x.1)) same)
    | inr less ↦ inr (omega (arith, less))
  ]

  length-budgets :
      (schedule : List (ℕ × Event)) (cs : List (Connection Value)) (s : Shared Value Sender)
      → IsActive schedule (cs, s)
      → length schedule + budgets (interleave jwt channel limits schedule (cs, s)).0 ≤ budgets cs
  unfolding interleave IsActive
  length-budgets [] cs s h = omega arith
  length-budgets ((i, event) ∷ schedule) cs s (changes, h) =
      let (cs', s') = step_one jwt channel limits cs i event s in
      elim (step_one-budgets cs i event s) [
        | inl same ↦ absurd (changes same)
        | inr less ↦ omega (arith, less, length-budgets schedule cs' s' h)
      ]

  -- No event that can come changes anything.
  unfoldable pub IsStill : Bool → List (Connection Value) × Shared Value Sender → Type 0
  IsStill free (cs, s) =
      (i : ℕ) (event : Event)
      → can_come free event ≡ true
      → step_one jwt channel limits cs i event s ≡ (cs, s)

  still-move :
      (free : Bool) (c : Connection Value) (s : Shared Value Sender)
      → ((event : Event)
          → can_come free event ≡ true
          → move jwt channel limits c.place event c s ≡ (c, s))
      → IsIdle free c.place c.lines
  unfolding budget_of
  still-move free c s h = elim (can_go_on free c.place c.lines) [
    | inl idle ↦ idle
    | inr (event, awaited, comes) ↦ elim (move-IsStep jwt channel limits c.place event c s) [
      | inl (same, idle) ↦ let e : true ≡ false = sym awaited ∙ idle in cc
      | inr less ↦
          let k : budget_of (move jwt channel limits c.place event c s).0 ≡ budget_of c =
            ap (λ (x : Connection Value × Shared Value Sender). budget_of x.0) (h event comes) in
          absurd (omega (arith, less, k))
    ]
  ]

  IsStill-IsIdle :
      (free : Bool) (cs : List (Connection Value)) (s : Shared Value Sender)
      → IsStill free (cs, s)
      → All (λ c. IsIdle free c.place c.lines) cs
  unfolding IsStill step_one
  IsStill-IsIdle free [] s h = tt
  IsStill-IsIdle free (c ∷ cs) s h = (
    still-move free c s (λ event comes. first_of (h 0 event comes)),
    IsStill-IsIdle free cs s (λ i event comes. rest_of (h (suc i) event comes)),
  )

  -- A schedule of which each step changes something is no longer than the budgets of the connections
  -- allow, eight steps for each line that is still to be read and some for where they are. When no
  -- step of any connection that can still come changes anything, each is closed or waits for a line
  -- that has not come, if the lock of the application can still be had; if it cannot, because another
  -- task keeps it, a connection may also wait for that lock.
  pub interleave-IsIdle :
      (free : Bool) (schedule : List (ℕ × Event)) (cs : List (Connection Value))
      (s : Shared Value Sender)
      → IsActive schedule (cs, s)
      → let r = interleave jwt channel limits schedule (cs, s) in
        (length schedule ≤ budgets cs)
        × (IsStill free r → All (λ c. IsIdle free c.place c.lines) r.0)
  interleave-IsIdle free schedule cs s h =
      let r = interleave jwt channel limits schedule (cs, s) in
      (omega (arith, length-budgets schedule cs s h), IsStill-IsIdle free r.0 r.1)
