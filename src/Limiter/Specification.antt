-- ===== src/Limiter/Specification.antt =====
-- What the limiter is for: the admitted calls of a key that lie in the window before a call.
use data_sync.Base.{
  ℕ, ◌≤◌, ◌≡◌, refl, Bool, List, [], ◌∷◌, ◌++◌, arith, if◌then◌else◌, ltb, length, ◌==◌, Bool-cases,
  inl, inr, All, All-append, ◌-◌,
}
use data_sync.Dict.{Dict, get}
use data_sync.Dict.Distinct.{Distinct}
use data_sync.Text.{Text, text_eq}
use data_sync.Limiter.{or_new, allow}
use data_sync.Limiter.Buckets.{recent, IsAscending}

-- A call with its key and its instant.
abbrev pub Request : Type 0
Request = Text × ℕ

-- The instants at which calls of a key were admitted.
unfoldable pub times : Text → List Request → List ℕ
times key [] = []
times key ((j, t) ∷ log) = let rest = times key log in if j == key then t ∷ rest else rest

-- The specification: a call is admitted if fewer than `limit` of the admitted calls of its key lie
-- in the window before it.
unfoldable pub admits : ℕ → ℕ → List Request → Request → Bool
admits limit window log (key, now) = ltb (length (recent now window (times key log))) limit

unfoldable pub admit : ℕ → ℕ → List Request → Request → List Request
unfolding admits
admit limit window log request =
    if admits limit window log request then log ++ request ∷ [] else log

-- The answers of the limiter and of the specification to a sequence of calls.
unfoldable pub answers : ℕ → ℕ → Dict Text (List ℕ) → List Request → List Bool
unfolding allow
answers limit window buckets [] = []
answers limit window buckets ((key, now) ∷ requests) =
    let (allowed, buckets') = allow buckets key limit window now in
    allowed ∷ answers limit window buckets' requests

unfoldable pub expected : ℕ → ℕ → List Request → List Request → List Bool
unfolding admit
expected limit window log [] = []
expected limit window log (request ∷ requests) =
    admits limit window log request
    ∷ expected limit window (admit limit window log request) requests

-- The clock does not run backwards.
abbrev pub IsInOrder : ℕ → List Request → Type 0
IsInOrder start [] = Unit
IsInOrder start ((key, now) ∷ requests) = (start ≤ now) × IsInOrder now requests

-- The buckets hold what is recent of the log, now and at any later time.
pub record Represents (now window : ℕ) (buckets : Dict Text (List ℕ)) (log : List Request)
    : Type 0 where
  pub distinct : Distinct buckets
  pub ascending :
      (key : Text)
      → IsAscending (or_new (get buckets key)) × All (λ t. t ≤ now) (or_new (get buckets key))
  pub same :
      (key : Text) (later : ℕ)
      → now ≤ later
      → recent later window (or_new (get buckets key)) ≡ recent later window (times key log)

pub times-append :
    (key : Text) (log : List Request) (j : Text) (t : ℕ)
    → times key (log ++ (j, t) ∷ []) ≡ times key log ++ (if j == key then t ∷ [] else [])
unfolding times
times-append key [] j t = refl
times-append key ((i, u) ∷ log) j t = ground (arith, times-append key log j t)

pub push-IsAscending :
    (ts : List ℕ) (now : ℕ) → IsAscending ts → All (λ t. t ≤ now) ts → IsAscending (ts ++ now ∷ [])
push-IsAscending [] now h b = (tt, tt)
push-IsAscending (t ∷ ts) now (all, h) (le, b) =
    (All-append (λ u. t ≤ u) ts (now ∷ []) all (le, tt), push-IsAscending ts now h b)

pub All-recent :
    (P : ℕ → Type 0) (now window : ℕ) (ts : List ℕ) → All P ts → All P (recent now window ts)
unfolding recent
All-recent P now window [] h = tt
All-recent P now window (t ∷ ts) (p, h) = elim (Bool-cases (ltb window (now - t))) [
  | inl stale ↦ rw stale (All-recent P now window ts h)
  | inr fresh ↦ rw fresh (p, All-recent P now window ts h)
]

pub All-later :
    (start now : ℕ) (ts : List ℕ) → start ≤ now → All (λ t. t ≤ start) ts → All (λ t. t ≤ now) ts
All-later start now [] h b = tt
All-later start now (t ∷ ts) h (le, b) = (omega arith, All-later start now ts h b)
