-- ===== src/Limiter.antt =====
-- syncpond-server/src/rate_limiter.rs: for each key the instants of the calls that were admitted,
-- in the order in which they came. An instant is a number of nanoseconds, a window too.
pub mod Buckets
pub mod Refinement
pub mod Specification
use data_sync.Base.{
  ℕ, ◌-◌, Bool, true, false, Option, none, some, List, [], ◌∷◌, ◌++◌, if◌then◌else◌, ltb, leb,
  length,
}
use data_sync.Dict.{Dict, get, insert}
use data_sync.Text.{Text, text_eq, is_empty}

-- `now.duration_since(front)` is zero where `front` is later.
unfoldable pub clean_entry : List ℕ → ℕ → ℕ → List ℕ
clean_entry [] now window = []
clean_entry (front ∷ entry) now window =
    let rest = clean_entry entry now window in
    if ltb window (now - front) then rest else front ∷ entry

-- The closure of `retain`, on every bucket.
unfoldable pub retain : Dict Text (List ℕ) → ℕ → ℕ → Dict Text (List ℕ)
unfolding clean_entry
retain [] now window = []
retain ((key, entry) ∷ buckets) now window =
    let rest = retain buckets now window in
    let cleaned = clean_entry entry now window in
    if is_empty cleaned then rest else (key, cleaned) ∷ rest

-- `entry(key).or_insert_with(VecDeque::new)`.
abbrev pub or_new : Option (List ℕ) → List ℕ
or_new none = []
or_new (some entry) = entry

unfoldable pub allow : Dict Text (List ℕ) → Text → ℕ → ℕ → ℕ → Bool × Dict Text (List ℕ)
unfolding clean_entry retain
allow buckets key limit window now =
    let kept = retain buckets now window in
    let entry = clean_entry (or_new (get kept key)) now window in
    if leb limit (length entry)
    then (false, insert kept key entry)
    else (true, insert kept key (entry ++ now ∷ []))
