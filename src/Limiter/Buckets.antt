-- ===== src/Limiter/Buckets.antt =====
-- A bucket is in order, so that what is dropped from its front is all that is stale.
use data_sync.Base.{
  ℕ, ◌-◌, ◌≤◌, ◌≡◌, refl, true, false, none, List, [], ◌∷◌, ◌++◌, arith, if◌then◌else◌, ltb, ◌==◌,
  ==_iff, Bool-cases, inl, inr, All, ◌∙◌, sym, subst,
}
use data_sync.Dict.{Dict, get, contains_key, get-not-contains_key}
use data_sync.Dict.Distinct.{Distinct}
use data_sync.Text.{Text, text_eq, is_empty}
use data_sync.Limiter.{clean_entry, retain, or_new}

-- The instants within the window before `now`.
unfoldable pub recent : ℕ → ℕ → List ℕ → List ℕ
recent now window [] = []
recent now window (t ∷ ts) =
    let rest = recent now window ts in if ltb window (now - t) then rest else t ∷ rest

abbrev pub IsAscending : List ℕ → Type 0
IsAscending [] = Unit
IsAscending (t ∷ ts) = All (λ u. t ≤ u) ts × IsAscending ts

-- Where the front is recent, all that follows is.
recent-All :
    (now window t : ℕ) (ts : List ℕ)
    → ltb window (now - t) ≡ false
    → All (λ u. t ≤ u) ts
    → recent now window ts ≡ ts
unfolding recent
recent-All now window t [] h all = refl
recent-All now window t (u ∷ ts) h (le, all) = ground (arith, recent-All now window t ts h all)

pub clean_entry-recent :
    (entry : List ℕ) (now window : ℕ)
    → IsAscending entry
    → clean_entry entry now window ≡ recent now window entry
unfolding clean_entry recent
clean_entry-recent [] now window h = refl
clean_entry-recent (t ∷ ts) now window (all, h) =
    ground (arith, clean_entry-recent ts now window h, recent-All now window t ts)

recent_bound :
    (now window t : ℕ) (ts : List ℕ) → All (λ u. t ≤ u) ts → All (λ u. t ≤ u) (recent now window ts)
unfolding recent
recent_bound now window t [] h = tt
recent_bound now window t (u ∷ ts) (le, h) = elim (Bool-cases (ltb window (now - u))) [
  | inl stale ↦ rw stale (recent_bound now window t ts h)
  | inr fresh ↦ rw fresh (le, recent_bound now window t ts h)
]

pub recent-IsAscending :
    (now window : ℕ) (ts : List ℕ) → IsAscending ts → IsAscending (recent now window ts)
unfolding recent
recent-IsAscending now window [] h = tt
recent-IsAscending now window (t ∷ ts) (all, h) = elim (Bool-cases (ltb window (now - t))) [
  | inl stale ↦ rw stale (recent-IsAscending now window ts h)
  | inr fresh ↦ rw fresh (recent_bound now window t ts all, recent-IsAscending now window ts h)
]

-- What is recent later is among what is recent now.
pub recent-recent :
    (now later window : ℕ) (ts : List ℕ)
    → now ≤ later
    → recent later window (recent now window ts) ≡ recent later window ts
unfolding recent
recent-recent now later window [] h = refl
recent-recent now later window (t ∷ ts) h = ground (arith, recent-recent now later window ts h)

pub recent-append :
    (now window : ℕ) (xs ys : List ℕ)
    → recent now window (xs ++ ys) ≡ recent now window xs ++ recent now window ys
unfolding recent
recent-append now window [] ys = refl
recent-append now window (t ∷ xs) ys = ground (arith, recent-append now window xs ys)

nil_of_is_empty : (xs : List ℕ) → is_empty xs ≡ true → xs ≡ []
nil_of_is_empty [] h = refl
nil_of_is_empty (x ∷ xs) h = cc

-- The bucket of a key after `retain`, where none stands for an empty one.
pub or_new-retain :
    (buckets : Dict Text (List ℕ)) (now window : ℕ) (key : Text)
    → Distinct buckets
    → or_new (get (retain buckets now window) key)
      ≡ clean_entry (or_new (get buckets key)) now window
unfolding get retain
or_new-retain [] now window key h = unfold clean_entry in refl
or_new-retain ((j, entry) ∷ buckets) now window key (new, h) =
    let ih = or_new-retain buckets now window key h in
    elim (Bool-cases (j == key)) [
      | inl same ↦
          let at : j ≡ key = (==_iff j key).0 same in
          let gone : get buckets key ≡ none =
            get-not-contains_key buckets key (subst (λ k. contains_key buckets k ≡ false) at new) in
          let nothing : or_new (get (retain buckets now window) key) ≡ [] =
            ih ∙ (rw gone (unfold clean_entry in refl)) in
          elim (Bool-cases (is_empty (clean_entry entry now window))) [
            | inl stale ↦ rw (stale, same) (nothing ∙ sym (nil_of_is_empty _ stale))
            | inr fresh ↦ rw (fresh, same)
          ]
      | inr apart ↦ elim (Bool-cases (is_empty (clean_entry entry now window))) [
        | inl stale ↦ rw (stale, apart) ih
        | inr fresh ↦ rw (fresh, apart) ih
      ]
    ]

retain-contains_key :
    (buckets : Dict Text (List ℕ)) (now window : ℕ) (key : Text)
    → contains_key buckets key ≡ false
    → contains_key (retain buckets now window) key ≡ false
unfolding contains_key retain
retain-contains_key [] now window key h = refl
retain-contains_key ((j, entry) ∷ buckets) now window key h =
    ground (arith, retain-contains_key buckets now window key)

pub retain-Distinct :
    (buckets : Dict Text (List ℕ)) (now window : ℕ)
    → Distinct buckets
    → Distinct (retain buckets now window)
unfolding retain
retain-Distinct [] now window h = tt
retain-Distinct ((j, entry) ∷ buckets) now window (new, h) =
    elim (Bool-cases (is_empty (clean_entry entry now window))) [
      | inl stale ↦ rw stale (retain-Distinct buckets now window h)
      | inr fresh ↦
          rw fresh
            (retain-contains_key buckets now window j new, retain-Distinct buckets now window h)
    ]
