-- ===== src/Limiter/Refinement.antt =====
-- The limiter against its specification, which keeps every admitted call for ever.
use data_sync.Base.{
  ℕ, ◌≤◌, ◌≡◌, refl, true, false, List, [], ◌∷◌, ◌++◌, append-nil, arith, if◌then◌else◌, ltb, leb,
  length, ◌==◌, ==_iff, ==_refl, Bool-cases, inl, inr, All, All-append, ap, ◌∙◌, sym,
}
use data_sync.Dict.{Dict, get, insert, get-insert}
use data_sync.Dict.Distinct.{insert-Distinct}
use data_sync.Text.{Text, text_eq}
use data_sync.Limiter.{clean_entry, retain, or_new, allow}
use data_sync.Limiter.Buckets.{
  recent, IsAscending, clean_entry-recent, recent-IsAscending, recent-recent, recent-append,
  or_new-retain, retain-Distinct,
}
use data_sync.Limiter.Specification.{
  Request, times, admits, admit, answers, expected, IsInOrder, Represents, times-append,
  push-IsAscending, All-recent, All-later,
}

module _ (start now window : ℕ) (buckets : Dict Text (List ℕ)) (log : List Request)
    (r : Represents start window buckets log) (le : start ≤ now) where
  kept : Dict Text (List ℕ)
  kept = retain buckets now window

  bucket-kept : (key : Text) → or_new (get kept key) ≡ recent now window (or_new (get buckets key))
  unfolding kept
  bucket-kept key =
      or_new-retain buckets now window key r.distinct
      ∙ clean_entry-recent (or_new (get buckets key)) now window (r.ascending key).0

  kept-Represents : Represents now window kept log
  kept-Represents = record {
    distinct = unfold kept in retain-Distinct buckets now window r.distinct;
    ascending = λ key. rw (bucket-kept key) (
      recent-IsAscending now window (or_new (get buckets key)) (r.ascending key).0,
      All-recent (λ t. t ≤ now) now window (or_new (get buckets key))
          (All-later start now (or_new (get buckets key)) le (r.ascending key).1),
    );
    same = λ key later h.
        rw (bucket-kept key, recent-recent now later window (or_new (get buckets key)) h)
          (r.same key later (omega arith));
  }

  -- The second cleaning finds nothing more.
  entry-kept :
      (key : Text)
      → clean_entry (or_new (get kept key)) now window ≡ recent now window (times key log)
  entry-kept key =
      clean_entry-recent (or_new (get kept key)) now window (kept-Represents.ascending key).0
      ∙ kept-Represents.same key now (omega arith)

  or_new-insert :
      (key j : Text) (entry : List ℕ)
      → or_new (get (insert kept key entry) j) ≡ (if key == j then entry else or_new (get kept j))
  or_new-insert key j entry =
      rw (get-insert kept key j entry)
        (elim (Bool-cases (key == j)) [ inl same ↦ rw same | inr other ↦ rw other ])

  -- What is put in a key's place represents a log that differs at that key only.
  insert-Represents :
      (key : Text) (entry : List ℕ) (log' : List Request)
      → IsAscending entry × All (λ t. t ≤ now) entry
      → ((later : ℕ)
          → now ≤ later
          → recent later window entry ≡ recent later window (times key log'))
      → ((j : Text) → (key == j) ≡ false → times j log' ≡ times j log)
      → Represents now window (insert kept key entry) log'
  insert-Represents key entry log' asc here others = record {
    distinct = insert-Distinct kept key entry kept-Represents.distinct;
    ascending = λ j. rw (or_new-insert key j entry) (elim (Bool-cases (key == j)) [
      | inl same ↦ rw same asc
      | inr other ↦ rw other (kept-Represents.ascending j)
    ]);
    same = λ j later h. rw (or_new-insert key j entry) (elim (Bool-cases (key == j)) [
      | inl same ↦
          rw same
            (here later h ∙ ap (λ k. recent later window (times k log')) ((==_iff key j).0 same))
      | inr other ↦ rw (other, others j other) (kept-Represents.same j later h)
    ]);
  }

  entry_now : Text → List ℕ
  entry_now key = clean_entry (or_new (get kept key)) now window

  entry_now-recent : (key : Text) → entry_now key ≡ recent now window (or_new (get kept key))
  unfolding entry_now
  entry_now-recent key =
      clean_entry-recent (or_new (get kept key)) now window (kept-Represents.ascending key).0

  entry_now_bounds : (key : Text) → IsAscending (entry_now key) × All (λ t. t ≤ now) (entry_now key)
  entry_now_bounds key = rw (entry_now-recent key) (
    recent-IsAscending now window (or_new (get kept key)) (kept-Represents.ascending key).0,
    All-recent (λ t. t ≤ now) now window (or_new (get kept key)) (kept-Represents.ascending key).1,
  )

  entry_now_same :
      (key : Text) (later : ℕ)
      → now ≤ later
      → recent later window (entry_now key) ≡ recent later window (times key log)
  entry_now_same key later h =
      rw (entry_now-recent key, recent-recent now later window (or_new (get kept key)) h)
        (kept-Represents.same key later h)

  refused-Represents : (key : Text) → Represents now window (insert kept key (entry_now key)) log
  refused-Represents key =
      insert-Represents key (entry_now key) log (entry_now_bounds key) (entry_now_same key)
        (λ j other. refl)

  admitted-Represents :
      (key : Text)
      → Represents now window (insert kept key (entry_now key ++ now ∷ [])) (log ++ (key, now) ∷ [])
  admitted-Represents key =
      insert-Represents key (entry_now key ++ now ∷ []) (log ++ (key, now) ∷ [])
        (
          push-IsAscending (entry_now key) now (entry_now_bounds key).0 (entry_now_bounds key).1,
          All-append (λ t. t ≤ now) (entry_now key) (now ∷ []) (entry_now_bounds key).1
              (omega arith, tt),
        )
        (λ later h. rw (
          times-append key log key now,
          ==_refl key,
          recent-append later window (entry_now key) (now ∷ []),
          recent-append later window (times key log) (now ∷ []),
          entry_now_same key later h,
        ))
        (λ j other. rw (times-append j log key now, other) (append-nil (times j log)))

  -- The two answers of a call, with what they leave.
  allow_full :
      (limit : ℕ) (key : Text)
      → leb limit (length (entry_now key)) ≡ true
      → allow buckets key limit window now ≡ (false, insert kept key (entry_now key))
  unfolding allow kept entry_now
  allow_full limit key full = rw full

  allow_room :
      (limit : ℕ) (key : Text)
      → leb limit (length (entry_now key)) ≡ false
      → allow buckets key limit window now ≡ (true, insert kept key (entry_now key ++ now ∷ []))
  unfolding allow kept entry_now
  allow_room limit key room = rw room

  entry_now-times : (key : Text) → entry_now key ≡ recent now window (times key log)
  unfolding entry_now
  entry_now-times key = entry-kept key

  admits_test :
      (limit : ℕ) (key : Text)
      → admits limit window log (key, now) ≡ ltb (length (entry_now key)) limit
  unfolding admits
  admits_test limit key = ap (λ ts. ltb (length ts) limit) (sym (entry_now-times key))

  -- One call: the answer is the specification's, and the buckets follow its log.
  pub allow-admits :
      (limit : ℕ) (key : Text)
      → ((allow buckets key limit window now).0 ≡ admits limit window log (key, now))
        × Represents now window
            (allow buckets key limit window now).1
            (admit limit window log (key, now))
  allow-admits limit key = elim (Bool-cases (leb limit (length (entry_now key)))) [
    | inl full ↦
        let closed : admits limit window log (key, now) ≡ false =
          admits_test limit key ∙ (ground arith) in
        rw (allow_full limit key full, closed)
          (refl, unfold admit in rw closed (refused-Represents key))
    | inr room ↦
        let opened : admits limit window log (key, now) ≡ true =
          admits_test limit key ∙ (ground arith) in
        rw (allow_room limit key room, opened)
          (refl, unfold admit in rw opened (admitted-Represents key))
  ]

answers-represented :
    (limit window start : ℕ) (buckets : Dict Text (List ℕ)) (log requests : List Request)
    → Represents start window buckets log
    → IsInOrder start requests
    → answers limit window buckets requests ≡ expected limit window log requests
unfolding answers expected
answers-represented limit window start buckets log [] r h = refl
answers-represented limit window start buckets log ((key, now) ∷ requests) r (le, h) =
    let step = allow-admits start now window buckets log r le limit key in
    let rest =
      answers-represented limit window now (allow buckets key limit window now).1
        (admit limit window log (key, now)) requests step.1 h in
    λ i. step.0 i ∷ rest i

none-Represents : (window : ℕ) → Represents 0 window [] []
unfolding get times recent
none-Represents window = record {
  distinct = tt;
  ascending = λ key. (tt, tt);
  same = λ key later h. refl;
}

-- On a clock that never runs backwards, the limiter answers every sequence of calls as its
-- specification does: a call is admitted if and only if fewer than `limit` of the calls that were
-- admitted for its key lie within the window before it, although stale instants were dropped.
pub answers-expected :
    (limit window : ℕ) (requests : List Request)
    → IsInOrder 0 requests
    → answers limit window [] requests ≡ expected limit window [] requests
answers-expected limit window requests =
    answers-represented limit window 0 [] [] requests (none-Represents window)
