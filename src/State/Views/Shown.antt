-- ===== src/State/Views/Shown.antt =====
-- What a snapshot and a delta show, and what they keep back.
use mathlib.Core.Option
use data_sync.Base.{
  ℕ, ◌<◌, ◌≤◌, ◌≡◌, ◌⊎◌, inl, inr, refl, ◌∙◌, true, false, Bool-cases, none, some, List, ◌==◌,
  ==_iff, arith,
}
use data_sync.Text.{Text, lit, text_eq}
use data_sync.Sets.{IsMember, IsMember-contains, contains-IsMember}
use data_sync.State.{RoomState, FragmentEntry}
use data_sync.State.Fragments.{fragment}
use data_sync.State.Views.{visible, snapshot, delta}
use data_sync.State.Views.Lookup.{view_value, newer_at, view_value-snapshot_if, view_value-delta_if}
use data_sync.State.Room.Consistent.{IsConsistent}

-- A container is public, or one of those that were granted.
abbrev pub IsGranted : List Text → Text → Type 0
IsGranted allowed container = (container ≡ lit "public") ⊎ IsMember allowed container

visible-granted :
    (allowed : List Text) (container : Text)
    → IsGranted allowed container
    → visible allowed container ≡ true
unfolding visible
visible-granted allowed container (inl e) = rw ((==_iff container (lit "public")).1 e) refl
visible-granted allowed container (inr m) = ground (arith, IsMember-contains allowed container m)

visible-IsGranted :
    (allowed : List Text) (container : Text)
    → visible allowed container ≡ true
    → IsGranted allowed container
unfolding visible
visible-IsGranted allowed container h = elim (Bool-cases (container == lit "public")) [
  | inl public ↦ inl ((==_iff container (lit "public")).0 public)
  | inr other ↦ inr (contains-IsMember allowed container (rw other at h))
]

hidden :
    (allowed : List Text) (container : Text)
    → ¬ IsGranted allowed container
    → visible allowed container ≡ false
hidden allowed container h = elim (Bool-cases (visible allowed container)) [
  | inl seen ↦ absurd (h (visible-IsGranted allowed container seen))
  | inr unseen ↦ unseen
]

module _ {Value : Type 0} (room : RoomState Value) (allowed : List Text) (c k : Text) where
  -- Of a room in its invariant, a snapshot holds at a key of a container that is public or was granted
  -- the value that the room has there, if any, and of every other container nothing.
  pub view_value-snapshot :
      IsConsistent room
      → (IsGranted allowed c
          → view_value (snapshot room allowed) c k
            ≡ Option.map (λ (e : FragmentEntry Value). e.value) (fragment room c k))
        × (¬ IsGranted allowed c → view_value (snapshot room allowed) c k ≡ none)
  view_value-snapshot h = (
    λ granted.
        view_value-snapshot_if room allowed c k h ∙ rw (visible-granted allowed c granted) refl,
    λ other. view_value-snapshot_if room allowed c k h ∙ rw (hidden allowed c other) refl,
  )

module _ {Value : Type 0} (room : RoomState Value) (since : ℕ) (allowed : List Text)
    (c k : Text) where
  newer_at-new :
      (e : FragmentEntry Value) → since < e.key_version → newer_at since (some e) ≡ some e.value
  newer_at-new e h = ground (arith, h)

  newer_at-old : (e : FragmentEntry Value) → e.key_version ≤ since → newer_at since (some e) ≡ none
  newer_at-old e h = ground (arith, h)

  -- Of a room in its invariant, a delta holds at a key of a container that is public or was granted
  -- the value that the room has there, where its version is above the counter that the delta is
  -- since, and nothing where it is not or there is no such key; and of every other container nothing.
  pub view_value-delta :
      IsConsistent room
      → (IsGranted allowed c
          → ((e : FragmentEntry Value)
              → fragment room c k ≡ some e
              → (since < e.key_version → view_value (delta room since allowed) c k ≡ some e.value)
                × (e.key_version ≤ since → view_value (delta room since allowed) c k ≡ none))
            × (fragment room c k ≡ none → view_value (delta room since allowed) c k ≡ none))
        × (¬ IsGranted allowed c → view_value (delta room since allowed) c k ≡ none)
  view_value-delta h = (
    λ granted.
        let shown : view_value (delta room since allowed) c k ≡ newer_at since (fragment room c k) =
          view_value-delta_if room since allowed c k h
          ∙ rw (visible-granted allowed c granted) refl in
        (
          λ e found. (
            λ new. shown ∙ rw found (newer_at-new e new),
            λ old. shown ∙ rw found (newer_at-old e old),
          ),
          λ missing. shown ∙ rw missing refl,
        ),
    λ other. view_value-delta_if room since allowed c k h ∙ rw (hidden allowed c other) refl,
  )
