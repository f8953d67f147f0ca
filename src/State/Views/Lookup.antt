-- ===== src/State/Views/Lookup.antt =====
-- What a snapshot and a delta hold at a key.
use mathlib.Core.Option
use data_sync.Base.{
  ℕ, ◌≤◌, ◌≡◌, refl, Option, none, some, List, [], ◌∷◌, arith, ◌∙◌, Bool-cases, Option-cases, inl,
  inr, if◌then◌else◌, ltb, leb, leb→le,
}
use data_sync.Dict.{Dict, get}
use data_sync.Dict.Distinct.{Distinct, collect, collected, get-collect}
use data_sync.Text.{Text, text_eq, is_empty}
use data_sync.State.{RoomState, FragmentEntry}
use data_sync.State.Fragments.{fragment}
use data_sync.State.Views.{
  RoomView, visible, all_values, new_values, newer, snapshot_container, delta_container, snapshot,
  delta,
}
use data_sync.State.Room.Consistent.{IsConsistent}

module _ {Value : Type 0} where
  abbrev value_in : Option (Dict Text Value) → Text → Option Value
  value_in none key = none
  value_in (some values) key = get values key

  -- The value that a client reads at a key of a view.
  unfoldable pub view_value : RoomView Value → Text → Text → Option Value
  view_value view container key = value_in (get view.containers container) key

  get-all_values :
      (m : Dict Text (FragmentEntry Value)) (k : Text)
      → Distinct m
      → get (all_values m) k ≡ Option.map (λ (e : FragmentEntry Value). e.value) (get m k)
  unfolding all_values
  get-all_values m k h =
      get-collect (λ key (e : FragmentEntry Value). some e.value) m [] k h ∙ found (get m k)
    where
      found :
          (o : Option (FragmentEntry Value))
          → collected
              (get {K = Text} [] k)
              (Option.map (λ (e : FragmentEntry Value). some e.value) o)
            ≡ Option.map (λ (e : FragmentEntry Value). e.value) o
      found none = unfold get in refl
      found (some e) = refl

  abbrev pub newer_at : ℕ → Option (FragmentEntry Value) → Option Value
  newer_at since none = none
  newer_at since (some e) = if ltb since e.key_version then some e.value else none

  get-new_values :
      (since : ℕ) (m : Dict Text (FragmentEntry Value)) (k : Text)
      → Distinct m
      → get (new_values since m) k ≡ newer_at since (get m k)
  unfolding new_values
  get-new_values since m k h = get-collect (λ key e. newer since e) m [] k h ∙ found (get m k)
    where
      found :
          (o : Option (FragmentEntry Value))
          → collected (get {K = Text} [] k) (Option.map (newer since) o) ≡ newer_at since o
      found none = unfold get in refl
      found (some e) = unfold get in ground arith

module _ {Value : Type 0} (room : RoomState Value) (allowed : List Text) (c k : Text) where
  pub view_value-snapshot_if :
      IsConsistent room
      → view_value (snapshot room allowed) c k ≡ (
          if visible allowed c
          then Option.map (λ (e : FragmentEntry Value). e.value) (fragment room c k)
          else none)
  unfolding view_value snapshot fragment
  view_value-snapshot_if h =
      rw (get-collect (snapshot_container allowed) room.containers [] c h.names)
        (elim (Option-cases (get room.containers c)) [
          | inl missing ↦ rw missing (unfold get in ground arith)
          | inr (m, found) ↦ rw found (at m (h.keys c m found).0)
        ])
    where
      at :
          (m : Dict Text (FragmentEntry Value))
          → Distinct m
          → value_in (collected (get {K = Text} [] c) (some (snapshot_container allowed c m))) k ≡ (
              if visible allowed c
              then Option.map (λ (e : FragmentEntry Value). e.value) (get m k)
              else none)
      at m d = elim (Bool-cases (visible allowed c)) [
        | inl yes' ↦ rw (yes', snapshot_container) (get-all_values m k d)
        | inr no' ↦ rw (no', snapshot_container) (unfold get in refl)
      ]

module _ {Value : Type 0} (room : RoomState Value) (since : ℕ) (allowed : List Text)
    (c k : Text) where
  delta_at :
      (m : Dict Text (FragmentEntry Value))
      → Distinct m
      → value_in (collected (get {K = Text} [] c) (some (delta_container allowed since c m))) k
        ≡ (if visible allowed c then newer_at since (get m k) else none)
  unfolding delta_container new_values
  delta_at m d = elim (Bool-cases (visible allowed c)) [
    | inl seen ↦ rw seen (body (new_values since m) (get-new_values since m k d))
    | inr hidden ↦ rw hidden (unfold get in refl)
  ]
    where
      body :
          (values : Dict Text Value)
          → get values k ≡ newer_at since (get m k)
          → value_in
              (collected
                (get {K = Text} [] c)
                (some (if is_empty values then none else some values)))
              k
            ≡ newer_at since (get m k)
      body [] p = unfold get in p
      body (x ∷ values) p = p

  delta_loop :
      IsConsistent room
      → value_in (get (collect (delta_container allowed since) room.containers []) c) k
        ≡ (if visible allowed c then newer_at since (fragment room c k) else none)
  unfolding fragment
  delta_loop h =
      rw (get-collect (delta_container allowed since) room.containers [] c h.names)
        (elim (Option-cases (get room.containers c)) [
          | inl missing ↦ rw missing (unfold get in ground arith)
          | inr (m, found) ↦ rw found (delta_at m (h.keys c m found).0)
        ])

  -- No entry is newer than the room.
  newer_at-none :
      (o : Option (FragmentEntry Value))
      → ((e : FragmentEntry Value) → o ≡ some e → e.key_version ≤ since)
      → newer_at since o ≡ none
  newer_at-none none h = refl
  newer_at-none (some e) h = ground (arith, h e refl)

  pub view_value-delta_if :
      IsConsistent room
      → view_value (delta room since allowed) c k
        ≡ (if visible allowed c then newer_at since (fragment room c k) else none)
  unfolding view_value delta
  view_value-delta_if h = elim (Bool-cases (leb room.room_counter since)) [
    | inl early ↦
        let old =
          newer_at-none (fragment room c k)
            (λ e p. omega (arith, leb→le room.room_counter since early, h.versions c k e p)) in
        rw (early, old) (unfold get in ground arith)
    | inr late ↦ rw late (delta_loop h)
  ]
