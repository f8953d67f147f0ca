-- ===== src/State/Room/CatchUp.antt =====
-- A client that holds a snapshot and applies the delta since its version has the room as it is.
use mathlib.Core.Option
use data_sync.Base.{
  ◌+◌, ◌≤◌, ◌<◌, ◌≡◌, Option, none, some, List, arith, ◌⊎◌, inl, inr, Bool-cases, Option-cases,
  u64_mod, ap,
}
use data_sync.Text.{Text, text_eq}
use data_sync.State.{RoomState, FragmentEntry}
use data_sync.State.Fragments.{fragment, write_fragment, fragment-write_fragment}
use data_sync.State.Views.{RoomView, visible, snapshot, delta}
use data_sync.State.Views.Lookup.{view_value, newer_at, view_value-snapshot_if, view_value-delta_if}
use data_sync.State.Room.Consistent.{
  IsConsistent, write_origin, version-written, room_counter-write_fragment,
}

-- How a room stands to an earlier state of itself.
pub record Extends {Value : Type 0} (old new : RoomState Value) : Type 0 where
  pub grows : old.room_counter ≤ new.room_counter
  pub kept :
      (c k : Text) (e : FragmentEntry Value)
      → fragment new c k ≡ some e
      → (old.room_counter < e.key_version) ⊎ (fragment old c k ≡ some e)
  pub held : (c k : Text) → fragment new c k ≡ none → fragment old c k ≡ none

module _ {Value : Type 0} where
  pub Extends-refl : (room : RoomState Value) → Extends room room
  Extends-refl room = record { grows = omega arith; kept = λ c k e p. inr p; held = λ c k p. p }

  pub Extends-trans :
      {old mid new : RoomState Value} → Extends old mid → Extends mid new → Extends old new
  Extends-trans f g = record {
    grows = omega (arith, f.grows, g.grows);
    kept = λ c k e p. elim (g.kept c k e p) [
      | inl later ↦ inl (omega (arith, f.grows))
      | inr at_mid ↦ f.kept c k e at_mid
    ];
    held = λ c k p. f.held c k (g.held c k p);
  }

  pub write_fragment-Extends :
      (room : RoomState Value) (c k : Text) (v : Value)
      → room.room_counter + 1 < u64_mod
      → Extends room (write_fragment room c k v)
  write_fragment-Extends room c k v fits = record {
    grows = omega (arith, room_counter-write_fragment room c k v fits);
    kept = λ c' k' e p. elim (write_origin room c k v c' k' e p) [
      | inl (_, _, new) ↦ inl (
          omega (
            arith,
            version-written room c k v fits,
            ap (λ (x : FragmentEntry Value). x.key_version) new,
          ))
      | inr old ↦ inr old
    ];
    held = λ c' k' p. ground (arith, fragment-write_fragment room c k c' k' v);
  }

  abbrev pub or_else : Option Value → Option Value → Option Value
  or_else (some value) old = some value
  or_else none old = old

  -- What a client has at a key after it has applied a delta to a snapshot.
  unfoldable pub overlay : RoomView Value → RoomView Value → Text → Text → Option Value
  overlay base update container key =
      or_else (view_value update container key) (view_value base container key)

  merge_entries :
      (old new : RoomState Value) (c k : Text)
      → IsConsistent old
      → Extends old new
      → or_else
          (newer_at old.room_counter (fragment new c k))
          (Option.map (λ (e : FragmentEntry Value). e.value) (fragment old c k))
        ≡ Option.map (λ (e : FragmentEntry Value). e.value) (fragment new c k)
  merge_entries old new c k h x = elim (Option-cases (fragment new c k)) [
    | inl missing ↦ rw (missing, x.held c k missing)
    | inr (e, found) ↦ elim (x.kept c k e found) [
      | inl later ↦ rw found (ground arith)
      | inr same ↦ rw (found, same) (ground (arith, h.versions c k e same))
    ]
  ]

  -- A snapshot, with the delta since its version applied, is the snapshot of the later room.
  pub overlay-delta :
      (old new : RoomState Value) (allowed : List Text) (c k : Text)
      → IsConsistent old
      → IsConsistent new
      → Extends old new
      → overlay (snapshot old allowed) (delta new old.room_counter allowed) c k
        ≡ view_value (snapshot new allowed) c k
  unfolding overlay
  overlay-delta old new allowed c k h h' x =
      rw
        (
          view_value-delta_if new old.room_counter allowed c k h',
          view_value-snapshot_if old allowed c k h,
          view_value-snapshot_if new allowed c k h',
        )
        (elim (Bool-cases (visible allowed c)) [
          | inl seen ↦ rw seen (merge_entries old new c k h x)
          | inr hidden ↦ rw hidden
        ])
