-- ===== src/Tests/Views.antt =====
-- What clients see of a room with a private container.
use mathlib.Core.Option
use data_sync.Base.{◌≡◌, ◌<◌, ◌≤◌, arith, none, some, [], ◌∷◌}
use data_sync.Text.{Text, lit}
use data_sync.State.{RoomState, FragmentEntry, empty_room}
use data_sync.State.Fragments.{write_fragment, fragment}
use data_sync.State.Room.Consistent.{
  IsConsistent, empty_room-IsConsistent, write_fragment-IsConsistent,
}
use data_sync.State.Views.{snapshot, delta}
use data_sync.State.Views.Lookup.{view_value}
use data_sync.State.Views.Shown.{IsGranted, view_value-snapshot, view_value-delta}

abbrev room : RoomState Text
room = write_fragment empty_room (lit "private") (lit "a") (lit "1")

room-IsConsistent : IsConsistent room
room-IsConsistent =
    write_fragment-IsConsistent {Value = Text} empty_room (lit "private") (lit "a") (lit "1")
      empty_room-IsConsistent (omega arith)

-- A client without a grant reads nothing of the private container, and one with it the value.
view_value-snapshot_example :
    (IsGranted [] (lit "private")
      → view_value (snapshot room []) (lit "private") (lit "a")
        ≡ Option.map
            (λ (e : FragmentEntry Text). e.value)
            (fragment room (lit "private") (lit "a")))
    × (¬ IsGranted [] (lit "private")
        → view_value (snapshot room []) (lit "private") (lit "a") ≡ none)
view_value-snapshot_example =
    view_value-snapshot room [] (lit "private") (lit "a") room-IsConsistent

view_value-delta_example :
    (IsGranted (lit "private" ∷ []) (lit "private")
      → ((e : FragmentEntry Text)
          → fragment room (lit "private") (lit "a") ≡ some e
          → (0 < e.key_version
              → view_value (delta room 0 (lit "private" ∷ [])) (lit "private") (lit "a")
                ≡ some e.value)
            × (e.key_version ≤ 0
                → view_value (delta room 0 (lit "private" ∷ [])) (lit "private") (lit "a") ≡ none))
        × (fragment room (lit "private") (lit "a") ≡ none
            → view_value (delta room 0 (lit "private" ∷ [])) (lit "private") (lit "a") ≡ none))
    × (¬ IsGranted (lit "private" ∷ []) (lit "private")
        → view_value (delta room 0 (lit "private" ∷ [])) (lit "private") (lit "a") ≡ none)
view_value-delta_example =
    view_value-delta room 0 (lit "private" ∷ []) (lit "private") (lit "a") room-IsConsistent
