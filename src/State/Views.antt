-- ===== src/State/Views.antt =====
-- syncpond-server/src/state.rs: `room_info`, `room_snapshot` and `room_delta`. What the source
-- builds with `json!` is a record here, with the JSON value that it stands for.
pub mod Lookup
pub mod Shown
use data_sync.Base.{
  ℕ, ◌+◌, Bool, ◌||◌, true, false, not, Option, none, some, List, [], ◌∷◌, Result, ok, ◌>>=◌,
  ok_option, ◌==◌, if◌then◌else◌, length, ltb, leb,
}
use data_sync.Dict.{Dict}
use data_sync.Dict.Distinct.{collect}
use data_sync.Text.{Text, lit, text_eq, is_empty}
use data_sync.Sets.{contains}
use data_sync.Json.{Json}
use data_sync.State.{AppState, RoomState, FragmentEntry, Containers, StateError, find_room}

pub record RoomInfo : Type 0 where
  pub room_id : ℕ
  pub room_counter : ℕ
  pub container_count : ℕ
  pub fragment_count : ℕ

pub record RoomView (Value : Type 0) : Type 0 where
  pub room_counter : ℕ
  pub containers : Dict Text (Dict Text Value)

-- The containers that a client may see.
unfoldable pub visible : List Text → Text → Bool
unfolding contains
visible allowed_containers name = name == lit "public" || contains allowed_containers name

module _ {Value : Type 0} where
  -- The sum of the lengths of the containers.
  unfoldable pub fragment_sum : Containers Value → ℕ
  fragment_sum [] = 0
  fragment_sum ((name, fragments) ∷ m) = length fragments + fragment_sum m

  unfoldable pub room_info : AppState Value → ℕ → Result StateError RoomInfo
  unfolding fragment_sum
  room_info app room_id = do
    room ← find_room app room_id
    ok (record {
      room_id = room_id;
      room_counter = room.room_counter;
      container_count = length room.containers;
      fragment_count = fragment_sum room.containers;
    })

  -- The inner loops: every key, or the keys that are newer than `since`.
  unfoldable pub all_values : Dict Text (FragmentEntry Value) → Dict Text Value
  unfolding collect
  all_values fragments = collect (λ key entry. some entry.value) fragments []

  pub newer : ℕ → FragmentEntry Value → Option Value
  newer since entry = if ltb since entry.key_version then some entry.value else none

  unfoldable pub new_values : ℕ → Dict Text (FragmentEntry Value) → Dict Text Value
  unfolding collect newer
  new_values since fragments = collect (λ key entry. newer since entry) fragments []

  -- The outer loops: what is inserted for a container, if anything is.
  pub snapshot_container :
      List Text → Text → Dict Text (FragmentEntry Value) → Option (Dict Text Value)
  unfolding visible all_values
  snapshot_container allowed_containers name fragments =
      if visible allowed_containers name then some (all_values fragments) else none

  pub delta_container :
      List Text → ℕ → Text → Dict Text (FragmentEntry Value) → Option (Dict Text Value)
  unfolding visible new_values
  delta_container allowed_containers since name fragments =
      if visible allowed_containers name
      then (let values = new_values since fragments in
          if is_empty values then none else some values)
      else none

  unfoldable pub snapshot : RoomState Value → List Text → RoomView Value
  unfolding snapshot_container collect
  snapshot room allowed_containers = record {
    room_counter = room.room_counter;
    containers = collect (snapshot_container allowed_containers) room.containers [];
  }

  unfoldable pub delta : RoomState Value → ℕ → List Text → RoomView Value
  unfolding delta_container collect
  delta room since allowed_containers =
      if leb room.room_counter since
      then record { room_counter = room.room_counter; containers = [] }
      else record {
        room_counter = room.room_counter;
        containers = collect (delta_container allowed_containers since) room.containers [];
      }

  unfoldable pub room_snapshot : AppState Value → ℕ → List Text → Option (RoomView Value)
  unfolding snapshot
  room_snapshot app room_id allowed_containers =
      ok_option (do room ← find_room app room_id; ok (snapshot room allowed_containers))

  unfoldable pub room_delta : AppState Value → ℕ → ℕ → List Text → Option (RoomView Value)
  unfolding delta
  room_delta app room_id since allowed_containers =
      ok_option (do room ← find_room app room_id; ok (delta room since allowed_containers))

-- The values that `json!` makes of these records.
module _ {Value : Type 0} ⦃json : Json Value⦄ where
  unfoldable pub info_json : RoomInfo → Value
  info_json info = json.object (
      (lit "room_id", json.number info.room_id)
      ∷ (lit "room_counter", json.number info.room_counter)
      ∷ (lit "container_count", json.number info.container_count)
      ∷ (lit "fragment_count", json.number info.fragment_count)
      ∷ [])

  unfoldable pub objects : Dict Text (Dict Text Value) → Dict Text Value
  objects [] = []
  objects ((name, values) ∷ m) = (name, json.object values) ∷ objects m

  unfoldable pub view_json : RoomView Value → Value
  unfolding objects
  view_json view = json.object (
      (lit "room_counter", json.number view.room_counter)
      ∷ (lit "containers", json.object (objects view.containers))
      ∷ [])
