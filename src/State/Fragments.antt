-- ===== src/State/Fragments.antt =====
-- syncpond-server/src/state.rs: `set_fragment`, `del_fragment` and `get_fragment`. Each is a body
-- that runs on the room, under the lock that `with_room` takes.
pub mod Effects
use data_sync.Base.{
  ℕ, ◌≡◌, Bool, true, false, Option, none, some, List, [], ◌∷◌, ◌++◌, Result, ok, err, nat_eq,
  ◌>>=◌, if◌then◌else◌, ok_or, ◌&&◌, ◌==◌, refl, ==_iff, Bool-cases, inl, inr,
}
use data_sync.Dict.{Dict, get, insert, contains_key, get-insert}
use data_sync.Text.{Text, text_eq}
use data_sync.Json.{Json}
use data_sync.State.{
  AppState, RoomState, RoomBody, FragmentEntry, RoomCommand, Containers, StateError,
  container_not_found, fragment_not_found, fragment_tombstone, bump, find_room, with_room,
}
use data_sync.State

module _ {Value : Type 0} where
  -- `entry(container).or_default()`.
  abbrev pub or_default : Option (Dict Text (FragmentEntry Value)) → Dict Text (FragmentEntry Value)
  or_default none = []
  or_default (some fragments) = fragments

  -- The next version of the room, written to a key; this stands in four places of the source.
  unfoldable pub write_fragment : RoomState Value → Text → Text → Value → RoomState Value
  unfolding bump
  write_fragment room container key value =
      let key_version = bump room.room_counter in
      let fragments = or_default (get room.containers container) in
      record room {
        room_counter = key_version;
        containers =
            insert room.containers container
              (insert fragments key (record { value = value; key_version = key_version }));
      }

  -- The first argument is the room's `tx_buffer`, here and below.
  unfoldable pub set_on :
      Option (List (RoomCommand Value)) → Text → Text → Value → RoomBody Value (Unit {0})
  unfolding write_fragment
  set_on (some buffer) container key value room =
      (ok tt, record room { tx_buffer = some (buffer ++ State.set container key value ∷ []) })
  set_on none container key value room = (ok tt, write_fragment room container key value)

  unfoldable pub set_body : Text → Text → Value → RoomBody Value (Unit {0})
  unfolding set_on
  set_body container key value room = set_on room.tx_buffer container key value room

  unfoldable pub set_fragment :
      AppState Value → ℕ → Text → Text → Value → Result StateError (Unit {0}) × AppState Value
  unfolding set_body with_room
  set_fragment app room_id container key value =
      with_room app room_id (set_body container key value)

  -- The entry at a key of a container that may be missing.
  abbrev pub entry_at :
      Option (Dict Text (FragmentEntry Value)) → Text → Option (FragmentEntry Value)
  entry_at none key = none
  entry_at (some fragments) key = get fragments key

  unfoldable pub fragment : RoomState Value → Text → Text → Option (FragmentEntry Value)
  fragment room container key = entry_at (get room.containers container) key

  get-or_default :
      (o : Option (Dict Text (FragmentEntry Value))) (k : Text)
      → get (or_default o) k ≡ entry_at o k
  unfolding get
  get-or_default none k = refl
  get-or_default (some m) k = refl

module _ {Value : Type 0} ⦃json : Json Value⦄ where
  -- A container is needed here, unlike in a transaction.
  unfoldable pub del_on :
      Option (List (RoomCommand Value)) → Text → Text → RoomBody Value (Unit {0})
  unfolding write_fragment contains_key
  del_on (some buffer) container key room =
      (ok tt, record room { tx_buffer = some (buffer ++ State.del container key ∷ []) })
  del_on none container key room =
      if contains_key room.containers container
      then (ok tt, write_fragment room container key json.null)
      else (err container_not_found, room)

  unfoldable pub del_body : Text → Text → RoomBody Value (Unit {0})
  unfolding del_on
  del_body container key room = del_on room.tx_buffer container key room

  unfoldable pub del_fragment :
      AppState Value → ℕ → Text → Text → Result StateError (Unit {0}) × AppState Value
  unfolding del_body with_room
  del_fragment app room_id container key = with_room app room_id (del_body container key)

  unfoldable pub live : FragmentEntry Value → Result StateError (Value × ℕ)
  live entry =
      if json.is_null entry.value
      then err fragment_tombstone
      else ok (entry.value, entry.key_version)

  unfoldable pub get_body : Text → Text → RoomState Value → Result StateError (Value × ℕ)
  unfolding live
  get_body container key room = do
    fragments ← ok_or (get room.containers container) container_not_found
    entry ← ok_or (get fragments key) fragment_not_found
    live entry

  unfoldable pub get_fragment : AppState Value → ℕ → Text → Text → Result StateError (Value × ℕ)
  unfolding get_body
  get_fragment app room_id container key = do
    room ← find_room app room_id
    get_body container key room

module _ {Value : Type 0} where
  -- What stands at a key after a write.
  pub fragment-write_fragment :
      (room : RoomState Value) (c k c' k' : Text) (v : Value)
      → fragment (write_fragment room c k v) c' k' ≡ (
          if c == c' && k == k'
          then some (record { value = v; key_version = bump room.room_counter })
          else fragment room c' k')
  unfolding fragment write_fragment
  fragment-write_fragment room c k c' k' v =
      let e : FragmentEntry Value = record { value = v; key_version = bump room.room_counter } in
      let old = or_default (get room.containers c) in
      rw (get-insert room.containers c c' (insert old k e)) (elim (Bool-cases (c == c')) [
        | inl same ↦
            let at : c ≡ c' = (==_iff c c').0 same in
            rw (same, get-insert old k k' e, get-or_default (get room.containers c) k', at)
        | inr other ↦ rw other
      ])
