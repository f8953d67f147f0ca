-- ===== src/State/Fragments/Effects.antt =====
-- What `set_fragment` and `del_fragment` do outside a transaction, as `get_fragment` shows it.
use data_sync.Base.{
  ℕ, ◌≡◌, refl, Bool, true, ◌&&◌, Option, none, some, List, ok, err, nat_eq, ◌>>=◌, if◌then◌else◌,
  ok_or, ok_option, ◌==◌, arith, ==_refl, Bool-cases, inl, inr, ◌∙◌,
}
use data_sync.Dict.{Dict, get, contains_key}
use data_sync.Text.{Text, text_eq}
use data_sync.Json.{Json}
use data_sync.State.{
  AppState, RoomState, FragmentEntry, StateError, container_not_found, fragment_not_found,
  fragment_tombstone, RoomCommand, bump, find_room, store_room, with_room-found,
  find_room-store_room,
}
use data_sync.State.Rooms.{room_version}
use data_sync.State.Fragments.{
  write_fragment, set_on, set_body, set_fragment, del_on, del_body, del_fragment, fragment,
  entry_at, live, get_body, get_fragment, fragment-write_fragment,
}

if_true {ℓ} : {A : Type ℓ} {x : A} (b : Bool) (y : A) → b ≡ true → (if b then x else y) ≡ x
if_true b y p = rw p

module _ {Value : Type 0} ⦃json : Json Value⦄ where
  -- A reading that succeeds: a key with an entry that is no tombstone.
  abbrev pub live_entry : Option (FragmentEntry Value) → Option (Value × ℕ)
  live_entry none = none
  live_entry (some e) = ok_option (live e)

  pub get_body-fragment :
      (room : RoomState Value) (c k : Text)
      → ok_option (get_body c k room) ≡ live_entry (fragment room c k)
  unfolding get_body fragment
  get_body-fragment room c k = go (get room.containers c)
    where
      at :
          (o : Option (FragmentEntry Value))
          → ok_option (ok_or o fragment_not_found >>= live) ≡ live_entry o
      at none = refl
      at (some e) = refl

      go :
          (o : Option (Dict Text (FragmentEntry Value)))
          → ok_option
              (ok_or o container_not_found >>= λ m. ok_or (get m k) fragment_not_found >>= live)
            ≡ live_entry (entry_at o k)
      go none = refl
      go (some m) = at (get m k)

  -- An entry is read through its container.
  pub get_body-some :
      (room : RoomState Value) (c k : Text) (e : FragmentEntry Value)
      → fragment room c k ≡ some e
      → get_body c k room ≡ live e
  unfolding get_body fragment
  get_body-some room c k e h = go (get room.containers c) h
    where
      go :
          (o : Option (Dict Text (FragmentEntry Value)))
          → entry_at o k ≡ some e
          → (ok_or o container_not_found >>= λ m. ok_or (get m k) fragment_not_found >>= live)
            ≡ live e
      go none p = cc
      go (some m) p = rw p

  pub get_fragment-found :
      (app : AppState Value) (room_id : ℕ) (c k : Text) {room : RoomState Value}
      → find_room app room_id ≡ ok room
      → get_fragment app room_id c k ≡ get_body c k room
  unfolding get_fragment
  get_fragment-found app room_id c k p = rw p

  -- What a client sees after a write of `v` at one key: there the new value, or a tombstone; at
  -- every other key what was readable before; and every other room as it was.
  pub record IsWritten (app app' : AppState Value) (room_id : ℕ) (c k : Text) (v : Value)
      (version : ℕ) : Type 0 where
    pub here :
        get_fragment app' room_id c k
        ≡ (if json.is_null v then err fragment_tombstone else ok (v, version))
    pub counter : room_version app' room_id ≡ ok version
    pub readable :
        (c' k' : Text)
        → ok_option (get_fragment app' room_id c' k') ≡ (
            if c == c' && k == k'
            then (if json.is_null v then none else some (v, version))
            else ok_option (get_fragment app room_id c' k'))
    pub rooms :
        (j : ℕ)
        → ok_option (find_room app' j) ≡ (
            if room_id == j
            then ok_option (find_room app' room_id)
            else ok_option (find_room app j))

module _ {Value : Type 0} ⦃json : Json Value⦄ (app : AppState Value) (room_id : ℕ) (c k : Text)
    (v : Value) {room : RoomState Value} (found : find_room app room_id ≡ ok room) where
  stored : AppState Value
  stored = store_room app room_id (write_fragment room c k v)

  found-stored : find_room stored room_id ≡ ok (write_fragment room c k v)
  unfolding stored
  found-stored = rw (find_room-store_room app room_id room_id _, ==_refl room_id)

  live_written :
      (version : ℕ)
      → ok_option (live (record { value = v; key_version = version }))
        ≡ (if json.is_null v then none else some (v, version))
  unfolding live
  live_written version = ground arith

  stored_readable :
      (c' k' : Text)
      → ok_option (get_fragment stored room_id c' k') ≡ (
          if c == c' && k == k'
          then (if json.is_null v then none else some (v, bump room.room_counter))
          else ok_option (get_fragment app room_id c' k'))
  stored_readable c' k' =
      rw
        (
          get_fragment-found stored room_id c' k' found-stored,
          get_fragment-found app room_id c' k' found,
          get_body-fragment (write_fragment room c k v) c' k',
          get_body-fragment room c' k',
          fragment-write_fragment room c k c' k' v,
        )
        (elim (Bool-cases (c == c' && k == k')) [
          | inl same ↦ rw same (live_written (bump room.room_counter))
          | inr other ↦ rw other
        ])

  stored_rooms :
      (j : ℕ)
      → ok_option (find_room stored j) ≡ (
          if room_id == j
          then ok_option {E = StateError} (ok (write_fragment room c k v))
          else ok_option (find_room app j))
  unfolding stored
  stored_rooms j =
      rw (find_room-store_room app room_id j _)
        (elim (Bool-cases (room_id == j)) [ inl same ↦ rw same | inr other ↦ rw other ])

  stored-IsWritten : IsWritten app stored room_id c k v (bump room.room_counter)
  stored-IsWritten =
      let e : FragmentEntry Value = record { value = v; key_version = bump room.room_counter } in
      let there : fragment (write_fragment room c k v) c k ≡ some e =
        rw (fragment-write_fragment room c k c k v, ==_refl c, ==_refl k) in
      record {
        here =
            get_fragment-found stored room_id c k found-stored
            ∙ get_body-some (write_fragment room c k v) c k e there
            ∙ (unfold live in refl);
        counter = unfold room_version in rw found-stored (unfold write_fragment in refl);
        readable = stored_readable;
        rooms = λ j. rw found-stored (stored_rooms j);
      }

  pub set_on-none :
      (b : Option (List (RoomCommand Value)))
      → b ≡ none
      → set_on b c k v room ≡ (ok tt, write_fragment room c k v)
  unfolding set_on
  set_on-none b p = rw p

  -- In a room that can be taken, SET outside a transaction succeeds, and a client sees its value
  -- with the room's next version.
  pub set_fragment-IsWritten :
      room.tx_buffer ≡ none
      → ((set_fragment app room_id c k v).0 ≡ ok tt)
        × IsWritten app (set_fragment app room_id c k v).1 room_id c k v (bump room.room_counter)
  unfolding set_fragment set_body stored
  set_fragment-IsWritten closed =
      rw (with_room-found app room_id (set_body c k v) found, set_on-none room.tx_buffer closed)
        (refl, stored-IsWritten)

module _ {Value : Type 0} ⦃json : Json Value⦄ (app : AppState Value) (room_id : ℕ) (c k : Text)
    {room : RoomState Value} (found : find_room app room_id ≡ ok room) where
  del_on-none :
      (b : Option (List (RoomCommand Value)))
      → b ≡ none
      → contains_key room.containers c ≡ true
      → del_on b c k room ≡ (ok tt, write_fragment room c k json.null)
  unfolding del_on
  del_on-none b p there = rw (p, there)

  -- In a room that can be taken, DEL outside a transaction in a container that exists succeeds,
  -- whether the key exists or not, and a client sees a tombstone there, with the room's next
  -- version.
  pub del_fragment-IsWritten :
      room.tx_buffer ≡ none
      → contains_key room.containers c ≡ true
      → ((del_fragment app room_id c k).0 ≡ ok tt)
        × IsWritten app
            (del_fragment app room_id c k).1
            room_id
            c
            k
            json.null
            (bump room.room_counter)
        × (get_fragment (del_fragment app room_id c k).1 room_id c k ≡ err fragment_tombstone)
  unfolding del_fragment del_body
  del_fragment-IsWritten closed there =
      let w = stored-IsWritten app room_id c k json.null found in
      rw (with_room-found app room_id (del_body c k) found, del_on-none room.tx_buffer closed there)
        (
          refl,
          (unfold stored in w),
          (unfold stored in
              w.here ∙ if_true (json.is_null json.null) _ ((json.is_null_iff json.null).1 refl)),
        )
