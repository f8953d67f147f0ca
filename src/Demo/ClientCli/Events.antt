-- ===== src/Demo/ClientCli/Events.antt =====
-- The demo's client of the WebSocket with the updates of the server.
use mathlib.Core.List.{map}
use data_sync.Base.{
  All, ℕ, ◌≡◌, refl, sym, ap, inl, inr, Bool, true, false, ◌&&◌, Option, none, some, List, [], ◌∷◌,
  ◌++◌, Result, ok, if◌then◌else◌, Bool-cases, ◌==◌,
}
use data_sync.Text.{Text, lit, text_eq, starts_with}
use data_sync.Text.Number.{print_u64}
use data_sync.Json.{Json}
use data_sync.Jwt.{Jwt}
use data_sync.State.{AppState}
use data_sync.Hub.{event_of}
use data_sync.Commands.Handlers.{RoomUpdate}
use data_sync.Commands.Process.{process_command}
use data_sync.Commands.Process.Updates.{IsTold, All-IsSent, process_command-IsSent}
use data_sync.Demo.ClientCli.{
  ServerEvent, room_update, update, Incoming, text, prints, event_line, receive,
}

module _ {Value : Type 0} ⦃json : Json Value⦄ where
  abbrev of_room : RoomUpdate Value → Bool
  of_room u = u.container == lit "*" && u.key == lit "*"

  -- What serde makes of the object of an update: a null is no value.
  abbrev read_fragment : RoomUpdate Value → Option Value → ServerEvent Value
  read_fragment u none = update u.room_id u.room_counter u.container u.key none (some true)
  read_fragment u (some value) =
      update u.room_id u.room_counter u.container u.key
        (if json.is_null value then none else some value) none

  unfoldable pub read_as : RoomUpdate Value → ServerEvent Value
  read_as u = if of_room u then room_update u.room_id u.room_counter else read_fragment u u.value

  -- What is to be told of an update.
  abbrev fragment_told : RoomUpdate Value → Option Value → Text
  fragment_told u none =
      lit "FRAGMENT_DELETED room="
      ++ print_u64 u.room_id
      ++ lit " container="
      ++ u.container
      ++ lit " key="
      ++ u.key
      ++ lit " counter="
      ++ print_u64 u.room_counter
  fragment_told u (some value) =
      lit "FRAGMENT_UPDATED room="
      ++ print_u64 u.room_id
      ++ lit " container="
      ++ u.container
      ++ lit " key="
      ++ u.key
      ++ lit " value="
      ++ json.to_string value
      ++ lit " counter="
      ++ print_u64 u.room_counter

  unfoldable pub told : RoomUpdate Value → Text
  unfolding print_u64
  told u =
      if of_room u
      then lit "ROOM_UPDATE room="
        ++ print_u64 u.room_id
        ++ lit " counter="
        ++ print_u64 u.room_counter
      else fragment_told u u.value

  unfoldable pub sent_text : RoomUpdate Value → Text
  unfolding event_of
  sent_text u = json.to_string (event_of u)

  -- The crate reads the text of every update as the event that was written.
  unfoldable pub Reads : (Text → Option (ServerEvent Value)) → List (RoomUpdate Value) → Type 0
  Reads read updates = All (λ u. read (sent_text u) ≡ some (read_as u)) updates

  event_line-fragment :
      (txt : Text) (u : RoomUpdate Value) (value : Option Value)
      → event_line txt (some (read_fragment u value)) ≡ fragment_told u value
  unfolding event_line print_u64
  event_line-fragment txt u none = refl
  event_line-fragment txt u (some value) = elim (Bool-cases (json.is_null value)) [
    | inl yes' ↦
        rw yes' (ap (λ v. fragment_told u (some v)) (sym ((json.is_null_iff value).0 yes')))
    | inr no' ↦ rw no' refl
  ]

  event_line-read_as :
      (txt : Text) (u : RoomUpdate Value) → event_line txt (some (read_as u)) ≡ told u
  unfolding read_as told
  event_line-read_as txt u = elim (Bool-cases (of_room u)) [
    | inl room ↦ rw room (unfold event_line in refl)
    | inr fragment ↦ rw fragment (event_line-fragment txt u u.value)
  ]

  IsTold-told :
      (u : RoomUpdate Value) → IsTold u → starts_with (told u) (lit "FRAGMENT_DELETED") ≡ false
  unfolding told starts_with
  IsTold-told u (inl (v, p)) = elim (Bool-cases (of_room u)) [
    | inl room ↦ rw room refl
    | inr fragment ↦ rw (fragment, p) refl
  ]
  IsTold-told u (inr (c, k)) = rw (c, k) (unfold text_eq in refl)

  -- The messages that a session sends for updates.
  abbrev pub sent_texts : List (RoomUpdate Value) → List (Result Text Incoming)
  sent_texts updates = map (λ u. ok (text (sent_text u))) updates

  receive-sent_texts :
      (read : Text → Option (ServerEvent Value)) (updates : List (RoomUpdate Value))
      → Reads read updates
      → receive read (sent_texts updates)
        ≡ map (λ u. prints (told u)) updates ++ prints (lit "Connection loop ended") ∷ []
  unfolding receive Reads
  receive-sent_texts read [] h = refl
  receive-sent_texts read (u ∷ updates) (h, hs) =
      rw (h, event_line-read_as (sent_text u) u, receive-sent_texts read updates hs) refl

  All-told :
      (updates : List (RoomUpdate Value))
      → All IsTold updates
      → All (λ u. starts_with (told u) (lit "FRAGMENT_DELETED") ≡ false) updates
  All-told [] h = tt
  All-told (u ∷ updates) (h, hs) = (IsTold-told u h, All-told updates hs)

module _ {Value : Type 0} ⦃json : Json Value⦄ (jwt : Jwt) (clock : ℕ)
    (read : Text → Option (ServerEvent Value)) where
  -- Where serde reads the texts of the updates of a command as they are written, a client that is sent
  -- them prints a line for each, in order, with its room, container, key, value and counter, or with
  -- its room and counter where it stands for a whole room, and then that its loop ended; and none of
  -- the lines reports a deletion, not even for DEL.
  pub receive-process_command :
      (app : AppState Value) (line : Text)
      → let updates = (process_command jwt clock app line).0.1 in
        Reads read updates
        → (receive read (sent_texts updates)
            ≡ map (λ u. prints (told u)) updates ++ prints (lit "Connection loop ended") ∷ [])
          × All (λ u. starts_with (told u) (lit "FRAGMENT_DELETED") ≡ false) updates
  receive-process_command app line h =
      let updates = (process_command jwt clock app line).0.1 in
      (
        receive-sent_texts read updates h,
        All-told updates (All-IsSent updates (process_command-IsSent jwt clock app line)),
      )
