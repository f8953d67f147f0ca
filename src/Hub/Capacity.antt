-- ===== src/Hub/Capacity.antt =====
-- The limit on the clients of a room, through any sequence of the hub's operations.
use data_sync.Base.{
  ℕ, ◌≤◌, ◌≡◌, refl, true, Option, none, some, List, [], ◌∷◌, arith, nat_eq, ◌==◌, Bool-cases, inl,
  inr, ◌∙◌, ap, length, if◌then◌else◌, leb, subst,
}
use data_sync.Dict.{Dict, get, insert, remove, contains_key, get-insert, get-remove, length-insert}
use data_sync.Dict.Distinct.{Distinct, insert-Distinct, remove-Distinct}
use data_sync.Text.{Text, text_eq}
use data_sync.Json.{Json}
use data_sync.Commands.Handlers.{RoomUpdate}
use data_sync.Hub.{
  Channel, ClientInfo, Clients, WsHub, Buckets, or_new, keep_room, max_ws_clients_per_room,
  add_client, remove_client, removed_from, remove_room, remove_all, event_of, serve, rounds,
  deliver, broadcast_to, broadcast_update,
}
use data_sync.Hub.Delivery.{get-keep_room}

module _ {ℓ} {V : Type ℓ} where
  length-remove : (m : Dict Text V) (k : Text) → length (remove m k) ≤ length m
  unfolding remove
  length-remove [] k = omega arith
  length-remove ((i, w) ∷ m) k = ground (arith, length-remove m k)

module _ {Sender : Type 0} where
  -- The clients of a room have different ids, and there are at most 200 of them.
  abbrev pub IsWithin : Clients Sender → Type 0
  IsWithin clients = Distinct clients × (length clients ≤ max_ws_clients_per_room)

  abbrev pub IsWithinLimit : WsHub Sender → Type 0
  IsWithinLimit hub = (j : ℕ) → IsWithin (or_new (get hub j))

  remove-IsWithin :
      (clients : Clients Sender) (id : Text) → IsWithin clients → IsWithin (remove clients id)
  remove-IsWithin clients id (d, l) =
      (remove-Distinct clients id d, omega (arith, length-remove clients id))

  remove_all-IsWithin :
      (clients : Clients Sender) (ids : List Text)
      → IsWithin clients
      → IsWithin (remove_all clients ids)
  unfolding remove_all
  remove_all-IsWithin clients [] h = h
  remove_all-IsWithin clients (id ∷ ids) h =
      remove_all-IsWithin (remove clients id) ids (remove-IsWithin clients id h)

  keep_room-IsWithinLimit :
      (hub : WsHub Sender) (room_id : ℕ) (clients : Clients Sender)
      → IsWithinLimit hub
      → IsWithin clients
      → IsWithinLimit (keep_room hub room_id clients)
  keep_room-IsWithinLimit hub room_id clients h c j =
      rw (get-keep_room hub room_id clients j)
        (elim (Bool-cases (room_id == j)) [ inl same ↦ rw same c | inr other ↦ rw other (h j) ])

  insert-IsWithinLimit :
      (hub : WsHub Sender) (room_id : ℕ) (clients : Clients Sender)
      → IsWithinLimit hub
      → IsWithin clients
      → IsWithinLimit (insert hub room_id clients)
  insert-IsWithinLimit hub room_id clients h c j =
      rw (get-insert hub room_id j clients)
        (elim (Bool-cases (room_id == j)) [ inl same ↦ rw same c | inr other ↦ rw other (h j) ])

  pub add_client-IsWithinLimit :
      (hub : WsHub Sender) (room_id : ℕ) (id : Text) (client : ClientInfo Sender)
      → IsWithinLimit hub
      → IsWithinLimit (add_client hub room_id id client).1
  unfolding add_client
  add_client-IsWithinLimit hub room_id id client h =
      let clients = or_new (get hub room_id) in
      elim (Bool-cases (leb max_ws_clients_per_room (length clients))) [
        | inl full ↦ rw full (insert-IsWithinLimit hub room_id clients h (h room_id))
        | inr room ↦ rw room (
            insert-IsWithinLimit hub room_id (insert clients id client) h (
              insert-Distinct clients id client (h room_id).0,
              ground (arith, length-insert clients id client, room),
            ))
      ]

  pub remove_room-IsWithinLimit :
      (hub : WsHub Sender) (room_id : ℕ)
      → IsWithinLimit hub
      → IsWithinLimit (remove_room hub room_id)
  unfolding remove_room
  remove_room-IsWithinLimit hub room_id h j =
      rw (get-remove hub room_id j) (elim (Bool-cases (room_id == j)) [
        | inl same ↦ rw same (tt, omega arith)
        | inr other ↦ rw other (h j)
      ])

  pub remove_client-IsWithinLimit :
      (hub : WsHub Sender) (room_id : ℕ) (id : Text)
      → IsWithinLimit hub
      → IsWithinLimit (remove_client hub room_id id)
  unfolding remove_client
  remove_client-IsWithinLimit hub room_id id h = go (get hub room_id) refl
    where
      go :
          (o : Option (Clients Sender))
          → get hub room_id ≡ o
          → IsWithinLimit (removed_from hub room_id id o)
      go none p = h
      go (some clients) p =
          keep_room-IsWithinLimit hub room_id (remove clients id) h
            (remove-IsWithin clients id (subst (λ o. IsWithin (or_new o)) p (h room_id)))

module _ {Sender Value : Type 0} (channel : Channel Sender Value) (limit window : ℕ)
    (now : Text → ℕ) (room_id : ℕ) (container : Text) (event : Value) where
  -- The rounds keep the ids.
  rounds-contains_key :
      (clients : Clients Sender) (buckets : Buckets) (id : Text)
      → contains_key (rounds channel limit window now room_id container event clients buckets).0 id
        ≡ contains_key clients id
  unfolding rounds contains_key
  rounds-contains_key [] buckets id = refl
  rounds-contains_key ((i, c) ∷ clients) buckets id =
      let step = serve channel limit window now room_id container event i c buckets in
      ap (λ b. if i == id then true else b) (rounds-contains_key clients step.1 id)

  rounds-length :
      (clients : Clients Sender) (buckets : Buckets)
      → length (rounds channel limit window now room_id container event clients buckets).0
        ≡ length clients
  unfolding rounds
  rounds-length [] buckets = refl
  rounds-length ((i, c) ∷ clients) buckets =
      let step = serve channel limit window now room_id container event i c buckets in
      omega (arith, rounds-length clients step.1)

  rounds-Distinct :
      (clients : Clients Sender) (buckets : Buckets)
      → Distinct clients
      → Distinct (rounds channel limit window now room_id container event clients buckets).0
  unfolding rounds
  rounds-Distinct [] buckets h = tt
  rounds-Distinct ((i, c) ∷ clients) buckets (new, h) =
      let step = serve channel limit window now room_id container event i c buckets in
      (rounds-contains_key clients step.1 i ∙ new, rounds-Distinct clients step.1 h)

  deliver-IsWithin :
      (clients : Clients Sender) (buckets : Buckets)
      → IsWithin clients
      → IsWithin (deliver channel limit window now room_id container event clients buckets).0
  unfolding deliver
  deliver-IsWithin clients buckets (d, l) =
      let done = rounds channel limit window now room_id container event clients buckets in
      remove_all-IsWithin done.0 done.1
        (rounds-Distinct clients buckets d, omega (arith, rounds-length clients buckets))

module _ {Sender Value : Type 0} ⦃json : Json Value⦄ (channel : Channel Sender Value)
    (limit window : ℕ) where
  pub broadcast_update-IsWithinLimit :
      (now : Text → ℕ) (update : RoomUpdate Value) (hub : WsHub Sender) (buckets : Buckets)
      → IsWithinLimit hub
      → IsWithinLimit (broadcast_update channel limit window now update hub buckets).0
  unfolding broadcast_update
  broadcast_update-IsWithinLimit now update hub buckets h = go (get hub update.room_id) refl
    where
      go :
          (o : Option (Clients Sender))
          → get hub update.room_id ≡ o
          → IsWithinLimit (broadcast_to channel limit window now update o hub buckets).0
      go none p = h
      go (some clients) p = keep_room-IsWithinLimit hub update.room_id _ h (
          deliver-IsWithin channel limit window now update.room_id update.container
            (event_of update) clients buckets
            (subst (λ o. IsWithin (or_new o)) p (h update.room_id)))
