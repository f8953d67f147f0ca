-- ===== src/Hub.antt =====
-- syncpond-server/src/ws.rs: `WsHub`, the clients that are connected to each room. The outgoing
-- channel of a client is that of the crate `tokio`, a parameter; a client's id is the text of its
-- `Uuid`.
pub mod Audience
pub mod Delivery
pub mod Broadcast
pub mod Capacity
pub mod Run
use data_sync.Base.{
  ℕ, Bool, true, false, ◌||◌, ◌&&◌, Option, none, some, List, [], ◌∷◌, ◌++◌, Result, ok, err,
  nat_eq, if◌then◌else◌, leb, length, ◌==◌,
}
use data_sync.Dict.{Dict, get, insert, remove}
use data_sync.Text.{Text, lit, text_eq, is_empty}
use data_sync.Text.Number.{print_u64}
use data_sync.Sets.{contains}
use data_sync.Json.{Json}
use data_sync.Limiter.{allow}
use data_sync.Commands.Handlers.{RoomUpdate}

-- What `try_send` of `mpsc::Sender` returns.
pub data Sent (Sender : Type 0) : Type 0 where
  sent : Sender → Sent Sender
  full closed : Sent Sender

pub record Channel (Sender Value : Type 0) : Type 0 where
  pub try_send : Sender → Value → Sent Sender

pub record ClientInfo (Sender : Type 0) : Type 0 where
  pub allowed_containers : List Text
  pub sender : Sender

abbrev pub Clients : Type 0 → Type 0
Clients Sender = Dict Text (ClientInfo Sender)

abbrev pub WsHub : Type 0 → Type 0
WsHub Sender = Dict ℕ (Clients Sender)

abbrev pub Buckets : Type 0
Buckets = Dict Text (List ℕ)

abbrev pub max_ws_clients_per_room : ℕ
max_ws_clients_per_room = 200

module _ {Sender : Type 0} where
  -- `entry(room_id).or_insert_with(HashMap::new)`.
  abbrev pub or_new : Option (Clients Sender) → Clients Sender
  or_new none = []
  or_new (some clients) = clients

  unfoldable pub add_client :
      WsHub Sender → ℕ → Text → ClientInfo Sender → Result Text (Unit {0}) × WsHub Sender
  unfolding get insert
  add_client hub room_id client_id client =
      let room_clients = or_new (get hub room_id) in
      if leb max_ws_clients_per_room (length room_clients)
      then (err (lit "room_client_limit_exceeded"), insert hub room_id room_clients)
      else (ok tt, insert hub room_id (insert room_clients client_id client))

  -- The clients of a room are put back, or the room is removed with its last client.
  unfoldable pub keep_room : WsHub Sender → ℕ → Clients Sender → WsHub Sender
  unfolding insert remove
  keep_room hub room_id room_clients =
      if is_empty room_clients then remove hub room_id else insert hub room_id room_clients

  abbrev pub removed_from : WsHub Sender → ℕ → Text → Option (Clients Sender) → WsHub Sender
  removed_from hub room_id client_id none = hub
  removed_from hub room_id client_id (some room_clients) =
      keep_room hub room_id (remove room_clients client_id)

  unfoldable pub remove_client : WsHub Sender → ℕ → Text → WsHub Sender
  unfolding keep_room get
  remove_client hub room_id client_id = removed_from hub room_id client_id (get hub room_id)

  unfoldable pub remove_room : WsHub Sender → ℕ → WsHub Sender
  unfolding remove
  remove_room hub room_id = remove hub room_id

  -- The test of the loop, turned around.
  unfoldable pub interested : Text → ClientInfo Sender → Bool
  unfolding contains
  interested container client =
      container == lit "*"
      || container == lit "public"
      || contains client.allowed_containers container

  -- What becomes of a client when its message was tried; without a client it is disconnected.
  abbrev pub after_send : ClientInfo Sender → Sent Sender → Option (ClientInfo Sender)
  after_send client (sent sender) = some (record client { sender = sender })
  after_send client full = none
  after_send client closed = none

  abbrev pub put_back : ClientInfo Sender → Option (ClientInfo Sender) → ClientInfo Sender
  put_back client none = client
  put_back client (some client') = client'

  abbrev pub note : Text → Option (ClientInfo Sender) → List Text → List Text
  note client_id none disconnected = client_id ∷ disconnected
  note client_id (some client) disconnected = disconnected

  -- The removal of all that are disconnected.
  unfoldable pub remove_all : Clients Sender → List Text → Clients Sender
  unfolding remove
  remove_all clients [] = clients
  remove_all clients (id ∷ ids) = remove_all (remove clients id) ids

module _ {Value : Type 0} ⦃json : Json Value⦄ where
  abbrev value_fields : Option Value → Dict Text Value
  value_fields none = (lit "deleted", json.boolean true) ∷ []
  value_fields (some value) = (lit "value", value) ∷ []

  unfoldable pub event_of : RoomUpdate Value → Value
  event_of update =
      let counters =
        (lit "room_id", json.number update.room_id)
        ∷ (lit "room_counter", json.number update.room_counter)
        ∷ [] in
      if update.container == lit "*" && update.key == lit "*"
      then json.object ((lit "type", json.string (lit "room_update")) ∷ counters)
      else json.object (
          (lit "type", json.string (lit "update"))
          ∷ (counters
              ++ (lit "container", json.string update.container)
                ∷ (lit "key", json.string update.key)
                ∷ value_fields update.value))

-- The limit and the window are those of the configuration; `now` is the instant at which the
-- limiter is asked for a client.
module _ {Sender Value : Type 0} (channel : Channel Sender Value) (limit window : ℕ)
    (now : Text → ℕ) (room_id : ℕ) (container : Text) (event : Value) where
  -- One round of the loop.
  unfoldable pub serve : Text → ClientInfo Sender → Buckets → Option (ClientInfo Sender) × Buckets
  unfolding interested allow print_u64
  serve client_id client buckets =
      let client_key = print_u64 room_id ++ lit ":" ++ client_id in
      let (allowed, buckets') = allow buckets client_key limit window (now client_id) in
      if interested container client
      then (
        (if allowed then after_send client (channel.try_send client.sender event) else none),
        buckets',
      )
      else (some client, buckets)

  -- The loop: the clients with their channels, those to disconnect, and the limiter.
  unfoldable pub rounds : Clients Sender → Buckets → Clients Sender × List Text × Buckets
  unfolding serve
  rounds [] buckets = ([], [], buckets)
  rounds ((client_id, client) ∷ clients) buckets =
      let (served, buckets') = serve client_id client buckets in
      let (clients', disconnected, buckets'') = rounds clients buckets' in
      (
        (client_id, put_back client served) ∷ clients',
        note client_id served disconnected,
        buckets'',
      )

  unfoldable pub deliver : Clients Sender → Buckets → Clients Sender × Buckets
  unfolding rounds remove_all
  deliver clients buckets =
      let (clients', disconnected, buckets') = rounds clients buckets in
      (remove_all clients' disconnected, buckets')

module _ {Sender Value : Type 0} ⦃json : Json Value⦄ (channel : Channel Sender Value)
    (limit window : ℕ) (now : Text → ℕ) where
  abbrev pub broadcast_to :
      RoomUpdate Value → Option (Clients Sender) → WsHub Sender → Buckets → WsHub Sender × Buckets
  broadcast_to update none hub buckets = (hub, buckets)
  broadcast_to update (some clients) hub buckets =
      let (clients', buckets') =
        deliver channel limit window now update.room_id update.container (event_of update) clients
          buckets in
      (keep_room hub update.room_id clients', buckets')

  unfoldable pub broadcast_update :
      RoomUpdate Value → WsHub Sender → Buckets → WsHub Sender × Buckets
  unfolding deliver keep_room event_of get
  broadcast_update update hub buckets = broadcast_to update (get hub update.room_id) hub buckets
