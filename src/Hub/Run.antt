-- ===== src/Hub/Run.antt =====
-- Sequences of the hub's operations.
use data_sync.Base.{ℕ, List, [], ◌∷◌, arith, nat_eq}
use data_sync.Dict.{get}
use data_sync.Text.{Text, text_eq}
use data_sync.Json.{Json}
use data_sync.Commands.Handlers.{RoomUpdate}
use data_sync.Hub.{
  Channel, ClientInfo, WsHub, Buckets, add_client, remove_client, remove_room, broadcast_update,
}
use data_sync.Hub.Capacity.{
  IsWithinLimit, add_client-IsWithinLimit, remove_room-IsWithinLimit, remove_client-IsWithinLimit,
  broadcast_update-IsWithinLimit,
}

-- The operations of the hub, each with its arguments.
pub data HubCall (Sender Value : Type 0) : Type 0 where
  join : ℕ → Text → ClientInfo Sender → HubCall Sender Value
  leave : ℕ → Text → HubCall Sender Value
  drop : ℕ → HubCall Sender Value
  broadcast : (Text → ℕ) → RoomUpdate Value → HubCall Sender Value

module _ {Sender Value : Type 0} ⦃json : Json Value⦄ (channel : Channel Sender Value)
    (limit window : ℕ) where
  unfoldable pub after_call : HubCall Sender Value → WsHub Sender × Buckets → WsHub Sender × Buckets
  unfolding add_client remove_client remove_room broadcast_update
  after_call (join room_id id client) (hub, buckets) =
      ((add_client hub room_id id client).1, buckets)
  after_call (leave room_id id) (hub, buckets) = (remove_client hub room_id id, buckets)
  after_call (drop room_id) (hub, buckets) = (remove_room hub room_id, buckets)
  after_call (broadcast now update) (hub, buckets) =
      broadcast_update channel limit window now update hub buckets

  unfoldable pub run_hub :
      List (HubCall Sender Value) → WsHub Sender × Buckets → WsHub Sender × Buckets
  unfolding after_call
  run_hub [] s = s
  run_hub (call ∷ calls) s = run_hub calls (after_call call s)

  after_call-IsWithinLimit :
      (call : HubCall Sender Value) (s : WsHub Sender × Buckets)
      → IsWithinLimit s.0
      → IsWithinLimit (after_call call s).0
  unfolding after_call
  after_call-IsWithinLimit (join room_id id client) s h =
      add_client-IsWithinLimit s.0 room_id id client h
  after_call-IsWithinLimit (leave room_id id) s h = remove_client-IsWithinLimit s.0 room_id id h
  after_call-IsWithinLimit (drop room_id) s h = remove_room-IsWithinLimit s.0 room_id h
  after_call-IsWithinLimit (broadcast now update) s h =
      broadcast_update-IsWithinLimit channel limit window now update s.0 s.1 h

  run_hub_from :
      (calls : List (HubCall Sender Value)) (s : WsHub Sender × Buckets)
      → IsWithinLimit s.0
      → IsWithinLimit (run_hub calls s).0
  unfolding run_hub
  run_hub_from [] s h = h
  run_hub_from (call ∷ calls) s h =
      run_hub_from calls (after_call call s) (after_call-IsWithinLimit call s h)

  -- From an empty hub, whatever clients join, leave, are dropped with their room or by a broadcast:
  -- no room ever has more than 200 clients, and no client is in a room twice.
  pub run_hub-IsWithinLimit :
      (calls : List (HubCall Sender Value)) → IsWithinLimit (run_hub calls ([], [])).0
  run_hub-IsWithinLimit calls = run_hub_from calls ([], []) (λ j. (unfold get in (tt, omega arith)))
