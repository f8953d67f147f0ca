-- ===== src/Tests/Clients.antt =====
-- Two clients of a room, of which one may see the container of an update. A channel is the list of
-- its messages and takes two of them.
use data_sync.Base.{
  ℕ, ◌≡◌, refl, false, none, some, List, [], ◌∷◌, ◌++◌, nat_eq, if◌then◌else◌, leb, length, ◌==◌,
}
use data_sync.Dict.{get, contains_key}
use data_sync.Dict.Distinct.{Distinct}
use data_sync.Text.{Text, lit, text_eq}
use data_sync.Commands.Handlers.{RoomUpdate}
use data_sync.Hub.Audience.{IsAskedAt, IsAskedAll}
use data_sync.Hub.{Buckets, Channel, sent, full, ClientInfo, Clients, WsHub, or_new, event_of}
use data_sync.Hub.Broadcast.{IsServed, after, limiter_after, broadcast_update-IsServed}
use data_sync.Hub.Capacity.{IsWithinLimit}
use data_sync.Hub.Run.{join, leave, drop, broadcast, run_hub, run_hub-IsWithinLimit}
use data_sync.Tests.Sample.{sample_json}

abbrev pub queue : Channel (List Text) Text
queue = record { try_send = λ s v. if leb 2 (length s) then full else sent (s ++ v ∷ []) }

abbrev pub reader : ClientInfo (List Text)
reader = record { allowed_containers = lit "private" ∷ []; sender = [] }

abbrev pub guest : ClientInfo (List Text)
guest = record { allowed_containers = lit "public" ∷ []; sender = [] }

abbrev pub clients : Clients (List Text)
clients = (lit "r", reader) ∷ (lit "g", guest) ∷ []

abbrev pub hub : WsHub (List Text)
hub = (1, clients) ∷ []

abbrev update : RoomUpdate Text
update = record {
  room_id = 1;
  container = lit "private";
  key = lit "a";
  value = some (lit "1");
  room_counter = 1;
}

abbrev clock : Text → ℕ
clock id = 5

present : or_new (get hub 1) ≡ clients
unfolding get
present = refl

apart : Distinct (or_new (get hub 1))
unfolding get contains_key text_eq
apart = (refl, (refl, tt))

broadcast_update-IsServed_example :
    ((id : Text) (client : ClientInfo (List Text))
      → get (or_new (get hub 1)) id ≡ some client
      → (at : Buckets) × IsAskedAt 10 60 clock 1 (lit "private") id (or_new (get hub 1)) [] at
        × IsServed queue 10 60 clock 1
            (lit "private")
            (event_of update)
            id
            at
            client
            (get (or_new (get (after queue 10 60 clock update hub []) 1)) id))
    × ((id : Text)
        → get (or_new (get hub 1)) id ≡ none
        → get (or_new (get (after queue 10 60 clock update hub []) 1)) id ≡ none)
    × ((j : ℕ)
        → (1 == j) ≡ false
        → or_new (get (after queue 10 60 clock update hub []) j) ≡ or_new (get hub j))
    × IsAskedAll 10 60 clock 1
        (lit "private")
        (or_new (get hub 1))
        []
        (limiter_after queue 10 60 clock update hub [])
broadcast_update-IsServed_example = broadcast_update-IsServed queue 10 60 clock update hub [] apart

run_hub-IsWithinLimit_example :
    IsWithinLimit
      (run_hub queue 10 60
        (join 1 (lit "r") reader
          ∷ join 1 (lit "g") guest
          ∷ broadcast clock update
          ∷ leave 1 (lit "r")
          ∷ drop 1
          ∷ [])
        ([], [])).0
run_hub-IsWithinLimit_example = run_hub-IsWithinLimit queue 10 60 (
    join 1 (lit "r") reader
    ∷ join 1 (lit "g") guest
    ∷ broadcast clock update
    ∷ leave 1 (lit "r")
    ∷ drop 1
    ∷ [])
