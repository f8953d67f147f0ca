-- ===== src/Hub/Broadcast.antt =====
-- Who receives an update, and what else `broadcast_update` changes.
use data_sync.Base.{
  ℕ, ◌≡◌, refl, Bool, true, false, Option, none, some, ◌++◌, nat_eq, ◌==◌, ==_iff, ==_refl,
  Bool-cases, inl, inr, ◌⊎◌, ◌∙◌, ap, sym, if◌then◌else◌,
}
use data_sync.Dict.{get}
use data_sync.Dict.Distinct.{Distinct}
use data_sync.Text.{Text, lit, text_eq}
use data_sync.Text.Number.{print_u64}
use data_sync.Json.{Json}
use data_sync.Limiter.{allow}
use data_sync.Commands.Handlers.{RoomUpdate}
use data_sync.Hub.{
  Channel, Sent, sent, full, closed, ClientInfo, Clients, WsHub, Buckets, or_new, interested,
  after_send, event_of, serve, deliver, broadcast_to, broadcast_update,
}
use data_sync.Hub.Audience.{MaySee, IsAskedAt, IsAskedAll, interested-MaySee, blind-MaySee}
use data_sync.Hub.Delivery.{deliver-get, deliver-IsAskedAll, deliver-missing, get-keep_room}

-- What a broadcast does to one client, of which the limiter is asked in the state `at`: the message is
-- put in its queue, or the client is disconnected because the limiter refuses it or its queue does not
-- take the message; and a client that may not see the container is left alone.
pub data IsServed {Sender Value : Type 0} (channel : Channel Sender Value) (limit window : ℕ)
    (now : Text → ℕ) (room_id : ℕ) (container : Text) (event : Value) (id : Text) (at : Buckets)
    (client : ClientInfo Sender) (after : Option (ClientInfo Sender)) : Type 0 where
  passed_over :
      ¬ MaySee container client
      → after ≡ some client
      → IsServed channel limit window now room_id container event id at client after
  delivered :
      (sender : Sender)
      → MaySee container client
      → (allow at (print_u64 room_id ++ lit ":" ++ id) limit window (now id)).0 ≡ true
      → channel.try_send client.sender event ≡ sent sender
      → after ≡ some (record client { sender = sender })
      → IsServed channel limit window now room_id container event id at client after
  refused :
      MaySee container client
      → (allow at (print_u64 room_id ++ lit ":" ++ id) limit window (now id)).0 ≡ false
      → after ≡ none
      → IsServed channel limit window now room_id container event id at client after
  cut_off :
      MaySee container client
      → (allow at (print_u64 room_id ++ lit ":" ++ id) limit window (now id)).0 ≡ true
      → (channel.try_send client.sender event ≡ full)
        ⊎ (channel.try_send client.sender event ≡ closed)
      → after ≡ none
      → IsServed channel limit window now room_id container event id at client after

module _ {Sender Value : Type 0} (channel : Channel Sender Value) (limit window : ℕ)
    (now : Text → ℕ) (room_id : ℕ) (container : Text) (event : Value) (id : Text)
    (client : ClientInfo Sender) (at : Buckets) where
  abbrev verdict : Bool
  verdict = (allow at (print_u64 room_id ++ lit ":" ++ id) limit window (now id)).0

  serve-IsServed :
      IsServed channel limit window now room_id container event id at client
        (serve channel limit window now room_id container event id client at).0
  unfolding serve
  serve-IsServed = elim (Bool-cases (interested container client)) [
    | inl sees ↦ elim (Bool-cases verdict) [
      | inl admitted ↦
          rw (sees, admitted)
            (tried (interested-MaySee container client sees) admitted
              (channel.try_send client.sender event) refl)
      | inr denied ↦ refused (interested-MaySee container client sees) denied (rw (sees, denied))
    ]
    | inr blind ↦ passed_over (blind-MaySee container client blind) (rw blind)
  ]
    where
      tried :
          MaySee container client
          → verdict ≡ true
          → (result : Sent Sender) → channel.try_send client.sender event ≡ result
          → IsServed channel limit window now room_id container event id at client
              (after_send client result)
      tried sees admitted (sent sender) p = delivered sender sees admitted p refl
      tried sees admitted full p = cut_off sees admitted (inl p) refl
      tried sees admitted closed p = cut_off sees admitted (inr p) refl

module _ {Sender Value : Type 0} ⦃json : Json Value⦄ (channel : Channel Sender Value)
    (limit window : ℕ) (now : Text → ℕ) (update : RoomUpdate Value) (hub : WsHub Sender)
    (buckets : Buckets) where
  pub after : WsHub Sender
  after = (broadcast_update channel limit window now update hub buckets).0

  pub limiter_after : Buckets
  limiter_after = (broadcast_update channel limit window now update hub buckets).1

  delivered_to : Clients Sender → Clients Sender
  delivered_to clients =
      (deliver channel limit window now update.room_id update.container (event_of update) clients
        buckets).0

  spread :
      (o : Option (Clients Sender))
      → get hub update.room_id ≡ o
      → (j : ℕ)
      → or_new (get (broadcast_to channel limit window now update o hub buckets).0 j)
        ≡ (if update.room_id == j then delivered_to (or_new o) else or_new (get hub j))
  unfolding delivered_to
  spread none p j = elim (Bool-cases (update.room_id == j)) [
    | inl same ↦ rw same (
        ap or_new (ap (get hub) (sym ((==_iff update.room_id j).0 same)) ∙ p)
        ∙ (unfold deliver in refl))
    | inr other ↦ rw other
  ]
  spread (some clients) p j = get-keep_room hub update.room_id (delivered_to clients) j

  broadcast_room :
      (j : ℕ)
      → or_new (get after j) ≡ (
          if update.room_id == j
          then delivered_to (or_new (get hub update.room_id))
          else or_new (get hub j))
  unfolding after broadcast_update
  broadcast_room j = spread (get hub update.room_id) refl j

  asked_to :
      (o : Option (Clients Sender))
      → IsAskedAll limit window now update.room_id update.container
          (or_new o)
          buckets
          (broadcast_to channel limit window now update o hub buckets).1
  asked_to none = refl
  asked_to (some clients) =
      deliver-IsAskedAll channel limit window now update.room_id update.container (event_of update)
        clients buckets

  limiter-IsAskedAll :
      IsAskedAll limit window now update.room_id update.container
        (or_new (get hub update.room_id))
        buckets
        limiter_after
  unfolding limiter_after broadcast_update
  limiter-IsAskedAll = asked_to (get hub update.room_id)

  -- If the clients of the update's room have different ids, a broadcast serves each of them on its
  -- own. A client that was granted the container, or for which the container is public or named `*`,
  -- is put to the limiter under its own key once, after the clients in front of it that may see the
  -- container and no others; where it is admitted the message is put in its queue, or the client is
  -- disconnected because the queue does not take it, and where it is refused the client is
  -- disconnected. Any other client is left as it was; nobody joins the room, and the clients of all
  -- other rooms stay as they were. The limiter is left with those calls and no others.
  pub broadcast_update-IsServed :
      Distinct (or_new (get hub update.room_id))
      → ((id : Text) (client : ClientInfo Sender)
          → get (or_new (get hub update.room_id)) id ≡ some client
          → (at : Buckets) × IsAskedAt limit window now update.room_id update.container id
              (or_new (get hub update.room_id))
              buckets
              at
            × IsServed channel limit window now update.room_id update.container
                (event_of update)
                id
                at
                client
                (get (or_new (get after update.room_id)) id))
        × ((id : Text)
            → get (or_new (get hub update.room_id)) id ≡ none
            → get (or_new (get after update.room_id)) id ≡ none)
        × ((j : ℕ) → (update.room_id == j) ≡ false → or_new (get after j) ≡ or_new (get hub j))
        × IsAskedAll limit window now update.room_id update.container
            (or_new (get hub update.room_id))
            buckets
            limiter_after
  unfolding delivered_to
  broadcast_update-IsServed d =
      let before = or_new (get hub update.room_id) in
      let here = broadcast_room update.room_id ∙ rw (==_refl update.room_id) in
      (
        (λ id client h.
            let (at, asked, p) =
              deliver-get channel limit window now update.room_id update.container (event_of update)
                before buckets id client d h in
            (
              at,
              asked,
              rw (here, p)
                  (serve-IsServed channel limit window now update.room_id update.container
                    (event_of update) id client at),
            )),
        (λ id h. rw here (
            deliver-missing channel limit window now update.room_id update.container
              (event_of update) before buckets id h)),
        (λ j other. broadcast_room j ∙ rw other),
        limiter-IsAskedAll,
      )
