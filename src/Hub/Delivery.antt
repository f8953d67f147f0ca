-- ===== src/Hub/Delivery.antt =====
-- What `broadcast_update` does to each client.
use mathlib.Core.Option
use data_sync.Base.{
  ℕ, ◌≡◌, refl, Bool, true, false, ◌||◌, ◌&&◌, Option, none, some, List, [], ◌∷◌, arith, nat_eq,
  if◌then◌else◌, ◌==◌, ==_iff, ==_refl, ne_of_==, Bool-cases, inl, inr, ◌∙◌, sym,
}
use data_sync.Dict.{get, remove, contains_key, get-insert, get-remove}
use data_sync.Dict.Distinct.{Distinct}
use data_sync.Text.{Text, text_eq}
use data_sync.Sets.{contains}
use data_sync.Hub.Audience.{IsAskedAt, IsAskedAll, serve-IsAskedAt, serve-IsAskedAll}
use data_sync.Hub.{
  Channel, ClientInfo, Clients, WsHub, Buckets, or_new, keep_room, remove_all, serve, rounds,
  put_back, note, deliver,
}

abbrev gone : {A : Type 0} → Option A → Bool
gone none = true
gone (some a) = false

module _ {Sender : Type 0} where
  get-remove_all :
      (clients : Clients Sender) (ids : List Text) (id : Text)
      → get (remove_all clients ids) id ≡ (if contains ids id then none else get clients id)
  unfolding remove_all contains
  get-remove_all clients [] id = refl
  get-remove_all clients (i ∷ ids) id =
      ground (arith, get-remove_all (remove clients i) ids id, get-remove clients i id)

  pub get-keep_room :
      (hub : WsHub Sender) (room_id : ℕ) (clients : Clients Sender) (j : ℕ)
      → or_new (get (keep_room hub room_id clients) j)
        ≡ (if room_id == j then clients else or_new (get hub j))
  unfolding keep_room
  get-keep_room hub room_id [] j =
      rw (get-remove hub room_id j)
        (elim (Bool-cases (room_id == j)) [ inl same ↦ rw same | inr other ↦ rw other ])
  get-keep_room hub room_id (x ∷ clients) j =
      rw (get-insert hub room_id j (x ∷ clients))
        (elim (Bool-cases (room_id == j)) [ inl same ↦ rw same | inr other ↦ rw other ])

module _ {Sender Value : Type 0} (channel : Channel Sender Value) (limit window : ℕ)
    (now : Text → ℕ) (room_id : ℕ) (container : Text) (event : Value) where
  contains-note :
      (id j : Text) (served : Option (ClientInfo Sender)) (ids : List Text)
      → contains (note id served ids) j ≡ ((gone served && id == j) || contains ids j)
  contains-note id j none ids = unfold contains in ground arith
  contains-note id j (some c) ids = refl

  -- A client that is not there is not disconnected.
  rounds-missing :
      (clients : Clients Sender) (buckets : Buckets) (id : Text)
      → contains_key clients id ≡ false
      → contains (rounds channel limit window now room_id container event clients buckets).1 id
        ≡ false
  unfolding rounds contains_key
  rounds-missing [] buckets id h = unfold contains in refl
  rounds-missing ((i, client) ∷ clients) buckets id h =
      let served = serve channel limit window now room_id container event i client buckets in
      let ih = rounds-missing clients served.1 id in
      let ids = (rounds channel limit window now room_id container event clients served.1).1 in
      contains-note i id served.0 ids ∙ (ground (arith, ih))

  -- A client is served once, with the limiter as the rounds before left it.
  rounds-served :
      (clients : Clients Sender) (buckets : Buckets) (id : Text) (client : ClientInfo Sender)
      → Distinct clients
      → get clients id ≡ some client
      → (at : Buckets) × IsAskedAt limit window now room_id container id clients buckets at
        × (contains (rounds channel limit window now room_id container event clients buckets).1 id
            ≡ gone (serve channel limit window now room_id container event id client at).0)
        × (get (rounds channel limit window now room_id container event clients buckets).0 id
            ≡ some (
                put_back client
                  (serve channel limit window now room_id container event id client at).0))
  unfolding rounds get
  rounds-served [] buckets id client d h = cc
  rounds-served ((i, c) ∷ clients) buckets id client (new, d) h =
      let step = serve channel limit window now room_id container event i c buckets in
      let rest = rounds channel limit window now room_id container event clients step.1 in
      elim (Bool-cases (i == id)) [
        | inl same ↦
            let at : i ≡ id = (==_iff i id).0 same in
            let here : c ≡ client = Option.some_inj.0 (ground (arith, h)) in
            let absent = rounds-missing clients step.1 i new in
            rw (sym at, sym here)
              (
                buckets,
                inl (refl, refl),
                contains-note i i step.0 rest.1 ∙ (ground (arith, absent, ==_refl i)),
                rw (==_refl i),
              )
        | inr other ↦
            let (at, asked, p, q) = rounds-served clients step.1 id client d (ground arith) in
            (
              at,
              serve-IsAskedAt limit window now room_id container id channel event i c clients
                  buckets at (ne_of_== i id other) asked,
              contains-note i id step.0 rest.1 ∙ (ground (arith, p)),
              ground (arith, q),
            )
      ]

  -- What becomes of a client that was in the room.
  pub deliver-get :
      (clients : Clients Sender) (buckets : Buckets) (id : Text) (client : ClientInfo Sender)
      → Distinct clients
      → get clients id ≡ some client
      → (at : Buckets) × IsAskedAt limit window now room_id container id clients buckets at
        × (get (deliver channel limit window now room_id container event clients buckets).0 id
            ≡ (serve channel limit window now room_id container event id client at).0)
  unfolding deliver
  deliver-get clients buckets id client d h =
      let (at, asked, p, q) = rounds-served clients buckets id client d h in
      let done = rounds channel limit window now room_id container event clients buckets in
      (at, asked, get-remove_all done.0 done.1 id ∙ rw (p, q) (settled client _))
    where
      settled :
          (client : ClientInfo Sender) (served : Option (ClientInfo Sender))
          → (if gone served then none else some (put_back client served)) ≡ served
      settled client none = refl
      settled client (some c) = refl

  rounds-get :
      (clients : Clients Sender) (buckets : Buckets) (id : Text)
      → get clients id ≡ none
      → get (rounds channel limit window now room_id container event clients buckets).0 id ≡ none
  unfolding rounds get
  rounds-get [] buckets id h = refl
  rounds-get ((i, c) ∷ clients) buckets id h =
      let step = serve channel limit window now room_id container event i c buckets in
      ground (arith, rounds-get clients step.1 id)

  -- Nobody joins by a broadcast.
  pub deliver-missing :
      (clients : Clients Sender) (buckets : Buckets) (id : Text)
      → get clients id ≡ none
      → get (deliver channel limit window now room_id container event clients buckets).0 id ≡ none
  unfolding deliver
  deliver-missing clients buckets id h =
      let done = rounds channel limit window now room_id container event clients buckets in
      get-remove_all done.0 done.1 id ∙ rw (rounds-get clients buckets id h) (ground arith)

  -- What becomes of the limiter.
  rounds-IsAskedAll :
      (clients : Clients Sender) (buckets : Buckets)
      → IsAskedAll limit window now room_id container clients buckets
          (rounds channel limit window now room_id container event clients buckets).2
  unfolding rounds
  rounds-IsAskedAll [] buckets = refl
  rounds-IsAskedAll ((i, c) ∷ clients) buckets =
      serve-IsAskedAll limit window now room_id container channel event i c clients buckets _ (
        rounds-IsAskedAll clients
          (serve channel limit window now room_id container event i c buckets).1)

  pub deliver-IsAskedAll :
      (clients : Clients Sender) (buckets : Buckets)
      → IsAskedAll limit window now room_id container clients buckets
          (deliver channel limit window now room_id container event clients buckets).1
  unfolding deliver
  deliver-IsAskedAll clients buckets = rounds-IsAskedAll clients buckets
