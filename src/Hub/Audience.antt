-- ===== src/Hub/Audience.antt =====
-- Who may see an update, and which clients the limiter is asked for before another.
use data_sync.Base.{
  ℕ, ◌≡◌, ◌≢◌, ◌⊎◌, inl, inr, refl, sym, ◌∙◌, true, false, Bool-cases, [], ◌∷◌, ◌++◌, arith, nat_eq,
  ◌==◌, ==_iff,
}
use data_sync.Text.{Text, lit, text_eq}
use data_sync.Text.Number.{print_u64}
use data_sync.Sets.{IsMember, IsMember-contains, contains-IsMember}
use data_sync.Limiter.{allow}
use data_sync.Hub.{Channel, ClientInfo, Clients, Buckets, interested, serve}

-- An update of a public container, or of one that the client was granted, or of the name `*`.
abbrev pub MaySee : {Sender : Type 0} → Text → ClientInfo Sender → Type 0
MaySee container client =
    (container ≡ lit "*")
    ⊎ ((container ≡ lit "public") ⊎ IsMember client.allowed_containers container)

module _ {Sender : Type 0} (container : Text) (client : ClientInfo Sender) where
  MaySee-interested : MaySee container client → interested container client ≡ true
  unfolding interested
  MaySee-interested (inl e) = rw ((==_iff container (lit "*")).1 e) refl
  MaySee-interested (inr (inl e)) = rw e (unfold text_eq in refl)
  MaySee-interested (inr (inr m)) =
      ground (arith, IsMember-contains client.allowed_containers container m)

  pub interested-MaySee : interested container client ≡ true → MaySee container client
  unfolding interested
  interested-MaySee h = elim (Bool-cases (container == lit "*")) [
    | inl all ↦ inl ((==_iff container (lit "*")).0 all)
    | inr some' ↦ elim (Bool-cases (container == lit "public")) [
      | inl public ↦ inr (inl ((==_iff container (lit "public")).0 public))
      | inr private ↦
          inr
            (inr (contains-IsMember client.allowed_containers container (rw (some', private) at h)))
    ]
  ]

  pub blind-MaySee : interested container client ≡ false → ¬ MaySee container client
  blind-MaySee h m = let e : true ≡ false = sym (MaySee-interested m) ∙ h in cc

module _ {Sender : Type 0} (limit window : ℕ) (now : Text → ℕ) (room_id : ℕ) (container : Text)
    (id : Text) where
  -- The limiter as it is when it is asked for a client: it was asked once, under its own key and at
  -- its own instant, for each client in front that may see the container, and for no other.
  abbrev pub IsAskedAt : Clients Sender → Buckets → Buckets → Type 0
  IsAskedAt [] buckets at = ⊥
  IsAskedAt ((i, c) ∷ clients) buckets at =
      ((i ≡ id) × (at ≡ buckets))
      ⊎ ((i ≢ id)
          × ((MaySee container c
                × IsAskedAt clients
                    (allow buckets (print_u64 room_id ++ lit ":" ++ i) limit window (now i)).1 at)
              ⊎ (¬ MaySee container c × IsAskedAt clients buckets at)))

  module _ {Value : Type 0} (channel : Channel Sender Value) (event : Value) where
    -- The same, where the limiter goes from client to client through `serve`.
    pub serve-IsAskedAt :
        (i : Text) (c : ClientInfo Sender) (clients : Clients Sender) (buckets at : Buckets)
        → i ≢ id
        → IsAskedAt clients
            (serve channel limit window now room_id container event i c buckets).1
            at
        → IsAskedAt ((i, c) ∷ clients) buckets at
    unfolding serve
    serve-IsAskedAt i c clients buckets at apart h = elim (Bool-cases (interested container c)) [
      | inl sees ↦ inr (apart, inl (interested-MaySee container c sees, rw sees at h))
      | inr blind ↦ inr (apart, inr (blind-MaySee container c blind, rw blind at h))
    ]

module _ {Sender : Type 0} (limit window : ℕ) (now : Text → ℕ) (room_id : ℕ)
    (container : Text) where
  -- The limiter as it is after it was asked once for each client that may see the container, in their
  -- order, and for no other.
  abbrev pub IsAskedAll : Clients Sender → Buckets → Buckets → Type 0
  IsAskedAll [] buckets end = end ≡ buckets
  IsAskedAll ((i, c) ∷ clients) buckets end =
      (MaySee container c
        × IsAskedAll clients
            (allow buckets (print_u64 room_id ++ lit ":" ++ i) limit window (now i)).1 end)
      ⊎ (¬ MaySee container c × IsAskedAll clients buckets end)

  pub serve-IsAskedAll :
      {Value : Type 0} (channel : Channel Sender Value) (event : Value) (i : Text)
      (c : ClientInfo Sender) (clients : Clients Sender) (buckets end : Buckets)
      → IsAskedAll clients
          (serve channel limit window now room_id container event i c buckets).1
          end
      → IsAskedAll ((i, c) ∷ clients) buckets end
  unfolding serve
  serve-IsAskedAll channel event i c clients buckets end h =
      elim (Bool-cases (interested container c)) [
        | inl sees ↦ inl (interested-MaySee container c sees, rw sees at h)
        | inr blind ↦ inr (blind-MaySee container c blind, rw blind at h)
      ]
