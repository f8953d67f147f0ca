-- ===== src/Config/Servers.antt =====
-- syncpond-server/src/main.rs: the servers that `main` starts, from their first connection to the end
-- of the program. What happens to the listeners, in its order, is from outside.
use data_sync.Base.{
  ◌≡◌, refl, ap, sym, ◌∙◌, Bool, true, false, not, ◌&&◌, Bool-cases, inl, inr, Option, none, some,
  List, [], ◌∷◌, ◌++◌, All, All-append, Result, ok, err, if◌then◌else◌,
}
use data_sync.Text.{Text, lit}
use data_sync.Config.{SyncpondConfig, Start, configure, or_default}
use data_sync.Config.Accepted.{configure_iff}

pub data Listener : Type 0 where
  ws command health : Listener

-- `ctrl_c` has returned, or a listener has bound its address or accepted a connection.
pub data Happening (SocketAddr Stream : Type 0) : Type 0 where
  interrupted : Result Text (Unit {0}) → Happening SocketAddr Stream
  bound : Listener → Result Text (Unit {0}) → Happening SocketAddr Stream
  accepted : Listener → Result Text (Stream × SocketAddr) → Happening SocketAddr Stream

-- A task that handles a connection.
pub data Task (SocketAddr Stream : Type 0) : Type 0 where
  handles : Listener → Stream → SocketAddr → Task SocketAddr Stream

abbrev pub bind_failed : Listener → Text
bind_failed ws = lit "ws bind failed"
bind_failed command = lit "cmd bind failed"
bind_failed health = lit "health bind failed"

module _ {SocketAddr Stream Value : Type 0} (is_loopback : SocketAddr → Bool)
    (start : Start SocketAddr Value) where
  -- The handlers that begin for a connection.
  abbrev pub spawned : Listener → Stream → SocketAddr → List (Task SocketAddr Stream)
  spawned ws stream peer = handles ws stream peer ∷ []
  spawned command stream peer = handles command stream peer ∷ []
  spawned health stream peer =
      if start.health_bind_loopback_only && not (is_loopback peer)
      then []
      else handles health stream peer ∷ []

  -- The handlers that begin, and the result of the program once `select!` has one.
  unfoldable pub run_servers :
      List (Happening SocketAddr Stream)
      → List (Task SocketAddr Stream) × Option (Result Text (Unit {0}))
  run_servers [] = ([], none)
  run_servers (interrupted (ok _) ∷ later) = ([], some (ok tt))
  run_servers (interrupted (err e) ∷ later) = ([], some (err (lit "failed to listen for ctrl-c")))
  run_servers (bound listener (ok _) ∷ later) = run_servers later
  run_servers (bound listener (err e) ∷ later) = ([], some (err (bind_failed listener)))
  run_servers (accepted listener (ok (stream, peer)) ∷ later) =
      let (tasks, result) = run_servers later in (spawned listener stream peer ++ tasks, result)
  run_servers (accepted listener (err e) ∷ later) = ([], some (err e))

-- A task of the health server handles a loopback address.
abbrev pub IsLocal :
    {SocketAddr Stream : Type 0} → (SocketAddr → Bool) → Task SocketAddr Stream → Type 0
IsLocal is_loopback (handles ws stream peer) = Unit
IsLocal is_loopback (handles command stream peer) = Unit
IsLocal is_loopback (handles health stream peer) = is_loopback peer ≡ true

module _ {SocketAddr Stream Value : Type 0} (is_loopback : SocketAddr → Bool)
    (start : Start SocketAddr Value) (only : start.health_bind_loopback_only ≡ true) where
  spawned-IsLocal :
      (listener : Listener) (stream : Stream) (peer : SocketAddr)
      → All (IsLocal is_loopback) (spawned is_loopback start listener stream peer)
  spawned-IsLocal ws stream peer = (tt, tt)
  spawned-IsLocal command stream peer = (tt, tt)
  spawned-IsLocal health stream peer = elim (Bool-cases (is_loopback peer)) [
    | inl near ↦ rw (only, near) (near, tt)
    | inr far ↦ rw (only, far) tt
  ]

  run_servers-IsLocal :
      (happenings : List (Happening SocketAddr Stream))
      → All (IsLocal is_loopback) (run_servers is_loopback start happenings).0
  unfolding run_servers
  run_servers-IsLocal [] = tt
  run_servers-IsLocal (interrupted (ok _) ∷ later) = tt
  run_servers-IsLocal (interrupted (err e) ∷ later) = tt
  run_servers-IsLocal (bound listener (ok _) ∷ later) = run_servers-IsLocal later
  run_servers-IsLocal (bound listener (err e) ∷ later) = tt
  run_servers-IsLocal (accepted listener (ok (stream, peer)) ∷ later) =
      All-append (IsLocal is_loopback) (spawned is_loopback start listener stream peer) _
        (spawned-IsLocal listener stream peer) (run_servers-IsLocal later)
  run_servers-IsLocal (accepted listener (err e) ∷ later) = tt

module _ (Value : Type 0) {SocketAddr Stream : Type 0} (parse : Text → Option SocketAddr)
    (is_loopback : SocketAddr → Bool) where
  -- The result of a configuration that is refused, or the servers that it starts.
  abbrev pub main_from :
      List (Happening SocketAddr Stream)
      → Result Text (Start SocketAddr Value)
      → List (Task SocketAddr Stream) × Option (Result Text (Unit {0}))
  main_from happenings (err e) = ([], some (err e))
  main_from happenings (ok start) = run_servers is_loopback start happenings

  -- `main`, with the configuration that was read.
  unfoldable pub run_main :
      SyncpondConfig
      → List (Happening SocketAddr Stream)
      → List (Task SocketAddr Stream) × Option (Result Text (Unit {0}))
  unfolding configure run_servers
  run_main config happenings = main_from happenings (configure parse is_loopback config)

  main_from-IsLocal :
      (happenings : List (Happening SocketAddr Stream)) (r : Result Text (Start SocketAddr Value))
      → ((start : Start SocketAddr Value) → r ≡ ok start → start.health_bind_loopback_only ≡ true)
      → All (IsLocal is_loopback) (main_from happenings r).0
  main_from-IsLocal happenings (err e) h = tt
  main_from-IsLocal happenings (ok start) h =
      run_servers-IsLocal is_loopback start (h start refl) happenings

  -- Unless the configuration says that the health server need not be local, it is bound to a loopback
  -- address if the servers start, and whatever happens, every connection that it handles is from a
  -- loopback address.
  pub run_main-IsLocal :
      (config : SyncpondConfig) (happenings : List (Happening SocketAddr Stream))
      → or_default config.health_bind_loopback_only true ≡ true
      → All (IsLocal is_loopback) (run_main config happenings).0
        × ((start : Start SocketAddr Value)
            → configure parse is_loopback config ≡ ok start
            → is_loopback start.health_addr ≡ true)
  unfolding run_main
  run_main-IsLocal config happenings only = (
    main_from-IsLocal happenings (configure parse is_loopback config) (λ start p.
        ap (λ (s : Start SocketAddr Value). s.health_bind_loopback_only)
          ((configure_iff parse is_loopback config start).0 p).settings
        ∙ only),
    λ start p.
        let a = (configure_iff parse is_loopback config start).0 p in
        near_of (is_loopback start.health_addr) (rw only at a.loopback),
  )
    where
      near_of : (b : Bool) → (true && not b) ≡ false → b ≡ true
      near_of true h = refl
      near_of false h = sym h
