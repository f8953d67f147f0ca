-- ===== src/Server/Keys.antt =====
-- Connections that do not know the key, among others that may.
use data_sync.Base.{
  ◌≡◌, ◌⊎◌, inl, inr, refl, sym, subst, true, false, some, List, [], ◌∷◌, Bool-cases, ltb, nat_eq,
}
use data_sync.Text.{Text, len}
use data_sync.Text.Trim.{trim}
use data_sync.Text.Utf8.{IsUnicode}
use data_sync.Json.{Json}
use data_sync.Jwt.{Jwt}
use data_sync.Hub.{Channel}
use data_sync.Limiter.{allow}
use data_sync.Reading.{Input, line, broken, read_line_with_limit, max_command_line_len}
use data_sync.Compare.{constant_time_eq}
use data_sync.Compare.Equal.{constant_time_eq_iff}
use data_sync.Console.{Limits, Shared, count_auth_failure}
use data_sync.Server.{
  Place, limiting, auth_limiting, greeting, keying, refusing, refused, looping, malformed,
  miscounted, counting, processing, scoring, answering, cleaning, sending, broadcasting, closed,
  Event, limits_at, reads, locks, writes, Connection, first_read, key_read, read, write, move,
}

-- What a line is if it is not the key.
abbrev pub IsOther : Text → Input → Type 0
IsOther key (line text) = IsUnicode (trim text) × (trim text ≡ key → ⊥)
IsOther key broken = Unit

abbrev pub IsOtherFirst : Text → List Input → Type 0
IsOtherFirst key [] = Unit
IsOtherFirst key (input ∷ lines) = IsOther key input

-- A connection up to its key, which is a wrong one, or refused.
abbrev pub IsShut : {Value : Type 0} → Text → Place Value → List Input → Type 0
IsShut key limiting lines = IsOtherFirst key lines
IsShut key auth_limiting lines = IsOtherFirst key lines
IsShut key greeting lines = IsOtherFirst key lines
IsShut key (keying provided_key) lines = IsUnicode provided_key × (provided_key ≡ key → ⊥)
IsShut key (refusing message) lines = Unit
IsShut key (refused message) lines = Unit
IsShut key closed lines = Unit
IsShut key place lines = ⊥

module _ (Value : Type 0) (key : Text) where
  first_read-IsShut :
      (text : Text) (lines : List Input)
      → IsUnicode (trim text) × (trim text ≡ key → ⊥)
      → IsShut {Value = Value} key (first_read (some text)) lines
  first_read-IsShut [] lines h = tt
  first_read-IsShut (c ∷ cs) lines h = h

  read-IsShut :
      (lines : List Input) (c : Connection Value)
      → IsOtherFirst key lines
      → c.place ≡ greeting
      → c.lines ≡ lines
      → let c' = read first_read lines c in IsShut key c'.place c'.lines
  unfolding read read_line_with_limit
  read-IsShut [] c h p q = rw (p, q) tt
  read-IsShut (broken ∷ lines) c h p q = tt
  read-IsShut (line text ∷ lines) c h p q =
      elim (Bool-cases (ltb max_command_line_len (len text))) [
        | inl long ↦ rw long tt
        | inr short ↦ rw short (first_read-IsShut text lines h)
      ]

  key_read-IsShut :
      (provided_key : Text) (lines : List Input)
      → IsUnicode key
      → IsUnicode provided_key × (provided_key ≡ key → ⊥)
      → IsShut {Value = Value} key (key_read provided_key (some key)) lines
  unfolding key_read
  key_read-IsShut provided_key lines u (v, other) =
      elim (Bool-cases (constant_time_eq provided_key key)) [
        | inl same ↦ absurd (other ((constant_time_eq_iff provided_key key v u).0 same))
        | inr n ↦ rw n tt
      ]

-- The rooms, the hub and the limiters of updates are as they were; the application too, but for a
-- failure counted.
pub record IsQuiet {Value Sender : Type 0} (s s' : Shared Value Sender) : Type 0 where
  pub app : (s'.app ≡ s.app) ⊎ (s'.app ≡ count_auth_failure s.app)
  pub hub : s'.hub ≡ s.hub
  pub ws_updates : s'.ws_updates ≡ s.ws_updates
  pub ws_rooms : s'.ws_rooms ≡ s.ws_rooms

module _ {Value Sender : Type 0} ⦃json : Json Value⦄ (jwt : Jwt) (channel : Channel Sender Value)
    (limits : Limits) (key : Text) (u : IsUnicode key) where
  quiet : (s : Shared Value Sender) → IsQuiet s s
  quiet s = record { app = inl refl; hub = refl; ws_updates = refl; ws_rooms = refl }

  abbrev pub Shut : Connection Value → Type 0
  Shut c = IsShut key c.place c.lines

  pub move-IsShut :
      (place : Place Value) (event : Event) (c : Connection Value) (s : Shared Value Sender)
      → c.place ≡ place
      → IsShut key place c.lines
      → s.app.command_api_key ≡ some key
      → let r = move jwt channel limits place event c s in Shut r.0 × IsQuiet s r.1
  unfolding move write
  move-IsShut limiting (limits_at now) c s p h k = (
    elim (Bool-cases (allow s.commands c.ip limits.cmd_rate_limit limits.cmd_rate_window now).0) [
      | inl yes' ↦ rw yes' h
      | inr no' ↦ rw no' tt
    ],
    record { app = inl refl; hub = refl; ws_updates = refl; ws_rooms = refl },
  )
  move-IsShut auth_limiting (limits_at now) c s p h k = (
    elim (Bool-cases
        (allow s.command_auths c.ip limits.command_auth_rate_limit limits.command_auth_rate_window
          now).0) [ inl yes' ↦ rw yes' h | inr no' ↦ rw no' tt ],
    record { app = inl refl; hub = refl; ws_updates = refl; ws_rooms = refl },
  )
  move-IsShut greeting reads c s p h k = (read-IsShut Value key c.lines c h p refl, quiet s)
  move-IsShut (keying provided_key) (locks _) c s p h k =
      (rw k (key_read-IsShut Value key provided_key c.lines u h), quiet s)
  move-IsShut (refusing message) (locks _) c s p h k =
      (tt, record { app = inr refl; hub = refl; ws_updates = refl; ws_rooms = refl })
  move-IsShut (refused message) (writes true) c s p h k = (tt, quiet s)
  move-IsShut (refused message) (writes false) c s p h k = (tt, quiet s)
  move-IsShut looping event c s p h k = absurd h
  move-IsShut malformed event c s p h k = absurd h
  move-IsShut miscounted event c s p h k = absurd h
  move-IsShut (counting trimmed) event c s p h k = absurd h
  move-IsShut (processing trimmed) event c s p h k = absurd h
  move-IsShut (scoring trimmed resp updates) event c s p h k = absurd h
  move-IsShut (answering trimmed resp updates) event c s p h k = absurd h
  move-IsShut (cleaning room updates) event c s p h k = absurd h
  move-IsShut (sending update updates) event c s p h k = absurd h
  move-IsShut (broadcasting update updates) event c s p h k = absurd h
  move-IsShut place event c s p h k = (subst (λ q. IsShut key q c.lines) (sym p) h, quiet s)
