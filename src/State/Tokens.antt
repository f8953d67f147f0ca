-- ===== src/State/Tokens.antt =====
-- syncpond-server/src/state.rs: `create_room_token`.
use data_sync.Base.{
  ℕ, ◌+◌, ◌-◌, max, Bool, Option, none, some, List, [], ◌++◌, Result, ok, ◌>>=◌, ◌>>◌, require,
  if◌then◌else◌, ltb, leb, u64_mod, ok_or, nat_eq,
}
use data_sync.Dict.{contains_key}
use data_sync.Text.{Text, lit, len}
use data_sync.Text.Number.{print_u64}
use data_sync.Sets.{set_insert, collect_set}
use data_sync.Jwt.{Jwt, JwtClaims}
use data_sync.State.{
  AppState, StateError, room_not_found, jwt_key_not_configured, jwt_key_too_short,
  jwt_issuer_audience_not_configured,
}

-- `u64::saturating_add`.
unfoldable pub saturating_add : ℕ → ℕ → ℕ
saturating_add a b = if ltb (a + b) u64_mod then a + b else u64_mod - 1

-- `clock` is the time since the epoch in seconds, 0 where the system clock stands before it.
unfoldable pub issue_time : Option ℕ → ℕ → ℕ
unfolding saturating_add
issue_time none clock = clock
issue_time (some last) clock = max clock (saturating_add last 1)

-- The names that a token grants: the given ones and `public`.
unfoldable pub granted : List Text → List Text
unfolding collect_set set_insert
granted containers = set_insert (collect_set containers []) (lit "public")

-- The checks before the claims are made; the result is the key.
unfoldable pub token_checks :
    Option Text → Option Text → Option Text → Bool → Result StateError Text
unfolding len
token_checks jwt_key jwt_issuer jwt_audience room_exists = do
  key ← ok_or jwt_key jwt_key_not_configured
  require (leb 32 (len key)) jwt_key_too_short
  _issuer ← ok_or jwt_issuer jwt_issuer_audience_not_configured
  _audience ← ok_or jwt_audience jwt_issuer_audience_not_configured
  require room_exists room_not_found
  ok key

module _ {Value : Type 0} (jwt : Jwt) where
  unfoldable pub room_claims : AppState Value → ℕ → List Text → ℕ → JwtClaims
  unfolding granted issue_time print_u64
  room_claims app room_id containers clock = record {
    sub = lit "room:" ++ print_u64 room_id;
    room = print_u64 room_id;
    containers = granted containers;
    exp = saturating_add (issue_time app.last_jwt_issue_seconds clock) app.jwt_ttl_seconds;
    iss = app.jwt_issuer;
    aud = app.jwt_audience;
  }

  unfoldable pub create_room_token : AppState Value → ℕ → List Text → ℕ → Result StateError Text
  unfolding room_claims token_checks contains_key
  create_room_token app room_id containers clock = do
    key ← token_checks app.jwt_key app.jwt_issuer app.jwt_audience (contains_key app.rooms room_id)
    ok_or (jwt.encode key (room_claims app room_id containers clock)) jwt_key_not_configured
