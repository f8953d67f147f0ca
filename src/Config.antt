-- ===== src/Config.antt =====
-- syncpond-server/src/main.rs: `SyncpondConfig`, and what `main` makes of it before it starts the
-- servers. The configuration is what serde_yaml has read; addresses are those of `std::net`.
pub mod Accepted
pub mod Key
pub mod Servers
use data_sync.Base.{
  ℕ, ◌*◌, ◌^◌, Bool, true, false, not, ◌&&◌, ◌++◌, Option, none, some, List, [], Result, ok, err,
  ◌>>=◌, ◌>>◌, ok_or, require, unwrap_or,
}
use data_sync.Text.{Text, lit, is_empty}
use data_sync.Text.Trim.{trim}
use data_sync.State.{AppState, StateError, new}
use data_sync.State.Settings.{
  set_command_api_key, set_jwt_key, set_jwt_issuer, set_jwt_audience, set_jwt_ttl,
}
use data_sync.Console.{Limits}

pub record SyncpondConfig : Type 0 where
  pub command_api_key : Text
  pub ws_addr : Option Text
  pub command_addr : Option Text
  pub health_addr : Option Text
  pub jwt_key : Option Text
  pub jwt_issuer : Option Text
  pub jwt_audience : Option Text
  pub jwt_ttl_seconds : Option ℕ
  pub require_tls : Option Bool
  pub health_bind_loopback_only : Option Bool
  pub command_rate_limit : Option ℕ
  pub command_rate_window_secs : Option ℕ
  pub ws_auth_rate_limit : Option ℕ
  pub ws_auth_rate_window_secs : Option ℕ
  pub ws_update_rate_limit : Option ℕ
  pub ws_update_rate_window_secs : Option ℕ
  pub ws_room_rate_limit : Option ℕ
  pub ws_room_rate_window_secs : Option ℕ
  pub ws_allowed_origins : Option (List Text)
  pub command_auth_rate_limit : Option ℕ
  pub command_auth_rate_window_secs : Option ℕ

-- `unwrap_or` of `Option`.
abbrev pub or_default : {A : Type 0} → Option A → A → A
or_default none d = d
or_default (some a) d = a

-- What the servers are started with.
pub record Start (SocketAddr Value : Type 0) : Type 0 where
  pub app : AppState Value
  pub limits : Limits
  pub ws_auth_rate_limit : ℕ
  pub ws_auth_rate_window : ℕ
  pub ws_allowed_origins : List Text
  pub ws_addr : SocketAddr
  pub command_addr : SocketAddr
  pub health_addr : SocketAddr
  pub health_bind_loopback_only : Bool

-- `if let Some(a) = ... { state.setter(a) }`.
abbrev pub set_some : {A S : Type 0} → (S → A → S) → Option A → S → S
set_some setter none s = s
set_some setter (some a) s = setter s a

-- `Duration::from_secs`, in nanoseconds.
unfoldable pub from_secs : ℕ → ℕ
from_secs secs = secs * 1000000000

unfoldable pub limits_of : SyncpondConfig → Limits
unfolding from_secs
limits_of config = record {
  cmd_rate_limit = or_default config.command_rate_limit 120;
  cmd_rate_window = from_secs (or_default config.command_rate_window_secs 60);
  command_auth_rate_limit = or_default config.command_auth_rate_limit 5;
  command_auth_rate_window = from_secs (or_default config.command_auth_rate_window_secs 60);
  ws_update_rate_limit = or_default config.ws_update_rate_limit 240;
  ws_update_rate_window = from_secs (or_default config.ws_update_rate_window_secs 60);
  ws_room_rate_limit = or_default config.ws_room_rate_limit 1000;
  ws_room_rate_window = from_secs (or_default config.ws_room_rate_window_secs 60);
}

module _ {Value : Type 0} where
  -- The state with the settings for tokens.
  unfoldable pub base_state : SyncpondConfig → AppState Value → AppState Value
  unfolding set_jwt_key set_jwt_issuer set_jwt_audience set_jwt_ttl
  base_state config app = set_some set_jwt_ttl config.jwt_ttl_seconds (
      set_some set_jwt_audience config.jwt_audience
        (set_some set_jwt_issuer config.jwt_issuer (set_some set_jwt_key config.jwt_key app)))

  -- The state once its key is set.
  abbrev pub keyed : Result StateError (Unit {0}) × AppState Value → Result Text (AppState Value)
  keyed (ok _, app) = ok app
  keyed (err e, app) = err (lit "command_api_key must be configured and non-empty")

-- `str::parse` at `SocketAddr`, with the context of its error.
unfoldable pub address :
    {SocketAddr : Type 0}
    → (Text → Option SocketAddr)
    → Text
    → Option Text
    → Text
    → Result Text SocketAddr
address parse name configured default =
    let addr = or_default configured default in
    ok_or (parse addr) (lit "invalid " ++ name ++ lit ": " ++ addr)

-- `parse` is `str::parse` at `SocketAddr`, and `is_loopback` that of its address.
module _ {SocketAddr Value : Type 0} (parse : Text → Option SocketAddr)
    (is_loopback : SocketAddr → Bool) where
  unfoldable pub configure : SyncpondConfig → Result Text (Start SocketAddr Value)
  unfolding set_command_api_key base_state address limits_of from_secs trim
  configure config = do
    app ← keyed (set_command_api_key new config.command_api_key)
    require (not (is_empty (trim config.command_api_key)))
        (lit "command_api_key must be configured and non-empty")
    require (not (or_default config.require_tls false)) (
        lit
          "TLS transport required in config, but this binary does not terminate TLS; use reverse proxy for TLS termination")
    ws_addr ← address parse (lit "ws_addr") config.ws_addr (lit "127.0.0.1:8080")
    command_addr ← address parse (lit "command_addr") config.command_addr (lit "127.0.0.1:9090")
    health_addr ← address parse (lit "health_addr") config.health_addr (lit "127.0.0.1:7070")
    let loopback_only = or_default config.health_bind_loopback_only true
    require (not (loopback_only && not (is_loopback health_addr)))
        (lit "health_bind_loopback_only=true but health_addr is not loopback")
    ok (record {
      app = base_state config app;
      limits = limits_of config;
      ws_auth_rate_limit = or_default config.ws_auth_rate_limit 10;
      ws_auth_rate_window = from_secs (or_default config.ws_auth_rate_window_secs 60);
      ws_allowed_origins = or_default config.ws_allowed_origins [];
      ws_addr = ws_addr;
      command_addr = command_addr;
      health_addr = health_addr;
      health_bind_loopback_only = loopback_only;
    })
