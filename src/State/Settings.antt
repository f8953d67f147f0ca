-- ===== src/State/Settings.antt =====
-- syncpond-server/src/state.rs: the setters of the configuration, and `metrics`.
use data_sync.Base.{ℕ, some, Result, ok, err, if◌then◌else◌, ltb, length}
use data_sync.Text.{Text, is_empty}
use data_sync.Text.Trim.{trim}
use data_sync.State.{AppState, StateError, command_api_key_invalid}

module _ {Value : Type 0} where
  unfoldable pub set_jwt_key : AppState Value → Text → AppState Value
  set_jwt_key app key = record app { jwt_key = some key }

  unfoldable pub set_jwt_ttl : AppState Value → ℕ → AppState Value
  set_jwt_ttl app seconds = record app { jwt_ttl_seconds = seconds }

  unfoldable pub set_jwt_issuer : AppState Value → Text → AppState Value
  set_jwt_issuer app issuer = record app { jwt_issuer = some issuer }

  unfoldable pub set_jwt_audience : AppState Value → Text → AppState Value
  set_jwt_audience app audience = record app { jwt_audience = some audience }

  unfoldable pub set_command_api_key :
      AppState Value → Text → Result StateError (Unit {0}) × AppState Value
  set_command_api_key app key =
      if is_empty (trim key)
      then (err command_api_key_invalid, app)
      else (ok tt, record app { command_api_key = some key })

-- The object that `metrics` builds. `f64` is a type of which nothing is assumed.
pub record Metrics (F64 : Type 0) : Type 0 where
  pub room_count : ℕ
  pub ws_connections : ℕ
  pub next_room_id : ℕ
  pub total_command_requests : ℕ
  pub command_error_count : ℕ
  pub ws_auth_success : ℕ
  pub ws_auth_failure : ℕ
  pub command_auth_failure : ℕ
  pub invalid_command_count : ℕ
  pub ws_connection_count : ℕ
  pub ws_connection_avg_latency_ms : F64
  pub ws_update_rate_limited : ℕ
  pub ws_update_dropped : ℕ
  pub ws_send_errors : ℕ

-- `zero_ms` is `0.0`, and `average_ms total count` the quotient of the two as `f64`, over 1e6.
module _ {F64 Value : Type 0} (zero_ms : F64) (average_ms : ℕ → ℕ → F64) where
  unfoldable pub metrics : AppState Value → Metrics F64
  metrics app = record {
    room_count = length app.rooms;
    ws_connections = app.total_ws_connections;
    next_room_id = app.next_room_id;
    total_command_requests = app.total_command_requests;
    command_error_count = app.command_error_count;
    ws_auth_success = app.ws_auth_success;
    ws_auth_failure = app.ws_auth_failure;
    command_auth_failure = app.command_auth_failure;
    invalid_command_count = app.invalid_command_count;
    ws_connection_count = app.ws_connection_count;
    ws_connection_avg_latency_ms =
        if ltb 0 app.ws_connection_count
        then average_ms app.ws_connection_latency_ns_total app.ws_connection_count
        else zero_ms;
    ws_update_rate_limited = app.ws_update_rate_limited;
    ws_update_dropped = app.ws_update_dropped;
    ws_send_errors = app.ws_send_errors;
  }
