-- ===== src/Auth.antt =====
-- syncpond-server/src/ws.rs: `validate_jwt_claims`, and the containers that a session may see. The
-- clock is read twice, by the crate and then by the source.
pub mod Issued
use data_sync.Base.{
  ℕ, Bool, true, false, not, Option, none, some, List, [], ◌++◌, Result, ok, err, ◌>>=◌, ◌>>◌,
  require, ok_or, ltb, ◌==◌,
}
use data_sync.Text.{Text, lit, text_eq, is_empty}
use data_sync.Text.Trim.{trim}
use data_sync.Text.Number.{parse_u64}
use data_sync.Sets.{set_insert, collect_set}
use data_sync.Jwt.{Jwt, Claims, Validation}
use data_sync.State.{AppState}

abbrev pub invalid_jwt : Result Text Claims → Result Text Claims
invalid_jwt (ok claims) = ok claims
invalid_jwt (err e) = err (lit "invalid_jwt:" ++ e)

abbrev is_some : Option ℕ → Bool
is_some none = false
is_some (some n) = true

-- The checks after the token is decoded.
unfoldable pub check_claims : ℕ → Claims → Result Text Claims
unfolding trim parse_u64
check_claims now claims = do
  require (ltb now claims.exp) (lit "expired_jwt")
  require (not (is_empty (trim claims.room))) (lit "invalid_jwt_room")
  require (claims.sub == (lit "room:" ++ claims.room)) (lit "invalid_jwt_sub")
  require (is_some (parse_u64 claims.room)) (lit "invalid_jwt_room")
  ok claims

module _ {Value : Type 0} (jwt : Jwt) where
  unfoldable pub validate_jwt_claims : AppState Value → ℕ → ℕ → Text → Result Text Claims
  unfolding check_claims
  validate_jwt_claims app decoded_at now token = do
    jwt_key ← ok_or app.jwt_key (lit "no_jwt_key")
    claims ← invalid_jwt (
        jwt.decode
          (record { secret = jwt_key; issuer = app.jwt_issuer; audience = app.jwt_audience })
          decoded_at token)
    check_claims now claims

abbrev or_default : Option (List Text) → List Text
or_default none = []
or_default (some containers) = containers

-- `allowed_containers` of `handle_ws_connection`.
unfoldable pub allowed_containers : Claims → List Text
unfolding collect_set set_insert
allowed_containers claims =
    set_insert (collect_set (or_default claims.containers) []) (lit "public")
