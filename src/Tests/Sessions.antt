-- ===== src/Tests/Sessions.antt =====
-- A token that is issued at second 100 and read an hour later.
use data_sync.Base.{◌<◌, ◌≡◌, refl, arith, ◌||◌, none, some, List, [], ◌∷◌, ok, ◌==◌, nat_eq}
use data_sync.Dict.{contains_key, insert}
use data_sync.Text.{Text, lit, text_eq, len}
use data_sync.Text.Number.{parse_u64}
use data_sync.Sets.{contains}
use data_sync.Jwt.{Claims}
use data_sync.State.{AppState, new, store_room, empty_room}
use data_sync.State.Tokens.{
  room_claims, create_room_token, token_checks, issue_time, saturating_add,
}
use data_sync.Auth.{validate_jwt_claims, allowed_containers}
use data_sync.Auth.Issued.{validate_jwt_claims-create_room_token}
use data_sync.Tests.Signing.{sample_jwt, sign}

abbrev pub key : Text
key = lit "0123456789abcdef0123456789abcdef"

abbrev pub app : AppState Text
app = record (store_room new 1 empty_room) {
  jwt_key = some key;
  jwt_issuer = some (lit "syncpond");
  jwt_audience = some (lit "clients");
  jwt_ttl_seconds = 3600;
  last_jwt_issue_seconds = none;
}

abbrev pub names : List Text
names = lit "private" ∷ []

abbrev pub token : Text
token = sign key (room_claims sample_jwt app 1 names 100)

issued : create_room_token sample_jwt app 1 names 100 ≡ ok token
unfolding create_room_token token_checks len contains_key store_room new insert
issued = refl

in_time : 3699 < saturating_add (issue_time none 100) 3600
unfolding saturating_add issue_time
in_time = omega arith

validate_jwt_claims-create_room_token_example :
    (accepted : Claims) × (validate_jwt_claims sample_jwt app 3698 3699 token ≡ ok accepted)
    × (parse_u64 accepted.room ≡ some 1)
    × ((c : Text)
        → contains (allowed_containers accepted) c ≡ (contains names c || lit "public" == c))
validate_jwt_claims-create_room_token_example =
    validate_jwt_claims-create_room_token sample_jwt app 1 names 100 issued 3698 3699 (omega arith)
      (omega (arith, in_time)) in_time
