-- ===== src/Jwt.antt =====
-- What the server uses of the crate `jsonwebtoken`, with the two claim records that it writes and
-- reads. The crate is a parameter of the model.
use data_sync.Base.{ℕ, ◌≡◌, ◌<◌, Option, some, List, Result, ok}
use data_sync.Text.{Text}

-- `JwtClaims` of syncpond-server/src/state.rs.
pub record JwtClaims : Type 0 where
  pub sub : Text
  pub room : Text
  pub containers : List Text
  pub exp : ℕ
  pub iss : Option Text
  pub aud : Option Text

-- `Claims` of syncpond-server/src/ws.rs.
pub record Claims : Type 0 where
  pub sub : Text
  pub room : Text
  pub containers : Option (List Text)
  pub exp : ℕ

-- `Validation` with HS256 and a required `exp`, and the key.
pub record Validation : Type 0 where
  pub secret : Text
  pub issuer : Option Text
  pub audience : Option Text

pub record Jwt : Type 0 where
  -- `encode` with the default header, from the key's bytes.
  pub encode : Text → JwtClaims → Option Text
  -- `decode` at a time in seconds; the error is the text that `Display` gives for it.
  pub decode : Validation → ℕ → Text → Result Text Claims
  -- A signed token is decoded with the same key, issuer and audience, until it expires.
  pub decode-encode :
      (secret token : Text) (c : JwtClaims) (now : ℕ)
      → encode secret c ≡ some token
      → now < c.exp
      → decode (record { secret = secret; issuer = c.iss; audience = c.aud }) now token
        ≡ ok (record { sub = c.sub; room = c.room; containers = some c.containers; exp = c.exp })
