-- ===== src/Tests/Signing.antt =====
-- A signing library for the tests: a token is the claims with the key and the names behind them.
use mathlib.Core.Option
use data_sync.Base.{
  ℕ, zero, suc, ◌<◌, ◌≡◌, refl, arith, Option, none, some, List, [], ◌∷◌, ◌++◌, Result, ok, err,
  if◌then◌else◌, ltb, length, ◌==◌, ==_refl, ap, nat_eq, subst,
}
use data_sync.Text.{Text, lit, text_eq}
use data_sync.Jwt.{Jwt, JwtClaims, Claims, Validation}

-- A text behind its length.
unfoldable put : Text → Text → Text
put t rest = length t ∷ (t ++ rest)

unfoldable take : ℕ → Text → Text × Text
take zero s = ([], s)
take (suc n) [] = ([], [])
take (suc n) (c ∷ s) = let (t, rest) = take n s in (c ∷ t, rest)

unfoldable read : Text → Text × Text
unfolding take
read [] = ([], [])
read (n ∷ s) = take n s

take-length : (t rest : Text) → take (length t) (t ++ rest) ≡ (t, rest)
unfolding take
take-length [] rest = refl
take-length (c ∷ t) rest = ap (λ (x : Text × Text). (c ∷ x.0, x.1)) (take-length t rest)

read-put : (t rest : Text) → read (put t rest) ≡ (t, rest)
unfolding read put
read-put t rest = take-length t rest

unfoldable put_all : List Text → Text → Text
unfolding put
put_all [] rest = rest
put_all (t ∷ ts) rest = put t (put_all ts rest)

unfoldable read_all : ℕ → Text → List Text × Text
unfolding read
read_all zero s = ([], s)
read_all (suc n) s = let (t, rest) = read s in let (ts, last) = read_all n rest in (t ∷ ts, last)

read_all-put_all :
    (ts : List Text) (rest : Text) → read_all (length ts) (put_all ts rest) ≡ (ts, rest)
unfolding read_all put_all
read_all-put_all [] rest = refl
read_all-put_all (t ∷ ts) rest = rw (read-put t (put_all ts rest), read_all-put_all ts rest)

unfoldable name_or : Option Text → Text
name_or none = []
name_or (some t) = 1 ∷ t

unfoldable signature : Text → Option Text → Option Text → Text
unfolding put name_or
signature secret issuer audience = put secret (put (name_or issuer) (name_or audience))

unfoldable pub sign : Text → JwtClaims → Text
unfolding put put_all signature
sign secret c =
    c.exp
    ∷ length c.containers
    ∷ put c.sub (put c.room (put_all c.containers (signature secret c.iss c.aud)))

unfoldable claims_of : ℕ → ℕ → Text → Claims × Text
unfolding read read_all
claims_of exp count s =
    let (sub, s1) = read s in
    let (room, s2) = read s1 in
    let (containers, last) = read_all count s2 in
    (record { sub = sub; room = room; containers = some containers; exp = exp }, last)

unfoldable check : Text → ℕ → Claims × Text → Result Text Claims
check expected now (claims, found) =
    if found == expected
    then (if ltb now claims.exp then ok claims else err (lit "ExpiredSignature"))
    else err (lit "InvalidSignature")

unfoldable pub verify : Validation → ℕ → Text → Result Text Claims
unfolding check claims_of signature
verify v now (exp ∷ count ∷ s) =
    check (signature v.secret v.issuer v.audience) now (claims_of exp count s)
verify v now (exp ∷ []) = err (lit "InvalidToken")
verify v now [] = err (lit "InvalidToken")

pub verify-sign :
    (secret : Text) (c : JwtClaims) (now : ℕ)
    → now < c.exp
    → verify (record { secret = secret; issuer = c.iss; audience = c.aud }) now (sign secret c)
      ≡ ok (record { sub = c.sub; room = c.room; containers = some c.containers; exp = c.exp })
unfolding verify sign claims_of check
verify-sign secret c now h =
    let last = signature secret c.iss c.aud in
    rw
      (
        read-put c.sub (put c.room (put_all c.containers last)),
        read-put c.room (put_all c.containers last),
        read_all-put_all c.containers last,
        ==_refl last,
      )
      (ground arith)

pub signed :
    (secret token : Text) (c : JwtClaims) (now : ℕ)
    → sign secret c ≡ token
    → now < c.exp
    → verify (record { secret = secret; issuer = c.iss; audience = c.aud }) now token
      ≡ ok (record { sub = c.sub; room = c.room; containers = some c.containers; exp = c.exp })
signed secret token c now p h =
    subst
      (λ t.
        verify (record { secret = secret; issuer = c.iss; audience = c.aud }) now t
        ≡ ok (record { sub = c.sub; room = c.room; containers = some c.containers; exp = c.exp }))
      p (verify-sign secret c now h)

abbrev pub sample_jwt : Jwt
sample_jwt = record {
  encode = λ secret c. some (sign secret c);
  decode = verify;
  decode-encode = λ secret token c now p h. signed secret token c now (Option.some_inj.0 p) h;
}
