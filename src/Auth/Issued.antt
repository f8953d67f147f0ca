-- ===== src/Auth/Issued.antt =====
-- The tokens that TOKEN.GEN issues.
use data_sync.Base.{
  ℕ, ◌<◌, ◌≡◌, ◌≢◌, refl, Bool, true, false, ◌||◌, Option, none, some, List, [], ◌∷◌, ◌++◌, ok,
  ok_or, ltb, leb, ◌==◌, ==_refl, arith, nat_eq, u64_mod, bind_ok, ok_or_ok, ◌∙◌, Bool-cases,
}
use data_sync.Dict.{contains_key}
use data_sync.Text.{Text, lit, text_eq, is_empty, len}
use data_sync.Text.Trim.{trim, is_empty-trim, trim_start-cons, IsWord}
use data_sync.Text.Number.{
  print_u64, parse_u64, parse_u64-print_u64, print_u64-IsDigits, print_u64-ne-nil, IsDigits-IsWord,
}
use data_sync.Sets.{contains, set_insert, collect_set, contains-set_insert, contains-collect_set}
use data_sync.Jwt.{Jwt, JwtClaims, Claims}
use data_sync.State.{AppState, jwt_key_not_configured}
use data_sync.State.Tokens.{
  room_claims, create_room_token, token_checks, granted, issue_time, saturating_add,
}
use data_sync.Auth.{validate_jwt_claims, check_claims, allowed_containers}

word_not_blank : (s : Text) → IsWord s → s ≢ [] → is_empty (trim s) ≡ false
word_not_blank [] w h = absurd (h refl)
word_not_blank (c ∷ s) (w, _) h = is_empty-trim (c ∷ s) ∙ rw (trim_start-cons c s w)

-- The claims of a room pass the checks until they expire.
check_claims-room :
    (now room_id exp : ℕ) (containers : Option (List Text))
    → now < exp
    → room_id < u64_mod
    → let claims : Claims = record {
      sub = lit "room:" ++ print_u64 room_id;
      room = print_u64 room_id;
      containers = containers;
      exp = exp;
    } in
      check_claims now claims ≡ ok claims
unfolding check_claims
check_claims-room now room_id exp containers h fits =
    let before : ltb now exp ≡ true = ground arith in
    let blank : is_empty (trim (print_u64 room_id)) ≡ false =
      word_not_blank (print_u64 room_id)
        (IsDigits-IsWord (print_u64 room_id) (print_u64-IsDigits room_id))
        (print_u64-ne-nil room_id) in
    rw (before, blank, ==_refl (lit "room:" ++ print_u64 room_id), parse_u64-print_u64 room_id fits)

token_checks_ok :
    (k i a : Option Text) (room_exists : Bool) {key : Text}
    → token_checks k i a room_exists ≡ ok key
    → k ≡ some key
unfolding token_checks
token_checks_ok none i a b h = cc
token_checks_ok (some k) none a b h = absurd (ground (arith, Bool-cases (leb 32 (len k))))
token_checks_ok (some k) (some i) none b h = absurd (ground (arith, Bool-cases (leb 32 (len k))))
token_checks_ok (some k) (some i) (some a) false h =
    absurd (ground (arith, Bool-cases (leb 32 (len k))))
token_checks_ok (some k) (some i) (some a) true h = ground (arith, Bool-cases (leb 32 (len k)))

module _ {Value : Type 0} (jwt : Jwt) (app : AppState Value) (room_id : ℕ) (containers : List Text)
    (clock : ℕ) {token : Text}
    (issued : create_room_token jwt app room_id containers clock ≡ ok token) where
  claims : JwtClaims
  claims = room_claims jwt app room_id containers clock

  -- What the steps before the signature have found.
  signed : (key : Text) × (app.jwt_key ≡ some key) × (jwt.encode key claims ≡ some token)
  unfolding claims create_room_token
  signed =
      let checks =
        token_checks app.jwt_key app.jwt_issuer app.jwt_audience (contains_key app.rooms room_id) in
      let (key, p, q) =
        bind_ok checks
          (λ key.
            ok_or (jwt.encode key (room_claims jwt app room_id containers clock))
              jwt_key_not_configured)
          issued in
      (
        key,
        token_checks_ok app.jwt_key app.jwt_issuer app.jwt_audience _ p,
        ok_or_ok _ jwt_key_not_configured q,
      )

  accepted_claims : Claims
  unfolding claims
  accepted_claims = record {
    sub = claims.sub;
    room = claims.room;
    containers = some claims.containers;
    exp = claims.exp;
  }

  validated :
      (decoded_at now : ℕ)
      → room_id < u64_mod
      → decoded_at < claims.exp
      → now < claims.exp
      → validate_jwt_claims jwt app decoded_at now token ≡ ok accepted_claims
  unfolding validate_jwt_claims claims accepted_claims room_claims
  validated decoded_at now fits h h' =
      let (key, p, q) = signed in
      rw (p, jwt.decode-encode key token claims decoded_at q h)
        (check_claims-room now room_id claims.exp (some claims.containers) h' fits)

  allowed :
      (c : Text)
      → contains (allowed_containers accepted_claims) c
        ≡ (contains containers c || lit "public" == c)
  unfolding allowed_containers accepted_claims claims room_claims granted
  allowed c =
      let names = collect_set containers [] in
      let nothing : contains [] c ≡ false = unfold contains in refl in
      ground (
        arith,
        contains-set_insert (collect_set (set_insert names (lit "public")) []) (lit "public") c,
        contains-collect_set (set_insert names (lit "public")) [] c,
        contains-set_insert names (lit "public") c,
        contains-collect_set containers [] c,
        nothing,
      )

  -- A token that TOKEN.GEN issued for a room id below 2^64 is accepted, as long as it has not
  -- expired on either reading of the clock: the session is for the room that it was issued for, and
  -- it may see `public` and the containers that were named, and no others.
  pub validate_jwt_claims-create_room_token :
      (decoded_at now : ℕ)
      → room_id < u64_mod
      → decoded_at
        < saturating_add (issue_time app.last_jwt_issue_seconds clock) app.jwt_ttl_seconds
      → now < saturating_add (issue_time app.last_jwt_issue_seconds clock) app.jwt_ttl_seconds
      → (accepted : Claims) × (validate_jwt_claims jwt app decoded_at now token ≡ ok accepted)
        × (parse_u64 accepted.room ≡ some room_id)
        × ((c : Text)
            → contains (allowed_containers accepted) c
              ≡ (contains containers c || lit "public" == c))
  validate_jwt_claims-create_room_token decoded_at now fits h h' = (
    accepted_claims,
    validated decoded_at now fits (unfold claims room_claims in h)
        (unfold claims room_claims in h'),
    (unfold accepted_claims claims room_claims in parse_u64-print_u64 room_id fits),
    allowed,
  )
