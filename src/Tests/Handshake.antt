-- ===== src/Tests/Handshake.antt =====
-- Sessions: one whose first message is no JSON, and one with a good token.
use data_sync.Base.{
  ℕ, ◌≡◌, refl, true, false, Option, none, some, List, [], ◌∷◌, ◌++◌, ◌⊎◌, Result, if◌then◌else◌,
  ◌==◌, nat_eq,
}
use data_sync.Dict.{get, insert}
use data_sync.Text.{Text, lit, text_eq}
use data_sync.Jwt.{Claims}
use data_sync.Auth.{validate_jwt_claims}
use data_sync.Limiter.{allow}
use data_sync.Session.{
  AuthMessage, text, binary, ping, got, first_message, auth_error, count_failure, handshake,
}
use data_sync.Session.Forwarding.{Round, client, event}
use data_sync.Session.Machine.{
  Phase, connecting, shaking, opening, refusing, checking, judged, done, Server, write_locked,
  other_writes, other_stops_writing, limited, shaken, received, read_locked, Setting, may_write,
  act, Reach, here, next,
}
use data_sync.Session.Admission.{is_unadmitted, Reach-is_unadmitted, Reach-judged}
use data_sync.Session.Refusal.{
  Quietly, quiet_here, quiet_next, IsRefusal, failures_after, told_of, refuse-IsRefusal,
}
use data_sync.Tests.Sample.{sample_json}
use data_sync.Tests.Signing.{sample_jwt}
use data_sync.Tests.Sessions.{app, token}

-- A text that begins with a brace stands for an `auth` message with the rest as its token.
abbrev parse : Text → Option AuthMessage
parse [] = none
parse (c ∷ rest) =
    if c == b'{'
    then some (record { typ = lit "auth"; jwt = rest; last_seen_counter = none })
    else none

abbrev setting : Setting
setting = record {
  ip = lit "127.0.0.1";
  ws_auth_rate_limit = 10;
  ws_auth_rate_window = 60;
  ws_allowed_origins = lit "https://example.org" ∷ [];
  parse = parse;
}

abbrev auth : AuthMessage
auth = record { typ = lit "auth"; jwt = token; last_seen_counter = none }

abbrev session : Phase Text → Server Text Text
session phase = record {
  app = app;
  hub = [];
  buckets = [];
  others = 0;
  writing = false;
  mine = false;
  phase = phase;
  sent = [];
}

abbrev started : Server Text Text
started = record (session shaking) { buckets = (lit "127.0.0.1", 1 ∷ []) ∷ [] }

abbrev verdict : Result Text Claims
verdict = validate_jwt_claims sample_jwt app 200 201 token

abbrev stuck : Server Text Text
stuck = record started { mine = true; phase = judged verdict }

begun : act sample_jwt setting (session connecting) (limited 1) ≡ some started
unfolding act get insert text_eq allow
begun = refl

opened :
    act sample_jwt setting started (shaken (some (lit "https://example.org")) true)
    ≡ some (record started { phase = opening })
unfolding act handshake text_eq
opened = refl

asked :
    act sample_jwt setting
      (record started { phase = opening })
      (received (got (text (b'{' ∷ token))))
    ≡ some (record started { phase = checking auth })
unfolding act first_message text_eq
asked = refl

checked :
    act sample_jwt setting (record started { phase = checking auth }) (read_locked 200 201)
    ≡ some stuck
unfolding act
checked = refl

reached : Reach sample_jwt setting (session connecting) stuck
reached =
    next (read_locked 200 201)
      (next (received (got (text (b'{' ∷ token))))
        (next (shaken (some (lit "https://example.org")) true) (next (limited 1) here begun) opened)
        asked)
      checked

Reach-is_unadmitted_example :
    (is_unadmitted stuck.phase ≡ true)
    × ((stuck.sent ≡ []) ⊎ ((reason : Text) × (stuck.sent ≡ auth_error Text reason ∷ [])))
Reach-is_unadmitted_example = Reach-is_unadmitted sample_jwt setting (refl, refl, refl) reached

Reach-judged_example : (stuck.phase ≡ judged verdict) × (stuck.app ≡ app) × (stuck.sent ≡ [])
Reach-judged_example = Reach-judged sample_jwt setting (refl, refl, refl) reached refl here

-- The session when its first message is read, while another task writes, and at its end.
abbrev declined : Server Text Text
declined = session (refusing (lit "invalid_auth_message"))

abbrev turned_down : Server Text Text
turned_down = record (session done) {
  app = count_failure app;
  sent = auth_error Text (lit "invalid_auth_message") ∷ [];
}

declining : act sample_jwt setting (session opening) (received (got binary)) ≡ some declined
unfolding act first_message
declining = refl

abbrev writing : Server Text Text
writing = record declined { writing = true }

other_writing : act sample_jwt setting declined other_writes ≡ some writing
unfolding act may_write
other_writing = refl

other_written : act sample_jwt setting writing other_stops_writing ≡ some declined
unfolding act
other_written = refl

turning_down : act sample_jwt setting declined (write_locked 0) ≡ some turned_down
unfolding act may_write
turning_down = refl

others_between : Quietly sample_jwt setting declined turned_down
others_between =
    let first = quiet_next other_writes quiet_here tt other_writing in
    let second = quiet_next other_stops_writing first tt other_written in
    quiet_next (write_locked 0) second tt turning_down

refuse-IsRefusal_example :
    IsRefusal sample_jwt setting (lit "invalid_auth_message") (session opening) turned_down
    × (turned_down.phase ≡ refusing (lit "invalid_auth_message")
        → may_write turned_down ≡ true
        → (n : ℕ)
        → act sample_jwt setting turned_down (write_locked n)
          ≡ some (record turned_down {
            phase = done;
            mine = false;
            app = record turned_down.app {
              ws_auth_failure = failures_after sample_jwt setting turned_down;
            };
            sent = turned_down.sent ++ told_of Text (lit "invalid_auth_message") ∷ [];
          }))
refuse-IsRefusal_example =
    refuse-IsRefusal sample_jwt setting (session opening) declined turned_down (got binary)
      (lit "invalid_auth_message") refl (unfold first_message in refl) declining others_between

abbrev turns : List (Round Text)
turns =
    event (lit "1") true
    ∷ client (got (ping (lit "p")))
    ∷ event (lit "2") true
    ∷ client (got (text (lit "hello")))
    ∷ event (lit "3") true
    ∷ []
