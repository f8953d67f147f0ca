-- ===== src/Session/Forwarding.antt =====
-- The loop of a session: what it sends for what it is given.
use data_sync.Base.{not, Bool, true, false, List, [], ◌∷◌, ◌++◌, if◌then◌else◌}
use data_sync.Text.{Text, lit}
use data_sync.Json.{Json}
use data_sync.Session.{
  text, ping, binary, pong, close, frame, Received, got, failed, ended, Outgoing, say, answer_ping,
  close_frame, auth_error,
}

-- A round of `tokio::select!`: a message of the client, an event with whether it could be sent, or
-- the end of the events.
pub data Round (Value : Type 0) : Type 0 where
  client : Received → Round Value
  event : Value → Bool → Round Value
  no_events : Round Value

module _ {Value : Type 0} ⦃json : Json Value⦄ where
  -- What a round sends, and whether the loop goes on.
  unfoldable pub react : Round Value → List Outgoing × Bool
  unfolding auth_error
  react (client (got (ping payload))) = (answer_ping payload ∷ [], true)
  react (client (got pong)) = ([], true)
  react (client (got close)) = (close_frame ∷ [], false)
  react (client (got (text t))) =
      (auth_error Value (lit "unexpected_message_after_auth") ∷ [], false)
  react (client (got binary)) = (auth_error Value (lit "unexpected_message_after_auth") ∷ [], false)
  react (client (got frame)) = ([], true)
  react (client failed) = ([], false)
  react (client ended) = ([], false)
  react (event value true) = (say (json.to_string value) ∷ [], true)
  react (event value false) = ([], false)
  react no_events = ([], false)

  unfoldable pub forward : List (Round Value) → List Outgoing
  unfolding react
  forward [] = []
  forward (round ∷ rounds) =
      let rest = forward rounds in let (sent, on) = react round in sent ++ (if on then rest else [])

module _ {Value : Type 0} where
  -- The rounds after which a session is over.
  unfoldable pub is_last : Round Value → Bool
  is_last (client (got (text t))) = true
  is_last (client (got binary)) = true
  is_last (client (got close)) = true
  is_last (client failed) = true
  is_last (client ended) = true
  is_last (client (got (ping payload))) = false
  is_last (client (got pong)) = false
  is_last (client (got frame)) = false
  is_last (event value sent) = not sent
  is_last no_events = true

  -- The rounds before the last one.
  unfoldable pub until_last : List (Round Value) → List (Round Value)
  unfolding is_last
  until_last [] = []
  until_last (round ∷ rounds) =
      let rest = until_last rounds in if is_last round then [] else round ∷ rest

  unfoldable pub events : List (Round Value) → List Value
  events [] = []
  events (event value sent ∷ rounds) = value ∷ events rounds
  events (client received ∷ rounds) = events rounds
  events (no_events ∷ rounds) = events rounds

  -- The last round has something to say if the client wrote what it may not write.
  unfoldable pub is_intruding : List (Round Value) → Bool
  unfolding is_last
  is_intruding [] = false
  is_intruding (client (got (text t)) ∷ rounds) = true
  is_intruding (client (got binary) ∷ rounds) = true
  is_intruding (round ∷ rounds) =
      let rest = is_intruding rounds in if is_last round then false else rest

unfoldable pub said : List Outgoing → List Text
said [] = []
said (say t ∷ sent) = t ∷ said sent
said (answer_ping t ∷ sent) = said sent
said (close_frame ∷ sent) = said sent

-- What is said to a client that writes.
unfoldable pub farewell : (Value : Type 0) ⦃json : Json Value⦄ → Bool → List Text
unfolding said auth_error
farewell Value true = said (auth_error Value (lit "unexpected_message_after_auth") ∷ [])
farewell Value false = []
