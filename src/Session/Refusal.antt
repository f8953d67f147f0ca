-- ===== src/Session/Refusal.antt =====
-- A session whose first message is refused.
use mathlib.Core.Option
use data_sync.Base.{
  ℕ, ◌+◌, ◌^◌, ◌%◌, ◌≡◌, inl, inr, refl, sym, ap, ◌∙◌, subst, arith, nat_eq, true, false, none,
  some, [], ◌∷◌, ◌++◌, Bool-cases,
}
use data_sync.Text.{Text, lit}
use data_sync.Json.{Json}
use data_sync.Jwt.{Jwt}
use data_sync.State.{bump}
use data_sync.Session.{Received, Outgoing, say, refuse, first_message, count_failure, auth_error}
use data_sync.Session.Machine.{
  opening, refusing, done, Server, Action, received, write_locked, other_reads, other_stops_reading,
  other_writes, other_stops_writing, other_changes, other_uses_hub, Setting, may_write, finish, own,
  act,
}

module _ (Value : Type 0) ⦃json : Json Value⦄ where
  -- What a client is told when it is refused.
  abbrev pub told_of : Text → Outgoing
  told_of reason = say (
      json.to_string (
        json.object
          ((lit "type", json.string (lit "auth_error")) ∷ (lit "reason", json.string reason) ∷ [])))

module _ {Value Sender : Type 0} ⦃json : Json Value⦄ (jwt : Jwt) (setting : Setting) where
  -- The count of failures after one more, which wraps around at 64 bits.
  abbrev pub failures_after : Server Value Sender → ℕ
  failures_after s = (s.app.ws_auth_failure + 1) % 2 ^ 64

  -- The other tasks leave the count of failures alone.
  abbrev pub IsQuiet : Server Value Sender → Action Value Sender → Type 0
  IsQuiet s (other_changes app) = app.ws_auth_failure ≡ s.app.ws_auth_failure
  IsQuiet s action = Unit

  -- A run in which they do.
  pub data Quietly (s : Server Value Sender) : Server Value Sender → Type 0 where
    quiet_here : Quietly s s
    quiet_next :
        {t u : Server Value Sender}
        → (action : Action Value Sender) → Quietly s t
        → IsQuiet t action
        → act jwt setting t action ≡ some u
        → Quietly s u

  -- A refusal is still to be given, and nothing of it was done; or it was given, once.
  pub data IsRefusal (reason : Text) (s t : Server Value Sender) : Type 0 where
    pending :
        t.phase ≡ refusing reason
        → t.sent ≡ s.sent
        → t.app.ws_auth_failure ≡ s.app.ws_auth_failure
        → IsRefusal reason s t
    given :
        t.phase ≡ done
        → t.sent ≡ s.sent ++ told_of Value reason ∷ []
        → t.app.ws_auth_failure ≡ failures_after s
        → IsRefusal reason s t

  IsSame : Server Value Sender → Server Value Sender → Type 0
  IsSame t u =
      (u.phase ≡ t.phase) × (u.sent ≡ t.sent) × (u.app.ws_auth_failure ≡ t.app.ws_auth_failure)

  IsSame-IsRefusal :
      (reason : Text) (s t u : Server Value Sender)
      → IsSame t u
      → IsRefusal reason s t
      → IsRefusal reason s u
  unfolding IsSame
  IsSame-IsRefusal reason s t u (p, q, r) (pending a b c) = pending (p ∙ a) (q ∙ b) (r ∙ c)
  IsSame-IsRefusal reason s t u (p, q, r) (given a b c) = given (p ∙ a) (q ∙ b) (r ∙ c)

  own_done :
      (t u : Server Value Sender) (action : Action Value Sender)
      → own jwt setting done action t ≡ some u
      → ⊥
  unfolding own
  own_done t u action h = cc

  own_refusing :
      (reason : Text) (t : Server Value Sender) (action : Action Value Sender)
      (u : Server Value Sender)
      → own jwt setting (refusing reason) action t ≡ some u
      → u ≡ record t {
        phase = done;
        mine = false;
        app = record t.app { ws_auth_failure = failures_after t };
        sent = t.sent ++ told_of Value reason ∷ [];
      }
  unfolding own finish count_failure bump auth_error
  own_refusing reason t (write_locked n) u h = elim (Bool-cases (may_write t)) [
    | inl free ↦ sym (Option.some_inj.0 (rw free at h))
    | inr busy ↦ absurd (none_some (rw busy at h))
  ]
    where
      none_some : {A : Type 0} {a : A} → none ≡ some a → ⊥
      none_some p = cc
  own_refusing reason t action u h = cc

  own-IsRefusal :
      (reason : Text) (s t u : Server Value Sender) (action : Action Value Sender)
      → IsRefusal reason s t
      → own jwt setting t.phase action t ≡ some u
      → IsRefusal reason s u
  own-IsRefusal reason s t u action (pending a b c) h =
      let e =
        own_refusing reason t action u (subst (λ p. own jwt setting p action t ≡ some u) a h) in
      given (ap (λ (x : Server Value Sender). x.phase) e)
        (ap (λ (x : Server Value Sender). x.sent) e ∙ ap (λ w. w ++ told_of Value reason ∷ []) b)
        (ap (λ (x : Server Value Sender). x.app.ws_auth_failure) e ∙ ap (λ n. (n + 1) % 2 ^ 64) c)
  own-IsRefusal reason s t u action (given a b c) h =
      absurd (own_done t u action (subst (λ p. own jwt setting p action t ≡ some u) a h))

  act-IsRefusal :
      (reason : Text) (s t u : Server Value Sender) (action : Action Value Sender)
      → IsRefusal reason s t
      → IsQuiet t action
      → act jwt setting t action ≡ some u
      → IsRefusal reason s u
  unfolding act
  act-IsRefusal reason s t u other_reads r q h =
      IsSame-IsRefusal reason s t u (unfold IsSame in ground arith) r
  act-IsRefusal reason s t u other_stops_reading r q h =
      IsSame-IsRefusal reason s t u (unfold IsSame in ground arith) r
  act-IsRefusal reason s t u other_writes r q h =
      IsSame-IsRefusal reason s t u (unfold IsSame may_write in ground arith) r
  act-IsRefusal reason s t u other_stops_writing r q h =
      IsSame-IsRefusal reason s t u (unfold IsSame in ground arith) r
  act-IsRefusal reason s t u (other_changes app) r q h =
      IsSame-IsRefusal reason s t u (unfold IsSame in ground arith) r
  act-IsRefusal reason s t u (other_uses_hub hub buckets) r q h =
      IsSame-IsRefusal reason s t u (unfold IsSame in ground arith) r
  act-IsRefusal reason s t u action r q h = own-IsRefusal reason s t u action r h

  Quietly-IsRefusal :
      (reason : Text) {s t u : Server Value Sender}
      → IsRefusal reason s t
      → Quietly t u
      → IsRefusal reason s u
  Quietly-IsRefusal reason r quiet_here = r
  Quietly-IsRefusal reason {s} {t} {u} r (quiet_next {t = v} action run quiet step) =
      act-IsRefusal reason s v u action (Quietly-IsRefusal reason r run) quiet step

  -- A session that waits for its first message, and is given one that `first_message` refuses, is to
  -- be refused for that reason. However the other tasks take turns with
  -- it then, as long as they leave the count of failures alone, either its client was told nothing and
  -- nothing was counted yet, and as soon as no task holds the application's lock its step counts one
  -- failure, tells the client the reason, ends the session and changes nothing else; or the session
  -- has ended, one failure was counted, and the client was told the reason once.
  pub refuse-IsRefusal :
      (s t u : Server Value Sender) (r : Received) (reason : Text)
      → s.phase ≡ opening
      → first_message setting.parse r ≡ refuse reason
      → act jwt setting s (received r) ≡ some t
      → Quietly t u
      → IsRefusal reason s u
        × (u.phase ≡ refusing reason
            → may_write u ≡ true
            → (n : ℕ)
            → act jwt setting u (write_locked n)
              ≡ some (record u {
                phase = done;
                mine = false;
                app = record u.app { ws_auth_failure = failures_after u };
                sent = u.sent ++ told_of Value reason ∷ [];
              }))
  unfolding act own finish count_failure bump auth_error
  refuse-IsRefusal s t u r reason p q step run =
      let e : record s { phase = refusing reason } ≡ t = Option.some_inj.0 (rw (p, q) at step) in
      (
        Quietly-IsRefusal reason (subst (IsRefusal reason s) e (pending refl refl refl)) run,
        λ at' free n. rw (at', free) refl,
      )
