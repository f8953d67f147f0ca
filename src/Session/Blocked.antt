-- ===== src/Session/Blocked.antt =====
-- A session whose token is checked waits for itself: it asks for the guard for writing while it holds
-- its guard for reading.
use data_sync.Base.{◌≡◌, refl, true, false, some, Result, ok, err, arith, ◌∙◌, nat_eq, subst}
use data_sync.Text.{Text}
use data_sync.Json.{Json}
use data_sync.Jwt.{Jwt, Claims}
use data_sync.Session.Machine.{
  judged, Server, Action, write_locked, other_reads, other_stops_reading, other_writes,
  other_stops_writing, other_changes, other_uses_hub, Setting, may_write, own, act, Reach, here,
  next,
}

module _ {Value Sender : Type 0} ⦃json : Json Value⦄ (jwt : Jwt) (setting : Setting) where
  -- The session is stuck.
  pub record IsHeld (verdict : Result Text Claims) (s : Server Value Sender) : Type 0 where
    pub phase_held : s.phase ≡ judged verdict
    pub guard : s.mine ≡ true
    pub quiet : s.writing ≡ false

  pub own_held :
      (v : Result Text Claims) (s t : Server Value Sender) (action : Action Value Sender)
      → s.mine ≡ true
      → own jwt setting (judged v) action s ≡ some t
      → ⊥
  unfolding own may_write
  own_held (ok claims) s t (write_locked _) m h = ground arith
  own_held (err reason) s t (write_locked _) m h = ground arith
  own_held (ok claims) s t action m h = cc
  own_held (err reason) s t action m h = cc

  -- What a step of any task leaves as it is.
  act-IsHeld :
      (v : Result Text Claims) (s t : Server Value Sender) (action : Action Value Sender)
      → IsHeld v s
      → act jwt setting s action ≡ some t
      → IsHeld v t × (t.app ≡ s.app) × (t.sent ≡ s.sent)
  unfolding act may_write
  act-IsHeld v s t other_reads held h = ground arith
  act-IsHeld v s t other_stops_reading held h = ground arith
  act-IsHeld v s t other_writes held h = ground arith
  act-IsHeld v s t other_stops_writing held h = ground arith
  act-IsHeld v s t (other_changes app) held h = ground arith
  act-IsHeld v s t (other_uses_hub hub buckets) held h = ground arith
  act-IsHeld v s t action held h = absurd (
      own_held v s t action held.guard
        (subst (λ p. own jwt setting p action s ≡ some t) held.phase_held h))

  pub IsHeld-forever :
      {v : Result Text Claims} {s t : Server Value Sender}
      → IsHeld v s
      → Reach jwt setting s t
      → IsHeld v t × (t.app ≡ s.app) × (t.sent ≡ s.sent)
  IsHeld-forever held here = (held, refl, refl)
  IsHeld-forever {v} {s} {t} held (next {t = u} action r step) =
      let (before, app, sent) = IsHeld-forever held r in
      let (after, app', sent') = act-IsHeld v u t action before step in
      (after, app' ∙ app, sent' ∙ sent)
