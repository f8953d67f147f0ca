-- ===== src/Session/Early.antt =====
-- What holds of a session up to the check of its token.
use mathlib.Core.Option
use data_sync.Base.{
  ℕ, ◌≡◌, refl, Bool, true, false, Option, none, some, [], ◌∷◌, Result, ok, err, arith, ◌∙◌, ◌⊎◌,
  inl, inr, nat_eq, Bool-cases, if◌then◌else◌, subst, ◌==◌,
}
use data_sync.Text.{Text}
use data_sync.Json.{Json}
use data_sync.Jwt.{Jwt}
use data_sync.Limiter.{allow}
use data_sync.Session.{Opening, check, refuse, quit, handshake, first_message, auth_error}
use data_sync.Session.Machine.{
  Phase, connecting, shaking, opening, refusing, checking, judged, admitted, viewed, greeting,
  joining, joined, serving, leaving, left, done, Server, Action, limited, shaken, received,
  read_locked, write_locked, other_reads, other_stops_reading, other_writes, other_stops_writing,
  other_changes, other_uses_hub, Setting, may_write, finish, shaken_to, opened_to, own, act, Reach,
  here, next,
}
use data_sync.Session.Blocked.{own_held}

module _ {A : Type 0} {u t : A} where
  if_granted : (b : Bool) → (if b then some u else none) ≡ some t → some u ≡ some t
  if_granted true h = h
  if_granted false h = cc

  unless_busy : (b : Bool) → (if b then none else some u) ≡ some t → some u ≡ some t
  unless_busy true h = cc
  unless_busy false h = h

module _ {Value Sender : Type 0} ⦃json : Json Value⦄ (jwt : Jwt) (setting : Setting) where
  -- What holds of a session up to the check of its token; it never gets further.
  abbrev pub IsEarly : Phase Value → Server Value Sender → Type 0
  IsEarly connecting s = (s.mine ≡ false) × (s.sent ≡ [])
  IsEarly shaking s = (s.mine ≡ false) × (s.sent ≡ [])
  IsEarly opening s = (s.mine ≡ false) × (s.sent ≡ [])
  IsEarly (refusing reason) s = (s.mine ≡ false) × (s.sent ≡ [])
  IsEarly (checking auth_msg) s = (s.mine ≡ false) × (s.sent ≡ [])
  IsEarly (judged v) s = (s.mine ≡ true) × (s.writing ≡ false) × (s.sent ≡ [])
  IsEarly done s =
      (s.mine ≡ false)
      × ((s.sent ≡ []) ⊎ ((reason : Text) × (s.sent ≡ auth_error Value reason ∷ [])))
  IsEarly phase s = ⊥

  reached :
      {u t : Server Value Sender}
      → ◌≡◌ {A = Option (Server Value Sender)} (some u) (some t)
      → IsEarly u.phase u
      → IsEarly t.phase t
  reached {u} {t} h x = subst (λ w. IsEarly w.phase w) (Option.some_inj.0 h) x

  shaken_early :
      (r : Result (ℕ × Text) (Unit {0})) (accepted : Bool) (s : Server Value Sender)
      → s.mine ≡ false
      → s.sent ≡ []
      → IsEarly (shaken_to r accepted) s
  shaken_early (ok _) true s m e = (m, e)
  shaken_early (ok _) false s m e = (m, inl e)
  shaken_early (err x) accepted s m e = (m, inl e)

  opened_early :
      (o : Opening) (s : Server Value Sender)
      → s.mine ≡ false
      → s.sent ≡ []
      → IsEarly (opened_to o) s
  opened_early (check auth_msg) s m e = (m, e)
  opened_early (refuse reason) s m e = (m, e)
  opened_early quit s m e = (m, inl e)

  own_early :
      (p : Phase Value) (action : Action Value Sender) (s t : Server Value Sender)
      → IsEarly p s
      → own jwt setting p action s ≡ some t
      → IsEarly t.phase t
  unfolding own may_write finish
  own_early connecting (limited now) s t (m, e) h =
      elim (Bool-cases
        (allow s.buckets setting.ip setting.ws_auth_rate_limit setting.ws_auth_rate_window now).0) [
          | inl yes' ↦ reached h (rw yes' (m, e))
          | inr no' ↦ reached h (rw no' (m, inl e))
        ]
  own_early connecting action s t (m, e) h = cc
  own_early shaking (shaken origin accepted) s t (m, e) h = reached h (
      shaken_early (handshake setting.ws_allowed_origins origin) accepted
        (record s { phase = shaken_to (handshake setting.ws_allowed_origins origin) accepted }) m e)
  own_early shaking action s t (m, e) h = cc
  own_early opening (received r) s t (m, e) h = reached h (
      opened_early (first_message setting.parse r)
        (record s { phase = opened_to (first_message setting.parse r) }) m e)
  own_early opening action s t (m, e) h = cc
  own_early (refusing reason) (write_locked x) s t (m, e) h =
      reached (if_granted (may_write s) h) (refl, inr (reason, rw e))
  own_early (refusing reason) action s t (m, e) h = cc
  own_early (checking auth_msg) (read_locked decoded_at now) s t (m, e) h =
      elim (Bool-cases s.writing) [
        | inl busy ↦ absurd (ground arith)
        | inr quiet ↦ reached (unless_busy s.writing h) (refl, quiet, e)
      ]
  own_early (checking auth_msg) action s t (m, e) h = cc
  own_early (judged v) action s t (m, q, e) h = absurd (own_held jwt setting v s t action m h)
  own_early done action s t (m, e) h = cc
  own_early (admitted _) action s t e h = elim e [ ]
  own_early (viewed _ _ _) action s t e h = elim e [ ]
  own_early (greeting _ _ _) action s t e h = elim e [ ]
  own_early (joining _ _) action s t e h = elim e [ ]
  own_early (joined _ _) action s t e h = elim e [ ]
  own_early (serving _ _) action s t e h = elim e [ ]
  own_early (leaving _ _) action s t e h = elim e [ ]
  own_early left action s t e h = elim e [ ]

  kept :
      (p : Phase Value) (s t : Server Value Sender)
      → t.mine ≡ s.mine
      → t.sent ≡ s.sent
      → (s.mine ≡ true → s.writing ≡ false → t.writing ≡ false)
      → IsEarly p s
      → IsEarly p t
  kept connecting s t m e w (m', e') = (m ∙ m', e ∙ e')
  kept shaking s t m e w (m', e') = (m ∙ m', e ∙ e')
  kept opening s t m e w (m', e') = (m ∙ m', e ∙ e')
  kept (refusing reason) s t m e w (m', e') = (m ∙ m', e ∙ e')
  kept (checking auth_msg) s t m e w (m', e') = (m ∙ m', e ∙ e')
  kept (judged v) s t m e w (m', q, e') = (m ∙ m', w m' q, e ∙ e')
  kept done s t m e w (m', x) = (m ∙ m', rw e x)
  kept (admitted _) s t m e w x = elim x [ ]
  kept (viewed _ _ _) s t m e w x = elim x [ ]
  kept (greeting _ _ _) s t m e w x = elim x [ ]
  kept (joining _ _) s t m e w x = elim x [ ]
  kept (joined _ _) s t m e w x = elim x [ ]
  kept (serving _ _) s t m e w x = elim x [ ]
  kept (leaving _ _) s t m e w x = elim x [ ]
  kept left s t m e w x = elim x [ ]

  act_early :
      (s t : Server Value Sender) (action : Action Value Sender)
      → IsEarly s.phase s
      → act jwt setting s action ≡ some t
      → IsEarly t.phase t
  unfolding act
  act_early s t other_reads x h =
      reached (unless_busy s.writing h) (kept s.phase s _ refl refl (λ m q. q) x)
  act_early s t other_stops_reading x h =
      reached (unless_busy (s.others == 0) h) (kept s.phase s _ refl refl (λ m q. q) x)
  act_early s t other_writes x h = elim (Bool-cases (may_write s)) [
    | inl free ↦
        reached (if_granted (may_write s) h)
          (kept s.phase s _ refl refl (λ m q. absurd (unfold may_write in ground arith)) x)
    | inr busy ↦ absurd (ground arith)
  ]
  act_early s t other_stops_writing x h = reached h (kept s.phase s _ refl refl (λ m q. refl) x)
  act_early s t (other_changes app) x h =
      reached (if_granted s.writing h) (kept s.phase s _ refl refl (λ m q. q) x)
  act_early s t (other_uses_hub hub buckets) x h =
      reached h (kept s.phase s _ refl refl (λ m q. q) x)
  act_early s t action x h = own_early s.phase action s t x h

  pub reach_early :
      {s t : Server Value Sender} → IsEarly s.phase s → Reach jwt setting s t → IsEarly t.phase t
  reach_early x here = x
  reach_early x (next {t = u} action r step) = act_early u _ action (reach_early x r) step
