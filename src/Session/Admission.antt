-- ===== src/Session/Admission.antt =====
-- How far a session gets.
use data_sync.Base.{◌≡◌, refl, Bool, true, false, [], ◌∷◌, Result, ◌∙◌, ◌⊎◌, inl, nat_eq, subst}
use data_sync.Text.{Text}
use data_sync.Json.{Json}
use data_sync.Jwt.{Jwt, Claims}
use data_sync.Session.{auth_error}
use data_sync.Session.Machine.{
  Phase, connecting, shaking, opening, refusing, checking, judged, admitted, viewed, greeting,
  joining, joined, serving, leaving, left, done, Server, Setting, Reach,
}
use data_sync.Session.Blocked.{IsHeld, IsHeld-forever}
use data_sync.Session.Early.{IsEarly, reach_early}

-- The phases before the success of a token is counted, and the end.
unfoldable pub is_unadmitted : {Value : Type 0} → Phase Value → Bool
is_unadmitted connecting = true
is_unadmitted shaking = true
is_unadmitted opening = true
is_unadmitted (refusing reason) = true
is_unadmitted (checking auth_msg) = true
is_unadmitted (judged verdict) = true
is_unadmitted done = true
is_unadmitted phase = false

-- A session at its first line.
abbrev pub IsFresh : {Value Sender : Type 0} → Server Value Sender → Type 0
IsFresh s = (s.phase ≡ connecting) × (s.mine ≡ false) × (s.sent ≡ [])

module _ {Value Sender : Type 0} ⦃json : Json Value⦄ (jwt : Jwt) (setting : Setting) where
  early_facts :
      (p : Phase Value) (s : Server Value Sender)
      → IsEarly jwt setting p s
      → (is_unadmitted p ≡ true)
        × ((s.sent ≡ []) ⊎ ((reason : Text) × (s.sent ≡ auth_error Value reason ∷ [])))
  unfolding is_unadmitted
  early_facts connecting s (m, e) = (refl, inl e)
  early_facts shaking s (m, e) = (refl, inl e)
  early_facts opening s (m, e) = (refl, inl e)
  early_facts (refusing reason) s (m, e) = (refl, inl e)
  early_facts (checking auth_msg) s (m, e) = (refl, inl e)
  early_facts (judged v) s (m, q, e) = (refl, inl e)
  early_facts done s (m, x) = (refl, x)
  early_facts (admitted _) s x = elim x [ ]
  early_facts (viewed _ _ _) s x = elim x [ ]
  early_facts (greeting _ _ _) s x = elim x [ ]
  early_facts (joining _ _) s x = elim x [ ]
  early_facts (joined _ _) s x = elim x [ ]
  early_facts (serving _ _) s x = elim x [ ]
  early_facts (leaving _ _) s x = elim x [ ]
  early_facts left s x = elim x [ ]

  fresh_early : (s : Server Value Sender) → IsFresh s → IsEarly jwt setting s.phase s
  fresh_early s (p, m, e) = rw p (m, e)

  -- However the tasks take turns, no session gets past the check of its token, whatever the token:
  -- it joins no room and is never sent a snapshot, and all that a client is ever sent is one error
  -- for a first message that asks for no check.
  pub Reach-is_unadmitted :
      {s t : Server Value Sender}
      → IsFresh s
      → Reach jwt setting s t
      → (is_unadmitted t.phase ≡ true)
        × ((t.sent ≡ []) ⊎ ((reason : Text) × (t.sent ≡ auth_error Value reason ∷ [])))
  Reach-is_unadmitted {s} {t} fresh r =
      early_facts t.phase t (reach_early jwt setting (fresh_early s fresh) r)

  -- From the moment at which a session has checked a token, however the tasks take turns, the
  -- session waits for ever, its client is sent nothing, and no task changes the application again.
  pub Reach-judged :
      {s t u : Server Value Sender} {v : Result Text Claims}
      → IsFresh s
      → Reach jwt setting s t
      → t.phase ≡ judged v
      → Reach jwt setting t u
      → (u.phase ≡ judged v) × (u.app ≡ t.app) × (u.sent ≡ [])
  Reach-judged {s} {t} {u} {v} fresh r p later =
      let early : IsEarly jwt setting (judged v) t =
        subst (λ q. IsEarly jwt setting q t) p (reach_early jwt setting (fresh_early s fresh) r) in
      let held : IsHeld jwt setting v t = record {
        phase_held = p;
        guard = early.0;
        quiet = early.1;
      } in
      let (after, app, sent) = IsHeld-forever jwt setting held later in
      (after.phase_held, app, sent ∙ early.2)
