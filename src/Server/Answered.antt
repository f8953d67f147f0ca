-- ===== src/Server/Answered.antt =====
-- What a connection has written, against the answers of `process_command` to the commands of its lines.
use data_sync.Base.{
  ◌≡◌, inl, inr, refl, sym, ap, ◌∙◌, subst, Bool, true, false, Bool-cases, Option, none, some, List,
  [], ◌∷◌, ◌++◌, append_assoc, append-nil, if◌then◌else◌,
}
use data_sync.Text.{Text, lit, is_empty}
use data_sync.Text.Trim.{trim}
use data_sync.Json.{Json}
use data_sync.Jwt.{Jwt}
use data_sync.Compare.{constant_time_eq}
use data_sync.State.{AppState}
use data_sync.Reading.{Input, read_line_with_limit}
use data_sync.Hub.{Channel}
use data_sync.Commands.Handlers.{RoomUpdate}
use data_sync.Commands.Process.{process_command}
use data_sync.Console.{Limits, Shared}
use data_sync.Server.{
  Place, limiting, auth_limiting, greeting, keying, refusing, refused, looping, malformed,
  miscounted, counting, processing, scoring, answering, cleaning, sending, broadcasting, closed,
  Event, limits_at, reads, locks, locks_hub, writes, Connection, first_read, key_read, line_read,
  next_update, read, write, move,
}
use data_sync.Server.Expected.{
  commands_of, first_command, breaks, first_breaks, checks, says, accepts, after_first, Begun,
  Served, not_admitted, unwelcome, turned_away, complete, broken_off, cut_off, IsAnswered,
}

module _ {Value : Type 0} ⦃json : Json Value⦄ (jwt : Jwt) where
  -- The commands that were processed and their answers, after a step from a place: under the lock a
  -- command has the answer that `process_command` gives in the state that is then found.
  abbrev pub answered_in :
      Place Value → Event → AppState Value → List Text × List Text → List Text × List Text
  answered_in (processing trimmed) (locks clock) app (done, answers) = (
    done ++ trimmed ∷ [],
    answers ++ ((process_command jwt clock app trimmed).0.0 ++ lit "\n") ∷ [],
  )
  answered_in place event app own = own

module _ {Value : Type 0} (key : Option Text) (all lines : List Input) (w d a : List Text) where
  if-IsAnswered :
      (b : Bool) (x y : Place Value)
      → IsAnswered key all x lines w d a
      → IsAnswered key all y lines w d a
      → IsAnswered key all (if b then x else y) lines w d a
  if-IsAnswered true x y h h' = h
  if-IsAnswered false x y h h' = h'

  next_update-IsAnswered :
      (updates : List (RoomUpdate Value))
      → Served key all lines w d a [] []
      → IsAnswered key all (next_update updates) lines w d a
  next_update-IsAnswered [] h = h
  next_update-IsAnswered (update ∷ updates) h = h

module _ (key : Option Text) (all lines : List Input) (w d a : List Text) where
  -- The first command of the loop is still to come.
  begun : lines ≡ after_first all → Begun key all lines w d a → Served key all lines w d a [] []
  begun e (p, q, r) = rw (p, q, r, e) (refl, refl, refl)

  written_all : w ++ [] ≡ a → w ≡ a
  written_all h = sym (append-nil w) ∙ h

module _ (Value : Type 0) (all lines : List Input) (w d a : List Text) where
  key_read-IsAnswered :
      (text : Text) (key : Option Text)
      → lines ≡ after_first all
      → checks key text ≡ accepts key all
      → Begun key all lines w d a
      → IsAnswered {Value = Value} key all (key_read text key) lines w d a
  unfolding key_read
  key_read-IsAnswered text none e c h = (refl, sym c, h)
  key_read-IsAnswered text (some expected_key) e c h =
      elim (Bool-cases (constant_time_eq text expected_key)) [
        | inl same ↦ rw same (begun (some expected_key) all lines w d a e h)
        | inr other ↦ rw other (refl, sym c ∙ other, h)
      ]

module _ (Value : Type 0) (key : Option Text) (lines : List Input) (w d a : List Text) where
  first_read-IsAnswered :
      (input : Input) (o : Option Text)
      → says key o ≡ accepts key (input ∷ lines)
      → Begun key (input ∷ lines) lines w d a
      → IsAnswered {Value = Value} key (input ∷ lines) (first_read o) lines w d a
  first_read-IsAnswered input none e h = unwelcome (sym e) h
  first_read-IsAnswered input (some []) e h = unwelcome (sym e) h
  first_read-IsAnswered input (some (c ∷ cs)) e h = (refl, e, h)

  line_read-IsAnswered :
      (all : List Input) (o : Option Text)
      → (w ++ [] ≡ a)
      → d ++ first_command o (commands_of lines) ≡ commands_of (after_first all)
      → first_breaks o (breaks lines) ≡ breaks (after_first all)
      → IsAnswered {Value = Value} key all (line_read o) lines w d a
  unfolding line_read
  line_read-IsAnswered all none p q r =
      (written_all key all lines w d a p, sym (append-nil d) ∙ q, sym r)
  line_read-IsAnswered all (some []) p q r =
      complete (written_all key all lines w d a p) (sym (append-nil d) ∙ q) (sym r)
  line_read-IsAnswered all (some (c ∷ cs)) p q r = elim (Bool-cases (is_empty (trim (c ∷ cs)))) [
    | inl blank ↦ rw blank (p, rw blank at q, r)
    | inr full ↦ rw full (p, rw full at q, r)
  ]

module _ {Value : Type 0} (key : Option Text) (all : List Input) (d a : List Text) where
  greet :
      (lines : List Input) (c : Connection Value)
      → c.place ≡ greeting
      → c.lines ≡ lines
      → lines ≡ all
      → Begun key all lines c.written d a
      → let c' = read first_read lines c in IsAnswered key all c'.place c'.lines c'.written d a
  unfolding read
  greet [] c at' same e h = rw (at', same) (e, h)
  greet (input ∷ lines) c at' same e h =
      subst
        (λ x.
          IsAnswered {Value = Value} key x (first_read {Value = Value} (read_line_with_limit input))
            lines c.written d a)
        e
        (first_read-IsAnswered Value key lines c.written d a input (read_line_with_limit input)
          (unfold accepts in refl) h)

  take_line :
      (lines : List Input) (c : Connection Value)
      → c.place ≡ looping
      → c.lines ≡ lines
      → Served key all lines c.written d a [] []
      → let c' = read line_read lines c in IsAnswered key all c'.place c'.lines c'.written d a
  unfolding read
  take_line [] c at' same h = rw (at', same) h
  take_line (input ∷ lines) c at' same (p, q, r) =
      line_read-IsAnswered Value key lines c.written d a all (read_line_with_limit input) p
        (unfold commands_of in q) (unfold breaks in r)

module _ {Value Sender : Type 0} ⦃json : Json Value⦄ (jwt : Jwt) (channel : Channel Sender Value)
    (limits : Limits) (key : Option Text) (all : List Input) where
  pub move-IsAnswered :
      (place : Place Value) (event : Event) (c : Connection Value) (s : Shared Value Sender)
      (d a : List Text)
      → s.app.command_api_key ≡ key
      → c.place ≡ place
      → IsAnswered key all place c.lines c.written d a
      → let c' = (move jwt channel limits place event c s).0 in
        let (d', a') = answered_in jwt place event s.app (d, a) in
        IsAnswered key all c'.place c'.lines c'.written d' a'
  unfolding move write
  move-IsAnswered limiting (limits_at now) c s d a k at' (e, h) =
      if-IsAnswered key all c.lines c.written d a _ auth_limiting closed (e, h) (not_admitted e h)
  move-IsAnswered auth_limiting (limits_at now) c s d a k at' (e, h) =
      if-IsAnswered key all c.lines c.written d a _ greeting closed (e, h) (not_admitted e h)
  move-IsAnswered greeting reads c s d a k at' (e, h) = greet key all d a c.lines c at' refl e h
  move-IsAnswered (keying text) (locks _) c s d a k at' (e, same, h) =
      rw k (key_read-IsAnswered Value all c.lines c.written d a text key e same h)
  move-IsAnswered (refusing message) (locks _) c s d a k at' h = h
  move-IsAnswered (refused message) (writes true) c s d a k at' (m, no', (p, q, r)) =
      turned_away no' (rw (p, m) refl) q r
  move-IsAnswered (refused message) (writes false) c s d a k at' (m, no', h) = unwelcome no' h
  move-IsAnswered looping reads c s d a k at' h = take_line key all d a c.lines c at' refl h
  move-IsAnswered malformed (writes true) c s d a k at' (p, q, r) =
      (ap (λ x. x ++ lit "ERROR malformed_request\n" ∷ []) p, q, r)
  move-IsAnswered malformed (writes false) c s d a k at' (p, q, r) = broken_off (inr p) q r
  move-IsAnswered miscounted (locks _) c s d a k at' (p, q, r) = broken_off (inl p) q r
  move-IsAnswered (counting trimmed) (locks _) c s d a k at' h = h
  move-IsAnswered (processing trimmed) (locks clock) c s d a k at' (p, q, r) = (
    ap (λ x. x ++ ((process_command jwt clock s.app trimmed).0.0 ++ lit "\n") ∷ [])
        (written_all key all c.lines c.written d a p),
    append_assoc d (trimmed ∷ []) (commands_of c.lines) ∙ q,
    r,
  )
  move-IsAnswered (scoring trimmed resp updates) (locks _) c s d a k at' h = h
  move-IsAnswered (answering trimmed resp updates) (writes true) c s d a k at' (p, q, r) =
      (append-nil (c.written ++ (resp ++ lit "\n") ∷ []) ∙ p, q, r)
  move-IsAnswered (answering trimmed resp updates) (writes false) c s d a k at' (p, q, r) =
      cut_off (resp ++ lit "\n") (commands_of c.lines) p q
  move-IsAnswered (cleaning room updates) (locks_hub _) c s d a k at' h =
      next_update-IsAnswered key all c.lines c.written d a updates h
  move-IsAnswered (sending update updates) (limits_at now) c s d a k at' h =
      if-IsAnswered key all c.lines c.written d a _ (broadcasting update updates)
        (next_update updates) h (next_update-IsAnswered key all c.lines c.written d a updates h)
  move-IsAnswered (broadcasting update updates) (locks_hub client_now) c s d a k at' h =
      next_update-IsAnswered key all c.lines c.written d a updates h
  move-IsAnswered place event c s d a k at' h = rw at' h
