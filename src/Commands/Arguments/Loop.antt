-- ===== src/Commands/Arguments/Loop.antt =====
-- The loop of TOKEN.GEN ends, and reads back the names that a client writes.
use data_sync.Base.{
  ℕ, zero, suc, ◌<◌, ◌≡◌, refl, true, false, List, [], ◌∷◌, ◌++◌, append_assoc, append-nil, arith,
  Result, ok, err, ◌>>=◌, if◌then◌else◌, length, sym, ◌∙◌, ap,
}
use data_sync.Text.{Text, is_whitespace, is_empty}
use data_sync.Text.Trim.{trim, trim_start, is_empty-trim}
use data_sync.Commands.Token.{take_token, Taken}
use data_sync.Commands.Token.Quoting.{quote, take_token-quote, take_token_space, take_token_shorter}
use data_sync.Commands.Arguments.{token_loop, all_tokens}

-- What the loop does after a token is taken.
abbrev next_round : ℕ → List Text → Taken → Result Text (List Text)
next_round fuel containers taken =
    taken >>= λ (tok, rem). token_loop fuel rem (containers ++ tok ∷ [])

token_loop_round :
    (fuel : ℕ) (leftover : Text) (containers : List Text)
    → token_loop (suc fuel) leftover containers ≡ (
        if is_empty (trim leftover)
        then ok containers
        else next_round fuel containers (take_token leftover))
unfolding token_loop
token_loop_round fuel leftover containers = refl

-- Two rounds agree if they agree on what is left.
same_round :
    (f g : ℕ) (leftover : Text) (containers : List Text) (taken : Taken)
    → take_token leftover ≡ taken
    → ((rem : Text) (done : List Text)
        → length rem < length leftover
        → token_loop f rem done ≡ token_loop g rem done)
    → next_round f containers taken ≡ next_round g containers taken
same_round f g leftover containers (err e) p rest = refl
same_round f g leftover containers (ok (tok, rem)) p rest =
    rest rem (containers ++ tok ∷ []) (take_token_shorter leftover p)

-- With more rounds than there are characters their number makes no difference.
pub token_loop_fuel :
    (f g : ℕ) (leftover : Text) (containers : List Text)
    → length leftover < f
    → length leftover < g
    → token_loop f leftover containers ≡ token_loop g leftover containers
token_loop_fuel zero g leftover containers hf hg = absurd (omega arith)
token_loop_fuel (suc f) zero leftover containers hf hg = absurd (omega arith)
token_loop_fuel (suc f) (suc g) leftover containers hf hg =
    let rest =
      same_round f g leftover containers (take_token leftover) refl
        (λ rem done h. token_loop_fuel f g rem done (omega arith) (omega arith)) in
    rw (token_loop_round f leftover containers, token_loop_round g leftover containers)
      (ap (λ r. if is_empty (trim leftover) then ok containers else r) rest)

-- The loop of TOKEN.GEN without fuel: it stops at white space, and otherwise takes a token and
-- goes on with what is left, whatever that is.
pub all_tokens_round :
    (leftover : Text) (containers : List Text)
    → token_loop (suc (length leftover)) leftover containers ≡ (
        if is_empty (trim leftover)
        then ok containers
        else (take_token leftover >>= λ (tok, rem).
            token_loop (suc (length rem)) rem (containers ++ tok ∷ [])))
all_tokens_round leftover containers =
    token_loop_round (length leftover) leftover containers
    ∙ ap (λ r. if is_empty (trim leftover) then ok containers else r)
        (rest (take_token leftover) refl)
  where
    rest :
        (taken : Taken)
        → take_token leftover ≡ taken
        → next_round (length leftover) containers taken
          ≡ (taken >>= λ (tok, rem). token_loop (suc (length rem)) rem (containers ++ tok ∷ []))
    rest (err e) p = refl
    rest (ok (tok, rem)) p =
        let shorter : length rem < length leftover = take_token_shorter leftover p in
        token_loop_fuel (length leftover) (suc (length rem)) rem (containers ++ tok ∷ []) shorter
          (omega arith)

-- The names as a client writes them behind the room id.
unfoldable pub write_names : List Text → Text
write_names [] = []
write_names (name ∷ names) = b' ' ∷ (quote name ++ write_names names)

take_first :
    (name : Text) (rest : Text) → take_token (b' ' ∷ (quote name ++ rest)) ≡ ok (name, rest)
take_first name rest = take_token_space b' ' (quote name ++ rest) space ∙ take_token-quote name rest
  where
    space : is_whitespace b' ' ≡ true
    space = unfold is_whitespace in refl

not_blank : (name : Text) (rest : Text) → is_empty (trim (b' ' ∷ (quote name ++ rest))) ≡ false
not_blank name rest =
    is_empty-trim (b' ' ∷ (quote name ++ rest)) ∙ (unfold trim_start quote is_whitespace in refl)

token_loop-write_names :
    (names containers : List Text)
    → token_loop (suc (length (write_names names))) (write_names names) containers
      ≡ ok (containers ++ names)
unfolding write_names
token_loop-write_names [] containers = unfold token_loop in (ap ok (sym (append-nil containers)))
token_loop-write_names (name ∷ names) containers =
    let rest = token_loop-write_names names (containers ++ name ∷ []) in
    all_tokens_round (b' ' ∷ (quote name ++ write_names names)) containers
    ∙ rw (not_blank name (write_names names), take_first name (write_names names))
        (rest ∙ ap ok (append_assoc containers (name ∷ []) names))

-- TOKEN.GEN reads any list of container names, whatever their characters, as it was written.
pub all_tokens-write_names : (names : List Text) → all_tokens (write_names names) ≡ ok names
unfolding all_tokens
all_tokens-write_names names = token_loop-write_names names []
