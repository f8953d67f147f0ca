-- ===== src/Commands/Arguments/Failures.antt =====
-- Each error of a reader of arguments is a reply that begins with ERROR.
use data_sync.Base.{
  ℕ, zero, suc, ◌≡◌, refl, Bool, true, false, inl, inr, Option, none, some, List, [], ◌∷◌, ◌++◌,
  Result, ok, err, ◌>>=◌, ok_or, Bool-cases, length, ◌==◌, nat_eq, ltb,
}
use data_sync.Text.{Text, lit, starts_with, is_empty, len}
use data_sync.Text.Trim.{trim, trim_start}
use data_sync.Text.Number.{parse_u64}
use data_sync.Commands.Token.{quoted, token_of, take_token, parse_room_id_from_remainder}
use data_sync.Commands.Token.Quoting.{take_token_lem}
use data_sync.Commands.Arguments.{
  validate_container_name, validate_key_name, no_more, room_only, room_key, key_only, token_only,
  value_text, token_loop, all_tokens, room_tokens,
}

abbrev pub IsErrorText : Text → Type 0
IsErrorText text = starts_with text (lit "ERROR") ≡ true

-- Each error of a reader of arguments is a reply of the protocol.
abbrev pub Fails : {A : Type 0} → Result Text A → Type 0
Fails (ok a) = Unit
Fails (err e) = IsErrorText e

pub Fails-bind :
    {A B : Type 0} (m : Result Text A) (f : A → Result Text B)
    → Fails m
    → ((a : A) → Fails (f a))
    → Fails (m >>= f)
Fails-bind (ok a) f hm hf = hf a
Fails-bind (err e) f hm hf = hm

pub Fails-quoted : (s buf : Text) (escaped : Bool) → Fails (quoted s buf escaped)
unfolding quoted starts_with
Fails-quoted [] buf escaped = refl
Fails-quoted (c ∷ s) buf true = Fails-quoted s _ false
Fails-quoted (c ∷ s) buf false = elim (Bool-cases (c == b'\\')) [
  | inl slash ↦ rw slash (Fails-quoted s buf true)
  | inr other ↦ rw other (elim (Bool-cases (c == b'"')) [
    | inl mark ↦ rw mark tt
    | inr plain ↦ rw plain (Fails-quoted s (buf ++ c ∷ []) false)
  ])
]

pub Fails-token_of : (s : Text) → Fails (token_of s)
unfolding starts_with
Fails-token_of [] = unfold token_of in refl
Fails-token_of (c ∷ s) = elim (Bool-cases (c == b'"')) [
  | inl mark ↦ unfold token_of in rw mark (Fails-quoted s [] false)
  | inr word ↦ unfold token_of in rw word tt
]

pub Fails-take_token : (s : Text) → Fails (take_token s)
Fails-take_token s = rw (take_token_lem s) (Fails-token_of (trim_start s))

pub Fails-ok_or : {A : Type 0} (o : Option A) (e : Text) → IsErrorText e → Fails (ok_or o e)
Fails-ok_or none e h = h
Fails-ok_or (some a) e h = tt

pub Fails-parse_room_id : (s : Text) → Fails (parse_room_id_from_remainder s)
unfolding parse_room_id_from_remainder starts_with
Fails-parse_room_id s = Fails-bind (take_token s) _ (Fails-take_token s) λ taken.
    Fails-bind (ok_or (parse_u64 taken.0) (lit "ERROR invalid_room_id")) _
      (Fails-ok_or (parse_u64 taken.0) _ refl) (λ n. tt)

pub Fails-no_more : (s : Text) → Fails (no_more s)
unfolding no_more starts_with
Fails-no_more s = elim (Bool-cases (is_empty (trim s))) [
  | inl end ↦ rw end tt
  | inr more ↦ rw more refl
]

pub Fails-room_only : (s : Text) → Fails (room_only s)
unfolding room_only
Fails-room_only s =
    Fails-bind (parse_room_id_from_remainder s) _ (Fails-parse_room_id s)
      λ parsed. Fails-bind (no_more parsed.1) _ (Fails-no_more parsed.1) (λ _. tt)

pub Fails-container : (s : Text) → Fails (validate_container_name s)
unfolding validate_container_name starts_with
Fails-container s = elim (Bool-cases (ltb 256 (len s))) [
  | inl long ↦ rw long refl
  | inr short ↦ rw short tt
]

pub Fails-key : (s : Text) → Fails (validate_key_name s)
unfolding validate_key_name starts_with
Fails-key s = elim (Bool-cases (ltb 256 (len s))) [
  | inl long ↦ rw long refl
  | inr short ↦ rw short tt
]

pub Fails-room_key : (s : Text) → Fails (room_key s)
unfolding room_key
Fails-room_key s = Fails-bind (parse_room_id_from_remainder s) _ (Fails-parse_room_id s) λ parsed.
    Fails-bind (take_token parsed.1) _ (Fails-take_token parsed.1) λ container.
      Fails-bind (validate_container_name container.0) _ (Fails-container container.0) λ _.
        Fails-bind (take_token container.1) _ (Fails-take_token container.1)
          λ key. Fails-bind (validate_key_name key.0) _ (Fails-key key.0) (λ _. tt)

pub Fails-key_only : (s : Text) → Fails (key_only s)
unfolding key_only
Fails-key_only s =
    Fails-bind (room_key s) _ (Fails-room_key s)
      λ parsed. Fails-bind (no_more parsed.3) _ (Fails-no_more parsed.3) (λ _. tt)

pub Fails-token_only : (s : Text) → Fails (token_only s)
unfolding token_only
Fails-token_only s =
    Fails-bind (take_token s) _ (Fails-take_token s)
      λ taken. Fails-bind (no_more taken.1) _ (Fails-no_more taken.1) (λ _. tt)

pub Fails-value_text : (s : Text) → Fails (value_text s)
unfolding value_text starts_with
Fails-value_text s = elim (Bool-cases (is_empty (trim_start s))) [
  | inl missing ↦ rw missing refl
  | inr there ↦ rw there tt
]

pub Fails-token_loop : (fuel : ℕ) (s : Text) (out : List Text) → Fails (token_loop fuel s out)
unfolding token_loop
Fails-token_loop zero s out = tt
Fails-token_loop (suc fuel) s out = elim (Bool-cases (is_empty (trim s))) [
  | inl end ↦ rw end tt
  | inr more ↦ rw more (
      Fails-bind (take_token s) _ (Fails-take_token s)
        (λ taken. Fails-token_loop fuel taken.1 (out ++ taken.0 ∷ [])))
]

pub Fails-room_tokens : (s : Text) → Fails (room_tokens s)
unfolding room_tokens all_tokens
Fails-room_tokens s =
    Fails-bind (parse_room_id_from_remainder s) _ (Fails-parse_room_id s) λ parsed.
      Fails-bind (token_loop (suc (length parsed.1)) parsed.1 []) _
        (Fails-token_loop (suc (length parsed.1)) parsed.1 []) (λ _. tt)
