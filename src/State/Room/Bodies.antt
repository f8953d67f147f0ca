-- ===== src/State/Room/Bodies.antt =====
-- Each operation on a room keeps its invariant and only ever extends it.
use data_sync.Base.{
  ℕ, ◌+◌, ◌≤◌, ◌<◌, ◌≡◌, refl, Option, none, some, List, [], ◌∷◌, ◌++◌, arith, u64_mod, length,
  length-append, ap, ◌∙◌, Bool-cases, inl, inr,
}
use data_sync.Dict.{contains_key}
use data_sync.Text.{Text, text_eq}
use data_sync.Json.{Json}
use data_sync.State
use data_sync.State.{RoomState, RoomBody, RoomCommand}
use data_sync.State.Fragments.{fragment, write_fragment, set_on, del_on}
use data_sync.State.Transactions.{apply_command, drain, begin_on, end_on, abort_body}
use data_sync.State.Room.Consistent.{
  IsConsistent, write_fragment-IsConsistent, room_counter-write_fragment,
}
use data_sync.State.Room.Draining.{
  apply_command-write_fragment, drain-IsConsistent, room_counter-drain, tx_buffer-drain, container,
  key, payload, room_counter-apply_command,
}
use data_sync.State.Room.CatchUp.{Extends, Extends-refl, Extends-trans, write_fragment-Extends}

abbrev pub buffered {ℓ} : {A : Type ℓ} → Option (List A) → ℕ
buffered none = 0
buffered (some ops) = length ops

-- A room after at most `n` calls: each call adds one version or one buffered command.
pub record IsSound {Value : Type 0} (n : ℕ) (room : RoomState Value) : Type 0 where
  pub consistent : IsConsistent room
  pub bounded : room.room_counter + buffered room.tx_buffer ≤ n

-- What one call may do to a room.
pub record IsMove {Value : Type 0} (n : ℕ) (old new : RoomState Value) : Type 0 where
  pub sound : IsSound (n + 1) new
  pub extends : Extends old new

module _ {Value : Type 0} where
  -- The buffer is no part of what the invariant or a client sees.
  pub buffer-IsConsistent :
      (room : RoomState Value) (b : Option (List (RoomCommand Value)))
      → IsConsistent room
      → IsConsistent (record room { tx_buffer = b })
  unfolding fragment
  buffer-IsConsistent room b h = record {
    names = h.names;
    keys = h.keys;
    versions = h.versions;
    unique = h.unique;
  }

  pub buffer-Extends :
      (room : RoomState Value) (b : Option (List (RoomCommand Value)))
      → Extends room (record room { tx_buffer = b })
  unfolding fragment
  buffer-Extends room b = record { grows = omega arith; kept = λ c k e p. inr p; held = λ c k p. p }

  buffer-IsMove :
      (n : ℕ) (room : RoomState Value) (b : Option (List (RoomCommand Value)))
      → IsSound n room
      → room.room_counter + buffered b ≤ n + 1
      → IsMove n room (record room { tx_buffer = b })
  buffer-IsMove n room b h fits = record {
    sound = record { consistent = buffer-IsConsistent room b h.consistent; bounded = fits };
    extends = buffer-Extends room b;
  }

  pub stay-IsMove : (n : ℕ) (room : RoomState Value) → IsSound n room → IsMove n room room
  stay-IsMove n room h = record {
    sound = record { consistent = h.consistent; bounded = omega (arith, h.bounded) };
    extends = Extends-refl room;
  }

  tx_buffer-write_fragment :
      (room : RoomState Value) (c k : Text) (v : Value)
      → (write_fragment room c k v).tx_buffer ≡ room.tx_buffer
  unfolding write_fragment
  tx_buffer-write_fragment room c k v = refl

  write-IsMove :
      (n : ℕ) (room : RoomState Value) (c k : Text) (v : Value)
      → IsSound n room
      → n + 1 < u64_mod
      → room.tx_buffer ≡ none
      → IsMove n room (write_fragment room c k v)
  write-IsMove n room c k v h fits closed =
      let room_fits : room.room_counter + 1 < u64_mod = omega (arith, h.bounded) in
      let buffer : buffered (write_fragment room c k v).tx_buffer ≡ 0 =
        ap buffered (tx_buffer-write_fragment room c k v ∙ closed) in
      record {
        sound = record {
          consistent = write_fragment-IsConsistent room c k v h.consistent room_fits;
          bounded =
              omega (arith, buffer, room_counter-write_fragment room c k v room_fits, h.bounded);
        };
        extends = write_fragment-Extends room c k v room_fits;
      }

  -- One more buffered command.
  push-IsMove :
      (n : ℕ) (room : RoomState Value) (ops : List (RoomCommand Value)) (op : RoomCommand Value)
      → IsSound n room
      → room.tx_buffer ≡ some ops
      → IsMove n room (record room { tx_buffer = some (ops ++ op ∷ []) })
  push-IsMove n room ops op h open' =
      buffer-IsMove n room (some (ops ++ op ∷ [])) h
        (omega (arith, h.bounded, ap buffered open', length-append ops (op ∷ [])))

  pub set_on-IsMove :
      (b : Option (List (RoomCommand Value))) (n : ℕ) (room : RoomState Value) (c k : Text)
      (v : Value)
      → IsSound n room
      → n + 1 < u64_mod
      → room.tx_buffer ≡ b
      → IsMove n room (set_on b c k v room).1
  unfolding set_on
  set_on-IsMove none n room c k v h fits p = write-IsMove n room c k v h fits p
  set_on-IsMove (some ops) n room c k v h fits p = push-IsMove n room ops (State.set c k v) h p

  pub begin_on-IsMove :
      (b : Option (List (RoomCommand Value))) (n : ℕ) (room : RoomState Value)
      → IsSound n room
      → room.tx_buffer ≡ b
      → IsMove n room (begin_on b room).1
  unfolding begin_on
  begin_on-IsMove none n room h p =
      buffer-IsMove n room (some []) h (omega (arith, h.bounded, ap buffered p))
  begin_on-IsMove (some ops) n room h p = stay-IsMove n room h

  pub abort_body-IsMove :
      (n : ℕ) (room : RoomState Value) → IsSound n room → IsMove n room (abort_body room).1
  unfolding abort_body
  abort_body-IsMove n room h = buffer-IsMove n room none h (omega (arith, h.bounded))

module _ {Value : Type 0} ⦃json : Json Value⦄ where
  pub del_on-IsMove :
      (b : Option (List (RoomCommand Value))) (n : ℕ) (room : RoomState Value) (c k : Text)
      → IsSound n room
      → n + 1 < u64_mod
      → room.tx_buffer ≡ b
      → IsMove n room (del_on b c k room).1
  unfolding del_on
  del_on-IsMove none n room c k h fits p = elim (Bool-cases (contains_key room.containers c)) [
    | inl there ↦ rw there (write-IsMove n room c k json.null h fits p)
    | inr gone ↦ rw gone (stay-IsMove n room h)
  ]
  del_on-IsMove (some ops) n room c k h fits p = push-IsMove n room ops (State.del c k) h p

  drain-Extends :
      (room : RoomState Value) (ops : List (RoomCommand Value))
      → room.room_counter + length ops < u64_mod
      → Extends room (drain room ops)
  unfolding drain
  drain-Extends room [] fits = Extends-refl room
  drain-Extends room (op ∷ ops) fits =
      let next = apply_command room op in
      let moved : Extends room next =
        rw (apply_command-write_fragment room op)
          (write_fragment-Extends room (container op) (key op) (payload op) (omega arith)) in
      Extends-trans moved
        (drain-Extends next ops (omega (arith, room_counter-apply_command room op)))

  drain-IsMove :
      (n : ℕ) (room : RoomState Value) (ops : List (RoomCommand Value))
      → IsSound n room
      → n + 1 < u64_mod
      → room.tx_buffer ≡ some ops
      → IsMove n room (drain (record room { tx_buffer = none }) ops)
  drain-IsMove n room ops h fits p =
      let start : RoomState Value = record room { tx_buffer = none } in
      let room_fits : room.room_counter + length ops ≤ n =
        omega (arith, h.bounded, ap buffered p) in
      let closed : buffered (drain start ops).tx_buffer ≡ 0 =
        ap buffered (tx_buffer-drain start ops) in
      record {
        sound = record {
          consistent =
              drain-IsConsistent start ops (buffer-IsConsistent room none h.consistent)
                (omega arith);
          bounded = omega (arith, room_counter-drain start ops (omega arith), closed);
        };
        extends = Extends-trans (buffer-Extends room none) (drain-Extends start ops (omega arith));
      }

  pub end_on-IsMove :
      (b : Option (List (RoomCommand Value))) (n : ℕ) (room : RoomState Value)
      → IsSound n room
      → n + 1 < u64_mod
      → room.tx_buffer ≡ b
      → IsMove n room (end_on b room).1
  unfolding end_on
  end_on-IsMove none n room h fits p = stay-IsMove n room h
  end_on-IsMove (some ops) n room h fits p = drain-IsMove n room ops h fits p
