-- ===== src/State/Room/Draining.antt =====
-- The loop of `tx_end`, for any list of buffered commands.
use data_sync.Base.{
  ◌+◌, ◌<◌, ◌≡◌, refl, Bool, false, ◌&&◌, some, List, [], ◌∷◌, ◌++◌, arith, ◌==◌, ==_refl, ap,
  u64_mod, length, All, ◌∙◌,
}
use data_sync.Text.{Text, text_eq}
use data_sync.Json.{Json}
use data_sync.State
use data_sync.State.{RoomState, FragmentEntry, RoomCommand, bump}
use data_sync.State.Fragments.{fragment, write_fragment, fragment-write_fragment}
use data_sync.State.Transactions.{apply_command, drain}
use data_sync.State.Room.Consistent.{
  IsConsistent, write_fragment-IsConsistent, room_counter-write_fragment,
}

-- The key that a command is about, and what it leaves there.
module _ {Value : Type 0} where
  abbrev pub container : RoomCommand Value → Text
  container (State.set c k v) = c
  container (State.del c k) = c

  abbrev pub key : RoomCommand Value → Text
  key (State.set c k v) = k
  key (State.del c k) = k

  abbrev pub touches : Text → Text → RoomCommand Value → Bool
  touches c k op = container op == c && key op == k

module _ {Value : Type 0} ⦃json : Json Value⦄ where
  abbrev pub payload : RoomCommand Value → Value
  payload (State.set c k v) = v
  payload (State.del c k) = json.null

  -- A deletion in a transaction is a write of `null`.
  pub apply_command-write_fragment :
      (room : RoomState Value) (op : RoomCommand Value)
      → apply_command room op ≡ write_fragment room (container op) (key op) (payload op)
  unfolding apply_command
  apply_command-write_fragment room (State.set c k v) = refl
  apply_command-write_fragment room (State.del c k) = refl

  pub apply_command-IsConsistent :
      (room : RoomState Value) (op : RoomCommand Value)
      → IsConsistent room
      → room.room_counter + 1 < u64_mod
      → IsConsistent (apply_command room op)
  apply_command-IsConsistent room op h fits =
      rw (apply_command-write_fragment room op)
        (write_fragment-IsConsistent room (container op) (key op) (payload op) h fits)

  pub room_counter-apply_command :
      (room : RoomState Value) (op : RoomCommand Value)
      → room.room_counter + 1 < u64_mod
      → (apply_command room op).room_counter ≡ room.room_counter + 1
  room_counter-apply_command room op fits =
      rw (apply_command-write_fragment room op)
        (room_counter-write_fragment room (container op) (key op) (payload op) fits)

  pub drain-IsConsistent :
      (room : RoomState Value) (ops : List (RoomCommand Value))
      → IsConsistent room
      → room.room_counter + length ops < u64_mod
      → IsConsistent (drain room ops)
  unfolding drain
  drain-IsConsistent room [] h fits = h
  drain-IsConsistent room (op ∷ ops) h fits =
      drain-IsConsistent (apply_command room op) ops
        (apply_command-IsConsistent room op h (omega arith))
        (omega (arith, room_counter-apply_command room op))

  -- Every command takes one version.
  pub room_counter-drain :
      (room : RoomState Value) (ops : List (RoomCommand Value))
      → room.room_counter + length ops < u64_mod
      → (drain room ops).room_counter ≡ room.room_counter + length ops
  unfolding drain
  room_counter-drain room [] fits = omega arith
  room_counter-drain room (op ∷ ops) fits = omega (
    arith,
    room_counter-apply_command room op (omega arith),
    room_counter-drain (apply_command room op) ops
        (omega (arith, room_counter-apply_command room op (omega arith))),
  )

  pub tx_buffer-drain :
      (room : RoomState Value) (ops : List (RoomCommand Value))
      → (drain room ops).tx_buffer ≡ room.tx_buffer
  unfolding drain apply_command write_fragment
  tx_buffer-drain room [] = refl
  tx_buffer-drain room (State.set c k v ∷ ops) = tx_buffer-drain (write_fragment room c k v) ops
  tx_buffer-drain room (State.del c k ∷ ops) =
      tx_buffer-drain (write_fragment room c k json.null) ops

  pub drain-append :
      (room : RoomState Value) (xs ys : List (RoomCommand Value))
      → drain room (xs ++ ys) ≡ drain (drain room xs) ys
  unfolding drain
  drain-append room [] ys = refl
  drain-append room (op ∷ xs) ys = drain-append (apply_command room op) xs ys

  drain-cons :
      (room : RoomState Value) (op : RoomCommand Value) (ops : List (RoomCommand Value))
      → drain room (op ∷ ops) ≡ drain (apply_command room op) ops
  unfolding drain
  drain-cons room op ops = refl

  next_version :
      (room : RoomState Value) (before : List (RoomCommand Value))
      → room.room_counter + length before + 1 < u64_mod
      → bump (drain room before).room_counter ≡ room.room_counter + length before + 1
  unfolding bump
  next_version room before fits = omega (arith, room_counter-drain room before)

  -- Commands on other keys leave a key alone.
  pub fragment-drain_untouched :
      (room : RoomState Value) (ops : List (RoomCommand Value)) (c k : Text)
      → All (λ op. touches c k op ≡ false) ops
      → fragment (drain room ops) c k ≡ fragment room c k
  unfolding drain
  fragment-drain_untouched room [] c k h = refl
  fragment-drain_untouched room (op ∷ ops) c k (other, h) =
      fragment-drain_untouched (apply_command room op) ops c k h
      ∙ rw (
        apply_command-write_fragment room op,
        fragment-write_fragment room (container op) (key op) c k (payload op),
        other,
      )

  -- The last command on a key decides its value, and its place decides the version.
  pub fragment-drain_last :
      (room : RoomState Value) (before : List (RoomCommand Value)) (op : RoomCommand Value)
      (after : List (RoomCommand Value))
      → room.room_counter + length before + 1 < u64_mod
      → All (λ later. touches (container op) (key op) later ≡ false) after
      → fragment (drain room (before ++ op ∷ after)) (container op) (key op)
        ≡ some (record { value = payload op; key_version = room.room_counter + length before + 1 })
  fragment-drain_last room before op after fits h =
      let mid = drain room before in
      rw
        (
          drain-append room before (op ∷ after),
          drain-cons mid op after,
          fragment-drain_untouched (apply_command mid op) after (container op) (key op) h,
          apply_command-write_fragment mid op,
          fragment-write_fragment mid (container op) (key op) (container op) (key op) (payload op),
          ==_refl (container op),
          ==_refl (key op),
        )
        (ap (λ n. some (record { value = payload op; key_version = n }))
          (next_version room before fits))
