-- ===== src/Tests/Transactions.antt =====
-- Fragments and transactions in a room with one container.
use data_sync.Base.{◌+◌, ◌≡◌, refl, arith, true, none, List, [], ◌∷◌, ok, err, length}
use data_sync.Dict.{get, insert, contains_key}
use data_sync.Text.{Text, lit, text_eq}
use data_sync.State
use data_sync.State.{
  AppState, RoomState, RoomCommand, new, find_room, store_room, bump, tx_already_open, tx_not_open,
  fragment_tombstone,
}
use data_sync.State.Rooms.{room_version}
use data_sync.State.Fragments.{set_fragment, del_fragment, get_fragment}
use data_sync.State.Fragments.Effects.{IsWritten, set_fragment-IsWritten, del_fragment-IsWritten}
use data_sync.State.Transactions.{tx_begin, tx_end, tx_abort, drain}
use data_sync.State.Transactions.Scripts.{submit_all, opened}
use data_sync.State.Transactions.Commit.{
  opened_is_isolated, tx_end-opened, room_version-tx_end, tx_abort-opened, get_fragment-tx_end,
}
use data_sync.State.Transactions.Serial.{tx_end-submit_all}
use data_sync.State.Run
use data_sync.State.Run.{after, outcome}
use data_sync.State.Failures.{after-err}
use data_sync.State.Views.{room_snapshot}
use data_sync.Tests.Sample.{sample_json}

abbrev public : Text
public = lit "public"

abbrev room : RoomState Text
room = record {
  containers = (public, (lit "a", record { value = lit "1"; key_version = 1 }) ∷ []) ∷ [];
  room_counter = 1;
  tx_buffer = none;
}

abbrev app : AppState Text
app = store_room new 1 room

found : find_room app 1 ≡ ok room
unfolding find_room store_room new insert get
found = refl

there : contains_key room.containers public ≡ true
unfolding contains_key text_eq
there = refl

abbrev sets : List (RoomCommand Text)
sets = State.set public (lit "a") (lit "2") ∷ State.set public (lit "b") (lit "3") ∷ []

abbrev commands : List (RoomCommand Text)
commands = State.set public (lit "a") (lit "2") ∷ State.del public (lit "b") ∷ []

set_fragment-IsWritten_example :
    ((set_fragment app 1 public (lit "b") (lit "2")).0 ≡ ok tt)
    × IsWritten app
        (set_fragment app 1 public (lit "b") (lit "2")).1
        1
        public
        (lit "b")
        (lit "2")
        (bump 1)
set_fragment-IsWritten_example = set_fragment-IsWritten app 1 public (lit "b") (lit "2") found refl

del_fragment-IsWritten_example :
    ((del_fragment app 1 public (lit "a")).0 ≡ ok tt)
    × IsWritten app (del_fragment app 1 public (lit "a")).1 1 public (lit "a") (lit "null") (bump 1)
    × (get_fragment (del_fragment app 1 public (lit "a")).1 1 public (lit "a")
        ≡ err fragment_tombstone)
del_fragment-IsWritten_example = del_fragment-IsWritten app 1 public (lit "a") found refl there

opened_is_isolated_example :
    ((c k : Text) → get_fragment (opened app 1 commands) 1 c k ≡ get_fragment app 1 c k)
    × ((allowed : List Text)
        → room_snapshot (opened app 1 commands) 1 allowed ≡ room_snapshot app 1 allowed)
    × (room_version (opened app 1 commands) 1 ≡ room_version app 1)
    × ((tx_begin (opened app 1 commands) 1).0 ≡ err tx_already_open)
opened_is_isolated_example = opened_is_isolated app 1 commands found refl

tx_end-committed :
    ((tx_end (opened app 1 commands) 1).0 ≡ ok tt)
    × (find_room (tx_end (opened app 1 commands) 1).1 1 ≡ ok (drain room commands))
tx_end-committed = tx_end-opened app 1 commands found refl

room_version-committed :
    room_version (tx_end (opened app 1 commands) 1).1 1 ≡ ok (1 + length commands)
room_version-committed = room_version-tx_end app 1 commands found refl (omega arith)

tx_abort-opened_example :
    ((tx_abort (opened app 1 commands) 1).0 ≡ ok tt)
    × (find_room (tx_abort (opened app 1 commands) 1).1 1 ≡ ok room)
tx_abort-opened_example = tx_abort-opened app 1 commands found refl

get_fragment-tx_end_example :
    get_fragment
      (tx_end
        (opened app 1
          (State.set public (lit "a") (lit "7") ∷ State.set public (lit "a") (lit "8") ∷ []))
        1).1
      1
      public
      (lit "a")
    ≡ ok (lit "8", 3)
unfolding text_eq
get_fragment-tx_end_example =
    get_fragment-tx_end app 1 (State.set public (lit "a") (lit "7") ∷ [])
      (State.set public (lit "a") (lit "8")) [] found refl (omega arith) tt

tx_end-submit_all_example :
    find_room (tx_end (opened app 1 sets) 1).1 1 ≡ find_room (submit_all app 1 sets) 1
tx_end-submit_all_example = tx_end-submit_all app 1 sets (tt, (tt, tt)) found refl

not_open : outcome app (Run.end 1) ≡ err tx_not_open
unfolding outcome find_room store_room new insert get
not_open = refl

after-err_example : after app (Run.end 1) ≡ app
after-err_example = after-err app (Run.end 1) tx_not_open not_open
