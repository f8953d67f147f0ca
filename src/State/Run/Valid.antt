-- ===== src/State/Run/Valid.antt =====
-- The invariant of the application's rooms, and how a later state stands to an earlier one.
use data_sync.Base.{
  ℕ, ◌+◌, ◌≤◌, ◌<◌, ◌≡◌, false, none, some, arith, ◌⊎◌, ok, ◌==◌, nat_eq, ==_iff, subst, Bool-cases,
  Option-cases, inl, inr,
}
use data_sync.Dict.{get, get-insert}
use data_sync.Dict.Distinct.{Distinct, insert-Distinct}
use data_sync.State.{AppState, RoomState, RoomLock, find_room, store_room, find_room-store_room}
use data_sync.State.Room.CatchUp.{Extends, Extends-refl, Extends-trans}
use data_sync.State.Room.Bodies.{IsSound, IsMove}

-- After at most `n` calls: room ids are given in order and never again, no lock is poisoned, and
-- every room is sound.
pub record IsValid {Value : Type 0} (n : ℕ) (app : AppState Value) : Type 0 where
  pub ids : Distinct app.rooms
  pub next : (0 < app.next_room_id) × (app.next_room_id ≤ n + 1)
  pub fresh : (room_id : ℕ) → app.next_room_id ≤ room_id → get app.rooms room_id ≡ none
  pub unpoisoned :
      (room_id : ℕ) (lock : RoomLock Value)
      → get app.rooms room_id ≡ some lock
      → lock.poisoned ≡ false
  pub sound :
      (room_id : ℕ) (room : RoomState Value) → find_room app room_id ≡ ok room → IsSound n room

-- A room of the later state is younger than the earlier state, or was there and has been extended.
pub record Grows {Value : Type 0} (app app' : AppState Value) : Type 0 where
  pub next : app.next_room_id ≤ app'.next_room_id
  pub rooms :
      (room_id : ℕ) (room' : RoomState Value)
      → find_room app' room_id ≡ ok room'
      → (app.next_room_id ≤ room_id)
        ⊎ ((room : RoomState Value) × (find_room app room_id ≡ ok room) × Extends room room')

-- What one call may do.
pub record IsStep {Value : Type 0} (n : ℕ) (app app' : AppState Value) : Type 0 where
  pub valid : IsValid (n + 1) app'
  pub grows : Grows app app'

module _ {Value : Type 0} where
  pub Grows-refl : (app : AppState Value) → Grows app app
  Grows-refl app = record {
    next = omega arith;
    rooms = λ room_id room p. inr (room, p, Extends-refl room);
  }

  pub Grows-trans : {a b c : AppState Value} → Grows a b → Grows b c → Grows a c
  Grows-trans f g = record {
    next = omega (arith, f.next, g.next);
    rooms = λ room_id room'' p. elim (g.rooms room_id room'' p) [
      | inl young ↦ inl (omega (arith, f.next))
      | inr (room', p', x') ↦ elim (f.rooms room_id room' p') [
        | inl young ↦ inl young
        | inr (room, q, x) ↦ inr (room, q, Extends-trans x x')
      ]
    ];
  }

  -- A room that can be taken stands in the map, with its lock whole.
  pub find_room-ok :
      (app : AppState Value) (room_id : ℕ) (room : RoomState Value)
      → find_room app room_id ≡ ok room
      → get app.rooms room_id ≡ some (record { poisoned = false; room = room })
  unfolding find_room
  find_room-ok app room_id room h = elim (Option-cases (get app.rooms room_id)) [
    | inl missing ↦ ground arith
    | inr (lock, found) ↦ ground arith
  ]

  pub find_room-none :
      (app : AppState Value) (room_id : ℕ) (room : RoomState Value)
      → get app.rooms room_id ≡ none
      → find_room app room_id ≡ ok room
      → ⊥
  unfolding find_room
  find_room-none app room_id room h p = ground arith

  pub IsSound-later : (n : ℕ) (room : RoomState Value) → IsSound n room → IsSound (n + 1) room
  IsSound-later n room h = record { consistent = h.consistent; bounded = omega (arith, h.bounded) }

  pub stay-IsStep : (n : ℕ) (app : AppState Value) → IsValid n app → IsStep n app app
  stay-IsStep n app v = record {
    valid = record {
      ids = v.ids;
      next = (v.next.0, omega (arith, v.next.1));
      fresh = v.fresh;
      unpoisoned = v.unpoisoned;
      sound = λ room_id room p. IsSound-later n room (v.sound room_id room p);
    };
    grows = Grows-refl app;
  }

module _ {Value : Type 0} (n : ℕ) (app : AppState Value) (room_id : ℕ)
    (room room' : RoomState Value) (v : IsValid n app) (found : find_room app room_id ≡ ok room)
    (move : IsMove n room room') where
  new_lock : RoomLock Value
  new_lock = record { poisoned = false; room = room' }

  store_fresh : (j : ℕ) → app.next_room_id ≤ j → get (store_room app room_id room').rooms j ≡ none
  unfolding store_room
  store_fresh j young = ground (
    arith,
    get-insert app.rooms room_id j (record { poisoned = false; room = room' }),
    v.fresh j young,
    find_room-ok app room_id room found,
  )

  store_unpoisoned :
      (j : ℕ) (lock : RoomLock Value)
      → get (store_room app room_id room').rooms j ≡ some lock
      → lock.poisoned ≡ false
  unfolding store_room
  store_unpoisoned j lock p = ground (
    arith,
    get-insert app.rooms room_id j (record { poisoned = false; room = room' }),
    v.unpoisoned j lock,
  )

  store-IsSound :
      (j : ℕ) (other : RoomState Value)
      → find_room (store_room app room_id room') j ≡ ok other
      → IsSound (n + 1) other
  store-IsSound j other p = elim (Bool-cases (room_id == j)) [
    | inl same ↦
        let e : room' ≡ other = ground (arith, find_room-store_room app room_id j room') in
        subst (IsSound (n + 1)) e move.sound
    | inr apart ↦
        IsSound-later n other
          (v.sound j other (ground (arith, find_room-store_room app room_id j room')))
  ]

  store_grows :
      (j : ℕ) (other : RoomState Value)
      → find_room (store_room app room_id room') j ≡ ok other
      → (app.next_room_id ≤ j)
        ⊎ ((old : RoomState Value) × (find_room app j ≡ ok old) × Extends old other)
  store_grows j other p = elim (Bool-cases (room_id == j)) [
    | inl same ↦
        let e : room' ≡ other = ground (arith, find_room-store_room app room_id j room') in
        inr (
          room,
          subst (λ i. find_room app i ≡ ok room) ((==_iff room_id j).0 same) found,
          subst (Extends room) e move.extends,
        )
    | inr apart ↦
        inr (other, ground (arith, find_room-store_room app room_id j room'), Extends-refl other)
  ]

  pub store_room-IsStep : IsStep n app (store_room app room_id room')
  store_room-IsStep = record {
    valid = record {
      ids = unfold store_room in insert-Distinct app.rooms room_id _ v.ids;
      next = unfold store_room in (v.next.0, omega (arith, v.next.1));
      fresh = unfold store_room in store_fresh;
      unpoisoned = store_unpoisoned;
      sound = store-IsSound;
    };
    grows = record { next = unfold store_room in omega arith; rooms = store_grows };
  }
