-- ===== src/State/Run/Steps.antt =====
-- Every call, and so every run, keeps the invariant and only extends the rooms.
use data_sync.Base.{
  ℕ, ◌+◌, ◌≤◌, ◌<◌, ◌≡◌, refl, false, none, some, List, [], ◌∷◌, arith, ◌⊎◌, subst, Result, u64_mod,
  ok, err, ◌==◌, nat_eq, ==_iff, Bool-cases, inl, inr, length,
}
use data_sync.Dict.{get, remove, contains_key, get-insert, get-remove}
use data_sync.Dict.Distinct.{insert-Distinct, remove-Distinct}
use data_sync.Json.{Json}
use data_sync.State.{
  AppState, RoomState, RoomLock, RoomBody, StateError, empty_room, bump, find_room, new, with_room,
  with_room-found, with_room-missing,
}
use data_sync.State.Rooms.{create_room, delete_room}
use data_sync.State.Fragments.{set_fragment, del_fragment, set_body, del_body}
use data_sync.State.Transactions.{tx_begin, tx_end, tx_abort, begin_body, end_body, abort_body}
use data_sync.State.Room.Consistent.{empty_room-IsConsistent}
use data_sync.State.Room.CatchUp.{Extends-refl}
use data_sync.State.Room.Bodies.{
  IsSound, IsMove, set_on-IsMove, del_on-IsMove, begin_on-IsMove, end_on-IsMove, abort_body-IsMove,
}
use data_sync.State.Run.{Call, create, delete, begin, end, abort, set, del, after, run}
use data_sync.State.Run.Valid.{
  IsValid, Grows, IsStep, Grows-refl, Grows-trans, stay-IsStep, store_room-IsStep, IsSound-later,
}

module _ {Value : Type 0} (n : ℕ) (app : AppState Value) (v : IsValid n app) where
  pub with_room-IsStep :
      {A : Type 0} (room_id : ℕ) (body : RoomBody Value A)
      → ((room : RoomState Value) → IsSound n room → IsMove n room (body room).1)
      → IsStep n app (with_room app room_id body).1
  with_room-IsStep room_id body moves = go (find_room app room_id) refl
    where
      go :
          (r : Result StateError (RoomState Value))
          → find_room app room_id ≡ r
          → IsStep n app (with_room app room_id body).1
      go (err e) p = rw (with_room-missing app room_id body p) (stay-IsStep n app v)
      go (ok room) p = rw (with_room-found app room_id body p) (
          store_room-IsStep n app room_id room (body room).1 v p
            (moves room (v.sound room_id room p)))

  -- What stands at an id after a deletion or a creation.
  find_room-remove :
      (room_id j : ℕ) (room : RoomState Value)
      → find_room (record app { rooms = remove app.rooms room_id }) j ≡ ok room
      → find_room app j ≡ ok room
  unfolding find_room
  find_room-remove room_id j room p = ground (arith, get-remove app.rooms room_id j)

  delete_room-IsStep : (room_id : ℕ) → IsStep n app (delete_room app room_id).1
  unfolding delete_room
  delete_room-IsStep room_id = elim (Bool-cases (contains_key app.rooms room_id)) [
    | inl there ↦ rw there (record {
      valid = record {
        ids = remove-Distinct app.rooms room_id v.ids;
        next = (v.next.0, omega (arith, v.next.1));
        fresh = λ j young. ground (arith, get-remove app.rooms room_id j, v.fresh j young);
        unpoisoned =
            λ j lock p. ground (arith, get-remove app.rooms room_id j, v.unpoisoned j lock);
        sound =
            λ j room p. IsSound-later n room (v.sound j room (find_room-remove room_id j room p));
      };
      grows = record {
        next = omega arith;
        rooms = λ j room p. inr (room, find_room-remove room_id j room p, Extends-refl room);
      };
    })
    | inr gone ↦ rw gone (stay-IsStep n app v)
  ]

  created : AppState Value
  created = (create_room app).1

  find_room-create :
      (j : ℕ) (room : RoomState Value)
      → find_room created j ≡ ok room
      → ((app.next_room_id ≡ j) × (empty_room ≡ room)) ⊎ (find_room app j ≡ ok room)
  unfolding created create_room find_room
  find_room-create j room p =
      let lock : RoomLock Value = record { poisoned = false; room = empty_room } in
      elim (Bool-cases (app.next_room_id == j)) [
        | inl same ↦ inl (
          (==_iff app.next_room_id j).0 same,
          ground (arith, get-insert app.rooms app.next_room_id j lock),
        )
        | inr apart ↦ inr (ground (arith, get-insert app.rooms app.next_room_id j lock))
      ]

  new-IsSound : IsSound (n + 1) (empty_room {Value = Value})
  new-IsSound = record { consistent = empty_room-IsConsistent; bounded = omega arith }

  next_room_id-created : n + 2 < u64_mod → created.next_room_id ≡ app.next_room_id + 1
  unfolding created create_room bump
  next_room_id-created fits = omega (arith, v.next.1)

  created_fresh : n + 2 < u64_mod → (j : ℕ) → created.next_room_id ≤ j → get created.rooms j ≡ none
  created_fresh fits j young =
      let lock : RoomLock Value = record { poisoned = false; room = empty_room } in
      let later : app.next_room_id < j = omega (arith, next_room_id-created fits) in
      unfold created create_room in
      ground (arith, get-insert app.rooms app.next_room_id j lock, v.fresh j (omega arith))

  created_unpoisoned :
      (j : ℕ) (lock : RoomLock Value) → get created.rooms j ≡ some lock → lock.poisoned ≡ false
  unfolding created create_room
  created_unpoisoned j lock p =
      let new_lock : RoomLock Value = record { poisoned = false; room = empty_room } in
      ground (arith, get-insert app.rooms app.next_room_id j new_lock, v.unpoisoned j lock)

  create_room-IsStep : n + 2 < u64_mod → IsStep n app created
  create_room-IsStep fits = record {
    valid = record {
      ids = unfold created create_room in insert-Distinct app.rooms app.next_room_id _ v.ids;
      next = (
        omega (arith, next_room_id-created fits),
        omega (arith, next_room_id-created fits, v.next.1),
      );
      fresh = created_fresh fits;
      unpoisoned = created_unpoisoned;
      sound = λ j room p. elim (find_room-create j room p) [
        | inl (_, e) ↦ subst (IsSound (n + 1)) e new-IsSound
        | inr old ↦ IsSound-later n room (v.sound j room old)
      ];
    };
    grows = record {
      next = omega (arith, next_room_id-created fits);
      rooms = λ j room p. elim (find_room-create j room p) [
        | inl (e, _) ↦ inl (omega arith)
        | inr old ↦ inr (room, old, Extends-refl room)
      ];
    };
  }

module _ {Value : Type 0} ⦃json : Json Value⦄ where
  pub after-IsStep :
      (n : ℕ) (app : AppState Value) (call : Call Value)
      → IsValid n app
      → n + 2 < u64_mod
      → IsStep n app (after app call)
  unfolding after set_fragment del_fragment tx_begin tx_end tx_abort set_body del_body begin_body
      end_body created
  after-IsStep n app create v fits = create_room-IsStep n app v fits
  after-IsStep n app (delete room_id) v fits = delete_room-IsStep n app v room_id
  after-IsStep n app (begin room_id) v fits =
      with_room-IsStep n app v room_id begin_body
        (λ room h. begin_on-IsMove room.tx_buffer n room h refl)
  after-IsStep n app (end room_id) v fits =
      with_room-IsStep n app v room_id end_body
        (λ room h. end_on-IsMove room.tx_buffer n room h (omega arith) refl)
  after-IsStep n app (abort room_id) v fits =
      with_room-IsStep n app v room_id abort_body (abort_body-IsMove n)
  after-IsStep n app (set room_id c k value) v fits =
      with_room-IsStep n app v room_id (set_body c k value)
        (λ room h. set_on-IsMove room.tx_buffer n room c k value h (omega arith) refl)
  after-IsStep n app (del room_id c k) v fits =
      with_room-IsStep n app v room_id (del_body c k)
        (λ room h. del_on-IsMove room.tx_buffer n room c k h (omega arith) refl)

  pub run-IsValid :
      (n : ℕ) (app : AppState Value) (calls : List (Call Value))
      → IsValid n app
      → n + length calls + 1 < u64_mod
      → IsValid (n + length calls) (run app calls)
  unfolding run
  run-IsValid n app [] v fits = subst (λ m. IsValid m app) (omega arith) v
  run-IsValid n app (call ∷ calls) v fits =
      subst (λ m. IsValid m (run (after app call) calls)) (omega arith)
        (run-IsValid (n + 1) (after app call) calls (after-IsStep n app call v (omega arith)).valid
          (omega arith))

  pub run-Grows :
      (n : ℕ) (app : AppState Value) (calls : List (Call Value))
      → IsValid n app
      → n + length calls + 1 < u64_mod
      → Grows app (run app calls)
  unfolding run
  run-Grows n app [] v fits = Grows-refl app
  run-Grows n app (call ∷ calls) v fits =
      let step = after-IsStep n app call v (omega arith) in
      Grows-trans step.grows (run-Grows (n + 1) (after app call) calls step.valid (omega arith))

  pub new-IsValid : IsValid {Value = Value} 0 new
  unfolding new get find_room
  new-IsValid = record {
    ids = tt;
    next = (omega arith, omega arith);
    fresh = λ j young. refl;
    unpoisoned = λ j lock p. cc;
    sound = λ j room p. cc;
  }
