-- ===== src/State/Room/Consistent.antt =====
-- The invariant of a room: its maps are maps, and no version is given twice or ahead of time.
use data_sync.Base.{
  ◌+◌, ◌≤◌, ◌<◌, ◌≡◌, ◌≢◌, ◌&&◌, some, [], ◌∷◌, arith, ◌==◌, ==_iff, ◌⊎◌, ap, Bool-cases,
  Option-cases, subst, inl, inr, u64_mod,
}
use mathlib.Core.List.{cons-ne-nil}
use data_sync.Dict.{Dict, get, insert, get-insert}
use data_sync.Dict.Distinct.{Distinct, insert-Distinct}
use data_sync.Text.{Text, text_eq}
use data_sync.State.{RoomState, FragmentEntry, bump, empty_room}
use data_sync.State.Fragments.{fragment, write_fragment, or_default, fragment-write_fragment}

pub record IsConsistent {Value : Type 0} (room : RoomState Value) : Type 0 where
  pub names : Distinct room.containers
  pub keys :
      (c : Text) (m : Dict Text (FragmentEntry Value))
      → get room.containers c ≡ some m
      → Distinct m × (m ≢ [])
  pub versions :
      (c k : Text) (e : FragmentEntry Value)
      → fragment room c k ≡ some e
      → (0 < e.key_version) × (e.key_version ≤ room.room_counter)
  pub unique :
      (c k c' k' : Text) (e e' : FragmentEntry Value)
      → fragment room c k ≡ some e
      → fragment room c' k' ≡ some e'
      → e.key_version ≡ e'.key_version
      → (c ≡ c') × (k ≡ k')

module _ {Value : Type 0} where
  pub empty_room-IsConsistent : IsConsistent {Value = Value} empty_room
  unfolding fragment get
  empty_room-IsConsistent = record {
    names = tt;
    keys = λ c m h. cc;
    versions = λ c k e h. cc;
    unique = λ c k c' k' e e' h h' p. cc;
  }

  insert-ne-nil :
      (m : Dict Text (FragmentEntry Value)) (k : Text) (e : FragmentEntry Value) → insert m k e ≢ []
  unfolding insert
  insert-ne-nil [] k e = cons-ne-nil _ _
  insert-ne-nil ((j, w) ∷ m) k e =
      ground (arith, cons-ne-nil (j, e) m, cons-ne-nil (j, w) (insert m k e))

  or_default-Distinct :
      (room : RoomState Value) (c : Text)
      → IsConsistent room
      → Distinct (or_default (get room.containers c))
  or_default-Distinct room c h = elim (Option-cases (get room.containers c)) [
    | inl missing ↦ rw missing tt
    | inr (m, found) ↦ rw found ((h.keys c m found).0)
  ]

module _ {Value : Type 0} (room : RoomState Value) (c k : Text) (v : Value) where
  abbrev pub written : FragmentEntry Value
  written = record { value = v; key_version = bump room.room_counter }

  pub room_counter-write_fragment :
      room.room_counter + 1 < u64_mod
      → (write_fragment room c k v).room_counter ≡ room.room_counter + 1
  unfolding write_fragment
  room_counter-write_fragment fits = omega arith

  write_keys :
      IsConsistent room
      → (c' : Text) (m : Dict Text (FragmentEntry Value))
      → get (write_fragment room c k v).containers c' ≡ some m
      → Distinct m × (m ≢ [])
  unfolding write_fragment
  write_keys h c' m p =
      let old = or_default (get room.containers c) in
      let q = get-insert room.containers c c' (insert old k written) in
      elim (Bool-cases (c == c')) [
        | inl same ↦
            let e : insert old k written ≡ m = cc (p, q, same) in
            subst (λ x. Distinct x × (x ≢ [])) e
              (
                insert-Distinct old k written (or_default-Distinct room c h),
                insert-ne-nil old k written,
              )
        | inr other ↦ h.keys c' m (cc (p, q, other))
      ]

  -- An entry after a write is the written one, or was there before.
  pub write_origin :
      (c' k' : Text) (e : FragmentEntry Value)
      → fragment (write_fragment room c k v) c' k' ≡ some e
      → ((c ≡ c') × (k ≡ k') × (e ≡ written)) ⊎ (fragment room c' k' ≡ some e)
  write_origin c' k' e p =
      let law = fragment-write_fragment room c k c' k' v in
      elim (Bool-cases (c == c' && k == k')) [
        | inl same ↦
            inl (ground (arith, ==_iff c c'), ground (arith, ==_iff k k'), cc (p, law, same))
        | inr other ↦ inr (cc (p, law, other))
      ]

  pub version-written :
      room.room_counter + 1 < u64_mod → written.key_version ≡ room.room_counter + 1
  unfolding bump
  version-written fits = omega arith

  write_versions :
      IsConsistent room
      → room.room_counter + 1 < u64_mod
      → (c' k' : Text) (e : FragmentEntry Value)
      → fragment (write_fragment room c k v) c' k' ≡ some e
      → (0 < e.key_version) × (e.key_version ≤ room.room_counter + 1)
  write_versions h fits c' k' e p = elim (write_origin c' k' e p) [
    | inl (_, _, new) ↦
        omega (arith, version-written fits, ap (λ (x : FragmentEntry Value). x.key_version) new)
    | inr old ↦ omega (arith, h.versions c' k' e old)
  ]

  write_unique :
      IsConsistent room
      → room.room_counter + 1 < u64_mod
      → (c1 k1 c2 k2 : Text) (e1 e2 : FragmentEntry Value)
      → fragment (write_fragment room c k v) c1 k1 ≡ some e1
      → fragment (write_fragment room c k v) c2 k2 ≡ some e2
      → e1.key_version ≡ e2.key_version
      → (c1 ≡ c2) × (k1 ≡ k2)
  write_unique h fits c1 k1 c2 k2 e1 e2 p q same =
      let version = λ (x : FragmentEntry Value). x.key_version in
      elim (write_origin c1 k1 e1 p) [
        | inl (cp, kp, new) ↦ elim (write_origin c2 k2 e2 q) [
          | inl (cq, kq, _) ↦ (cc (cp, cq), cc (kp, kq))
          | inr old ↦
              absurd (omega (arith, version-written fits, ap version new, h.versions c2 k2 e2 old))
        ]
        | inr old ↦ elim (write_origin c2 k2 e2 q) [
          | inl (_, _, new) ↦
              absurd (omega (arith, version-written fits, ap version new, h.versions c1 k1 e1 old))
          | inr old' ↦ h.unique c1 k1 c2 k2 e1 e2 old old' same
        ]
      ]

  pub write_fragment-IsConsistent :
      IsConsistent room → room.room_counter + 1 < u64_mod → IsConsistent (write_fragment room c k v)
  write_fragment-IsConsistent h fits = record {
    names = unfold write_fragment in insert-Distinct room.containers c _ h.names;
    keys = write_keys h;
    versions = λ c' k' e p. rw (room_counter-write_fragment fits) (write_versions h fits c' k' e p);
    unique = write_unique h fits;
  }
