-- ===== src/Compare/Equal.antt =====
-- The comparison without an early exit is equality.
use Prim.Native.Nat.{bit_or, bit_xor}
use data_sync.Base.{
  ℕ, ◌≡◌, ◌↔◌, refl, true, List, [], ◌∷◌, arith, ◌==◌, ==_iff, ==_refl, nat_eq, length, Bool-cases,
  inl, inr, ◌∙◌, sym,
}
use data_sync.Text.{Text, len}
use data_sync.Text.Utf8.{bytes, IsUnicode, bytes-injective, length-bytes}
use data_sync.Compare.{difference, constant_time_eq}
use data_sync.Compare.Bits.{bit_xor-zero, bit_xor_self, bit_or-zero}

-- A difference is never lost.
difference-zero :
    (xs ys : List ℕ) (diff : ℕ)
    → length xs ≡ length ys
    → difference xs ys diff ≡ 0
    → (diff ≡ 0) × (xs ≡ ys)
unfolding difference
difference-zero [] [] diff l h = (h, refl)
difference-zero [] (y ∷ ys) diff l h = absurd (omega arith)
difference-zero (x ∷ xs) [] diff l h = absurd (omega arith)
difference-zero (x ∷ xs) (y ∷ ys) diff l h =
    let (d, same) = difference-zero xs ys (bit_or diff (bit_xor x y)) (omega arith) h in
    let (z, e) = bit_or-zero diff (bit_xor x y) d in (z, rw (bit_xor-zero x y e, same))

difference_self : (xs : List ℕ) → difference xs xs 0 ≡ 0
unfolding difference
difference_self [] = refl
difference_self (x ∷ xs) = rw (bit_xor_self x) (difference_self xs)

-- For texts of Unicode, the comparison of keys that looks at every byte is equality.
pub constant_time_eq_iff :
    (a b : Text) → IsUnicode a → IsUnicode b → (constant_time_eq a b ≡ true) ↔ (a ≡ b)
unfolding constant_time_eq
constant_time_eq_iff a b u v = (
  (λ h. elim (Bool-cases (len a == len b)) [
    | inl l ↦
        let lengths : length (bytes a) ≡ length (bytes b) =
          length-bytes a ∙ (==_iff (len a) (len b)).0 l ∙ sym (length-bytes b) in
        let d : difference (bytes a) (bytes b) 0 ≡ 0 =
          (==_iff (difference (bytes a) (bytes b) 0) 0).0 (ground arith) in
        bytes-injective a b u v (difference-zero (bytes a) (bytes b) 0 lengths d).1
    | inr l ↦ absurd (ground arith)
  ]),
  (λ e. rw (e, ==_refl (len b), difference_self (bytes b))),
)
