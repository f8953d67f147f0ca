-- ===== src/Compare.antt =====
-- syncpond-server/src/main.rs: `constant_time_eq`.
pub mod Bits
pub mod Equal
use Prim.Native.Nat.{bit_or, bit_xor}
use data_sync.Base.{ℕ, Bool, true, false, not, List, [], ◌∷◌, if◌then◌else◌, ◌==◌, nat_eq}
use data_sync.Text.{Text, len}
use data_sync.Text.Utf8.{bytes}

-- The loop over the zipped bytes, which ends with the shorter.
unfoldable pub difference : List ℕ → List ℕ → ℕ → ℕ
difference [] ys diff = diff
difference (x ∷ xs) [] diff = diff
difference (x ∷ xs) (y ∷ ys) diff = difference xs ys (bit_or diff (bit_xor x y))

unfoldable pub constant_time_eq : Text → Text → Bool
unfolding difference len bytes
constant_time_eq a b = if not (len a == len b) then false else difference (bytes a) (bytes b) 0 == 0
