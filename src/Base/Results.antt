-- ===== src/Base/Results.antt =====
-- Rust's `Result`, and its `?` as the bind of a `do` block.
use mathlib.Core.Bool.{Bool, true, false}
use mathlib.Core.Path.{◌≡◌, refl}
use mathlib.Core.Option.{Option, none, some}

pub data Result {ℓ} (E A : Type ℓ) : Type ℓ where
  ok : A → Result E A
  err : E → Result E A

infixl 5 ◌>>=◌ ◌>>◌
abbrev pub ◌>>=◌ {ℓ} : {E A B : Type ℓ} → Result E A → (A → Result E B) → Result E B
ok a >>= f = f a
err e >>= f = err e

abbrev pub ◌>>◌ {ℓ} : {E A B : Type ℓ} → Result E A → Result E B → Result E B
m >> k = m >>= λ _. k

-- `ok_or` of `Option`.
abbrev pub ok_or {ℓ} : {E A : Type ℓ} → Option A → E → Result E A
ok_or none e = err e
ok_or (some a) e = ok a

-- `unwrap_or` of `Result`.
abbrev pub unwrap_or {ℓ} : {E A : Type ℓ} → Result E A → A → A
unwrap_or (ok a) d = a
unwrap_or (err e) d = d

-- `ok` of `Result`: the error is dropped.
abbrev pub ok_option {ℓ} : {E A : Type ℓ} → Result E A → Option A
ok_option (ok a) = some a
ok_option (err e) = none

-- An early return with an error where a test fails.
abbrev pub require {ℓ} : {E : Type ℓ} → Bool → E → Result E (Unit {ℓ})
require true e = ok tt
require false e = err e

-- The steps of a chain that succeeds.
pub bind_ok {ℓ} :
    {E A B : Type ℓ} (m : Result E A) (f : A → Result E B) {b : B}
    → (m >>= f) ≡ ok b
    → (a : A) × (m ≡ ok a) × (f a ≡ ok b)
bind_ok (ok a) f p = (a, refl, p)
bind_ok (err e) f p = cc

pub ok_or_ok {ℓ} : {E A : Type ℓ} (o : Option A) (e : E) {a : A} → ok_or o e ≡ ok a → o ≡ some a
ok_or_ok none e p = cc
ok_or_ok (some x) e p = cc
