-- ===== src/Base/Results.antt =====
-- Rust's `Result<A, E>`, with the `?` operator as the bind of a `do` block.
use mathlib.Core.Path.{◌≡◌, refl}
use mathlib.Core.Bool.{Bool, true, false}
use mathlib.Core.Option.{Option, none, some}

pub data Result {ℓ κ} (E : Type κ) (A : Type ℓ) : Type (ℓ ⊔ κ) where
  ok : A → Result E A
  err : E → Result E A

infixl 5 ◌>>=◌
abbrev pub ◌>>=◌ {ℓ κ} : {E : Type κ} {A B : Type ℓ} → Result E A → (A → Result E B) → Result E B
err why >>= next = err why
ok value >>= next = next value

-- `Result::map_err`
abbrev pub map_err {ℓ κ} : {E F : Type κ} {A : Type ℓ} → (E → F) → Result E A → Result F A
map_err f (ok a) = ok a
map_err f (err e) = err (f e)

-- `Option::ok_or`
abbrev pub ok_or {ℓ κ} : {E : Type κ} {A : Type ℓ} → E → Option A → Result E A
ok_or e none = err e
ok_or e (some a) = ok a

-- `Option::is_some`
abbrev pub is_some {ℓ} : {A : Type ℓ} → Option A → Bool
is_some none = false
is_some (some a) = true

-- `Option::or`
abbrev pub or_else {ℓ} : {A : Type ℓ} → Option A → Option A → Option A
or_else none b = b
or_else (some a) b = some a

-- `Option::and_then`
abbrev pub and_then {ℓ κ} : {A : Type ℓ} {B : Type κ} → Option A → (A → Option B) → Option B
and_then none f = none
and_then (some a) f = f a

-- Only a value goes on: what came before an `ok` result was one.
pub >>=-eq-ok {ℓ κ} :
    {E : Type κ} {A B : Type ℓ} (r : Result E A) (next : A → Result E B) {out : B}
    → r >>= next ≡ ok out
    → (value : A) × (r ≡ ok value) × (next value ≡ ok out)
>>=-eq-ok (err why) next done = cc
>>=-eq-ok (ok value) next done = (value, refl, done)

pub >>=-cong {ℓ κ} :
    {E : Type κ} {A B : Type ℓ} (r : Result E A) (f g : A → Result E B)
    → ((value : A) → f value ≡ g value)
    → r >>= f ≡ r >>= g
>>=-cong (err why) f g same = refl
>>=-cong (ok value) f g same = same value
