-- ===== src/Base/Outcome.antt =====
-- The outcome of C code that reads and writes memory and loops: a result, an access outside the
-- allocation, or a loop that did not end within the rounds given.
use mathlib.Core.Path.{◌≡◌, refl}

pub data Run {ℓ} (A : Type ℓ) : Type ℓ where
  ok : A → Run A
  fault : Run A
  out_of_fuel : Run A

infixl 5 ◌>>=◌
abbrev pub ◌>>=◌ {ℓ κ} : {A : Type ℓ} {B : Type κ} → Run A → (A → Run B) → Run B
ok a >>= f = f a
fault >>= f = fault
out_of_fuel >>= f = out_of_fuel

-- The code returns, and its result has a property.
abbrev pub Returns {ℓ} : {A : Type ℓ} → (A → Type 0) → Run A → Type 0
Returns P (ok a) = P a
Returns P fault = ⊥
Returns P out_of_fuel = ⊥

pub Returns-bind {ℓ κ} :
    {A : Type ℓ} {B : Type κ} (P : A → Type 0) (Q : B → Type 0) (m : Run A) (f : A → Run B)
    → Returns P m
    → ((a : A) → P a → Returns Q (f a))
    → Returns Q (m >>= f)
Returns-bind P Q (ok a) f p q = q a p
Returns-bind P Q fault f p q = absurd p
Returns-bind P Q out_of_fuel f p q = absurd p

pub Returns-mono {ℓ} :
    {A : Type ℓ} (P Q : A → Type 0) (m : Run A) → Returns P m → ((a : A) → P a → Q a) → Returns Q m
Returns-mono P Q (ok a) p q = q a p
Returns-mono P Q fault p q = absurd p
Returns-mono P Q out_of_fuel p q = absurd p

pub Returns-value {ℓ} :
    {A : Type ℓ} (P : A → Type 0) (m : Run A) → Returns P m → (a : A) × (m ≡ ok a) × P a
Returns-value P (ok a) p = (a, refl, p)
Returns-value P fault p = absurd p
Returns-value P out_of_fuel p = absurd p

-- The code returns with a property of its result, or it faults where something else holds; it always
-- ends.
abbrev pub ReturnsOr {ℓ} : {A : Type ℓ} → Type 0 → (A → Type 0) → Run A → Type 0
ReturnsOr Q P (ok a) = P a
ReturnsOr Q P fault = Q
ReturnsOr Q P out_of_fuel = ⊥

pub ReturnsOr-bind {ℓ κ} :
    {A : Type ℓ} {B : Type κ} (O : Type 0) (P : A → Type 0) (Q : B → Type 0) (m : Run A)
    (f : A → Run B)
    → ReturnsOr O P m
    → ((a : A) → P a → ReturnsOr O Q (f a))
    → ReturnsOr O Q (m >>= f)
ReturnsOr-bind O P Q (ok a) f p q = q a p
ReturnsOr-bind O P Q fault f p q = p
ReturnsOr-bind O P Q out_of_fuel f p q = absurd p

pub ReturnsOr-mono {ℓ} :
    {A : Type ℓ} (O O' : Type 0) (P Q : A → Type 0) (m : Run A)
    → ReturnsOr O P m
    → (O → O')
    → ((a : A) → P a → Q a)
    → ReturnsOr O' Q m
ReturnsOr-mono O O' P Q (ok a) p o q = q a p
ReturnsOr-mono O O' P Q fault p o q = o p
ReturnsOr-mono O O' P Q out_of_fuel p o q = absurd p

pub Returns-ReturnsOr {ℓ} :
    {A : Type ℓ} (O : Type 0) (P : A → Type 0) (m : Run A) → Returns P m → ReturnsOr O P m
Returns-ReturnsOr O P (ok a) p = p
Returns-ReturnsOr O P fault p = absurd p
Returns-ReturnsOr O P out_of_fuel p = absurd p
