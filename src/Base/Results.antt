-- ===== src/Base/Results.antt =====
-- Fallible code: a value or an error of the caller's type.
use mathlib.Core.Path.{◌≡◌, refl}
use native.Mathlib.Omega.{arith}
use mathlib.Core.Bool.{Bool, true, false}
use mathlib.Core.Option.{Option, none, some}

pub data Result {ℓ κ} (E : Type ℓ) (A : Type κ) : Type (ℓ ⊔ κ) where
  ok : A → Result E A
  err : E → Result E A

infixl 5 ◌>>=◌ ◌>>◌
abbrev pub ◌>>=◌ {ℓ κ μ} :
    {E : Type ℓ} {A : Type κ} {B : Type μ} → Result E A → (A → Result E B) → Result E B
ok a >>= f = f a
err e >>= f = err e

abbrev pub ◌>>◌ {ℓ κ μ} :
    {E : Type ℓ} {A : Type κ} {B : Type μ} → Result E A → Result E B → Result E B
m >> k = m >>= λ _. k

-- `if not test: raise e`.
abbrev pub require {ℓ} : {E : Type ℓ} → Bool → E → Result E (Unit {0})
require true e = ok tt
require false e = err e

-- `if test: raise e`.
abbrev pub refuse {ℓ} : {E : Type ℓ} → Bool → E → Result E (Unit {0})
refuse true e = err e
refuse false e = ok tt

abbrev pub or_raise {ℓ κ} : {E : Type ℓ} {A : Type κ} → Option A → E → Result E A
or_raise none e = err e
or_raise (some a) e = ok a

abbrev pub is_ok {ℓ κ} : {E : Type ℓ} {A : Type κ} → Result E A → Bool
is_ok (ok _) = true
is_ok (err _) = false

-- A chain that has a value has one at each step.
pub split_ok {ℓ κ μ} :
    {E : Type ℓ} {A : Type κ} {B : Type μ} (r : Result E A) (f : A → Result E B) (b : B)
    → (r >>= f) ≡ ok b
    → (a : A) × (r ≡ ok a) × (f a ≡ ok b)
split_ok (ok a) f b h = (a, refl, h)
split_ok (err e) f b h = ground arith

pub split_refuse {ℓ κ} :
    {E : Type ℓ} {A : Type κ} (test : Bool) (e : E) (r : Result E A) (a : A)
    → (refuse test e >> r) ≡ ok a
    → (test ≡ false) × (r ≡ ok a)
split_refuse true e r a h = ground arith
split_refuse false e r a h = (refl, h)

pub split_require {ℓ κ} :
    {E : Type ℓ} {A : Type κ} (test : Bool) (e : E) (r : Result E A) (a : A)
    → (require test e >> r) ≡ ok a
    → (test ≡ true) × (r ≡ ok a)
split_require true e r a h = (refl, h)
split_require false e r a h = ground arith

pub split_raise {ℓ κ μ} :
    {E : Type ℓ} {A : Type κ} {B : Type μ} (o : Option A) (e : E) (f : A → Result E B) (b : B)
    → (or_raise o e >>= f) ≡ ok b
    → (a : A) × (o ≡ some a) × (f a ≡ ok b)
split_raise none e f b h = ground arith
split_raise (some a) e f b h = (a, refl, h)

pub ok_inj {ℓ κ} : {E : Type ℓ} {A : Type κ} (a b : A) → ◌≡◌ {A = Result E A} (ok a) (ok b) → a ≡ b
ok_inj a b h = ground arith
