-- ===== src/Base/Results.antt =====
-- What Go returns as a value and an error: the error, or the value where the error is nil.
use mathlib.Core.Path.{◌≡◌, refl}
use mathlib.Core.Bool.{Bool, true, false}
use mathlib.Core.Option.{Option, none, some}

pub data Result {ℓ κ} (E : Type ℓ) (A : Type κ) : Type (ℓ ⊔ κ) where
  ok : A → Result E A
  err : E → Result E A

infixl 5 ◌>>=◌
abbrev pub ◌>>=◌ {ℓ κ μ} :
    {E : Type ℓ} {A : Type κ} {B : Type μ} → Result E A → (A → Result E B) → Result E B
(err e) >>= next = err e
(ok a) >>= next = next a

-- A call that gives out a value or fails, by the error that the code makes of the failure.
abbrev pub or_fail {ℓ κ} : {E : Type ℓ} {A : Type κ} → E → Option A → Result E A
or_fail e none = err e
or_fail e (some a) = ok a

-- A call whose error the code turns into one of its own.
abbrev pub or_error {ℓ κ μ} :
    {E : Type ℓ} {A : Type κ} {E' : Type μ} → E' → Result E A → Result E' A
or_error e (ok a) = ok a
or_error e (err cause) = err e

-- `if test { return e }`
abbrev pub refuse_if {ℓ} : {E : Type ℓ} → Bool → E → Result E (Unit {0})
refuse_if true e = err e
refuse_if false e = ok tt

infixl 5 ◌>>◌
abbrev pub ◌>>◌ {ℓ κ} : {E : Type ℓ} {B : Type κ} → Result E (Unit {0}) → Result E B → Result E B
(err e) >> next = err e
(ok u) >> next = next

-- What a chain that succeeds went through.
pub bind_ok {ℓ κ μ} :
    {E : Type ℓ} {A : Type κ} {B : Type μ} (m : Result E A) (next : A → Result E B) (b : B)
    → (m >>= next) ≡ ok b
    → (a : A) × (m ≡ ok a) × (next a ≡ ok b)
bind_ok (ok a) next b h = (a, refl, h)
bind_ok (err e) next b h = cc

pub then_ok {ℓ κ} :
    {E : Type ℓ} {B : Type κ} (test : Bool) (e : E) (next : Result E B) (b : B)
    → (refuse_if test e >> next) ≡ ok b
    → (test ≡ false) × (next ≡ ok b)
then_ok true e next b h = cc
then_ok false e next b h = (refl, h)

pub or_fail_ok {ℓ κ} :
    {E : Type ℓ} {A : Type κ} (e : E) (o : Option A) (a : A) → or_fail e o ≡ ok a → o ≡ some a
or_fail_ok e none a h = cc
or_fail_ok e (some x) a h = cc

pub ok_same {ℓ κ} :
    {E : Type ℓ} {A : Type κ} {a b : A} (m : Result E A) → m ≡ ok a → m ≡ ok b → a ≡ b
ok_same m e h = cc
