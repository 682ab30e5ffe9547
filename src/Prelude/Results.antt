-- ===== src/Prelude/Results.antt =====
-- Results with an error, and Go's three ways to come back: a value, an error, a panic.
use mathlib.Core.Path.{◌≡◌, refl, subst}
use mathlib.Core.Bool.{Bool, true, false}
use mathlib.Core.Option.{Option, none, some}
use v2b_x_patched_by_haman.Prelude.Tests.{if◌then◌else◌}

pub data Result {ℓ κ} (E : Type ℓ) (A : Type κ) : Type (ℓ ⊔ κ) where
  ok : A → Result E A
  err : E → Result E A

infixl 5 ◌>>=◌
abbrev pub ◌>>=◌ {ℓ κ μ} :
    {E : Type ℓ} {A : Type κ} {B : Type μ} → Result E A → (A → Result E B) → Result E B
err failure >>= k = err failure
ok x >>= k = k x

abbrev pub or_fail {ℓ κ} : {E : Type ℓ} {A : Type κ} → Option A → E → Result E A
or_fail none e = err e
or_fail (some a) e = ok a

-- What a successful chain went through.
pub >>=-eq-ok {ℓ κ μ} :
    {E : Type ℓ} {X : Type κ} {Y : Type μ} (first : Result E X) (k : X → Result E Y) {y : Y}
    → (first >>= k) ≡ ok y
    → (x : X) × (first ≡ ok x) × (k x ≡ ok y)
>>=-eq-ok (err failure) k chained = absurd (cc)
>>=-eq-ok (ok x) k chained = (x, refl, chained)

pub ok_inj {ℓ κ} : {E : Type ℓ} {A : Type κ} {a b : A} → ◌≡◌ {A = Result E A} (ok a) (ok b) → a ≡ b
ok_inj p = cc

-- The two ways through a test that end well.
pub if_ok {ℓ κ μ} :
    {E : Type ℓ} {A : Type κ} {P : Type μ} (b : Bool) (x y : Result E A) {a : A}
    → (if b then x else y) ≡ ok a
    → (b ≡ true → x ≡ ok a → P)
    → (b ≡ false → y ≡ ok a → P)
    → P
if_ok true x y e f g = f refl e
if_ok false x y e f g = g refl e

-- What holds of the value, if there is one.
pub data WhenOk {ℓ κ μ} {E : Type ℓ} {A : Type κ} (P : A → Type μ)
    : Result E A → Type (ℓ ⊔ κ ⊔ μ) where
  refused : (e : E) → WhenOk P (err e)
  made : (a : A) → P a → WhenOk P (ok a)

pub WhenOk-if {ℓ κ μ} :
    {E : Type ℓ} {A : Type κ} {P : A → Type μ} (b : Bool) (x y : Result E A)
    → (b ≡ true → WhenOk P x)
    → (b ≡ false → WhenOk P y)
    → WhenOk P (if b then x else y)
WhenOk-if true x y f g = f refl
WhenOk-if false x y f g = g refl

pub WhenOk-bind {ℓ κ μ ν} :
    {E : Type ℓ} {A : Type κ} {B : Type μ} {P : B → Type ν} (m : Result E A) (f : A → Result E B)
    → ((a : A) → m ≡ ok a → WhenOk P (f a))
    → WhenOk P (m >>= f)
WhenOk-bind (ok a) f h = h a refl
WhenOk-bind (err e) f h = refused e

pub WhenOk-eq {ℓ κ μ} :
    {E : Type ℓ} {A : Type κ} {P : A → Type μ} {r : Result E A} {a : A}
    → WhenOk P r
    → r ≡ ok a
    → P a
WhenOk-eq {P = P} (made a h) e = subst P (ok_inj e) h
WhenOk-eq (refused x) e = absurd (cc)
