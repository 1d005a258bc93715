-- ===== src/Base/Outcome.antt =====
-- A Python call returns a value or raises; which exception is kept.
use mathlib.Core.Path.{◌≡◌, refl, subst}
use mathlib.Core.Bool.{Bool, true, false}
use mathlib.Core.Option.{Option, none, some}
use bearpit.Base.Tests.{if◌then◌else◌}

pub data Exn : Type 0 where
  key_error type_error value_error attribute_error index_error assertion_error : Exn

pub data Py {ℓ} (A : Type ℓ) : Type ℓ where
  ok : A → Py A
  raised : Exn → Py A

-- The exception passes by what comes after the call.
infixl 5 ◌>>=◌
abbrev pub ◌>>=◌ {ℓ κ} : {A : Type ℓ} {B : Type κ} → Py A → (A → Py B) → Py B
raised x >>= rest = raised x
ok v >>= rest = rest v

abbrev pub or_raise {ℓ} : {A : Type ℓ} → Option A → Exn → Py A
or_raise none x = raised x
or_raise (some v) x = ok v

-- A chain that returned a value has done so at each of its calls.
pub >>=-eq-ok {ℓ κ} :
    {A : Type ℓ} {B : Type κ} (call : Py A) (rest : A → Py B) {w : B}
    → (call >>= rest) ≡ ok w
    → (v : A) × (call ≡ ok v) × (rest v ≡ ok w)
>>=-eq-ok (raised x) rest returned = cc
>>=-eq-ok (ok v) rest returned = (v, refl, returned)

-- What holds of the value, if the call returns one.
abbrev pub Holds {ℓ κ} : {A : Type ℓ} → (A → Type κ) → Py A → Type κ
Holds P (ok a) = P a
Holds P (raised e) = Unit

pub Holds-bind {ℓ κ μ} :
    {A : Type ℓ} {B : Type κ} (P : B → Type μ) (m : Py A) (f : A → Py B)
    → ((a : A) → m ≡ ok a → Holds P (f a))
    → Holds P (m >>= f)
Holds-bind P (ok a) f h = h a refl
Holds-bind P (raised e) f h = tt

pub Holds-ok {ℓ κ} : {A : Type ℓ} (P : A → Type κ) (m : Py A) (a : A) → Holds P m → m ≡ ok a → P a
Holds-ok P (ok b) a h e = subst P (cc) h
Holds-ok P (raised x) a h e = cc

pub Holds-if {ℓ κ} :
    {A : Type ℓ} (P : A → Type κ) (b : Bool) (x y : Py A)
    → (b ≡ true → Holds P x)
    → (b ≡ false → Holds P y)
    → Holds P (if b then x else y)
Holds-if P true x y hx hy = hx refl
Holds-if P false x y hx hy = hy refl

-- The call returns.
abbrev pub Returns {ℓ} : {A : Type ℓ} → Py A → Type 0
Returns (ok a) = Unit
Returns (raised e) = ⊥

pub Returns-bind {ℓ κ} :
    {A : Type ℓ} {B : Type κ} (m : Py A) (f : A → Py B)
    → Returns m
    → ((a : A) → m ≡ ok a → Returns (f a))
    → Returns (m >>= f)
Returns-bind (ok a) f r h = h a refl
Returns-bind (raised e) f r h = absurd r

pub Returns-if {ℓ} :
    {A : Type ℓ} (b : Bool) (x y : Py A) → Returns x → Returns y → Returns (if b then x else y)
Returns-if true x y hx hy = hx
Returns-if false x y hx hy = hy

pub Returns-eq {ℓ} : {A : Type ℓ} (m : Py A) (a : A) → m ≡ ok a → Returns m
Returns-eq (ok b) a e = tt
Returns-eq (raised x) a e = cc

pub value_of {ℓ} : {A : Type ℓ} (m : Py A) → Returns m → (a : A) × (m ≡ ok a)
value_of (ok a) r = (a, refl)
value_of (raised e) r = absurd r

-- The call returns, and the value has the property.
abbrev pub Total {ℓ} : {A : Type ℓ} → (A → Type 0) → Py A → Type 0
Total P (ok a) = P a
Total P (raised e) = ⊥

pub Total-bind {ℓ κ} :
    {A : Type ℓ} {B : Type κ} (P : A → Type 0) (Q : B → Type 0) (m : Py A) (f : A → Py B)
    → Total P m
    → ((a : A) → m ≡ ok a → P a → Total Q (f a))
    → Total Q (m >>= f)
Total-bind P Q (ok a) f h k = k a refl h
Total-bind P Q (raised e) f h k = absurd h

pub Total-if {ℓ} :
    {A : Type ℓ} (P : A → Type 0) (b : Bool) (x y : Py A)
    → (b ≡ true → Total P x)
    → (b ≡ false → Total P y)
    → Total P (if b then x else y)
Total-if P true x y hx hy = hx refl
Total-if P false x y hx hy = hy refl

pub Holds-Total {ℓ} : {A : Type ℓ} (P : A → Type 0) (m : Py A) → Total P m → Holds P m
Holds-Total P (ok a) h = h
Holds-Total P (raised e) h = tt
