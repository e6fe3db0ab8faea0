-- ===== src/Health/Result.antt =====
-- Calls that can raise an exception, for PYTHON/IrisUtils/iris_health_monitor.py.
use houdini_lab.Common.{◌≡◌, refl, Option, none, some}

pub data Error : Type 0 where
  index_error value_error device_error unbound_local_error : Error

pub data Result {ℓ} (A : Type ℓ) : Type ℓ where
  ok : A → Result A
  raised : Error → Result A

infixl 5 ◌>>=◌ ◌>>◌
abbrev pub ◌>>=◌ {ℓ κ} : {A : Type ℓ} {B : Type κ} → Result A → (A → Result B) → Result B
ok a >>= f = f a
raised e >>= f = raised e

abbrev pub ◌>>◌ {ℓ κ} : {A : Type ℓ} {B : Type κ} → Result A → Result B → Result B
r >> k = r >>= λ _. k

abbrev pub or_raise {ℓ} : {A : Type ℓ} → Option A → Error → Result A
or_raise none e = raised e
or_raise (some a) e = ok a

-- A chain that ended went through both of its steps.
pub data Ends {A B : Type 0} (r : Result A) (f : A → Result B) (b : B) : Type 0 where
  through : (a : A) → r ≡ ok a → f a ≡ ok b → Ends r f b

pub bind-Ends :
    {A B : Type 0} (r : Result A) (f : A → Result B) {b : B} → (r >>= f) ≡ ok b → Ends r f b
bind-Ends (ok a) f h = through a refl h
bind-Ends (raised e) f h = cc

pub or_raise-ok {ℓ} :
    {A : Type ℓ} (o : Option A) (e : Error) {a : A} → or_raise o e ≡ ok a → o ≡ some a
or_raise-ok none e h = cc
or_raise-ok (some x) e h = cc
