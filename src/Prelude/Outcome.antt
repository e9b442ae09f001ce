-- ===== src/Prelude/Outcome.antt =====
-- An action's outcome. `check` of the contracts' runtime aborts the transaction with a message and
-- rolls every write back, so a failed action has its message and no state.
use Prim.Native.String.{String}
use mathlib.Core.Path.{◌≡◌, refl}
use mathlib.Core.Bool.{Bool, true, false}
use mathlib.Core.Logic.{◌⊎◌, inl, inr}
use mathlib.Core.Option.{Option, none, some}

pub data Result {ℓ} (A : Type ℓ) : Type ℓ where
  ok : A → Result A
  err : String → Result A

infixl 5 ◌>>=◌ ◌>>◌
abbrev pub ◌>>=◌ {ℓ κ} : {A : Type ℓ} {B : Type κ} → Result A → (A → Result B) → Result B
ok a >>= f = f a
err e >>= f = err e

abbrev pub ◌>>◌ {ℓ} : {B : Type ℓ} → Result (Unit {0}) → Result B → Result B
ok _ >> k = k
err e >> k = err e

abbrev pub check : Bool → String → Result (Unit {0})
check true e = ok tt
check false e = err e

-- `table.get( key, message )`
abbrev pub or_fail {ℓ} : {A : Type ℓ} → Option A → String → Result A
or_fail none e = err e
or_fail (some a) e = ok a

-- A guard that was passed.
pub check->> {ℓ} :
    {B : Type ℓ} (b : Bool) (e : String) (k : Result B) (r : B)
    → (check b e >> k) ≡ ok r
    → (b ≡ true) × (k ≡ ok r)
check->> true e k r h = (refl, h)
check->> false e k r h = cc

pub >>=-eq-ok {ℓ κ} :
    {A : Type ℓ} {B : Type κ} (m : Result A) (f : A → Result B) (r : B)
    → (m >>= f) ≡ ok r
    → (a : A) × (m ≡ ok a) × (f a ≡ ok r)
>>=-eq-ok (ok a) f r h = (a, refl, h)
>>=-eq-ok (err e) f r h = cc

pub or_fail-eq-ok {ℓ} :
    {A : Type ℓ} (o : Option A) (e : String) (a : A) → or_fail o e ≡ ok a → o ≡ some a
or_fail-eq-ok none e a h = cc
or_fail-eq-ok (some b) e a h = cc

-- A failed transaction leaves the state as it was.
abbrev pub after {ℓ} : {A : Type ℓ} → A → Result A → A
after s (ok t) = t
after s (err e) = s

pub Result-cases {ℓ} :
    {A : Type ℓ} (r : Result A) → ((a : A) × (r ≡ ok a)) ⊎ ((e : String) × (r ≡ err e))
Result-cases (ok a) = inl (a, refl)
Result-cases (err e) = inr (e, refl)
