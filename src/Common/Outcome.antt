-- ===== src/Common/Outcome.antt =====
-- `anyhow::Result`: a value, or the reason that the source gives. Each component has its own reasons.
use mathlib.Core.Path.{◌≡◌, refl}
use mathlib.Core.Bool.{Bool, true, false}
use mathlib.Core.Option.{Option, none, some}
use mathlib.Core.List.{List, [], ◌∷◌}

pub data Result {ℓ} (E : Type 0) (A : Type ℓ) : Type ℓ where
  ok : A → Result E A
  err : E → Result E A

abbrev pub Check : Type 0 → Type 0
Check E = Result E (Unit {0})

infixl 5 ◌>>=◌ ◌>>◌
abbrev pub ◌>>=◌ {ℓ κ} :
    {E : Type 0} {A : Type ℓ} {B : Type κ} → Result E A → (A → Result E B) → Result E B
ok a >>= f = f a
err e >>= f = err e

abbrev pub ◌>>◌ {ℓ} : {E : Type 0} {B : Type ℓ} → Check E → Result E B → Result E B
ok _ >> k = k
err e >> k = err e

-- `ensure!(test, reason)`
abbrev pub ensure : {E : Type 0} → Bool → E → Check E
ensure true e = ok tt
ensure false e = err e

-- `value.context(reason)?`
abbrev pub context {ℓ} : {E : Type 0} {A : Type ℓ} → Option A → E → Result E A
context (some a) e = ok a
context none e = err e

-- `if let Some(value) = option { check(value)?; }`
abbrev pub when_some {ℓ} : {E : Type 0} {A : Type ℓ} → Option A → (A → Check E) → Check E
when_some none f = ok tt
when_some (some a) f = f a

-- `for item in items { check(item)?; }`
abbrev pub for_each {ℓ} : {E : Type 0} {A : Type ℓ} → List A → (A → Check E) → Check E
for_each [] f = ok tt
for_each (x ∷ xs) f = f x >> for_each xs f

abbrev pub is_ok {ℓ} : {E : Type 0} {A : Type ℓ} → Result E A → Bool
is_ok (ok _) = true
is_ok (err _) = false

-- Inversions of checks that succeeded.
pub >>-eq-ok {ℓ} :
    {E : Type 0} {B : Type ℓ} (m : Check E) (k : Result E B) {b : B}
    → (m >> k) ≡ ok b
    → (m ≡ ok tt) × (k ≡ ok b)
>>-eq-ok (ok _) k h = (refl, h)
>>-eq-ok (err e) k h = cc

pub ensure-eq-ok : {E : Type 0} (b : Bool) (e : E) → ensure b e ≡ ok tt → b ≡ true
ensure-eq-ok true e h = refl
ensure-eq-ok false e h = cc

pub is_ok→ok : {E : Type 0} (r : Check E) → is_ok r ≡ true → r ≡ ok tt
is_ok→ok (ok _) h = refl
is_ok→ok (err e) h = cc

pub ok_injective {ℓ} :
    {E : Type 0} {A : Type ℓ} (a b : A) → ◌≡◌ {A = Result E A} (ok a) (ok b) → a ≡ b
ok_injective a b h = cc
