-- ===== src/Common/Fallible.antt =====
-- A Go result `(value, error)` as a value or an error.
use mathlib.Core.Path.{◌≡◌, refl}
use mathlib.Core.Bool.{Bool, true, false}

pub data Result {ℓ κ} (E : Type ℓ) (A : Type κ) : Type (ℓ ⊔ κ) where
  ok : A → Result E A
  err : E → Result E A

-- a result that is only an error or none
abbrev pub Check {ℓ} : Type ℓ → Type ℓ
Check E = Result E (Unit {0})

-- `if bad { return e }`
abbrev pub reject {ℓ} : {E : Type ℓ} → Bool → E → Check E
reject true e = err e
reject false e = ok tt

pub reject-ok {ℓ} : {E : Type ℓ} (b : Bool) (e : E) {u : Unit {0}} → reject b e ≡ ok u → b ≡ false
reject-ok true e h = cc
reject-ok false e h = refl

-- an error on the way, wrapped by `fmt.Errorf`
abbrev pub wrap_err {ℓ κ ι} :
    {E : Type ℓ} {F : Type ι} {A : Type κ} → (E → F) → Result E A → Result F A
wrap_err f (ok a) = ok a
wrap_err f (err e) = err (f e)

-- `if err != nil { return err }` between two steps, and what a success says of both
infixl 5 ◌>>=◌
abbrev pub ◌>>=◌ {ℓ κ ι} :
    {E : Type ℓ} {A : Type κ} {B : Type ι} → Result E A → (A → Result E B) → Result E B
(err problem) >>= next = err problem
(ok value) >>= next = next value

pub >>=-eq-ok {ℓ κ ι} :
    {E : Type ℓ} {A : Type κ} {B : Type ι} (step : Result E A) (next : A → Result E B) {last : B}
    → (step >>= next) ≡ ok last
    → (value : A) × (step ≡ ok value) × (next value ≡ ok last)
>>=-eq-ok (err problem) next e = cc
>>=-eq-ok (ok value) next e = (value, refl, e)

pub ok-injective {ℓ κ} :
    {E : Type ℓ} {A : Type κ} {a b : A} → ◌≡◌ {A = Result E A} (ok a) (ok b) → a ≡ b
ok-injective e = cc

-- the same after a step that is only a check
infixl 5 ◌>>◌
abbrev pub ◌>>◌ {ℓ ι} : {E : Type ℓ} {B : Type ι} → Check E → Result E B → Result E B
check >> rest = check >>= λ _. rest

pub >>-eq-ok {ℓ ι} :
    {E : Type ℓ} {B : Type ι} (check : Check E) (rest : Result E B) {last : B}
    → (check >> rest) ≡ ok last
    → (check ≡ ok tt) × (rest ≡ ok last)
>>-eq-ok (err problem) rest e = cc
>>-eq-ok (ok passed) rest e = (refl, e)
