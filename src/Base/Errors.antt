-- ===== src/Base/Errors.antt =====
-- Functions that throw: a value or an error, and the `do` blocks over it.
use mathlib.Core.Path.{◌≡◌, refl}
use mathlib.Core.Bool.{Bool, true, false}

-- `err` is a throw: the calls of the program report their failures by exceptions.
pub data Result {ℓ} (E : Type 0) (A : Type ℓ) : Type ℓ where
  err : E → Result E A
  ok : A → Result E A

-- A statement, and the rest of the function body, which a throw skips.
infixl 5 ◌>>=◌ ◌>>◌
abbrev pub ◌>>=◌ {ℓ κ} :
    {E : Type 0} {A : Type ℓ} {B : Type κ} → Result E A → (A → Result E B) → Result E B
err thrown >>= body = err thrown
ok value >>= body = body value

abbrev pub ◌>>◌ {ℓ} : {E : Type 0} {B : Type ℓ} → Result E (Unit {0}) → Result E B → Result E B
statement >> body = statement >>= λ done. body

-- `if (!test) throw e;`
abbrev pub guard : {E : Type 0} → Bool → E → Result E (Unit {0})
guard false thrown = err thrown
guard true thrown = ok tt

-- What a call leaves behind: a call that throws has written nothing.
abbrev pub written {ℓ κ} : {E : Type 0} {S : Type ℓ} {A : Type κ} → S → Result E (S × A) → S
written s (ok (s', _)) = s'
written s (err _) = s

-- A property of what a chain of checks leaves behind, step by step.
pub written-bind {ℓ κ μ ν} :
    {E : Type 0} {S : Type ℓ} {A : Type κ} {X : Type μ} (P : S → Type ν) (s : S) (m : Result E X)
    (f : X → Result E (S × A))
    → P s
    → ((x : X) → m ≡ ok x → P (written s (f x)))
    → P (written s (m >>= f))
written-bind P s (ok x) f base step = step x refl
written-bind P s (err e) f base step = base

-- A body that returned has passed its first statement.
pub >>=-eq-ok {ℓ κ} :
    {E : Type 0} {A : Type ℓ} {B : Type κ} (first : Result E A) (body : A → Result E B) {b : B}
    → (first >>= body) ≡ ok b
    → (value : A) × (first ≡ ok value) × (body value ≡ ok b)
>>=-eq-ok (err thrown) body returned = cc
>>=-eq-ok (ok value) body returned = (value, refl, returned)
