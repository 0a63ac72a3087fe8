-- ===== src/Base/Outcome.antt =====
-- The result of a Rust function that may return `Err` or panic. `SerdeErr` is a unit struct, so
-- `err` carries nothing; `panic` is a panic (a failed `unwrap`, index, slice or overflow check).
use mathlib.Core.Path.{◌≡◌, refl}
use mathlib.Core.Bool.{Bool, true, false}
use naia.Base.Tests.{if◌then◌else◌}
use mathlib.Core.Logic.{◌⊎◌, inl, inr}

pub data Outcome {ℓ} (A : Type ℓ) : Type ℓ where
  ok : A → Outcome A
  err panic : Outcome A

infixl 5 ◌>>=◌
abbrev pub ◌>>=◌ {ℓ κ} : {A : Type ℓ} {B : Type κ} → Outcome A → (A → Outcome B) → Outcome B
ok a >>= f = f a
err >>= f = err
panic >>= f = panic

pub >>=-ok {ℓ} : {A : Type ℓ} (m : Outcome A) → (m >>= ok) ≡ m
>>=-ok (ok a) = refl
>>=-ok err = refl
>>=-ok panic = refl

pub >>=_assoc {ℓ κ μ} :
    {A : Type ℓ} {B : Type κ} {C : Type μ} (m : Outcome A) (f : A → Outcome B) (g : B → Outcome C)
    → ((m >>= f) >>= g) ≡ (m >>= λ a. f a >>= g)
>>=_assoc (ok a) f g = refl
>>=_assoc err f g = refl
>>=_assoc panic f g = refl

pub >>=_congr {ℓ κ} :
    {A : Type ℓ} {B : Type κ} (m : Outcome A) (f g : A → Outcome B)
    → ((a : A) → m ≡ ok a → f a ≡ g a)
    → (m >>= f) ≡ (m >>= g)
>>=_congr (ok a) f g h = h a refl
>>=_congr err f g h = refl
>>=_congr panic f g h = refl

-- Inversion of a successful bind.
pub >>=-eq-ok {ℓ κ} :
    {A : Type ℓ} {B : Type κ} {y : B} (m : Outcome A) (next : A → Outcome B)
    → (m >>= next) ≡ ok y
    → (x : A) × (m ≡ ok x) × (next x ≡ ok y)
>>=-eq-ok panic next e = cc
>>=-eq-ok err next e = cc
>>=-eq-ok (ok x) next e = (x, refl, e)

pub Outcome-cases {ℓ} :
    {A : Type ℓ} (m : Outcome A) → ((a : A) × (m ≡ ok a)) ⊎ (m ≡ err) ⊎ (m ≡ panic)
Outcome-cases (ok a) = inl (a, refl)
Outcome-cases err = inr (inl refl)
Outcome-cases panic = inr (inr refl)

-- A guard that panics has not struck if the result is a value.
pub guard-ok {ℓ} :
    {A : Type ℓ} (c : Bool) (m : Outcome A) {a : A}
    → (if c then panic else m) ≡ ok a
    → (c ≡ false) × (m ≡ ok a)
guard-ok true m h = cc
guard-ok false m h = (refl, h)

pub ok-injective {ℓ} : {A : Type ℓ} {a b : A} → ok a ≡ ok b → a ≡ b
ok-injective h = cc
